-- ===== src/RoomAuth/Join.antt =====
-- room-auth.js: one request at a time, and what its answer leaves behind.
use aetheldesk.Base.{
  String, true, false, not, Option, none, some, ◌∷◌, ◌≡◌, refl, arith, str_eq, eq_refl,
  if◌then◌else◌,
}
use aetheldesk.Base.{Bool, ◌&&◌, ◌||◌, ◌+◌, is_some}
use aetheldesk.Storage.{Browser, read_room_token, store_room_token}
use aetheldesk.Storage.Laws.{read-store_room_token, read-clear_room_token}
use aetheldesk.RoomAuth.{
  no_message, rejected, reject_join, Prompt, show, hide, set_pending, begin_join, end_join,
  finish_join, Step, shows, hides, types, joins, answers, Reach, here, next, initial,
}

-- The controls are disabled exactly while a request is in flight, and the body is marked exactly while
-- the prompt is shown.
pub record IsGuarded (p : Prompt) : Type 0 where
  pub submit : p.submit_disabled ≡ p.pending
  pub input : p.input_disabled ≡ p.pending
  pub busy : p.aria_busy ≡ p.pending
  pub marked : p.panel_open ≡ not p.hidden

module _ (trim : String → String) (room_id : String) where
  Step-IsGuarded : {p q : Prompt} → Step trim room_id p q → IsGuarded p → IsGuarded q
  unfolding show hide begin_join finish_join reject_join end_join set_pending
  Step-IsGuarded (shows message) h = record {
    submit = h.submit;
    input = h.input;
    busy = h.busy;
    marked = refl;
  }
  Step-IsGuarded hides h = record {
    submit = h.submit;
    input = h.input;
    busy = h.busy;
    marked = refl;
  }
  Step-IsGuarded (types text) h = record {
    submit = h.submit;
    input = h.input;
    busy = h.busy;
    marked = h.marked;
  }
  Step-IsGuarded {p} joins h = record {
    submit = ground (h.submit, arith);
    input = ground (h.input, arith);
    busy = ground (h.busy, arith);
    marked = ground (h.marked, arith);
  }
  Step-IsGuarded {p} (answers (some token) throws f) h = record {
    submit = refl;
    input = refl;
    busy = refl;
    marked = ground arith;
  }
  Step-IsGuarded {p} (answers none throws f) h = record {
    submit = refl;
    input = refl;
    busy = refl;
    marked = h.marked;
  }

  Reach-Guarded : {p q : Prompt} → IsGuarded p → Reach trim room_id p q → IsGuarded q
  Reach-Guarded h here = h
  Reach-Guarded h (next r s) = Step-IsGuarded s (Reach-Guarded h r)

  -- After any history of the prompt, its two controls are disabled and it is marked as busy exactly
  -- while a request is in flight, and the body is marked exactly while the prompt is shown.
  pub Reach-IsGuarded : (b : Browser) {q : Prompt} → Reach trim room_id (initial b) q → IsGuarded q
  Reach-IsGuarded b r =
      Reach-Guarded (record { submit = refl; input = refl; busy = refl; marked = refl }) r

  -- A PIN that is not empty is sent once, further clicks before the answer send nothing, and the
  -- answer leaves the room's token in the storage, the prompt closed and the owner told once, or no
  -- token, the owner not told, and the prompt as it was shown, with the refusal on display and the input
  -- marked as invalid; where the owner is told and throws, the prompt is closed, without a token and
  -- with the refusal. The input and the button are disabled and the prompt is marked as busy until the
  -- answer and no longer, and the input is empty then.
  pub finish-begin_join :
      (p : Prompt) (answer : Option String) (throws : Bool)
      → p.pending ≡ false
      → str_eq (trim p.pin) "" ≡ false
      → let sent = begin_join trim room_id p in
        let entered = is_some answer && not throws in
        let after = finish_join trim room_id answer throws sent in
        (sent.requests ≡ trim p.pin ∷ p.requests)
        × (begin_join trim room_id sent ≡ sent)
        × (read_room_token room_id after.browser ≡ (if throws then none else answer))
        × (after.hidden ≡ is_some answer || p.hidden)
        × (after.aria_invalid ≡ (if entered then none else some true))
        × (after.error ≡ (if entered then no_message else rejected))
        × (after.authenticated ≡ (if is_some answer then p.authenticated + 1 else p.authenticated))
        × (after.pin ≡ "")
        × ((sent.pending ≡ true) × (after.pending ≡ false))
        × ((sent.input_disabled ≡ true) × (after.input_disabled ≡ false))
        × ((sent.submit_disabled ≡ true) × (after.submit_disabled ≡ false))
        × ((sent.aria_busy ≡ true) × (after.aria_busy ≡ false))
  unfolding begin_join finish_join reject_join end_join set_pending hide
  finish-begin_join p none throws idle filled =
      ground (idle, filled, arith, read-clear_room_token room_id room_id p.browser, eq_refl room_id)
  finish-begin_join p (some token) throws idle filled = ground (
    idle,
    filled,
    arith,
    read-store_room_token room_id room_id token p.browser,
    read-clear_room_token room_id room_id (store_room_token room_id token p.browser),
    eq_refl room_id,
  )
