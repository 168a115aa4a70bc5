-- ===== src/Room/Revisions.antt =====
-- Which snapshots of a connection reach the page.
use aetheldesk.Base.{
  ℕ, ◌≤◌, ◌≡◌, false, Option, none, some, List, [], ◌∷◌, arith, ap, sym, ◌∙◌, All, max,
}
use aetheldesk.Js.{natural?}
use aetheldesk.RestRitual.Panel.{Page}
use aetheldesk.Room.{State, Room, apply_state, apply_all}

-- The greatest revision so far, when one more arrives.
abbrev pub raise : ℕ → Option ℕ → ℕ
raise n none = n
raise n (some m) = max n m

abbrev pub latest : ℕ → List State → ℕ
latest n [] = n
latest n (s ∷ ss) = latest (raise n (natural? s.revision)) ss

-- What the page shows is the snapshot with the accepted revision.
abbrev pub Shows : ℕ → Option State → Type 0
Shows n none = ⊥
Shows n (some s) = natural? s.revision ≡ some n

step_current :
    (page : Page) (s : State) (r : Room) (n : ℕ)
    → r.accepted_revision ≡ some n
    → Shows n r.current_state
    → let r' = apply_state page s false r in
      (r'.accepted_revision ≡ some (raise n (natural? s.revision)))
      × Shows (raise n (natural? s.revision)) r'.current_state
unfolding apply_state
step_current page s r n a c = ground arith

apply_all_current :
    (page : Page) (ss : List State) (r : Room) (n : ℕ)
    → r.accepted_revision ≡ some n
    → Shows n r.current_state
    → let r' = apply_all page ss r in
      (r'.accepted_revision ≡ some (latest n ss)) × Shows (latest n ss) r'.current_state
unfolding apply_all
apply_all_current page [] r n a c = (a, c)
apply_all_current page (s ∷ ss) r n a c =
    let step = step_current page s r n a c in
    apply_all_current page ss (apply_state page s false r) (raise n (natural? s.revision)) step.0
      step.1

latest_bound : (n : ℕ) (ss : List State) → n ≤ latest n ss
latest_bound n [] = omega arith
latest_bound n (s ∷ ss) = ground (arith, latest_bound (raise n (natural? s.revision)) ss)

abbrev pub AtMost : ℕ → Option ℕ → Type 0
AtMost n none = Unit
AtMost n (some m) = m ≤ n

latest_newest : (n : ℕ) (ss : List State) → All (λ s. AtMost (latest n ss) (natural? s.revision)) ss
latest_newest n [] = tt
latest_newest n (s ∷ ss) = (
  ground (arith, latest_bound (raise n (natural? s.revision)) ss),
  latest_newest (raise n (natural? s.revision)) ss,
)

-- While the page shows the snapshot of the accepted revision, any further snapshots of the connection
-- leave it so, with the greatest revision that has arrived: none of them is newer than what it Shows.
pub apply_all_newest :
    (page : Page) (ss : List State) (r : Room) (n : ℕ)
    → r.accepted_revision ≡ some n
    → Shows n r.current_state
    → let r' = apply_all page ss r in
      (r'.accepted_revision ≡ some (latest n ss))
      × Shows (latest n ss) r'.current_state
      × All (λ s. AtMost (latest n ss) (natural? s.revision)) ss
apply_all_newest page ss r n a c =
    let v = apply_all_current page ss r n a c in (v.0, v.1, latest_newest n ss)

-- Two snapshots of the connection that arrive in the other order lead to the same accepted revision,
-- after whatever follows them.
pub apply_all_swap :
    (page : Page) (s t : State) (ss : List State) (r : Room) (n : ℕ)
    → r.accepted_revision ≡ some n
    → Shows n r.current_state
    → (apply_all page (s ∷ t ∷ ss) r).accepted_revision
      ≡ (apply_all page (t ∷ s ∷ ss) r).accepted_revision
apply_all_swap page s t ss r n a c =
    (apply_all_current page (s ∷ t ∷ ss) r n a c).0
    ∙ ap (λ k. some (latest k ss)) (ground arith)
    ∙ sym (apply_all_current page (t ∷ s ∷ ss) r n a c).0
