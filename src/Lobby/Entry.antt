-- ===== src/Lobby/Entry.antt =====
-- lobby.js: entering a room.
use aetheldesk.Base.{
  String, true, false, Option, none, some, ◌∷◌, ◌≡◌, arith, str_eq, eq_refl, if◌then◌else◌, is_some,
}
use Prim.Native.String.{◌++◌}
use aetheldesk.Storage.{read_room_token, store_room_token}
use aetheldesk.Storage.Laws.{read-store_room_token}
use aetheldesk.Lobby.{
  connecting, refused, joins, Lobby, Text, set_pending, is_valid_pin, validate_pin, begin_join,
  end_entry, enter, finish_join,
}

module _ (text : Text) where
  -- With a well-formed code and a PIN of at least four characters, joining sends one request, further
  -- clicks before the answer send nothing, and the answer leads to the room with its token stored
  -- and nothing else changed there, or leaves the storage, the address and the code as they were with
  -- the refusal on display. Either way the PIN is gone, neither field is marked as invalid, and the
  -- controls are disabled and the lobby is busy until the answer and no longer.
  pub finish-begin_join_lobby :
      (l : Lobby) (answer : Option String)
      → l.pending ≡ false
      → text.is_code (text.upper (text.trim l.code)) ≡ true
      → str_eq (text.upper (text.trim l.code)) "" ≡ false
      → is_valid_pin text (text.trim l.pin) ≡ true
      → let room_id = text.upper (text.trim l.code) in
        let asked = begin_join text l in
        let after = finish_join text room_id answer asked in
        (asked.requests ≡ joins room_id (text.trim l.pin) ∷ l.requests)
        × (begin_join text asked ≡ asked)
        × (after.location
            ≡ (if is_some answer then some ("/room/" ++ text.upper room_id) else l.location))
        × (read_room_token room_id after.browser
            ≡ (if is_some answer then answer else read_room_token room_id l.browser))
        × (after.status ≡ (if is_some answer then connecting else refused))
        × (after.browser ≡ elim answer [
          | none ↦ l.browser
          | some token ↦ store_room_token room_id token l.browser
        ])
        × ((after.code ≡ l.code) × (after.code_open ≡ l.code_open))
        × ((after.pin_invalid ≡ false) × (after.code_invalid ≡ false))
        × (after.pin ≡ "")
        × ((asked.pending ≡ true) × (after.pending ≡ false))
        × ((asked.busy ≡ true) × (after.busy ≡ false))
        × ((asked.disabled ≡ true) × (after.disabled ≡ false))
  unfolding begin_join finish_join end_entry enter set_pending validate_pin
  finish-begin_join_lobby l none idle code filled valid = ground (idle, code, filled, valid, arith)
  finish-begin_join_lobby l (some token) idle code filled valid = ground (
    idle,
    code,
    filled,
    valid,
    arith,
    read-store_room_token (text.upper (text.trim l.code)) (text.upper (text.trim l.code)) token
        l.browser,
    eq_refl (text.upper (text.trim l.code)),
  )
