-- ===== src/RoomAuth/Tests.antt =====
-- A PIN for the room AB12, for the properties of room-auth.js.
use aetheldesk.Base.{
  ◌≡◌, refl, String, not, ◌&&◌, ◌+◌, true, false, ◌||◌, is_some, none, some, [], ◌∷◌, if◌then◌else◌,
}
use aetheldesk.Storage.{Browser, read_room_token}
use aetheldesk.RoomAuth.{no_message, rejected, Prompt, begin_join, finish_join, initial}
use aetheldesk.RoomAuth.Join.{finish-begin_join}

abbrev outside : Browser
outside = record { local = λ _. none; session = λ _. none }

abbrev same : String → String
same text = text

abbrev filled : Prompt
filled = record (initial outside) { pin = "1234"; hidden = false; panel_open = true }

finish-begin_join_example :
    let sent = begin_join same "AB12" filled in
    let entered = is_some {A = String} (some "secret") && not false in
    let after = finish_join same "AB12" (some "secret") false sent in
    (sent.requests ≡ "1234" ∷ [])
    × (begin_join same "AB12" sent ≡ sent)
    × (read_room_token "AB12" after.browser ≡ (if false then none else some "secret"))
    × (after.hidden ≡ is_some {A = String} (some "secret") || false)
    × (after.aria_invalid ≡ (if entered then none else some true))
    × (after.error ≡ (if entered then no_message else rejected))
    × (after.authenticated ≡ (if is_some {A = String} (some "secret") then 0 + 1 else 0))
    × (after.pin ≡ "")
    × ((sent.pending ≡ true) × (after.pending ≡ false))
    × ((sent.input_disabled ≡ true) × (after.input_disabled ≡ false))
    × ((sent.submit_disabled ≡ true) × (after.submit_disabled ≡ false))
    × ((sent.aria_busy ≡ true) × (after.aria_busy ≡ false))
finish-begin_join_example = finish-begin_join same "AB12" filled (some "secret") false refl refl
