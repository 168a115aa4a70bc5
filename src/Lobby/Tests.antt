-- ===== src/Lobby/Tests.antt =====
-- A visitor with the code AB12, for the property of lobby.js.
use aetheldesk.Base.{String, true, false, none, some, [], ◌∷◌, ◌≡◌, refl, if◌then◌else◌, is_some}
use Prim.Native.String.{◌++◌}
use aetheldesk.Storage.{read_room_token, store_room_token}
use aetheldesk.Lobby.{
  blank, connecting, refused, joins, Lobby, Text, is_valid_pin, begin_join, finish_join,
}
use aetheldesk.Lobby.Section.{closed, toggle, elapse}
use aetheldesk.Lobby.Entry.{finish-begin_join_lobby}

abbrev plain : Text
plain = record {
  trim = λ s. s;
  upper = λ s. s;
  length = λ s. 6;
  is_code = λ s. true;
  clean = λ s. s;
}

abbrev visitor : Lobby
visitor = record {
  browser = record { local = λ _. none; session = λ _. none };
  pending = false;
  busy = false;
  disabled = false;
  status = blank;
  pin = "123456";
  pin_invalid = false;
  code = "AB12";
  code_invalid = false;
  code_open = true;
  requests = [];
  location = none;
}

valid : is_valid_pin plain "123456" ≡ true
unfolding is_valid_pin
valid = refl

finish-begin_join_lobby_example :
    let asked = begin_join plain visitor in
    let after = finish_join plain "AB12" (some "secret") asked in
    (asked.requests ≡ joins "AB12" "123456" ∷ [])
    × (begin_join plain asked ≡ asked)
    × (after.location
        ≡ (if is_some {A = String} (some "secret") then some ("/room/" ++ "AB12") else none))
    × (read_room_token "AB12" after.browser ≡ (
        if is_some {A = String} (some "secret")
        then some "secret"
        else read_room_token "AB12" visitor.browser))
    × (after.status ≡ (if is_some {A = String} (some "secret") then connecting else refused))
    × (after.browser ≡ store_room_token "AB12" "secret" visitor.browser)
    × ((after.code ≡ "AB12") × (after.code_open ≡ true))
    × ((after.pin_invalid ≡ false) × (after.code_invalid ≡ false))
    × (after.pin ≡ "")
    × ((asked.pending ≡ true) × (after.pending ≡ false))
    × ((asked.busy ≡ true) × (after.busy ≡ false))
    × ((asked.disabled ≡ true) × (after.disabled ≡ false))
finish-begin_join_lobby_example =
    finish-begin_join_lobby plain visitor (some "secret") refl refl refl valid

-- A timer outlives the section that it was set for: two clicks in a row put the focus into a section that is
-- hidden again.
focus_in_hidden :
    let s = elapse 480 (toggle 200 (toggle 100 closed)) in
    (s.aria_hidden ≡ true) × (s.input_focused ≡ true)
unfolding elapse toggle
focus_in_hidden = (refl, refl)
