-- ===== src/Lobby.antt =====
-- frontend/lobby.js: creating and joining a room. `fetch` answers later: a `begin` function is the code
-- up to the request, a `finish` function the code from the answer on. The functions of JavaScript's
-- texts (`trim`, `toUpperCase`, `length`), the pattern of a room code and the cleaning of a code while
-- it is typed are arguments. The sky behind the lobby is left out.
pub mod Entry
pub mod Section
mod Tests
use Prim.Native.String.{◌++◌}
use aetheldesk.Base.{
  ℕ, ◌≡◌, String, Bool, true, false, not, Option, none, some, List, [], ◌∷◌, str_eq, leb,
  if◌then◌else◌,
}
use aetheldesk.Storage.{Browser, store_room_token, text_or}

pub data Status : Type 0 where
  blank preparing connecting refused short_pin no_code : Status

-- The two requests of the lobby.
pub data Request : Type 0 where
  creates joins : String → String → Request

pub record Lobby : Type 0 where
  pub browser : Browser
  pub pending : Bool
  pub busy : Bool
  pub disabled : Bool
  pub status : Status
  pub pin : String
  pub pin_invalid : Bool
  pub code : String
  pub code_invalid : Bool
  pub code_open : Bool
  pub requests : List Request
  pub location : Option String

-- setPending; the message is written only when it is set.
unfoldable pub set_pending : Bool → Status → Lobby → Lobby
set_pending next message l = record l {
  pending = next;
  busy = next;
  disabled = next;
  status = if next then message else l.status;
}

pub record Text : Type 0 where
  pub trim : String → String
  pub upper : String → String
  pub length : String → ℕ
  pub is_code : String → Bool
  pub clean : String → String

module _ (text : Text) where
  unfoldable pub is_valid_pin : String → Bool
  is_valid_pin pin = leb 4 (text.length pin)

  unfoldable pub validate_pin : String → Lobby → Bool × Lobby
  unfolding is_valid_pin
  validate_pin pin l =
      let marked : Lobby = record l { pin_invalid = not (is_valid_pin pin) } in
      (is_valid_pin pin, if is_valid_pin pin then marked else record marked { status = short_pin })

  abbrev pub sent : Status → Request → Lobby → Lobby
  sent message request l =
      set_pending true message (record l { status = blank; requests = request ∷ l.requests })

  abbrev pub if_valid : Status → Request → Bool × Lobby → Lobby
  if_valid message request (valid, l) = if valid then sent message request l else l

  -- `room_id` is the random code.
  unfoldable pub begin_create : String → Lobby → Lobby
  unfolding set_pending validate_pin
  begin_create room_id l =
      let pin : String = text.trim l.pin in
      let checked : Lobby = if_valid preparing (creates room_id pin) (validate_pin pin l) in
      if l.pending then l else checked

  unfoldable pub begin_join : Lobby → Lobby
  unfolding set_pending validate_pin
  begin_join l =
      let room_id : String = text.upper (text.trim l.code) in
      let pin : String = text.trim l.pin in
      let valid : Lobby = record l { code_invalid = false } in
      let checked : Lobby = if_valid connecting (joins room_id pin) (validate_pin pin valid) in
      if l.pending
      then l
      else if text.is_code room_id
      then checked
      else record l { status = no_code; code_invalid = true }

  -- `finally`, after what the answer did
  unfoldable pub end_entry : Lobby → Lobby
  unfolding set_pending
  end_entry l = record (set_pending false blank l) { pin = "" }

  -- sessionStorage.setItem(tokenStorageKey(…)) and go(…)
  unfoldable pub enter : String → String → Lobby → Lobby
  enter room_id token l = record l {
    browser = store_room_token room_id token l.browser;
    location = if str_eq room_id "" then l.location else some ("/room/" ++ text.upper room_id);
  }

  -- The answer of an `ok` response: `data.room_id`, where there is one, and `data.token`.
  unfoldable pub finish_create : String → Option (Option String × String) → Lobby → Lobby
  unfolding end_entry enter
  finish_create room_id none l = end_entry (record l { status = refused })
  finish_create room_id (some (answered, token)) l =
      end_entry (enter (text.upper (text_or answered room_id)) token l)

  unfoldable pub finish_join : String → Option String → Lobby → Lobby
  unfolding end_entry enter
  finish_join room_id none l = end_entry (record l { status = refused })
  finish_join room_id (some token) l = end_entry (enter room_id token l)

  unfoldable pub input_code : String → Lobby → Lobby
  input_code typed l = record l { code = text.clean typed; code_invalid = false }

  -- Enter in the PIN field.
  unfoldable pub enter_pin : String → Lobby → Lobby
  unfolding begin_create begin_join
  enter_pin room_id l = if l.code_open then begin_join l else begin_create room_id l

unfoldable pub toggle_code : Lobby → Lobby
toggle_code l = record l { code_open = not l.code_open }

unfoldable pub input_pin : String → Lobby → Lobby
input_pin typed l = record l { pin = typed; pin_invalid = false }
