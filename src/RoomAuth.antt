-- ===== src/RoomAuth.antt =====
-- frontend/src/room-auth.js: the prompt for a room's PIN. `fetch` answers later: `begin_join` is the
-- code up to the request, `finish_join` the code from the answer on. `trim` is the text without its
-- outer white space.
pub mod Join
mod Tests
use aetheldesk.Base.{
  ℕ, ◌+◌, ◌≡◌, String, Bool, true, false, not, ◌||◌, Option, none, some, List, [], ◌∷◌, str_eq,
  if◌then◌else◌,
}
use aetheldesk.Storage.{Browser, store_room_token, clear_room_token}

pub data Message : Type 0 where
  no_message rejected : Message
  given : String → Message

pub record Prompt : Type 0 where
  pub browser : Browser
  pub pending : Bool
  pub hidden : Bool
  pub panel_open : Bool
  pub error : Message
  pub pin : String
  pub aria_invalid : Option Bool
  pub submit_disabled : Bool
  pub input_disabled : Bool
  pub aria_busy : Bool
  pub input_focused : Bool
  -- the PINs of the requests that were sent, newest first, and the calls of `onAuthenticated`
  pub requests : List String
  pub authenticated : ℕ

unfoldable pub show : String → Prompt → Prompt
show message p = record p {
  hidden = false;
  panel_open = true;
  error = if str_eq message "" then no_message else given message;
  pin = "";
  aria_invalid = some (not (str_eq message ""));
}

unfoldable pub hide : Prompt → Prompt
hide p = record p {
  hidden = true;
  panel_open = false;
  error = no_message;
  pin = "";
  aria_invalid = none;
}

unfoldable pub set_pending : Bool → Prompt → Prompt
set_pending next p = record p {
  pending = next;
  submit_disabled = next;
  input_disabled = next;
  aria_busy = next;
}

module _ (trim : String → String) (room_id : String) where
  unfoldable pub begin_join : Prompt → Prompt
  unfolding set_pending
  begin_join p =
      let pin : String = trim p.pin in
      if p.pending
      then p
      else if str_eq pin ""
      then record p { input_focused = true }
      else set_pending true
          (record p { error = no_message; aria_invalid = some false; requests = pin ∷ p.requests })

  -- `finally`
  unfoldable pub end_join : Prompt → Prompt
  unfolding set_pending
  end_join p =
      let free : Prompt = set_pending false p in
      record free { pin = ""; input_focused = not p.hidden || p.input_focused }

  -- `catch`
  unfoldable pub reject_join : Prompt → Prompt
  reject_join p = record p {
    browser = clear_room_token room_id p.browser;
    error = rejected;
    aria_invalid = some true;
  }

  -- The token of an answer that is `ok`; `none` for any other answer or none at all. `throws` is whether
  -- the call of `onAuthenticated` throws.
  unfoldable pub finish_join : Option String → Bool → Prompt → Prompt
  unfolding end_join hide reject_join
  finish_join (some token) throws p =
      let hidden : Prompt =
        hide (record p { browser = store_room_token room_id token p.browser }) in
      let entered : Prompt = record hidden { authenticated = p.authenticated + 1 } in
      end_join (if throws then reject_join entered else entered)
  finish_join none throws p = end_join (reject_join p)

  pub data Step (p : Prompt) : Prompt → Type 0 where
    shows : (message : String) → Step p (show message p)
    hides : Step p (hide p)
    types : (text : String) → Step p (record p { pin = text })
    joins : Step p (begin_join p)
    -- the answer to the request in flight
    answers :
        (answer : Option String) (throws : Bool)
        → p.pending ≡ true
        → Step p (finish_join answer throws p)

  pub data Reach (p : Prompt) : Prompt → Type 0 where
    here : Reach p p
    next : {a b : Prompt} → Reach p a → Step a b → Reach p b

abbrev pub initial : Browser → Prompt
initial b = record {
  browser = b;
  pending = false;
  hidden = true;
  panel_open = false;
  error = no_message;
  pin = "";
  aria_invalid = none;
  submit_disabled = false;
  input_disabled = false;
  aria_busy = false;
  input_focused = false;
  requests = [];
  authenticated = 0;
}
