-- ===== src/Storage.antt =====
-- frontend/src/storage.js: the preferences and tokens that the browser keeps between visits.
-- A Web Storage area is a map from keys to texts; `null` is `none`. `Browser` is the pair of
-- localStorage and sessionStorage. JSON.parse is an argument of the code that calls it.
pub mod Laws
use Prim.Native.String.{◌++◌}
use aetheldesk.Base.{
  String, Bool, true, false, ◌||◌, Option, none, some, List, ◌∷◌, [], str_eq, if◌then◌else◌,
}
use aetheldesk.Js.{Value}

abbrev pub Area : Type 0
Area = String → Option String

-- setItem, removeItem; getItem is the application of the area.
abbrev pub set_item : Area → String → String → Area
set_item a k v j = if str_eq k j then some v else a j

abbrev pub remove_item : Area → String → Area
remove_item a k j = if str_eq k j then none else a j

pub record Browser : Type 0 where
  pub local : Area
  pub session : Area

abbrev pub scene_storage_key : String
scene_storage_key = "scene"

abbrev pub next_intent_storage_key : String
next_intent_storage_key = "next-intent"

abbrev pub display_quality_storage_key : String
display_quality_storage_key = "display-quality"

abbrev pub display_fx_storage_key : String
display_fx_storage_key = "display-fx"

-- NEXT_INTENT_VALUES.has
unfoldable pub is_next_intent : String → Bool
is_next_intent v = str_eq v "continue" || str_eq v "next" || str_eq v "finish"

-- text || fallback: an empty text counts as missing.
abbrev pub text_or : Option String → String → String
text_or none d = d
text_or (some s) d = if str_eq s "" then d else s

unfoldable pub migrate_legacy_playlist_storage : Browser → Browser
migrate_legacy_playlist_storage b = record b { local = remove_item b.local "playlist" }

unfoldable pub token_storage_key : String → String
token_storage_key room_id = "room_token:" ++ room_id

unfoldable pub read_room_token : String → Browser → Option String
read_room_token room_id b = b.session (token_storage_key room_id)

unfoldable pub store_room_token : String → String → Browser → Browser
store_room_token room_id token b = record b {
  session = set_item b.session (token_storage_key room_id) token;
}

unfoldable pub clear_room_token : String → Browser → Browser
clear_room_token room_id b = record b {
  session = remove_item b.session (token_storage_key room_id);
}

unfoldable pub read_scene : String → Browser → String
read_scene default_scene b = text_or (b.local scene_storage_key) default_scene

unfoldable pub store_scene : String → Browser → Browser
store_scene name b = record b { local = set_item b.local scene_storage_key name }

-- A value that is not one of the choices is removed on the way.
unfoldable pub read_next_intent : Browser → Option String × Browser
unfolding is_next_intent
read_next_intent b = elim (b.local next_intent_storage_key) [
  | none ↦ (none, b)
  | some value ↦
      if is_next_intent value
      then (some value, b)
      else (none, record b { local = remove_item b.local next_intent_storage_key })
]

-- `null` is not a choice either, so it clears the entry.
unfoldable pub store_next_intent : Option String → Browser → Option String × Browser
unfolding is_next_intent
store_next_intent none b = (none, record b { local = remove_item b.local next_intent_storage_key })
store_next_intent (some value) b =
    if is_next_intent value
    then (some value, record b { local = set_item b.local next_intent_storage_key value })
    else (none, record b { local = remove_item b.local next_intent_storage_key })

unfoldable pub read_display_quality : Browser → String
read_display_quality b = text_or (b.local display_quality_storage_key) "auto"

unfoldable pub store_display_quality : String → Browser → Browser
store_display_quality name b = record b {
  local = set_item b.local display_quality_storage_key name;
}

-- What JSON.parse returns, as far as the code tells results apart: an object with its fields, or
-- a value that is no object (null, a number, a text, a flag). A syntax error is `none`.
pub data Json : Type 0 where
  fields : List (String × Value) → Json
  no_object : Json

module _ (parse : String → Option Json) (stringify : List (String × Value) → String) where
  unfoldable pub read_display_fx : Browser → Option (List (String × Value)) × Browser
  read_display_fx b = elim (parse (text_or (b.local display_fx_storage_key) "null")) [
    | none ↦ (none, record b { local = remove_item b.local display_fx_storage_key })
    | some (fields fx) ↦ (some fx, b)
    | some no_object ↦ (none, b)
  ]

  unfoldable pub store_display_fx : List (String × Value) → Browser → Browser
  store_display_fx fx b = record b {
    local = set_item b.local display_fx_storage_key (stringify fx);
  }
