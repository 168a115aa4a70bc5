-- ===== src/DisplaySettings.antt =====
-- frontend/src/display-settings.js: the switches of the panel "화면", and what frontend/scenes.js does
-- with them and with the quality. The engine is there or not; JSON.parse and JSON.stringify are
-- arguments.
pub mod Switches
mod Tests
use aetheldesk.Base.{
  ℕ, String, Bool, true, false, not, Option, none, some, List, [], ◌∷◌, ◌==◌, str_eq, if◌then◌else◌,
  get_or, ◌&&◌,
}
use aetheldesk.Js.{Number, finite, Value, undefined, null, boolean, number}
use aetheldesk.Storage.{
  Browser, Json, read_display_fx, store_display_fx, read_display_quality, store_display_quality,
}
use aetheldesk.Engine.Tiers.{Tier}
use aetheldesk.Engine.Quality.{Quality, set_quality, set_fx, field_or}

-- toOnOff
unfoldable pub to_on_off : Value → Bool → Bool
to_on_off (boolean false) fallback = false
to_on_off (number (finite negative whole exact)) fallback = not (whole == 0 && exact)
to_on_off undefined fallback = fallback
to_on_off null fallback = fallback
to_on_off _ fallback = true

pub data Key : Type 0 where
  bloom shafts grain shadows mica : Key

unfoldable pub key_name : Key → String
key_name bloom = "bloom"
key_name shafts = "shafts"
key_name grain = "grain"
key_name shadows = "shadows"
key_name mica = "mica"

abbrev pub Switches : Type 0
Switches = Key → Bool

-- `{ ...state }`
unfoldable pub fields_of : Switches → List (String × Value)
unfolding key_name
fields_of state =
    (key_name bloom, boolean (state bloom))
    ∷ (key_name shafts, boolean (state shafts))
    ∷ (key_name grain, boolean (state grain))
    ∷ (key_name shadows, boolean (state shadows))
    ∷ (key_name mica, boolean (state mica))
    ∷ []

-- The initial state of the panel, from the stored choices and from what the tier prefers.
unfoldable pub initial_switches : List (String × Value) → List (String × Value) → Switches
unfolding to_on_off key_name field_or
initial_switches stored effective key =
    to_on_off (field_or (key_name key) stored undefined)
      (to_on_off (field_or (key_name key) effective undefined) true)

unfoldable pub same_key : Key → Key → Bool
same_key bloom bloom = true
same_key shafts shafts = true
same_key grain grain = true
same_key shadows shadows = true
same_key mica mica = true
same_key _ _ = false

-- The client's part that the panel works on: the storage, the engine's quality where there is an
-- engine, and the flag of the scene manager where there is one.
pub record Display : Type 0 where
  pub browser : Browser
  pub quality : Option Quality
  pub mica_enabled : Option Bool

abbrev pub told_mica : Value → Option Bool → Option Bool
told_mica (boolean b) (some old) = some b
told_mica _ old = old

module _ (parse : String → Option Json) (stringify : List (String × Value) → String) where
  abbrev engine_fx : List (String × Value) → Option Quality → Option Quality
  engine_fx fx none = none
  engine_fx fx (some q) = some (set_fx fx q)

  -- scenes.js: setFXOptions and applyFX
  unfoldable pub set_fx_options : List (String × Value) → Display → Display
  unfolding field_or
  set_fx_options fx d = record {
    browser = store_display_fx parse stringify fx d.browser;
    quality = engine_fx fx d.quality;
    mica_enabled = told_mica (field_or "mica" fx undefined) d.mica_enabled;
  }

  unfoldable pub get_fx_options : Display → List (String × Value)
  get_fx_options d = get_or (read_display_fx parse stringify d.browser).0 []

  -- A click on a switch: `state[key] = !state[key]` and pushFX.
  unfoldable pub click_switch : Key → Switches × Display → Switches × Display
  unfolding set_fx_options fields_of same_key
  click_switch key (state, d) =
      let state' : Switches = λ k. if same_key k key then not (state k) else state k in
      (state', set_fx_options (fields_of state') d)

  -- setQuality and getQuality of scenes.js: the mode and the tier
  abbrev engine_quality : String → Option Quality → Option Quality
  engine_quality name none = none
  engine_quality name (some q) = some (set_quality name q)

  unfoldable pub choose_quality : String → Display → Display
  choose_quality name d = record d {
    browser = store_display_quality name d.browser;
    quality = engine_quality name d.quality;
  }
