-- ===== src/DisplaySettings/Tests.antt =====
-- A panel with mica off, for the property of display-settings.js.
use aetheldesk.Base.{
  String, true, false, not, ◌≡◌, refl, Option, none, some, List, [], ◌∷◌, if◌then◌else◌,
}
use aetheldesk.Js.{Value, boolean}
use aetheldesk.Base.{is_some}
use aetheldesk.Storage.{Json, fields}
use aetheldesk.DisplaySettings.{
  bloom, mica, Switches, initial_switches, same_key, Display, fields_of, key_name, get_fx_options,
  click_switch,
}
use aetheldesk.DisplaySettings.Switches.{ReadsBack, clicked, initial-click_switch}

abbrev plain : Switches
plain key = true

-- What a click on mica writes.
abbrev without_mica : List (String × Value)
without_mica =
    ("bloom", boolean true)
    ∷ ("shafts", boolean true)
    ∷ ("grain", boolean true)
    ∷ ("shadows", boolean true)
    ∷ ("mica", boolean false)
    ∷ []

abbrev parse : String → Option Json
parse text = some (fields without_mica)

abbrev stringify : List (String × Value) → String
stringify fx = "{\"mica\":false}"

abbrev display : Display
display = record {
  browser = record { local = λ _. none; session = λ _. none };
  quality = none;
  mica_enabled = some true;
}

reads_back : ReadsBack parse stringify (fields_of (clicked mica plain))
unfolding fields_of key_name same_key
reads_back = record { inverse = refl; written = refl }

initial-click_switch_example :
    let after = click_switch parse stringify mica (plain, display) in
    (initial_switches (get_fx_options parse stringify after.1) [] bloom ≡ after.0 bloom)
    × (after.0 bloom ≡ (if same_key bloom mica then not (plain bloom) else plain bloom))
    × (after.1.mica_enabled ≡ (if is_some display.mica_enabled then some (after.0 mica) else none))
initial-click_switch_example =
    initial-click_switch parse stringify mica bloom plain display [] reads_back
