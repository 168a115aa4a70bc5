-- ===== src/DisplaySettings/Switches.antt =====
-- display-settings.js: lemmas on the stored switches and the panel that shows them.
use aetheldesk.Base.{
  String, false, not, Option, some, List, [], ◌≡◌, refl, ap, ◌∙◌, arith, str_eq, eq_refl,
  if◌then◌else◌, get_or,
}
use aetheldesk.Js.{Value}
use aetheldesk.Storage.{
  Browser, Json, fields, read_display_fx, store_display_fx, display_fx_storage_key, text_or,
}
use aetheldesk.Engine.Quality.{field_or}
use aetheldesk.Base.{is_some, Bool, none, some}
use aetheldesk.Js.{boolean}
use aetheldesk.DisplaySettings.{
  told_mica, to_on_off, Key, bloom, shafts, grain, shadows, mica, key_name, Switches, fields_of,
  initial_switches, same_key, Display, set_fx_options, get_fx_options, click_switch,
}

initial-fields_of :
    (state : Switches) (effective : List (String × Value)) (key : Key)
    → initial_switches (fields_of state) effective key ≡ state key
unfolding initial_switches fields_of key_name field_or to_on_off
initial-fields_of state effective bloom = ground arith
initial-fields_of state effective shafts = ground arith
initial-fields_of state effective grain = ground arith
initial-fields_of state effective shadows = ground arith
initial-fields_of state effective mica = ground arith

-- JSON.parse reads back what JSON.stringify wrote for the object `fx`, which is not the empty text.
pub record ReadsBack (parse : String → Option Json) (stringify : List (String × Value) → String)
    (fx : List (String × Value)) : Type 0 where
  pub inverse : parse (stringify fx) ≡ some (fields fx)
  pub written : str_eq (stringify fx) "" ≡ false

abbrev pub clicked : Key → Switches → Switches
clicked key state k = if same_key k key then not (state k) else state k

mica_told :
    (b : Bool) (old : Option Bool)
    → told_mica (boolean b) old ≡ (if is_some old then some b else none)
mica_told b none = refl
mica_told b (some old) = refl

module _ (parse : String → Option Json) (stringify : List (String × Value) → String) where
  read-parsed :
      (b : Browser) (fx : List (String × Value))
      → parse (text_or (b.local display_fx_storage_key) "null") ≡ some (fields fx)
      → (read_display_fx parse stringify b).0 ≡ some fx
  unfolding read_display_fx
  read-parsed b fx h = rw (h, read_display_fx) refl

  stored_text :
      (b : Browser) (fx : List (String × Value))
      → ReadsBack parse stringify fx
      → text_or ((store_display_fx parse stringify fx b).local display_fx_storage_key) "null"
        ≡ stringify fx
  unfolding store_display_fx
  stored_text b fx json = ground (arith, eq_refl display_fx_storage_key, json.written)

  get-set_fx_options :
      (fx : List (String × Value)) (d : Display)
      → ReadsBack parse stringify fx
      → get_fx_options parse stringify (set_fx_options parse stringify fx d) ≡ fx
  unfolding get_fx_options set_fx_options
  get-set_fx_options fx d json =
      ap (λ o. get_or o [])
        (read-parsed (store_display_fx parse stringify fx d.browser) fx
          (ap parse (stored_text d.browser fx json) ∙ json.inverse))

  -- After a click on a switch, the panel of a later visit starts with the switches as they are now,
  -- whatever the tier prefers then; only the clicked one has changed; and a scene manager has been
  -- told the flag for mica. JSON.parse is to read back what JSON.stringify wrote for the
  -- switches.
  pub initial-click_switch :
      (key other : Key) (state : Switches) (d : Display) (effective : List (String × Value))
      → ReadsBack parse stringify (fields_of (clicked key state))
      → let after = click_switch parse stringify key (state, d) in
        (initial_switches (get_fx_options parse stringify after.1) effective other ≡ after.0 other)
        × (after.0 other ≡ (if same_key other key then not (state other) else state other))
        × (after.1.mica_enabled ≡ (if is_some d.mica_enabled then some (after.0 mica) else none))
  unfolding click_switch set_fx_options fields_of key_name field_or
  initial-click_switch key other state d effective json = (
    ap (λ fx. initial_switches fx effective other)
          (get-set_fx_options (fields_of (clicked key state)) d json)
        ∙ initial-fields_of (clicked key state) effective other,
    refl,
    mica_told (clicked key state mica) d.mica_enabled,
  )
