-- ===== src/RestRitual/View/Events.antt =====
-- Which `aethel:reward-progress` events the break panel sends, and its choices.
use aetheldesk.Base.{String, ◌≡◌, true, false, Bool, arith, eq_refl}
use aetheldesk.Storage.{Browser, is_next_intent, read_next_intent, next_intent_storage_key}
use aetheldesk.RestRitual.{Snapshot}
use aetheldesk.RestRitual.Tracker.{observe, observe_id}
use aetheldesk.RestRitual.Panel.{Page, View}
use aetheldesk.RestRitual.View.{Ritual, update, click_intent, create_rest_ritual}

-- A snapshot that arrives a second time changes nothing for the rest of the client: no event is sent,
-- nothing is revealed again, and the phase stays.
pub update_twice_quiet :
    (p : Page) (s : Snapshot) (reset : Bool) (r : Ritual)
    → let once = update p s reset r in
      let twice = update p s false once in
      (twice.sent ≡ once.sent)
      × (twice.latest_reveal ≡ false)
      × (twice.previous_phase ≡ once.previous_phase)
unfolding update observe observe_id
update_twice_quiet p s reset r = ground arith

abbrev pub IsSaved : Ritual × Browser → Type 0
IsSaved (r, b) = (read_next_intent b).0 ≡ r.selected_intent

-- The panel starts with the intent that a later visit would read as well.
pub create-IsSaved : (p : Page) (v : View) (b : Browser) → IsSaved (create_rest_ritual p v b)
unfolding create_rest_ritual
create-IsSaved p v b = ground (arith, eq_refl next_intent_storage_key)

-- After a click on one of the three intents, the selection of the panel is what a later visit reads:
-- the intent, or none where the click cleared it.
pub click_intent-IsSaved :
    (p : Page) (value : String) (r : Ritual) (b : Browser)
    → is_next_intent value ≡ true
    → IsSaved (click_intent p value (r, b))
unfolding click_intent read_next_intent
click_intent-IsSaved p value r b h = ground (arith, eq_refl next_intent_storage_key)
