-- ===== src/RestRitual/Tests.antt =====
-- A break of ten minutes, for the properties of rest-ritual.js.
use aetheldesk.Base.{ltb, leb, ℕ, ◌≡◌, refl, Bool, true, false, not, ◌&&◌, none, [], ◌∷◌}
use aetheldesk.Js.{natural, boolean, undefined}
use aetheldesk.Storage.{Browser}
use aetheldesk.RestRitual.{inactive, Snapshot, derive_rest_ritual_state}
use aetheldesk.RestRitual.Tracker.{fresh, revealed, Rises, observe, observe_id}
use aetheldesk.RestRitual.Reveals.{revealed-Rises}
use aetheldesk.RestRitual.Panel.{
  no_copy, silent, recovery_button, View, Page, in_root, in_recovery, in_intent,
}
use aetheldesk.RestRitual.View.{Ritual, update, create_rest_ritual}
use aetheldesk.RestRitual.View.Laws.{in_break, seconds_left, update_groups, update_focus}

abbrev page : Page
page = record {
  recovery_buttons = "water" ∷ "stretch" ∷ [];
  intent_buttons = "continue" ∷ "next" ∷ "finish" ∷ [];
  star_count = 4;
}

abbrev blank_view : View
blank_view = record {
  phase = inactive;
  shown_progress = 0;
  root_hidden = true;
  recovery_hidden = true;
  intent_hidden = true;
  copy = no_copy;
  cycle_label = (0, 0);
  stars = [];
  recovery_pressed = [];
  intent_pressed = [];
  screen_away = none;
  next_intent = "none";
  live = silent;
  focus = recovery_button 0;
}

abbrev empty_browser : Browser
empty_browser = record { local = λ _. none; session = λ _. none }

abbrev snapshot : ℕ → ℕ → Bool → Snapshot
snapshot id remaining is_break = record {
  focus = boolean (not is_break);
  break = boolean is_break;
  is_break = undefined;
  sessions_done = natural 5;
  break_duration = natural 600;
  break_remaining = natural remaining;
  pomodoro_remaining = natural 1500;
  pomodoro_duration = natural 1500;
  reward_id = natural id;
}

abbrev seen : Ritual
seen = update page (snapshot 4 0 false) true (create_rest_ritual page blank_view empty_browser).0

revealed-Rises_example :
    Rises none (revealed fresh (natural 3 ∷ natural 5 ∷ natural 4 ∷ natural 7 ∷ []))
revealed-Rises_example = revealed-Rises fresh (natural 3 ∷ natural 5 ∷ natural 4 ∷ natural 7 ∷ [])

update_groups_example :
    let s = snapshot 5 590 true in
    let after = update page (snapshot 5 590 true) false seen in
    (after.view.root_hidden ≡ not (in_break s))
    × (after.view.recovery_hidden ≡ not (in_break s && ltb 60 (seconds_left s)))
    × (after.view.intent_hidden ≡ not (in_break s && leb (seconds_left s) 60))
update_groups_example = update_groups page (snapshot 5 590 true) false seen

update_focus_example :
    let after = update page (snapshot 5 50 true) false seen in
    (in_root after.view.focus && after.view.root_hidden ≡ false)
    × (in_recovery after.view.focus && after.view.recovery_hidden ≡ false)
    × (in_intent after.view.focus && after.view.intent_hidden ≡ false)
update_focus_example = update_focus page (snapshot 5 50 true) false seen

reveals_now : (update page (snapshot 5 590 true) false seen).latest_reveal ≡ true
unfolding update create_rest_ritual derive_rest_ritual_state observe observe_id
reveals_now = refl
