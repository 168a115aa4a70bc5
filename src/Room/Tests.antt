-- ===== src/Room/Tests.antt =====
-- A room with a snapshot on display, for the properties of `applyState`.
use aetheldesk.Base.{ℕ, ◌≡◌, refl, Bool, true, false, none, some, [], ◌∷◌, All}
use aetheldesk.Js.{natural, natural?, boolean, undefined}
use aetheldesk.RestRitual.{inactive}
use aetheldesk.RestRitual.Panel.{no_copy, silent, elsewhere, View, Page}
use aetheldesk.RestRitual.View.{create_rest_ritual}
use aetheldesk.Room.{State, Room, apply_all}
use aetheldesk.Room.Revisions.{latest, Shows, AtMost, apply_all_newest}

abbrev page : Page
page = record { recovery_buttons = []; intent_buttons = []; star_count = 4 }

abbrev blank_view : View
blank_view = record {
  phase = inactive;
  shown_progress = 0;
  root_hidden = true;
  recovery_hidden = true;
  intent_hidden = true;
  copy = no_copy;
  cycle_label = (0, 0);
  stars = [];
  recovery_pressed = [];
  intent_pressed = [];
  screen_away = none;
  next_intent = "none";
  live = silent;
  focus = elsewhere;
}

abbrev state : ℕ → Bool → State
state revision is_break = record {
  revision = natural revision;
  paused = boolean false;
  rest = record {
    focus = boolean false;
    break = boolean is_break;
    is_break = undefined;
    sessions_done = natural 1;
    break_duration = natural 600;
    break_remaining = natural 300;
    pomodoro_remaining = natural 0;
    pomodoro_duration = natural 1500;
    reward_id = natural 2;
  };
}

abbrev shown : Room
shown = record {
  current_state = some (state 7 true);
  accepted_revision = some 7;
  ritual =
      (create_rest_ritual page blank_view (record { local = λ _. none; session = λ _. none })).0;
  chimes = 0;
  drawn = [];
}

apply_all_newest_example :
    let after = apply_all page (state 9 true ∷ state 8 false ∷ []) shown in
    (after.accepted_revision ≡ some (latest 7 (state 9 true ∷ state 8 false ∷ [])))
    × Shows (latest 7 (state 9 true ∷ state 8 false ∷ [])) after.current_state
    × All
        (λ s. AtMost (latest 7 (state 9 true ∷ state 8 false ∷ [])) (natural? s.revision))
        (state 9 true ∷ state 8 false ∷ [])
apply_all_newest_example =
    apply_all_newest page (state 9 true ∷ state 8 false ∷ []) shown 7 refl refl
