-- ===== src/RestRitual/View.antt =====
-- `createRestRitual`: the controller of the break panel, its variables and what it sends.
pub mod Laws
pub mod Events
use aetheldesk.Base.{
  ℕ, String, Bool, true, false, not, ◌&&◌, ◌||◌, Option, none, some, List, [], ◌∷◌, if◌then◌else◌,
}
use aetheldesk.Js.{Value, null, natural}
use aetheldesk.Storage.{Browser, read_next_intent, store_next_intent}
use aetheldesk.RestRitual.{
  RestPhase, inactive, reveal, restore, returning, Snapshot, Model, derive_rest_ritual_state,
}
use aetheldesk.RestRitual.Tracker.{Tracker, fresh, observe}
use aetheldesk.RestRitual.Panel.{
  Live, recovery_chosen, intent_saved, recovery_cleared, intent_cleared, View, Page, same_id,
  same_choice, same_phase, render_recovery_selection, render_intent_selection, hide_recovery,
  hide_intent, render_idle, render_break, announce,
}

-- the detail of an `aethel:reward-progress` event
pub record Progress : Type 0 where
  pub active : Bool
  pub phase : RestPhase
  pub completed_sessions : ℕ
  pub sessions_done : ℕ
  pub reward_id : Option ℕ
  pub reveal : Bool

-- The controller's variables, its part of the document, and the events that it sent, newest first.
pub record Ritual : Type 0 where
  pub selected_recovery : Option String
  pub selected_intent : Option String
  pub previous_phase : RestPhase
  pub previous_progress : Option ℕ
  pub previous_reward_id : Option ℕ
  pub was_break : Bool
  pub reveal_reward_id : Option ℕ
  pub latest_model : Model
  pub latest_reveal : Bool
  pub tracker : Tracker
  pub view : View
  pub sent : List Progress

abbrev pub id_value : Option ℕ → Value
id_value none = null
id_value (some n) = natural n

-- A reveal phase is rendered only for the completion that was seen to happen.
unfoldable pub rendered_phase : Model → Option ℕ → RestPhase
rendered_phase m reveal_id =
    if same_phase m.phase reveal && not (same_id reveal_id m.reward_id) then restore else m.phase

abbrev progress_event : Model → RestPhase → Bool → Progress
progress_event m phase reveals = record {
  active = m.is_break;
  phase = phase;
  completed_sessions = m.cycle_progress;
  sessions_done = m.sessions_done;
  reward_id = m.reward_id;
  reveal = reveals;
}

-- What an update decides before it touches the document.
pub record Decision : Type 0 where
  pub model : Model
  pub tracker : Tracker
  pub reveals : Bool
  pub entered_break : Bool
  pub reveal_id : Option ℕ
  pub phase : RestPhase
  pub phase_changed : Bool
  pub changed : Bool

unfoldable pub decide_update : Snapshot → Bool → Ritual → Decision
unfolding rendered_phase
decide_update s reset r =
    let m : Model = derive_rest_ritual_state s in
    let (tracker, o) = observe (if reset then fresh else r.tracker) (id_value m.reward_id) in
    let reveals : Bool = m.is_break && o.reveal in
    let seen : Option ℕ = if reveals then m.reward_id else r.reveal_reward_id in
    let reveal_id : Option ℕ = if same_phase m.phase reveal then seen else none in
    let phase : RestPhase = rendered_phase m reveal_id in
    let phase_changed : Bool = not (same_phase phase r.previous_phase) in
    record {
      model = m;
      tracker = tracker;
      reveals = reveals;
      entered_break = m.is_break && not r.was_break;
      reveal_id = reveal_id;
      phase = phase;
      phase_changed = phase_changed;
      changed =
          phase_changed
          || not (same_id (some m.cycle_progress) r.previous_progress)
          || not (same_id m.reward_id r.previous_reward_id);
    }

unfoldable pub render_update :
    Page → Snapshot → Decision → Option String → Option String → View → View
unfolding render_idle render_break announce
render_update p s d recovery intent v =
    let marked : View = record v { phase = d.phase; shown_progress = d.model.cycle_progress } in
    let drawn : View =
      if d.model.is_break
      then render_break p d.model d.phase recovery intent marked
      else render_idle s marked in
    record drawn {
      live =
          announce d.model.is_break d.reveals d.phase_changed d.phase d.model.cycle_progress
            drawn.live;
    }

unfoldable pub update : Page → Snapshot → Bool → Ritual → Ritual
unfolding decide_update render_update
update p s reset r =
    let d : Decision = decide_update s reset r in
    let recovery : Option String = if d.entered_break then none else r.selected_recovery in
    record {
      selected_recovery = recovery;
      selected_intent = r.selected_intent;
      previous_phase = d.phase;
      previous_progress = some d.model.cycle_progress;
      previous_reward_id = d.model.reward_id;
      was_break = d.model.is_break;
      reveal_reward_id = d.reveal_id;
      latest_model = record (d.model) { phase = d.phase };
      latest_reveal = d.reveals;
      tracker = d.tracker;
      view = render_update p s d recovery r.selected_intent r.view;
      sent = if d.changed then progress_event d.model d.phase d.reveals ∷ r.sent else r.sent;
    }

-- A second click on a choice clears it.
abbrev toggled : Option String → String → Option String
toggled selected value = if same_choice selected value then none else some value

unfoldable pub click_recovery : Page → String → Ritual → Ritual
unfolding render_recovery_selection
click_recovery p value r =
    let selected : Option String = toggled r.selected_recovery value in
    let drawn : View = render_recovery_selection p selected r.view in
    record r {
      selected_recovery = selected;
      view = record drawn {
        live = elim selected [ none ↦ recovery_cleared | some c ↦ recovery_chosen c ];
      };
    }

unfoldable pub click_intent : Page → String → Ritual × Browser → Ritual × Browser
unfolding render_intent_selection store_next_intent
click_intent p value (r, b) =
    let selected : Option String = toggled r.selected_intent value in
    let drawn : View = render_intent_selection p selected r.view in
    (
      record r {
        selected_intent = selected;
        view = record drawn {
          live = elim selected [ none ↦ intent_cleared | some c ↦ intent_saved c ];
        };
      },
      (store_next_intent selected b).1,
    )

-- The state before the first snapshot, over the page's initial document.
unfoldable pub create_rest_ritual : Page → View → Browser → Ritual × Browser
unfolding render_recovery_selection render_intent_selection hide_recovery hide_intent
    read_next_intent
create_rest_ritual p v b =
    let (intent, b') = read_next_intent b in
    let empty : Snapshot = record {
      focus = Value.undefined;
      break = Value.undefined;
      is_break = Value.undefined;
      sessions_done = Value.undefined;
      break_duration = Value.undefined;
      break_remaining = Value.undefined;
      pomodoro_remaining = Value.undefined;
      pomodoro_duration = Value.undefined;
      reward_id = Value.undefined;
    } in
    (
      record {
        selected_recovery = none;
        selected_intent = intent;
        previous_phase = inactive;
        previous_progress = none;
        previous_reward_id = none;
        was_break = false;
        reveal_reward_id = none;
        latest_model = derive_rest_ritual_state empty;
        latest_reveal = false;
        tracker = fresh;
        view = render_intent_selection p intent (
            render_recovery_selection p none
              (record v { root_hidden = true; recovery_hidden = true; intent_hidden = true }));
        sent = [];
      },
      b',
    )
