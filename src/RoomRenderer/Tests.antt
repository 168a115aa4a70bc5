-- ===== src/RoomRenderer/Tests.antt =====
-- A page with a timer whose pause button and skip button are 31 and 41, for the properties of
-- room-renderer.js.
use aetheldesk.Base.{◌≡◌, ◌≤◌, refl, true, false, none, [], ◌∷◌, ◌==◌, if◌then◌else◌, length}
use aetheldesk.Dom.{Element, hide_interaction, show_interaction, set_hidden_interaction}
use aetheldesk.RestRitual.{cycle_progress_of}
use aetheldesk.RoomRenderer.{
  Snapshot, Regions, Active, Screen, Title, Mode, Phase, render_focus, minute_bucket,
  render_sessions,
}
use aetheldesk.RoomRenderer.Reach.{is_away}
use aetheldesk.RoomRenderer.Announce.{countdown, minutes, announced-countdown}
use aetheldesk.RoomRenderer.Sessions.{filled, in_order, render_sessions_dots}
use aetheldesk.RoomRenderer.Loop.{here, next, snapshot, resize, fires, blank_sky, Reach-pending}
use aetheldesk.RoomRenderer.Sky.{Sky, render_sky, reset_for_resize, frame}

abbrev plain_element : Element
plain_element = record {
  tabindex = none;
  aria_hidden = none;
  inert = false;
  interaction_hidden = none;
  original_tab_index = none;
  modal_isolation_hidden = none;
  modal_original_aria_hidden = none;
  modal_original_inert = none;
}

abbrev room : Regions
room = record {
  btn = 1;
  dur_chips = 2;
  pom = 3;
  break_row = 4;
  focus_row = 5;
  time_dial = 6;
  hud_tl = 7;
  controls = λ i.
      if i == 2
      then 21 ∷ 22 ∷ []
      else if i == 3
      then 31 ∷ 41 ∷ []
      else if i == 4
      then 41 ∷ []
      else if i == 5
      then 31 ∷ []
      else [];
}

abbrev on_body : Active
on_body = record {
  is_btn = false;
  is_document = true;
  in_dur_chips = false;
  in_pom = false;
  in_focus_row = false;
}

abbrev start : Screen
start = record {
  page = λ i. plain_element;
  shown = record {
    btn = true;
    dur_chips = true;
    pom = false;
    break_row = false;
    focus_row = false;
  };
  title = Title.plain;
  is_session = false;
  mode = Mode.idle;
  phase = Phase.focusing;
  idle_duration = 3000;
  pom_time = (50, 0, false);
  resume_label = false;
  last_timer_announcement = none;
  announced = [];
  focus_moves = [];
}

abbrev resting : Snapshot
resting = record {
  focus = false;
  remaining = 3000;
  is_break = true;
  break_remaining = 599;
  paused = false;
}

break_page : is_away (render_focus room on_body resting start).page 31 ≡ true
unfolding render_focus set_hidden_interaction hide_interaction show_interaction
break_page = refl

announced-countdown_example :
    (countdown room (λ n. on_body) 90 start).announced ≡ minutes (minute_bucket 90) []
announced-countdown_example = announced-countdown room (λ n. on_body) 89 start refl

render_sessions_dots_example :
    let shown = render_sessions 7 in
    (shown.position ≡ cycle_progress_of 7)
    × (filled shown.dots ≡ cycle_progress_of 7)
    × (in_order shown.dots ≡ true)
    × (length shown.dots ≡ 4)
render_sessions_dots_example = render_sessions_dots 7

abbrev first_night : Sky
first_night = render_sky false false true blank_sky

abbrev resized : Sky
resized = reset_for_resize false false true (frame false 0 first_night)

first_waits : length first_night.pending ≡ 1
unfolding render_sky
first_waits = refl

Reach-pending_example : length resized.pending ≤ 1
unfolding render_sky
Reach-pending_example = Reach-pending (
    next (next (next here (snapshot _ false false true)) (fires first_night false 0 refl))
      (resize _ false false true))
