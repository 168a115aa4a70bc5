-- ===== src/Engine/Frames.antt =====
-- The life of the frame loop of engine.js: fatal errors, the waiters for a stable frame, the first
-- frame, and the end. A promise is a waiter with a number; what it was resolved with is recorded.
-- What runs in a frame (the callbacks, the post stack) is an outcome.
pub mod Laws
use aetheldesk.Base.{
  ℕ, zero, suc, ◌+◌, ◌≤◌, Bool, true, false, not, ◌&&◌, ◌||◌, Option, none, some, List, [], ◌∷◌,
  ◌++◌, ltb, leb, ◌==◌, if◌then◌else◌, is_some,
}

pub record Waiter : Type 0 where
  pub id : ℕ
  pub goal : ℕ
  pub scheduled : Bool

-- What waits for the next display turn.
pub data Presentation : Type 0 where
  resolves : ℕ → ℕ → Presentation
  first_frame : Presentation

-- A resolved promise, the frame that it waited for, the frames drawn then, and its value.
pub record Resolved : Type 0 where
  pub id : ℕ
  pub goal : ℕ
  pub serial : ℕ
  pub value : Bool

pub record Loop : Type 0 where
  pub frame_requested : Bool
  pub fatal_reported : Bool
  pub destroyed : Bool
  pub successful_frame_serial : ℕ
  pub content_ready : Option ℕ
  pub first_frame_reported : Bool
  pub first_frame_scheduled : Bool
  pub frame_waiters : List Waiter
  pub presentations : List Presentation
  pub next_id : ℕ
  pub resolved : List Resolved
  pub fatal_calls : ℕ
  pub first_frame_calls : ℕ

-- How the part of a frame ends that runs before the post stack, and the post stack.
pub data Outcome : Type 0 where
  tick_throws post_throws shader_fails drawn : Outcome

abbrev pub stopped : Loop → Bool
stopped e = e.destroyed || e.fatal_reported

unfoldable pub resolve_all : Bool → ℕ → List Waiter → List Resolved → List Resolved
resolve_all value serial [] done = done
resolve_all value serial (w ∷ ws) done =
    resolve_all value serial ws
      (record { id = w.id; goal = w.goal; serial = serial; value = value } ∷ done)

unfoldable pub report_fatal : Loop → Loop
report_fatal e = if e.fatal_reported || e.destroyed then e else record e {
  fatal_reported = true;
  frame_requested = false;
  presentations = [];
  resolved = resolve_all false e.successful_frame_serial e.frame_waiters e.resolved;
  frame_waiters = [];
  fatal_calls = e.fatal_calls + 1;
}

unfoldable pub destroy : Loop → Loop
destroy e = if e.destroyed then e else record e {
  destroyed = true;
  frame_requested = false;
  presentations = [];
  resolved = resolve_all false e.successful_frame_serial e.frame_waiters e.resolved;
  frame_waiters = [];
}

unfoldable pub after_next_stable_render : Loop → Loop
after_next_stable_render e =
    let goal : ℕ = e.successful_frame_serial + 1 in
    if stopped e
    then record e {
      next_id = e.next_id + 1;
      resolved =
          record { id = e.next_id; goal = goal; serial = e.successful_frame_serial; value = false }
          ∷ e.resolved;
    }
    else record e {
      next_id = e.next_id + 1;
      frame_waiters =
          e.frame_waiters ++ record { id = e.next_id; goal = goal; scheduled = false } ∷ [];
    }

unfoldable pub mark_content_ready : Loop → Loop
mark_content_ready e =
    if is_some e.content_ready
    then e
    else record e { content_ready = some e.successful_frame_serial }

abbrev pub is_due : ℕ → Waiter → Bool
is_due serial w = not w.scheduled && leb w.goal serial

unfoldable pub schedule : ℕ → List Waiter → List Waiter
schedule serial [] = []
schedule serial (w ∷ ws) =
    (if is_due serial w then record w { scheduled = true } else w) ∷ schedule serial ws

unfoldable pub due : ℕ → List Waiter → List Presentation
due serial [] = []
due serial (w ∷ ws) =
    let rest : List Presentation = due serial ws in
    if is_due serial w then resolves w.id w.goal ∷ rest else rest

abbrev pub wants_first_frame : ℕ → Loop → Bool
wants_first_frame serial e = elim e.content_ready [
  | none ↦ false
  | some ready ↦ not e.first_frame_reported && not e.first_frame_scheduled && leb (ready + 2) serial
]

-- A frame that the post stack has drawn.
unfoldable pub count_frame : Loop → Loop
unfolding schedule due
count_frame e =
    let serial : ℕ = e.successful_frame_serial + 1 in
    let queued : List Presentation = e.presentations ++ due serial e.frame_waiters in
    let first : Bool = wants_first_frame serial e in
    record e {
      successful_frame_serial = serial;
      frame_waiters = schedule serial e.frame_waiters;
      first_frame_scheduled = first || e.first_frame_scheduled;
      presentations = if first then queued ++ first_frame ∷ [] else queued;
    }

-- `hidden` is document.hidden.
unfoldable pub render_loop : Bool → Outcome → Loop → Loop
unfolding report_fatal count_frame
render_loop hidden outcome e =
    let running : Loop = record e { frame_requested = true } in
    let ended : Loop = elim outcome [
      | tick_throws ↦ report_fatal running
      | post_throws ↦ report_fatal running
      | shader_fails ↦ report_fatal running
      | drawn ↦ count_frame running
    ] in
    if stopped e then e else if hidden then running else ended

unfoldable pub drop_waiter : ℕ → List Waiter → List Waiter
drop_waiter id [] = []
drop_waiter id (w ∷ ws) =
    let rest : List Waiter = drop_waiter id ws in if w.id == id then rest else w ∷ rest

unfoldable pub run_presentation : Presentation → Loop → Loop
unfolding drop_waiter
run_presentation (resolves id goal) e = record e {
  frame_waiters = drop_waiter id e.frame_waiters;
  resolved =
      record { id = id; goal = goal; serial = e.successful_frame_serial; value = true }
      ∷ e.resolved;
}
run_presentation first_frame e = record e {
  first_frame_reported = true;
  first_frame_calls = e.first_frame_calls + 1;
}

-- The next display turn of the oldest callback; the ids of the others stay registered.
unfoldable pub present : List Presentation → Loop → Loop
unfolding run_presentation
present [] e = e
present (p ∷ ps) e =
    let waiting : Loop = record e { presentations = ps } in
    if stopped e then waiting else run_presentation p waiting

pub data Event : Type 0 where
  frame : Bool → Outcome → Event
  presents context_lost asks_stable content_arrives destroys : Event

unfoldable pub step : Event → Loop → Loop
unfolding render_loop present report_fatal after_next_stable_render mark_content_ready destroy
step (frame hidden outcome) e = render_loop hidden outcome e
step presents e = present e.presentations e
step context_lost e = report_fatal e
step asks_stable e = after_next_stable_render e
step content_arrives e = mark_content_ready e
step destroys e = destroy e

unfoldable pub run : List Event → Loop → Loop
run [] e = e
run (x ∷ xs) e = run xs (step x e)

abbrev pub new_loop : Loop
new_loop = record {
  frame_requested = true;
  fatal_reported = false;
  destroyed = false;
  successful_frame_serial = 0;
  content_ready = none;
  first_frame_reported = false;
  first_frame_scheduled = false;
  frame_waiters = [];
  presentations = [];
  next_id = 0;
  resolved = [];
  fatal_calls = 0;
  first_frame_calls = 0;
}
