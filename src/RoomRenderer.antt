-- ===== src/RoomRenderer.antt =====
-- frontend/src/room-renderer.js: what `renderFocus` and `renderSessions` make of the timer. The flags of a
-- snapshot are read as `Boolean` reads them, its counts of seconds are whole numbers; a text is the
-- data that it is written from. `RoomRenderer/Sky.antt` has the 2D sky.
pub mod Sky
pub mod Reach
pub mod Announce
pub mod Sessions
pub mod Loop
mod Tests
use aetheldesk.Base.{
  ℕ, zero, suc, ◌+◌, ◌/◌, ◌%◌, Bool, true, false, not, ◌&&◌, ◌||◌, Option, none, some, List, [],
  ◌∷◌, ltb, ◌==◌, if◌then◌else◌,
}
use aetheldesk.Dom.{Page, set_hidden_interaction}

pub record Snapshot : Type 0 where
  pub focus : Bool
  pub remaining : ℕ
  pub is_break : Bool
  pub break_remaining : ℕ
  pub paused : Bool

-- The parts of the page, and the controls that `querySelectorAll` finds under each.
pub record Regions : Type 0 where
  pub btn : ℕ
  pub dur_chips : ℕ
  pub pom : ℕ
  pub break_row : ℕ
  pub focus_row : ℕ
  pub time_dial : ℕ
  pub hud_tl : ℕ
  pub controls : ℕ → List ℕ

-- What the keyboard focus is on when a snapshot is rendered: `document.activeElement`.
pub record Active : Type 0 where
  pub is_btn : Bool
  pub is_document : Bool
  pub in_dur_chips : Bool
  pub in_pom : Bool
  pub in_focus_row : Bool

-- Where a focus that is moved goes, 120 ms later.
pub data Target : Type 0 where
  to_pause to_rest_title to_focus_btn : Target

-- The key of an announcement; the message has no more in it than the key.
pub data Key : Type 0 where
  focus_paused : ℕ → Key
  focus_minutes : ℕ → Key
  break_minutes : ℕ → Key
  idle : Key

pub data Title : Type 0 where
  plain : Title
  in_focus : ℕ → Bool → Title
  in_break : ℕ → Title

pub data Mode : Type 0 where
  paused focus break idle : Mode

pub data Phase : Type 0 where
  resting focus_paused focusing : Phase

-- A region's opacity and pointer events.
pub record Shown : Type 0 where
  pub btn : Bool
  pub dur_chips : Bool
  pub pom : Bool
  pub break_row : Bool
  pub focus_row : Bool

pub record Screen : Type 0 where
  pub page : Page
  pub shown : Shown
  pub title : Title
  pub is_session : Bool
  pub mode : Mode
  pub phase : Phase
  pub idle_duration : ℕ
  pub pom_time : ℕ × ℕ × Bool
  pub resume_label : Bool
  pub last_timer_announcement : Option Key
  pub announced : List Key
  pub focus_moves : List Target

abbrev pub key_eq : Key → Key → Bool
key_eq (focus_paused a) (focus_paused b) = a == b
key_eq (focus_minutes a) (focus_minutes b) = a == b
key_eq (break_minutes a) (break_minutes b) = a == b
key_eq Key.idle Key.idle = true
key_eq _ _ = false

abbrev pub is_last : Option Key → Key → Bool
is_last none key = false
is_last (some last) key = key_eq last key

-- updateTimerTitle
unfoldable pub timer_title : Snapshot → Title
timer_title s =
    if s.focus
    then in_focus s.remaining s.paused
    else if s.is_break
    then in_break s.break_remaining
    else plain

unfoldable pub mode_of : Snapshot → Mode
mode_of s =
    if s.focus
    then if s.paused then Mode.paused else Mode.focus
    else if s.is_break
    then Mode.break
    else Mode.idle

unfoldable pub phase_of : Snapshot → Phase
phase_of s = if s.is_break then resting else if s.paused then Phase.focus_paused else focusing

-- setPomTime: minutes, seconds and whether the colon blinks
unfoldable pub set_pom_time : ℕ → Bool → ℕ × ℕ × Bool
set_pom_time seconds blinks = (seconds / 60, seconds % 60, blinks)

-- Math.ceil(seconds / 60)
unfoldable pub minute_bucket : ℕ → ℕ
minute_bucket seconds = (seconds + 59) / 60

unfoldable pub announcement : Snapshot → Key
unfolding minute_bucket
announcement s =
    if s.focus
    then if s.paused
      then Key.focus_paused s.remaining
      else focus_minutes (minute_bucket s.remaining)
    else if s.is_break
    then break_minutes (minute_bucket s.break_remaining)
    else Key.idle

unfoldable pub announce : Key → Screen → Screen
announce key s =
    if is_last s.last_timer_announcement key
    then s
    else record s { last_timer_announcement = some key; announced = key ∷ s.announced }

unfoldable pub set_hidden : Regions → ℕ → Bool → Page → Page
set_hidden r region hidden page = set_hidden_interaction region (r.controls region) hidden page

-- The five calls of setHiddenInteraction that each branch makes, in their order.
unfoldable pub set_regions : Regions → Shown → Page → Page
unfolding set_hidden
set_regions r shown page = set_hidden r r.focus_row (not shown.focus_row) (
    set_hidden r r.break_row (not shown.break_row) (
      set_hidden r r.pom (not shown.pom)
        (set_hidden r r.dur_chips (not shown.dur_chips) (set_hidden r r.btn (not shown.btn) page))))

unfoldable pub shown_in : Snapshot → Shown
shown_in s =
    let session : Bool = s.focus || s.is_break in
    record {
      btn = not session;
      dur_chips = not session;
      pom = session;
      break_row = not s.focus && s.is_break;
      focus_row = s.focus;
    }

abbrev pub schedule : Bool → Target → List Target → List Target
schedule should_move target moves = if should_move then target ∷ moves else moves

-- `title_is_available`: the rest title is there, and nothing around it is hidden or inert.
unfoldable pub focus_moves_for : Snapshot → Active → List Target → List Target
focus_moves_for s a moves =
    if s.focus
    then schedule (a.is_btn || a.is_document || a.in_dur_chips) to_pause moves
    else if s.is_break
    then schedule (a.is_btn || a.is_document || a.in_dur_chips || a.in_focus_row) to_rest_title
        moves
    else schedule a.in_pom to_focus_btn moves

unfoldable pub render_focus : Regions → Active → Snapshot → Screen → Screen
unfolding timer_title mode_of phase_of set_pom_time announcement announce set_hidden set_regions
    shown_in focus_moves_for
render_focus r a s screen =
    let session : Bool = s.focus || s.is_break in
    let outside : Page =
      set_hidden r r.hud_tl session (set_hidden r r.time_dial session screen.page) in
    announce (announcement s) (record screen {
      page = set_regions r (shown_in s) outside;
      shown = shown_in s;
      title = timer_title s;
      is_session = session;
      mode = mode_of s;
      phase = phase_of s;
      idle_duration = s.remaining;
      pom_time =
          if s.focus
          then set_pom_time s.remaining s.paused
          else if s.is_break
          then set_pom_time s.break_remaining false
          else set_pom_time s.remaining false;
      resume_label = if s.focus then s.paused else screen.resume_label;
      focus_moves = focus_moves_for s a screen.focus_moves;
    })

-- renderSessions
pub record SessionDots : Type 0 where
  pub count : ℕ
  pub position : ℕ
  pub dots : List Bool

-- count % 4 || (count > 0 ? 4 : 0)
unfoldable pub cycle_position : ℕ → ℕ
cycle_position count = if count % 4 == 0 then if ltb 0 count then 4 else 0 else count % 4

-- The dots from `i` on, `n` of them: whether each is filled.
unfoldable pub dots_from : ℕ → ℕ → ℕ → List Bool
dots_from position i zero = []
dots_from position i (suc n) = ltb i position ∷ dots_from position (i + 1) n

unfoldable pub render_sessions : ℕ → SessionDots
unfolding cycle_position dots_from
render_sessions count = record {
  count = count;
  position = cycle_position count;
  dots = if count == 0 then false ∷ [] else dots_from (cycle_position count) 0 4;
}
