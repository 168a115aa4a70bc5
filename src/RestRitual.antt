-- ===== src/RestRitual.antt =====
-- frontend/src/rest-ritual.js: what a server snapshot says about the break (`derive_rest_ritual_state`),
-- which completion is revealed (`Tracker`) and the ritual's controller (`RestRitual/Panel.antt`
-- and `RestRitual/View.antt`).
pub mod Derive
pub mod Tracker
pub mod Panel
pub mod View
pub mod Reveals
mod Tests
use aetheldesk.Base.{
  ℕ, zero, suc, ◌+◌, ◌-◌, ◌/◌, ◌%◌, min, max, Bool, true, false, ◌&&◌, Option, none, some, ltb, leb,
  ◌==◌, if◌then◌else◌,
}
use aetheldesk.Js.{Value, truthy, coalesce, is_finite, trunc_or, natural?, natural}

-- REST_PHASE
pub data RestPhase : Type 0 where
  inactive reveal restore returning : RestPhase

abbrev pub cycle_length : ℕ
cycle_length = 4

abbrev pub standard_break_seconds : ℕ
standard_break_seconds = 600

abbrev pub reveal_seconds : ℕ
reveal_seconds = 30

abbrev pub return_seconds : ℕ
return_seconds = 60

-- The fields of a snapshot that the ritual reads; a field that is missing is `undefined`.
pub record Snapshot : Type 0 where
  pub focus : Value
  pub break : Value
  pub is_break : Value
  pub sessions_done : Value
  pub break_duration : Value
  pub break_remaining : Value
  pub pomodoro_remaining : Value
  pub pomodoro_duration : Value
  pub reward_id : Value

pub record Model : Type 0 where
  pub is_break : Bool
  pub phase : RestPhase
  pub sessions_done : ℕ
  pub cycle_progress : ℕ
  pub break_duration : ℕ
  pub break_remaining : ℕ
  pub focus_minutes : ℕ
  pub reward_id : Option ℕ

unfoldable pub finite_integer : Value → ℕ → ℕ
finite_integer v fallback = trunc_or v fallback

unfoldable pub normalize_reward_id : Value → Option ℕ
normalize_reward_id v = natural? v

-- completed % CYCLE_LENGTH || CYCLE_LENGTH
unfoldable pub cycle_progress_of : ℕ → ℕ
cycle_progress_of completed =
    if completed == 0
    then 0
    else if completed % cycle_length == 0
    then cycle_length
    else completed % cycle_length

unfoldable pub get_cycle_progress : Value → ℕ
unfolding finite_integer cycle_progress_of
get_cycle_progress v = cycle_progress_of (finite_integer v 0)

unfoldable pub get_break_duration_seconds : Snapshot → ℕ
unfolding finite_integer
get_break_duration_seconds s = max 1 (finite_integer s.break_duration standard_break_seconds)

-- isBreak ? state.pomodoro_remaining : 0, unless break_remaining is a finite number
unfoldable pub raw_remaining : Snapshot → Bool → Value
raw_remaining s is_break =
    if is_finite s.break_remaining
    then s.break_remaining
    else if is_break
    then s.pomodoro_remaining
    else natural 0

unfoldable pub phase_of : Bool → ℕ → ℕ → RestPhase
phase_of is_break remaining elapsed =
    if is_break && leb remaining return_seconds
    then returning
    else if is_break && leb elapsed reveal_seconds
    then reveal
    else if is_break
    then restore
    else inactive

unfoldable pub derive_rest_ritual_state : Snapshot → Model
unfolding get_break_duration_seconds raw_remaining normalize_reward_id
derive_rest_ritual_state s =
    let is_break : Bool = truthy (coalesce s.break s.is_break) in
    let sessions_done : ℕ = finite_integer s.sessions_done 0 in
    let break_duration : ℕ = get_break_duration_seconds s in
    let break_remaining : ℕ = min break_duration (finite_integer (raw_remaining s is_break) 0) in
    record {
      is_break = is_break;
      phase = phase_of is_break break_remaining (break_duration - break_remaining);
      sessions_done = sessions_done;
      cycle_progress = cycle_progress_of sessions_done;
      break_duration = break_duration;
      break_remaining = break_remaining;
      focus_minutes = max 1 ((finite_integer s.pomodoro_duration 3000 + 30) / 60);
      reward_id = normalize_reward_id s.reward_id;
    }
