-- ===== src/Celestial/Visibility.antt =====
-- celestial.js: lemmas on the targets of the sky along a history of calls, and on the session's orbit.
use aetheldesk.Base.{ℕ, ◌*◌, ◌≤◌, ◌≡◌, min, Bool, true, false, Option, none, some, arith}
use aetheldesk.Int.{ℤ}
use aetheldesk.RoomRenderer.Sky.{Timer, satellite}
use aetheldesk.Celestial.{Celestial, Session, levels_for, update_pomodoro}

-- What the elevation of the last state says of the targets, and the aspect of the arc.
abbrev PlacedAt : (ℤ → ℕ) → Option ℤ → Celestial → Type 0
PlacedAt smoothstep none c = c.has_celestial_target ≡ false
PlacedAt smoothstep (some e) c =
    (c.target ≡ levels_for smoothstep e)
    × (c.horizontal_arc ≡ min 2900000 (180 * c.viewport_aspect))
    × (c.key_visible ≡ true)

pub record IsPlaced (smoothstep : ℤ → ℕ) (c : Celestial) : Type 0 where
  pub placed : PlacedAt smoothstep c.last_elevation c
  pub narrow : 3500 ≤ c.viewport_aspect
  pub wide : c.viewport_aspect ≤ 30000

-- A session with the fields of a timer.
abbrev pub session_of : Timer → Session
session_of t = record {
  focus = t.focus;
  break = t.break;
  pomodoro_remaining = t.pomodoro_remaining;
  pomodoro_duration = t.pomodoro_duration;
  break_remaining = t.break_remaining;
  break_duration = some t.break_duration;
}

-- Whenever the 2D page draws its satellite, the 3D sky has its own on display for the same snapshot, at
-- the same part of its orbit.
pub satellites_agree :
    (placed : Bool) (t : Timer) (c : Celestial) (part : ℕ × ℕ)
    → satellite placed t ≡ some part
    → let c' = update_pomodoro (some (session_of t)) c in
      (c'.orbit_visible ≡ true)
      × (c'.current_progress.done ≡ part.0)
      × (c'.current_progress.whole ≡ part.1)
unfolding satellite update_pomodoro
satellites_agree placed t c part h = ground arith
