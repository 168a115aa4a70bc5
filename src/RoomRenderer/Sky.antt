-- ===== src/RoomRenderer/Sky.antt =====
-- room-renderer.js: the 2D stars, clouds and satellite, which are drawn where the 3D engine is not on.
-- `requestAnimationFrame` numbers the frames that it is asked for.
use aetheldesk.Base.{
  ℕ, ◌+◌, ◌-◌, min, Bool, true, false, not, ◌&&◌, ◌||◌, Option, none, some, List, [], ◌∷◌, ltb,
  ◌==◌, if◌then◌else◌,
}

pub record Sky : Type 0 where
  pub stars_drawn : Bool
  pub has_clouds : Bool
  pub cloud_raf : Option ℕ
  pub pending : List ℕ
  pub requests : ℕ

abbrev pub without : ℕ → List ℕ → List ℕ
without id [] = []
without id (x ∷ xs) = let rest : List ℕ = without id xs in if x == id then rest else x ∷ rest

-- animateClouds, but for the drawing
unfoldable pub animate_clouds : Bool → Sky → Sky
animate_clouds reduced_motion s = if reduced_motion then s else record s {
  cloud_raf = some s.requests;
  pending = s.requests ∷ s.pending;
  requests = s.requests + 1;
}

unfoldable pub init_clouds : Bool → Sky → Sky
unfolding animate_clouds
init_clouds reduced_motion s =
    if s.has_clouds then s else animate_clouds reduced_motion (record s { has_clouds = true })

-- renderCelestial, the part that is left out while the 3D engine is on
unfoldable pub render_sky : Bool → Bool → Bool → Sky → Sky
unfolding init_clouds
render_sky is_3d reduced_motion night s =
    if is_3d
    then s
    else init_clouds reduced_motion (record s { stars_drawn = s.stars_drawn || night })

abbrev pub cancel : Option ℕ → List ℕ → List ℕ
cancel none ids = ids
cancel (some id) ids = without id ids

unfoldable pub reset_for_resize : Bool → Bool → Bool → Sky → Sky
unfolding render_sky
reset_for_resize is_3d reduced_motion night s = render_sky is_3d reduced_motion night (
    if is_3d then s else record s {
      stars_drawn = false;
      has_clouds = false;
      cloud_raf = none;
      pending = cancel s.cloud_raf s.pending;
    })

-- The display calls back for a frame that was asked for.
unfoldable pub frame : Bool → ℕ → Sky → Sky
unfolding animate_clouds
frame reduced_motion id s =
    animate_clouds reduced_motion (record s { pending = without id s.pending })

-- What the timer's line and the satellite are drawn from: seconds left of how many.
pub record Timer : Type 0 where
  pub focus : Bool
  pub break : Bool
  pub pomodoro_remaining : ℕ
  pub pomodoro_duration : ℕ
  pub break_remaining : ℕ
  pub break_duration : ℕ

abbrev pub part_of : ℕ → ℕ → ℕ × ℕ
part_of remain total = (min remain total, total)

-- renderSatellite, the line under the timer: the part of its width, `none` where it is away at full width.
unfoldable pub progress_line : Timer → Option (ℕ × ℕ)
progress_line t =
    if t.focus
    then if ltb 0 t.pomodoro_duration
      then some (part_of t.pomodoro_remaining t.pomodoro_duration)
      else none
    else if t.break && ltb 0 t.break_duration
    then some (part_of t.break_remaining t.break_duration)
    else none

-- The 2D satellite: the part of its orbit, `none` where it is away. `placed` is whether a celestial
-- position is known.
unfoldable pub satellite : Bool → Timer → Option (ℕ × ℕ)
satellite placed t =
    if not t.focus || not placed || not (ltb 0 t.pomodoro_duration)
    then none
    else some (t.pomodoro_duration - t.pomodoro_remaining, t.pomodoro_duration)
