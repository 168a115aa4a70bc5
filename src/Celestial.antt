-- ===== src/Celestial.antt =====
-- frontend/src/3d/celestial.js: what the sky shows of the sun, the moon and the session. Elevations are in
-- hundredths of a degree, opacities in parts of 1200, light intensities in parts of 1,200,000, aspects
-- and pixel ratios in parts of 10,000, time in microseconds. Colours, the positions of the bodies and
-- the breathing of the halos are left out. `Celestial/Meteor.antt` has the shooting star,
-- `Celestial/Trail.antt` the trail of the satellite.
pub mod Meteor
pub mod Trail
pub mod Flight
pub mod Told
pub mod Visibility
mod Tests
use aetheldesk.Base.{
  ℕ, suc, ◌+◌, ◌-◌, ◌*◌, min, max, Bool, true, false, not, ◌&&◌, ◌||◌, Option, none, some, ltb,
  ◌==◌, if◌then◌else◌,
}
use aetheldesk.Int.{ℤ, pos, above}

-- T and L: the visibility and the light, as they should be and as they are.
pub record Levels : Type 0 where
  pub sun : ℕ
  pub moon : ℕ
  pub sun_light : ℕ
  pub moon_light : ℕ
  pub hemi : ℕ

-- A part of a whole.
pub record Progress : Type 0 where
  pub done : ℕ
  pub whole : ℕ

pub record Celestial : Type 0 where
  pub target : Levels
  pub live : Levels
  pub key_visible : Bool
  pub has_celestial_target : Bool
  pub last_elevation : Option ℤ
  pub horizontal_arc : ℕ
  pub is_focus_active : Bool
  pub current_progress : Progress
  pub orbit_visible : Bool
  pub night_sky_visible : Bool
  pub viewport_aspect : ℕ
  pub render_pixel_ratio : ℕ
  pub motion_time : ℕ

abbrev pub one : ℕ
one = 1200

-- `THREE.MathUtils.smoothstep` between 0 and 6 degrees is an argument.
module _ (smoothstep : ℤ → ℕ) where
  unfoldable pub levels_for : ℤ → Levels
  levels_for elevation =
      let sun : ℕ = smoothstep elevation in
      let moon : ℕ = min one (above (pos 600) elevation) in
      record {
        sun = sun;
        moon = moon;
        sun_light = max 12000 (sun * 2400);
        moon_light = max 12000 (moon * 1100);
        hemi = 960000 + sun * 3500;
      }

  unfoldable pub update_celestial_state : Option ℤ → Celestial → Celestial
  unfolding levels_for
  update_celestial_state none c = c
  update_celestial_state (some elevation) c = record c {
    key_visible = true;
    last_elevation = some elevation;
    horizontal_arc = min 2900000 (180 * c.viewport_aspect);
    target = levels_for elevation;
    has_celestial_target = true;
  }

  -- `none` is an aspect that is not a positive finite number.
  unfoldable pub set_viewport_aspect : Option ℕ → Celestial → Celestial
  unfolding update_celestial_state
  set_viewport_aspect none c = c
  set_viewport_aspect (some aspect) c =
      let next : ℕ = max 3500 (min 30000 aspect) in
      if c.viewport_aspect == next
      then c
      else update_celestial_state c.last_elevation (record c { viewport_aspect = next })

unfoldable pub set_pixel_ratio : Option ℕ → Celestial → Celestial
set_pixel_ratio none c = c
set_pixel_ratio (some ratio) c =
    if c.render_pixel_ratio == ratio then c else record c { render_pixel_ratio = ratio }

-- The part of a snapshot that `updatePomodoro` reads; a duration of the break that is not a finite number
-- is `none`.
pub record Session : Type 0 where
  pub focus : Bool
  pub break : Bool
  pub pomodoro_remaining : ℕ
  pub pomodoro_duration : ℕ
  pub break_remaining : ℕ
  pub break_duration : Option ℕ

-- Math.max(0, Math.min(1, 1 - remaining / duration))
abbrev pub elapsed_part : ℕ → ℕ → Progress
elapsed_part remaining duration = record { done = duration - remaining; whole = duration }

abbrev pub break_duration_or : Option ℕ → ℕ
break_duration_or none = 600
break_duration_or (some duration) = if ltb 0 duration then duration else 600

unfoldable pub update_pomodoro : Option Session → Celestial → Celestial
update_pomodoro none c = c
update_pomodoro (some s) c =
    if s.focus && ltb 0 s.pomodoro_duration
    then record c {
      is_focus_active = s.focus;
      current_progress = elapsed_part s.pomodoro_remaining s.pomodoro_duration;
      orbit_visible = true;
    }
    else if s.break
    then record c {
      is_focus_active = s.focus;
      current_progress = elapsed_part s.break_remaining (break_duration_or s.break_duration);
      orbit_visible = true;
    }
    else record c {
      is_focus_active = s.focus;
      current_progress = record { done = 0; whole = 1 };
      orbit_visible = false;
    }

-- A frame. `ease delta live target` is `live + (target - live) * (1 - Math.exp(-SMOOTH * delta))`.
module _ (ease : ℕ → ℕ → ℕ → ℕ) where
  unfoldable pub approach : ℕ → Levels → Levels → Levels
  approach delta live target =
      if ltb delta 500000
      then record {
        sun = ease delta live.sun target.sun;
        moon = ease delta live.moon target.moon;
        sun_light = ease delta live.sun_light target.sun_light;
        moon_light = ease delta live.moon_light target.moon_light;
        hemi = ease delta live.hemi target.hemi;
      }
      else target

  unfoldable pub update : ℕ → Bool → Celestial → Celestial
  unfolding approach
  update delta reduced_motion c =
      let live : Levels = approach delta c.live c.target in
      record c {
        live = live;
        motion_time = if reduced_motion then c.motion_time else c.motion_time + delta;
        night_sky_visible = ltb 12 live.moon;
      }

abbrev pub first_levels : Levels
first_levels = record { sun = 0; moon = 0; sun_light = 12000; moon_light = 12000; hemi = 960000 }

-- The aspect starts at 16 / 9.
abbrev pub create_celestial_system : Celestial
create_celestial_system = record {
  target = first_levels;
  live = first_levels;
  key_visible = false;
  has_celestial_target = false;
  last_elevation = none;
  horizontal_arc = 2900000;
  is_focus_active = false;
  current_progress = record { done = 0; whole = 1 };
  orbit_visible = false;
  night_sky_visible = false;
  viewport_aspect = 17778;
  render_pixel_ratio = 10000;
  motion_time = 0;
}
