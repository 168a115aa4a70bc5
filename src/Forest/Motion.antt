-- ===== src/Forest/Motion.antt =====
-- forest-scene.js: what rises and drifts around the fire in `update`. Lengths are in millionths, sizes and speeds
-- in thousandths, times in milliseconds; the mist is counted from its left end. What sways by a sine or
-- drifts to the side, and the opacities, are left out.
pub mod Loops
use aetheldesk.Base.{ℕ, ◌+◌, ◌-◌, ◌*◌, Bool, true, false, List, [], ◌∷◌, map, ltb, if◌then◌else◌}

pub record Ember : Type 0 where
  pub y : ℕ
  pub life : ℕ
  pub size : ℕ

pub record Drift : Type 0 where
  pub at : ℕ
  pub speed : ℕ

pub record Clearing : Type 0 where
  pub motion_time : ℕ
  pub embers : List Ember
  pub mist : List Drift
  pub smoke : List Drift

-- Past the end it starts again.
abbrev pub wrap_past : ℕ → ℕ → ℕ
wrap_past end n = if ltb end n then 0 else n

abbrev pub still : Bool → ℕ → ℕ
still reduced_motion delta = if reduced_motion then 0 else delta

unfoldable pub move_ember : ℕ → Ember → Ember
move_ember time e = record e { y = wrap_past e.life (e.y + (900 + e.size * 2) * time) }

abbrev pub mist_span : ℕ
mist_span = 840000000

abbrev pub smoke_top : ℕ
smoke_top = 10000000

unfoldable pub move_drift : ℕ → ℕ → Drift → Drift
move_drift end time d = record d { at = wrap_past end (d.at + d.speed * time) }

-- The size of an ember's sprite: size * (0.5 + fade * 0.8), in parts of 10,000 times its life.
unfoldable pub ember_scale : Ember → ℕ
ember_scale e = e.size * (5 * e.life + 8 * (e.life - e.y))

unfoldable pub update : ℕ → Bool → Clearing → Clearing
unfolding move_ember move_drift
update delta reduced_motion c =
    let time : ℕ = still reduced_motion delta in
    record {
      motion_time = if reduced_motion then c.motion_time else c.motion_time + delta;
      embers = map (move_ember time) c.embers;
      mist = map (move_drift mist_span time) c.mist;
      smoke = map (move_drift smoke_top time) c.smoke;
    }
