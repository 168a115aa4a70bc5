-- ===== src/City/Night.antt =====
-- city-scene.js: what the frames of `update` make of the sun and of time. Elevations and the flicker's values are
-- in hundredths, times in milliseconds; the strength of the night is a part of the cube of 1400. Colours,
-- sines of the time and the places of the aircraft and the beams are left out.
pub mod Traffic
use aetheldesk.Base.{
  ℕ, ◌+◌, ◌-◌, ◌*◌, ◌^◌, min, Bool, true, false, not, ◌&&◌, Option, none, some, List, [], ◌∷◌, ltb,
  leb, if◌then◌else◌,
}
use aetheldesk.Int.{ℤ, pos, negsuc, above}
use aetheldesk.Arrays.{get_or, set}
use aetheldesk.City.{city_day_traffic_mix, advance_city_traffic_time}

abbrev pub night_whole : ℕ
night_whole = 1400 * 1400 * 1400

-- 1 - sstep(-4, 10, elevation), and 1 without an atmosphere
unfoldable pub night_for : Option ℤ → ℕ
night_for none = night_whole
night_for (some elevation) =
    let t : ℕ = min 1400 (above elevation (negsuc 399)) in night_whole - t * t * (4200 - 2 * t)

-- The windows of the late rooms. The timer is set anew before it counts below zero.
pub record Flicker : Type 0 where
  pub timer : ℕ
  pub targets : List ℕ
  pub current : List ℕ

pub record City : Type 0 where
  pub day_traffic_visible : Bool
  pub day_traffic_opacity : ℕ
  pub day_traffic_time : ℕ
  pub night_effects_visible : Bool
  -- The factors 0.95, 1.18 and 0.9 of the night, in hundredths.
  pub window_opacity : ℕ
  pub ground_emissive : ℕ
  pub flicker_opacity : ℕ
  pub motion_time : ℕ
  pub car_time : ℕ
  pub flicker : Flicker

-- The random values of a frame: which window changes, and how bright it may become.
pub record Draws : Type 0 where
  pub index : ℕ
  pub lit : ℕ

module _ (ease : ℕ → ℕ → ℕ → ℕ) where
  abbrev pub ease_all : ℕ → List ℕ → List ℕ → List ℕ
  ease_all delta [] targets = []
  ease_all delta (c ∷ cs) [] = c ∷ cs
  ease_all delta (c ∷ cs) (t ∷ ts) = ease delta c t ∷ ease_all delta cs ts

  unfoldable pub update_flicker : ℕ → Draws → Flicker → Flicker
  update_flicker delta d f =
      let due : Bool = leb f.timer delta in
      let switched : ℕ = if ltb 50 (get_or f.targets d.index 0) then 8 else d.lit in
      let targets : List ℕ = if due then set f.targets d.index switched else f.targets in
      record {
        timer = if due then 4500 else f.timer - delta;
        targets = targets;
        current = ease_all delta f.current targets;
      }

  abbrev pub is_empty : List ℕ → Bool
  is_empty [] = true
  is_empty (x ∷ xs) = false

  -- The frame after its early return, at night.
  unfoldable pub update_night : ℕ → Bool → Draws → ℕ → City → City
  unfolding update_flicker
  update_night delta reduced_motion d night c =
      let flickers : Bool =
        not reduced_motion
        && ltb (5 * night_whole) (100 * night)
        && not (is_empty c.flicker.targets) in
      record c {
        motion_time = if reduced_motion then c.motion_time else c.motion_time + delta;
        car_time = c.car_time + delta * (if reduced_motion then 0 else 1);
        window_opacity = night * 95;
        ground_emissive = night * 118;
        flicker = if flickers then update_flicker delta d c.flicker else c.flicker;
        flicker_opacity = night * 90;
      }

  unfoldable pub update : ℕ → Bool → Draws → Option ℤ → City → City
  unfolding night_for update_night
  update delta reduced_motion d elevation c =
      let night : ℕ = night_for elevation in
      let strength : ℕ = city_day_traffic_mix elevation in
      let effects : Bool = ltb night_whole (100 * night) in
      let lit : City = record c {
        day_traffic_visible = ltb (10 ^ 9) (100 * strength);
        day_traffic_opacity = strength;
        day_traffic_time = advance_city_traffic_time c.day_traffic_time (pos delta) reduced_motion;
        night_effects_visible = effects;
      } in
      if effects
      then update_night delta reduced_motion d night lit
      else record lit { window_opacity = 0; ground_emissive = 0 }
