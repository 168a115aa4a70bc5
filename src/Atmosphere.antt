-- ===== src/Atmosphere.antt =====
-- frontend/src/3d/atmosphere.js: the grade that an elevation of the sun has, and the live atmosphere that
-- eases towards it. A scalar is a fraction; a colour is mixed by Three.js, an argument. Times are in
-- microseconds, daylight in parts of 1800.
pub mod Stops
pub mod Between
pub mod Snap
mod Tests
use aetheldesk.Base.{
  ℕ, zero, suc, ◌+◌, ◌-◌, ◌*◌, min, Bool, true, false, ◌&&◌, Option, none, some, List, [], ◌∷◌, ltb,
  if◌then◌else◌,
}
use aetheldesk.Int.{ℤ, pos, negsuc, above, leb_ℤ}
use aetheldesk.Atmosphere.Stops.{Stop, ColorKey, ScalarKey, deep_night, midday, stops}

pub record Fraction : Type 0 where
  pub part : ℕ
  pub whole : ℕ

-- The loop of gradeForElevation: the first two neighbours that the elevation lies between.
unfoldable pub segment : ℤ → List Stop → Stop × Stop → Stop × Stop
segment e [] found = found
segment e (s ∷ []) found = found
segment e (a ∷ b ∷ rest) found =
    let later : Stop × Stop = segment e (b ∷ rest) found in
    if leb_ℤ a.elev e && leb_ℤ e b.elev then (a, b) else later

unfoldable pub bounds : ℤ → Stop × Stop
unfolding segment
bounds e =
    let (lo, hi) = segment e stops (deep_night, midday) in
    let hi' : Stop = if leb_ℤ e deep_night.elev then lo else hi in
    let lo' : Stop = if leb_ℤ midday.elev e then hi' else lo in (lo', hi')

-- t * t * (3 - 2 * t), of t = (elev - lo.elev) / span
unfoldable pub weight : ℤ → Stop → Stop → Fraction
weight e lo hi =
    let span : ℕ = above hi.elev lo.elev in
    let t : ℕ = min span (above e lo.elev) in
    if ltb 0 span
    then record { part = t * t * (3 * span - 2 * t); whole = span * span * span }
    else record { part = 0; whole = 1 }

-- lo[k] + (hi[k] - lo[k]) * s
unfoldable pub blend : Fraction → ℕ → ℕ → Fraction
blend s lo hi = record { part = lo * (s.whole - s.part) + hi * s.part; whole = s.whole }

pub record Grade (C : Type 0) : Type 0 where
  pub color : ColorKey → C
  pub scalar : ScalarKey → Fraction

pub record Live (C : Type 0) : Type 0 where
  pub target : Grade C
  pub current : Grade C
  pub target_elevation : ℤ
  pub current_elevation : ℤ
  pub target_daylight : ℕ
  pub current_daylight : ℕ

-- Math.min(1, Math.max(0, (elev + 6) / 18))
unfoldable pub daylight_for : ℤ → ℕ
daylight_for e = min 1800 (above e (negsuc 599))

-- `mix lo hi s` sets two colours from their codes and lerps the one to the other.
module _ {C : Type 0} (mix : ℕ → ℕ → Fraction → C) where
  unfoldable pub grade_for_elevation : ℤ → Grade C
  grade_for_elevation e =
      let (lo, hi) = bounds e in
      let s : Fraction = weight e lo hi in
      record {
        color = λ k. mix (lo.color k) (hi.color k) s;
        scalar = λ k. blend s (lo.scalar k) (hi.scalar k);
      }

  unfoldable pub create_atmosphere : Live C
  unfolding grade_for_elevation
  create_atmosphere = record {
    target = grade_for_elevation (negsuc 8999);
    current = grade_for_elevation (negsuc 8999);
    target_elevation = negsuc 8999;
    current_elevation = negsuc 8999;
    target_daylight = 0;
    current_daylight = 0;
  }

  -- `none` is a value that is not a number.
  unfoldable pub set_elevation : Option ℤ → Live C → Live C
  unfolding grade_for_elevation daylight_for
  set_elevation none a = a
  set_elevation (some e) a = record a {
    target_elevation = e;
    target_daylight = daylight_for e;
    target = grade_for_elevation e;
  }

-- How a frame of so long moves each kind of value towards its target.
pub record Easing (C : Type 0) : Type 0 where
  pub grade : ℕ → Grade C → Grade C → Grade C
  pub elevation : ℕ → ℤ → ℤ → ℤ
  pub daylight : ℕ → ℕ → ℕ → ℕ

-- A frame of more than half a second snaps.
unfoldable pub update : {C : Type 0} → Easing C → ℕ → Live C → Live C
update ease delta a =
    if ltb 500000 delta
    then record a {
      current = a.target;
      current_elevation = a.target_elevation;
      current_daylight = a.target_daylight;
    }
    else record a {
      current = ease.grade delta a.current a.target;
      current_elevation = ease.elevation delta a.current_elevation a.target_elevation;
      current_daylight = ease.daylight delta a.current_daylight a.target_daylight;
    }

unfoldable pub is_night : {C : Type 0} → Live C → Bool
is_night a = leb_ℤ a.current_elevation (pos 0)
