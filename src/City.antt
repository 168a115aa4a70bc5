-- ===== src/City.antt =====
-- frontend/src/3d/scenes/city-scene.js: the daytime traffic. Positions on the road are in parts of 100,000,
-- offsets and speeds in hundredths, times in milliseconds, elevations in hundredths of a degree; colours
-- and the drawing are left out.
pub mod Traffic
pub mod Night
mod Tests
use aetheldesk.Base.{
  ℕ, suc, ◌+◌, ◌-◌, ◌*◌, ◌%◌, min, Bool, true, false, List, [], ◌∷◌, leb, if◌then◌else◌, Option,
  none, some, get_or,
}
use aetheldesk.Int.{ℤ, pos, negsuc, pos_part, neg_part, above}

pub record Vehicle : Type 0 where
  pub lane : ℤ
  pub forward : Bool
  pub speed : ℕ
  pub offset : ℤ
  pub scale : ℕ
  pub taxi : Bool

abbrev pub half_span : ℕ
half_span = 31000000

abbrev pub span : ℕ
span = half_span * 2

-- a - b, as an integer
abbrev pub minus : ℕ → ℕ → ℤ
minus a b = if leb b a then pos (a - b) else negsuc (b - a - 1)

-- JavaScript's `n % m`, which has the sign of `n`; and (r + m) % m of such a remainder.
abbrev pub remainder : ℤ → ℕ → ℤ
remainder (pos n) m = pos (n % m)
remainder (negsuc n) m = minus 0 (suc n % m)

abbrev pub wrapped : ℤ → ℕ → ℕ
wrapped r m = (pos_part r + m - neg_part r) % m

-- offset + elapsed * speed * direction + CITY_TRAFFIC_HALF_SPAN
unfoldable pub raw_position : Vehicle → ℕ → ℤ
raw_position v elapsed =
    let start : ℕ = pos_part v.offset * 1000 + half_span in
    let back : ℕ = neg_part v.offset * 1000 in
    let travelled : ℕ = elapsed * v.speed in
    if v.forward then minus (start + travelled) back else minus start (back + travelled)

-- The place on the road, counted from its left end: the source takes half of the span off again.
unfoldable pub resolve_from_left : Vehicle → ℕ → ℕ
unfolding raw_position
resolve_from_left v elapsed = wrapped (remainder (raw_position v elapsed) span) span

unfoldable pub resolve_city_traffic_x : Vehicle → ℕ → ℤ
unfolding resolve_from_left
resolve_city_traffic_x v elapsed = minus (resolve_from_left v elapsed) half_span

-- sstep between -2 and 8 degrees, in parts of the cube of 1000; full for what is not a finite number
unfoldable pub city_day_traffic_mix : Option ℤ → ℕ
city_day_traffic_mix elevation =
    let t : ℕ = min 1000 (above (get_or elevation (pos 800)) (negsuc 199)) in t * t * (3000 - 2 * t)

unfoldable pub advance_city_traffic_time : ℕ → ℤ → Bool → ℕ
advance_city_traffic_time current delta reduced_motion =
    if reduced_motion then current else current + pos_part delta

abbrev pub right_lane : ℤ → ℕ → ℤ → ℕ → Bool → Vehicle
right_lane lane speed offset scale taxi = record {
  lane = lane;
  forward = true;
  speed = speed;
  offset = offset;
  scale = scale;
  taxi = taxi;
}

abbrev pub left_lane : ℤ → ℕ → ℤ → ℕ → Bool → Vehicle
left_lane lane speed offset scale taxi = record {
  lane = lane;
  forward = false;
  speed = speed;
  offset = offset;
  scale = scale;
  taxi = taxi;
}

-- CITY_DAY_TRAFFIC_LAYOUT
abbrev pub city_day_traffic_layout : List Vehicle
city_day_traffic_layout =
    right_lane (negsuc 4859) 235 (negsuc 28399) 96 true
    ∷ left_lane (negsuc 5139) 205 (negsuc 23599) 91 false
    ∷ right_lane (negsuc 4859) 265 (negsuc 17199) 90 false
    ∷ left_lane (negsuc 5139) 185 (negsuc 11199) 98 true
    ∷ right_lane (negsuc 4859) 215 (negsuc 4799) 88 false
    ∷ left_lane (negsuc 5139) 275 (pos 2800) 94 false
    ∷ right_lane (negsuc 4859) 195 (pos 10400) 100 true
    ∷ left_lane (negsuc 5139) 245 (pos 17800) 90 false
    ∷ right_lane (negsuc 14879) 285 (negsuc 25199) 78 false
    ∷ left_lane (negsuc 15119) 225 (negsuc 14399) 82 true
    ∷ right_lane (negsuc 14879) 255 (negsuc 3799) 76 false
    ∷ left_lane (negsuc 15119) 190 (pos 7600) 84 false
    ∷ right_lane (negsuc 14879) 270 (pos 17400) 80 false
    ∷ left_lane (negsuc 15119) 210 (pos 26800) 77 false
    ∷ []
