-- ===== src/City/Tests.antt =====
-- The first taxi of each lane, for the properties of city-scene.js.
use aetheldesk.Base.{ℕ, false, [], ◌∷◌, ◌⊎◌, ◌+◌, ◌*◌, ◌%◌, ◌<◌, ◌≡◌, refl, true, head?, some}
use aetheldesk.Int.{pos, negsuc}
use aetheldesk.City.{
  Vehicle, span, right_lane, city_day_traffic_layout, resolve_from_left, resolve_city_traffic_x,
}
use aetheldesk.City.Night.{City, Draws, update}
use aetheldesk.City.Night.Traffic.{update_traffic}
use aetheldesk.City.Traffic.{traffic_moves}

abbrev first_taxi : Vehicle
first_taxi = right_lane (negsuc 4859) 235 (negsuc 28399) 96 true

is_first : head? city_day_traffic_layout ≡ some first_taxi
is_first = refl

-- It leaves the road on the right and comes back on the left.
comes_back : resolve_city_traffic_x first_taxi 260000 ≡ negsuc 29299999
unfolding resolve_city_traffic_x
comes_back = refl

traffic_moves_example :
    let p = resolve_from_left first_taxi 250000 in
    let q = resolve_from_left first_taxi 260000 in
    (p < span) × (q < span) × (q ≡ (p + 10000 * 235) % span)
traffic_moves_example = traffic_moves first_taxi 250000 10000

abbrev evening : City
evening = record {
  day_traffic_visible = true;
  day_traffic_opacity = 0;
  day_traffic_time = 5000;
  night_effects_visible = false;
  window_opacity = 0;
  ground_emissive = 0;
  flicker_opacity = 0;
  motion_time = 5000;
  car_time = 5000;
  flicker = record { timer = 1500; targets = 70 ∷ 8 ∷ []; current = 40 ∷ 40 ∷ [] };
}

abbrev draws : Draws
draws = record { index = 1; lit = 90 }

abbrev jump : ℕ → ℕ → ℕ → ℕ
jump delta live target = target

update_traffic_example :
    let after = update jump 16 false draws (some (pos 300)) evening in
    (after.day_traffic_visible ≡ true) ⊎ (after.night_effects_visible ≡ true)
update_traffic_example = update_traffic jump 16 false draws (some (pos 300)) evening
