-- ===== src/City/Night/Traffic.antt =====
-- city-scene.js: lemmas on the traffic of day and night.
use native.Mathlib.Nat.{mul-le-mul, mul-le-mul_right, mul_assoc}
use aetheldesk.Base.{
  subst, ◌⊎◌, ◌∙◌, ℕ, ◌+◌, ◌-◌, ◌*◌, ◌^◌, ◌≤◌, ◌<◌, ◌≡◌, refl, min, Bool, true, Option, none, some,
  ltb, leb, arith, Bool-cases, inl, inr, leb→le,
}
use aetheldesk.Int.{ℤ, negsuc, above}
use aetheldesk.City.{city_day_traffic_mix, advance_city_traffic_time}
use aetheldesk.City.Night.{night_whole, night_for, City, Draws, update_night, update}

-- A cubic up to the middle of its range, and from there on.
low_part : (t d : ℕ) → t + d ≡ 700 → t * (2800 + 2 * d) ≤ 700 * 2800
low_part t d e =
    let k : t * d ≤ 700 * d = mul-le-mul_right d (omega arith) in
    let h : 2800 * t + 2800 * d ≡ 2800 * 700 = omega arith in omega (arith, k, h)

low_half : (t : ℕ) → t ≤ 700 → t * t * (4200 - 2 * t) ≤ 700 * (700 * 2800)
low_half t h =
    let e : 4200 - 2 * t ≡ 2800 + 2 * (700 - t) = omega arith in
    rw (e, mul_assoc t t (2800 + 2 * (700 - t))) (mul-le-mul h (low_part t (700 - t) (omega arith)))

high_part : (u : ℕ) → u ≤ 500 → 500 * 2000 ≤ (500 + u) * (2000 - 2 * u)
high_part u h =
    let d : ℕ = 500 - u in
    let e : 2000 - 2 * u ≡ 1000 + 2 * d = omega arith in
    let k : u + d ≡ 500 = omega arith in rw e (omega (arith, k))

high_half : (t : ℕ) → 500 ≤ t → t ≤ 1000 → 500 * (500 * 2000) ≤ t * t * (3000 - 2 * t)
high_half t h k =
    let e : 3000 - 2 * t ≡ 2000 - 2 * (t - 500) = omega arith in
    let same : 500 + (t - 500) ≡ t = omega arith in
    let part : 500 * 2000 ≤ t * (2000 - 2 * (t - 500)) =
      subst (λ (x : ℕ). 500 * 2000 ≤ x * (2000 - 2 * (t - 500))) same
        (high_part (t - 500) (omega arith)) in
    rw (e, mul_assoc t t (2000 - 2 * (t - 500))) (mul-le-mul h part)

lt→ltb : (a b : ℕ) → a < b → ltb a b ≡ true
lt→ltb a b h = ground arith

-- At half of its range or below the night is strong, above it the day's traffic is.
strong_night :
    (e : ℤ) → above e (negsuc 399) ≤ 700 → ltb night_whole (100 * night_for (some e)) ≡ true
unfolding night_for
strong_night e h =
    let t : ℕ = min 1400 (above e (negsuc 399)) in
    let half : t * t * (4200 - 2 * t) ≤ 700 * (700 * 2800) = low_half t (omega arith) in
    lt→ltb night_whole (100 * night_for (some e)) (omega (arith, half))

strong_day :
    (e : ℤ) → 700 ≤ above e (negsuc 399) → ltb (10 ^ 9) (100 * city_day_traffic_mix (some e)) ≡ true
unfolding city_day_traffic_mix
strong_day e h =
    let t : ℕ = min 1000 (above e (negsuc 199)) in
    let half : 500 * (500 * 2000) ≤ t * t * (3000 - 2 * t) =
      high_half t (omega arith) (omega arith) in
    lt→ltb (10 ^ 9) (100 * city_day_traffic_mix (some e)) (omega (arith, half))

visible_by :
    (elevation : Option ℤ)
    → (ltb (10 ^ 9) (100 * city_day_traffic_mix elevation) ≡ true)
      ⊎ (ltb night_whole (100 * night_for elevation) ≡ true)
unfolding night_for
visible_by none = inr refl
visible_by (some e) = elim (Bool-cases (leb (above e (negsuc 399)) 700)) [
  | inl low ↦ inr (strong_night e (leb→le (above e (negsuc 399)) 700 low))
  | inr up ↦ inl (strong_day e (ground arith))
]

module _ (ease : ℕ → ℕ → ℕ → ℕ) where
  shown_day :
      (delta : ℕ) (reduced : Bool) (d : Draws) (e : Option ℤ) (c : City)
      → (update ease delta reduced d e c).day_traffic_visible
        ≡ ltb (10 ^ 9) (100 * city_day_traffic_mix e)
  unfolding update update_night
  shown_day delta reduced d e c = elim (Bool-cases (ltb night_whole (100 * night_for e))) [
    | inl h ↦ rw h refl
    | inr h ↦ rw h refl
  ]

  shown_night :
      (delta : ℕ) (reduced : Bool) (d : Draws) (e : Option ℤ) (c : City)
      → (update ease delta reduced d e c).night_effects_visible
        ≡ ltb night_whole (100 * night_for e)
  unfolding update update_night
  shown_night delta reduced d e c = elim (Bool-cases (ltb night_whole (100 * night_for e))) [
    | inl h ↦ rw h refl
    | inr h ↦ rw h refl
  ]

  -- In every frame, whatever the elevation of the sun and with or without an atmosphere, the city has the
  -- traffic of the day or that of the night on display.
  pub update_traffic :
      (delta : ℕ) (reduced : Bool) (d : Draws) (e : Option ℤ) (c : City)
      → let after = update ease delta reduced d e c in
        (after.day_traffic_visible ≡ true) ⊎ (after.night_effects_visible ≡ true)
  update_traffic delta reduced d e c = elim (visible_by e) [
    | inl h ↦ inl (shown_day delta reduced d e c ∙ h)
    | inr h ↦ inr (shown_night delta reduced d e c ∙ h)
  ]

  -- With reduced motion a frame moves no vehicle and changes no window.
  pub update_still :
      (delta : ℕ) (d : Draws) (e : Option ℤ) (c : City)
      → let after = update ease delta true d e c in
        (after.day_traffic_time ≡ c.day_traffic_time)
        × (after.motion_time ≡ c.motion_time)
        × (after.car_time ≡ c.car_time)
        × (after.flicker ≡ c.flicker)
  unfolding update update_night advance_city_traffic_time
  update_still delta d e c = elim (Bool-cases (ltb night_whole (100 * night_for e))) [
    | inl h ↦ rw h (refl, refl, omega arith, refl)
    | inr h ↦ rw h (refl, refl, refl, refl)
  ]
