-- ===== src/Seeds/Layout.antt =====
-- reward-constellation.js: lemmas on the layout of a seed.
use aetheldesk.Base.{
  ℕ, ◌+◌, ◌*◌, ◌^◌, ◌≤◌, ◌<◌, ◌≡◌, refl, Bool, List, [], ◌∷◌, All, map, arith, ltb,
}
use aetheldesk.Seeds.{
  RewardStar, mulberry, seeded_random, first_state, layout_star, build_reward_constellation_layout,
}

-- Within the ring, lit and sized as the layout has it.
pub record IsInRing (s : RewardStar) : Type 0 where
  pub jitters : s.jitter < 24 * 2 ^ 32
  pub inner : 72 * 2 ^ 32 ≤ s.radius
  pub outer : s.radius < 92 * 2 ^ 32
  pub bright : 78 * 2 ^ 32 ≤ s.strength
  pub capped : s.strength < 100 * 2 ^ 32
  pub large : 54 * 2 ^ 32 ≤ s.size
  pub small : s.size < 76 * 2 ^ 32

random-lt : (state n : ℕ) → seeded_random state n < 2 ^ 32
unfolding seeded_random mulberry
random-lt state n = omega arith

star-IsInRing :
    (draw : ℕ → ℕ)
    → ((n : ℕ) → draw n < 2 ^ 32)
    → (m : Bool) (i : ℕ) → IsInRing (layout_star draw m i)
star-IsInRing draw small m i = record {
  jitters = omega (arith, small (2 + 4 * i));
  inner = omega arith;
  outer = omega (arith, small (3 + 4 * i));
  bright = omega arith;
  capped = omega (arith, small (4 + 4 * i));
  large = omega arith;
  small = omega (arith, small (5 + 4 * i));
}

-- Of any seed the layout has four stars, one for each quarter of the turn in their order, all turned the
-- way that the second random value says; each stays within its bounds of angle, radius, strength and size, and the base angle is less
-- than a turn.
pub layout_bounds :
    (codes : List ℕ)
    → let layout = build_reward_constellation_layout codes in
      (map (λ (s : RewardStar). s.slot) layout.stars ≡ 0 ∷ 1 ∷ 2 ∷ 3 ∷ [])
      × All
          (λ (s : RewardStar). s.mirrored ≡ ltb (seeded_random (first_state codes) 1) (2 ^ 31))
          layout.stars
      × All IsInRing layout.stars
      × (layout.base_angle < 2 ^ 32)
unfolding build_reward_constellation_layout
layout_bounds codes =
    let draw : ℕ → ℕ = seeded_random (first_state codes) in
    let star = star-IsInRing draw (random-lt (first_state codes)) in
    (
      refl,
      (refl, (refl, (refl, (refl, tt)))),
      (star _ 0, (star _ 1, (star _ 2, (star _ 3, tt)))),
      random-lt (first_state codes) 0,
    )
