-- ===== src/Seeds.antt =====
-- The seeded random numbers of the 3D code: `hashSeed`, `createSeededRandom` and the layout of
-- frontend/src/3d/reward-constellation.js, the generator `makeRng` of celestial.js and the scenes, and the
-- hash of the cloud noise in sky-scene.js. An int32 is its bit pattern, below 2 ^ 32; a random value is a
-- number of parts of 2 ^ 32; a text is its char codes. Angles are in parts of a turn, or in hundredths
-- of a radian times 2 ^ 32 above the lowest; a radius and a strength are in hundredths, a size in tenths.
pub mod Streams
pub mod Layout
mod Tests
use Prim.Native.Nat.{bit_xor, bit_or}
use aetheldesk.Base.{
  ℕ, zero, suc, ◌+◌, ◌*◌, ◌/◌, ◌%◌, ◌^◌, Bool, true, false, List, [], ◌∷◌, ltb, ◌==◌, if◌then◌else◌,
}

abbrev pub uint32 : ℕ → ℕ
uint32 n = n % 2 ^ 32

-- Math.imul
abbrev pub imul : ℕ → ℕ → ℕ
imul a b = uint32 (a * b)

-- n >>> k
abbrev pub shift_right : ℕ → ℕ → ℕ
shift_right n k = n / 2 ^ k

unfoldable pub hash_from : ℕ → List ℕ → ℕ
hash_from hash [] = uint32 hash
hash_from hash (code ∷ codes) = hash_from (imul (bit_xor hash code) 0x01000193) codes

unfoldable pub hash_seed : List ℕ → ℕ
unfolding hash_from
hash_seed codes = hash_from 0x811c9dc5 codes

-- hashSeed(seed) || 0x6d2b79f5
unfoldable pub first_state : List ℕ → ℕ
unfolding hash_seed
first_state codes = if hash_seed codes == 0 then 0x6d2b79f5 else hash_seed codes

-- The value of a state; the state itself is a number that only grows.
unfoldable pub mulberry : ℕ → ℕ
mulberry state =
    let v : ℕ = uint32 state in
    let a : ℕ = imul (bit_xor v (shift_right v 15)) (bit_or v 1) in
    let b : ℕ = bit_xor a (uint32 (a + imul (bit_xor a (shift_right a 7)) (bit_or a 61))) in
    uint32 (bit_xor b (shift_right b 14))

-- The n-th call of the function that createSeededRandom returns, from 0 on.
unfoldable pub seeded_random : ℕ → ℕ → ℕ
unfolding mulberry
seeded_random state n = mulberry (state + (n + 1) * 0x6d2b79f5)

pub record RewardStar : Type 0 where
  pub slot : ℕ
  pub mirrored : Bool
  pub jitter : ℕ
  pub radius : ℕ
  pub z : ℕ
  pub strength : ℕ
  pub size : ℕ

pub record RewardLayout : Type 0 where
  pub base_angle : ℕ
  pub stars : List RewardStar

-- `draw n` is the n-th random value: two for the mark, then four for each star.
abbrev pub layout_star : (ℕ → ℕ) → Bool → ℕ → RewardStar
layout_star draw mirrored i = record {
  slot = i;
  mirrored = mirrored;
  jitter = 24 * draw (2 + 4 * i);
  radius = 72 * 2 ^ 32 + 20 * draw (3 + 4 * i);
  z = 18 + 3 * i;
  strength = 78 * 2 ^ 32 + 22 * draw (4 + 4 * i);
  size = 54 * 2 ^ 32 + 22 * draw (5 + 4 * i);
}

unfoldable pub stars_from : (ℕ → ℕ) → Bool → ℕ → ℕ → List RewardStar
stars_from draw mirrored i zero = []
stars_from draw mirrored i (suc n) =
    layout_star draw mirrored i ∷ stars_from draw mirrored (i + 1) n

unfoldable pub build_reward_constellation_layout : List ℕ → RewardLayout
unfolding stars_from
build_reward_constellation_layout codes =
    let draw : ℕ → ℕ = seeded_random (first_state codes) in
    record { base_angle = draw 0; stars = stars_from draw (ltb (draw 1) (2 ^ 31)) 0 4 }

-- makeRng: the step of its state, which is also its value.
unfoldable pub make_rng : ℕ → ℕ
make_rng state = uint32 (state * 1664525 + 1013904223)

-- hashGrid of the cloud noise
unfoldable pub hash_grid : ℕ → ℕ → ℕ → ℕ
hash_grid x y seed =
    let n : ℕ = uint32 (imul x 374761393 + imul y 668265263 + imul seed 1442695041) in
    let m : ℕ = imul (bit_xor n (shift_right n 13)) 1274126177 in
    uint32 (bit_xor m (shift_right m 16))
