-- ===== src/Forest.antt =====
-- frontend/src/3d/scenes/forest-scene.js: where the rocks and the logs of the clearing are put. Lengths are
-- in thousandths; a distance is compared by its square. The random values, and the sines and cosines of
-- random angles, are arguments, and so are the trees.
pub mod Apart
pub mod Motion
mod Tests
use aetheldesk.Base.{
  ℕ, ◌+◌, ◌-◌, ◌*◌, ◌/◌, Bool, true, false, not, ◌&&◌, ◌||◌, List, [], ◌∷◌, ltb, if◌then◌else◌,
}
use aetheldesk.Int.{ℤ, pos, negsuc, pos_part, neg_part, above, leb_ℤ}

pub record Footprint : Type 0 where
  pub x : ℤ
  pub z : ℤ
  pub radius : ℕ

pub record Spot : Type 0 where
  pub x : ℤ
  pub z : ℤ

-- The campfire, with the 5.5 that nothing else comes near.
abbrev pub campfire : Footprint
campfire = record { x = negsuc 13499; z = negsuc 5999; radius = 5500 }

abbrev pub apart : ℤ → ℤ → ℕ
apart a b = above a b + above b a

abbrev pub distance_squared : Spot → Footprint → ℕ
distance_squared s f = apart s.x f.x * apart s.x f.x + apart s.z f.z * apart s.z f.z

-- Math.hypot(x - f.x, z - f.z) < radius + f.radius
unfoldable pub is_near : Spot → ℕ → Footprint → Bool
is_near s radius f = ltb (distance_squared s f) ((radius + f.radius) * (radius + f.radius))

unfoldable pub any_near : Spot → ℕ → List Footprint → Bool
unfolding is_near
any_near s radius [] = false
any_near s radius (f ∷ fs) = is_near s radius f || any_near s radius fs

unfoldable pub is_ground_prop_clear : List Footprint → List Footprint → Spot → ℕ → Bool
unfolding is_near any_near
is_ground_prop_clear trees props s radius =
    if is_near s radius campfire
    then false
    else if any_near s radius trees
    then false
    else not (any_near s radius props)

-- The attempts: the first candidate that is clear, else the last one.
unfoldable pub settle : List Footprint → List Footprint → ℕ → Spot → List Spot → Spot
settle trees props radius here [] = here
settle trees props radius here (s ∷ rest) =
    let others : Spot = settle trees props radius s rest in
    if is_ground_prop_clear trees props s radius then s else others

-- What the random values say of a rock or of a log: its radius, where it starts and its candidates.
pub record Attempt : Type 0 where
  pub radius : ℕ
  pub start : Spot
  pub candidates : List Spot

-- size * 1.25 + 0.45 and size * 2.3, of a size in thousandths
abbrev pub rock_radius : ℕ → ℕ
rock_radius size = size * 5 / 4 + 450

abbrev pub log_radius : ℕ → ℕ
log_radius size = size * 23 / 10

-- rawZ > 6 ? -20 - rng() * 46 : rawZ
unfoldable pub rock_candidate : ℤ → ℤ → ℕ → Spot
rock_candidate x raw_z random = record {
  x = x;
  z = if leb_ℤ raw_z (pos 6000) then raw_z else negsuc (19999 + random * 46);
}

-- candidateX + (candidateX < 0 ? -14 : 14)
abbrev pub outwards : ℤ → ℤ
outwards (pos n) = pos (n + 14000)
outwards (negsuc n) = negsuc (n + 14000)

-- Math.abs(candidateX) < 12 && candidateZ > -32
abbrev pub in_clearing : ℤ → ℤ → Bool
in_clearing x z = ltb (pos_part x + neg_part x) 12000 && not (leb_ℤ z (negsuc 31999))

unfoldable pub log_candidate : ℤ → ℤ → Spot
log_candidate x z = record { x = if in_clearing x z then outwards x else x; z = z }

-- The loops over the rocks and over the logs: `props` are the footprints so far, the newest first.
unfoldable pub place_all : List Footprint → List Attempt → List Footprint → List Footprint
place_all trees [] props = props
place_all trees (a ∷ rest) props =
    let s : Spot = settle trees props a.radius a.start a.candidates in
    place_all trees rest (record { x = s.x; z = s.z; radius = a.radius } ∷ props)
