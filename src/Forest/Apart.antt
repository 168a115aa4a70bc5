-- ===== src/Forest/Apart.antt =====
-- forest-scene.js: lemmas on what the rocks and logs stand clear of.
use aetheldesk.Base.{ℕ, ◌+◌, ◌*◌, ◌≤◌, ◌≡◌, ◌⊎◌, true, false, List, [], ◌∷◌, All, arith}
use aetheldesk.Int.{ℤ, pos, negsuc, leb_ℤ}
use aetheldesk.Forest.{
  Footprint, Spot, Attempt, campfire, distance_squared, is_ground_prop_clear, log_candidate,
  in_clearing, rock_candidate,
}

-- The distance between the middles is at least the sum of the radii.
abbrev pub Clear : Spot → ℕ → Footprint → Type 0
Clear s radius f = (radius + f.radius) * (radius + f.radius) ≤ distance_squared s f

abbrev pub spot_of : Footprint → Spot
spot_of f = record { x = f.x; z = f.z }

-- Clear of the campfire, of every tree and of every rock and log that was put down before.
abbrev pub StandsClear : List Footprint → List Footprint → Footprint → Type 0
StandsClear trees props f =
    Clear (spot_of f) f.radius campfire
    × All (Clear (spot_of f) f.radius) trees
    × All (Clear (spot_of f) f.radius) props

-- None of the candidates was clear.
abbrev pub AllBlocked : List Footprint → List Footprint → ℕ → List Spot → Type 0
AllBlocked trees props radius candidates =
    All (λ s. is_ground_prop_clear trees props s radius ≡ false) candidates

-- One of the candidates, or the start where there are none.
abbrev pub IsOneOf : Spot → Spot → List Spot → Type 0
IsOneOf s start [] = s ≡ start
IsOneOf s start (c ∷ cs) = (s ≡ c) ⊎ IsOneOf s c cs

-- What an attempt puts down among the trees and the props that are there: it has the attempt's radius, it
-- is at one of its candidates, and it stands clear, or each of them was blocked.
abbrev pub SettledBy : List Footprint → List Footprint → Attempt → Footprint → Type 0
SettledBy trees props a f =
    (f.radius ≡ a.radius)
    × IsOneOf (spot_of f) a.start a.candidates
    × (StandsClear trees props f ⊎ AllBlocked trees props a.radius a.candidates)

-- The attempts put down one prop each, in their order, onto those that are there.
abbrev pub AllSettled : List Footprint → List Attempt → List Footprint → List Footprint → Type 0
AllSettled trees [] props placed = placed ≡ props
AllSettled trees (a ∷ rest) props placed =
    (f : Footprint) × SettledBy trees props a f × AllSettled trees rest (f ∷ props) placed

-- No candidate of a log lies in the clearing in front of the camera, and none of a rock behind it.
pub candidates_outside :
    (x z : ℤ) (random : ℕ)
    → let log = log_candidate x z in
      (in_clearing log.x log.z ≡ false) × (leb_ℤ (rock_candidate x z random).z (pos 6000) ≡ true)
unfolding log_candidate rock_candidate
candidates_outside (pos n) z random = ground arith
candidates_outside (negsuc n) z random = ground arith
