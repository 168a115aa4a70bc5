-- ===== src/Forest/Tests.antt =====
-- Two rocks and a tree, for the properties of forest-scene.js.
use aetheldesk.Base.{◌≡◌, refl, true, false, List, [], ◌∷◌}
use aetheldesk.Int.{ℤ, pos, negsuc, leb_ℤ}
use aetheldesk.Forest.{
  Footprint, Spot, Attempt, rock_radius, place_all, settle, is_ground_prop_clear, log_candidate,
  rock_candidate, in_clearing,
}
use aetheldesk.Forest.Apart.{candidates_outside}

abbrev tree : Footprint
tree = record { x = pos 20000; z = negsuc 19999; radius = 900 }

abbrev spot : ℤ → ℤ → Spot
spot x z = record { x = x; z = z }

abbrev rock : List Spot → Attempt
rock candidates = record {
  radius = rock_radius 400;
  start = spot (pos 0) (negsuc 29999);
  candidates = candidates;
}

-- The first candidate of the second rock is where the first rock is.
abbrev rocks : List Attempt
rocks =
    rock (spot (pos 20000) (negsuc 19999) ∷ spot (pos 30000) (pos 2000) ∷ [])
    ∷ rock (spot (pos 30000) (pos 2500) ∷ spot (negsuc 29999) (pos 2000) ∷ [])
    ∷ []

second_choices :
    place_all (tree ∷ []) rocks []
    ≡ record { x = negsuc 29999; z = pos 2000; radius = 950 }
      ∷ record { x = pos 30000; z = pos 2000; radius = 950 }
      ∷ []
unfolding place_all settle is_ground_prop_clear
second_choices = refl

candidates_outside_example :
    let log = log_candidate (negsuc 2999) (negsuc 9999) in
    (in_clearing log.x log.z ≡ false)
    × (leb_ℤ (rock_candidate (negsuc 2999) (negsuc 9999) 500).z (pos 6000) ≡ true)
candidates_outside_example = candidates_outside (negsuc 2999) (negsuc 9999) 500
