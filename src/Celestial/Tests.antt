-- ===== src/Celestial/Tests.antt =====
-- A sky whose places are numbers, and a ramp for smoothstep, for the properties of celestial.js.
use aetheldesk.Base.{ℕ, ◌+◌, ◌*◌, ◌≡◌, refl, min, true, false, some, List, [], ◌∷◌}
use aetheldesk.Int.{ℤ, pos, negsuc, above}
use aetheldesk.Celestial.Meteor.{Draws, Vertex, parked, lit, update_meteors, create_layer}
use aetheldesk.Celestial.Flight.{Frame, Night, waiting, next_night, night_after, trail_length, run}
use aetheldesk.Celestial.Flight.Shown.{drawn, display, drawn-update_meteors}
use aetheldesk.Celestial.Trail.{trail_count, update_trail, create_trail}
use aetheldesk.Celestial.Trail.Points
use aetheldesk.Celestial.Trail.Points.{streak, spread, points-update_trail}
use aetheldesk.Celestial.Told.{Call, states, aspects, frames}

abbrev onwards : ℕ → ℕ → ℕ → ℕ → ℕ
onwards head dir speed delta = head + dir

abbrev from_100 : Draws ℕ
from_100 = record { head = 100; dir = 7; speed = 180; duration = 700000; pause = 40000000 }

abbrev map_places : List (Vertex ℕ) → List ℕ
map_places [] = []
map_places (parked ∷ vs) = map_places vs
map_places (lit p alpha ∷ vs) = p ∷ map_places vs

abbrev night_frame : ℕ → Frame ℕ
night_frame delta = record { moon = 1200; delta = delta; reduced_motion = false; draws = from_100 }

abbrev night_frames : List (Frame ℕ)
night_frames = night_frame 7000000 ∷ night_frame 16000 ∷ night_frame 16000 ∷ []

abbrev before : Night ℕ
before = night_after 0 onwards night_frames (waiting 6000000)

-- The fourth frame draws three places.
three_places :
    map_places (
      drawn 0 onwards (
        update_meteors 0 onwards 1200 16000 false from_100
          (run 0 onwards night_frames (create_layer 0 onwards 6000000))))
    ≡ 121 ∷ 114 ∷ 107 ∷ []
unfolding update_meteors run create_layer
three_places = refl

drawn-update_meteors_example :
    let night = next_night 0 onwards 16000 from_100 before in
    drawn 0 onwards (
      update_meteors 0 onwards 1200 16000 false from_100
        (run 0 onwards night_frames (create_layer 0 onwards 6000000)))
    ≡ display 0 onwards 1200 night 0 (trail_length night)
drawn-update_meteors_example =
    drawn-update_meteors 0 onwards 6000000 night_frames (night_frame 16000)

abbrev trail_frames : List (Points.Frame ℕ)
trail_frames =
    record { orbit_visible = true; reduced_motion = false; place = 1 }
    ∷ record { orbit_visible = false; reduced_motion = false; place = 2 }
    ∷ record { orbit_visible = true; reduced_motion = false; place = 3 }
    ∷ []

points-update_trail_example :
    (update_trail 0 true false 4 (Points.run 0 trail_frames (create_trail 0))).points
    ≡ spread 0 (4 ∷ 3 ∷ []) 4 0 trail_count
points-update_trail_example = points-update_trail 0 trail_frames 4

abbrev ramp : ℤ → ℕ
ramp e = min 1200 (above e (pos 0) * 2)

abbrev halfway : ℕ → ℕ → ℕ → ℕ
halfway delta live target = target

abbrev dusk : List Call
dusk =
    aspects (some 5000)
    ∷ states (some (pos 4500))
    ∷ frames 16000 false
    ∷ states (some (negsuc 299))
    ∷ []
