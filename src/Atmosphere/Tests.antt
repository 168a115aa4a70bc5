-- ===== src/Atmosphere/Tests.antt =====
-- A low sun, with colours kept as their two codes, for the properties of atmosphere.js.
use aetheldesk.Base.{ℕ, ◌*◌, ◌≤◌, ◌<◌, ◌≡◌, refl, min, max}
use aetheldesk.Int.{pos}
use aetheldesk.Atmosphere.Stops.{stops, key_intensity, fog_density}
use aetheldesk.Atmosphere.{Fraction, bounds, weight, blend, grade_for_elevation}
use aetheldesk.Atmosphere.Between.{Brackets, grade_between}

abbrev codes : ℕ → ℕ → Fraction → ℕ × ℕ
codes lo hi s = (lo, hi)

-- Half way from the golden hour to the warm morning the key light has half of the way behind it.
at_seven :
    (grade_for_elevation codes (pos 700)).scalar key_intensity
    ≡ record { part = 185000 * 1000 * 1000 * 1000; whole = 1000 * 1000 * 1000 }
unfolding grade_for_elevation bounds weight blend
at_seven = refl

grade_between_example :
    let (lo, hi) = bounds (pos 700) in
    let g = (grade_for_elevation codes (pos 700)).scalar fog_density in
    Brackets (pos 700) stops (lo, hi)
    × (min (lo.scalar fog_density) (hi.scalar fog_density) * g.whole ≤ g.part)
    × (g.part ≤ max (lo.scalar fog_density) (hi.scalar fog_density) * g.whole)
    × (0 < g.whole)
grade_between_example = grade_between codes (pos 700) fog_density refl
