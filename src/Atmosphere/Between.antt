-- ===== src/Atmosphere/Between.antt =====
-- atmosphere.js: lemmas on where a grade lies between two stops.
use aetheldesk.Base.{
  ℕ, zero, suc, ◌+◌, ◌-◌, ◌*◌, ◌≤◌, ◌<◌, ◌≡◌, List, [], ◌∷◌, ◌⊎◌, refl, sym, true, false, min, max,
  Bool, not, ◌&&◌, ltb, arith, inl, inr, Bool-cases, if_intro, subst, leb, leb→le,
}
use aetheldesk.Int.{ℤ, pos, negsuc, above, leb_ℤ}
use aetheldesk.Atmosphere.Stops.{Stop, ScalarKey, deep_night, midday, stops}
use aetheldesk.Atmosphere.{Fraction, segment, bounds, weight, blend, grade_for_elevation}

-- A cubic that stays between 0 and 1: t * t * (3 * s - 2 * t) is at most s * s * s.
cubic_split : (t m : ℕ) → t * t * (3 * (t + m) - 2 * t) ≤ (t + m) * (t + m) * (t + m)
cubic_split t m = let e : 3 * (t + m) - 2 * t ≡ t + 3 * m = omega arith in rw e (omega arith)

cubic-le : (t s : ℕ) → t ≤ s → t * t * (3 * s - 2 * t) ≤ s * s * s
cubic-le t s h =
    let e : t + (s - t) ≡ s = omega arith in
    subst (λ (x : ℕ). t * t * (3 * x - 2 * t) ≤ x * x * x) e (cubic_split t (s - t))

cube_pos : (s : ℕ) → 0 < s → 0 < s * s * s
cube_pos zero h = elim h [ ]
cube_pos (suc s) h = omega arith

-- The weight is a part of its whole.
pub weight-le :
    (e : ℤ) (lo hi : Stop) → let w = weight e lo hi in (w.part ≤ w.whole) × (0 < w.whole)
unfolding weight
weight-le e lo hi =
    let span : ℕ = above hi.elev lo.elev in
    let t : ℕ = min span (above e lo.elev) in
    elim (Bool-cases (ltb 0 span)) [
      | inl wide ↦ rw wide (cubic-le t span (omega arith), cube_pos span (ground arith))
      | inr flat ↦ rw flat (omega arith, omega arith)
    ]

mul_mono : (a b p : ℕ) → a ≤ b → a * p ≤ b * p
mul_mono a b p h = grind arith

weigh :
    (lo hi p d : ℕ)
    → (min lo hi * (p + d) ≤ lo * d + hi * p) × (lo * d + hi * p ≤ max lo hi * (p + d))
weigh lo hi p d = elim (Bool-cases (leb lo hi)) [
  | inl e ↦
      let up : lo ≤ hi = leb→le lo hi e in
      let small : min lo hi ≡ lo = omega arith in
      let big : max lo hi ≡ hi = omega arith in
      rw (small, big) (omega (arith, mul_mono lo hi p up), omega (arith, mul_mono lo hi d up))
  | inr e ↦
      let down : hi ≤ lo = ground arith in
      let small : min lo hi ≡ hi = omega arith in
      let big : max lo hi ≡ lo = omega arith in
      rw (small, big) (omega (arith, mul_mono hi lo d down), omega (arith, mul_mono hi lo p down))
]

-- A blend lies between its two ends.
blend-le :
    (s : Fraction) (lo hi : ℕ)
    → s.part ≤ s.whole
    → let b = blend s lo hi in (min lo hi * b.whole ≤ b.part) × (b.part ≤ max lo hi * b.whole)
unfolding blend
blend-le s lo hi h =
    let rest : s.part + (s.whole - s.part) ≡ s.whole = omega arith in
    subst
      (λ (w : ℕ).
        (min lo hi * w ≤ lo * (s.whole - s.part) + hi * s.part)
        × (lo * (s.whole - s.part) + hi * s.part ≤ max lo hi * w))
      rest (weigh lo hi s.part (s.whole - s.part))

-- An elevation between the first and the last stop.
abbrev pub is_inner : ℤ → Bool
is_inner e = not (leb_ℤ e (negsuc 8999)) && not (leb_ℤ (pos 4500) e)

-- The second stop comes right after the first in the list.
abbrev pub IsNext : Stop → Stop → List Stop → Type 0
IsNext lo hi [] = ⊥
IsNext lo hi (s ∷ []) = ⊥
IsNext lo hi (a ∷ b ∷ rest) = ((lo ≡ a) × (hi ≡ b)) ⊎ IsNext lo hi (b ∷ rest)

-- Two stops of a list that follow each other and hold the elevation between them.
abbrev pub Brackets : ℤ → List Stop → Stop × Stop → Type 0
Brackets e ss (lo, hi) = IsNext lo hi ss × (leb_ℤ lo.elev e ≡ true) × (leb_ℤ e hi.elev ≡ true)

abbrev last_of : Stop → List Stop → Stop
last_of s [] = s
last_of s (t ∷ ts) = last_of t ts

beyond :
    (e : ℤ) (a b : Stop)
    → leb_ℤ a.elev e ≡ true
    → leb_ℤ a.elev e && leb_ℤ e b.elev ≡ false
    → leb_ℤ b.elev e ≡ true
beyond e a b h k = ground arith

segment-Brackets :
    (e : ℤ) (s : Stop) (ss : List Stop) (found : Stop × Stop)
    → leb_ℤ s.elev e ≡ true
    → leb_ℤ (last_of s ss).elev e ≡ false
    → Brackets e (s ∷ ss) (segment e (s ∷ ss) found)
unfolding segment
segment-Brackets e s [] found low high = cc
segment-Brackets e s (t ∷ ts) found low high =
    if_intro (λ (r : Stop × Stop). Brackets e (s ∷ t ∷ ts) r) (leb_ℤ s.elev e && leb_ℤ e t.elev)
      (λ h. (inl (refl, refl), low, ground (arith, h)))
      λ h.
        let later = segment-Brackets e t ts found (beyond e s t low h) high in
        (inr later.0, later.1, later.2)

bounds-segment : (e : ℤ) → is_inner e ≡ true → bounds e ≡ segment e stops (deep_night, midday)
unfolding bounds
bounds-segment e h =
    let below : leb_ℤ e deep_night.elev ≡ false = ground (arith, h) in
    let above_all : leb_ℤ midday.elev e ≡ false = ground (arith, h) in rw (below, above_all) refl

bounds-Brackets : (e : ℤ) → is_inner e ≡ true → Brackets e stops (bounds e)
bounds-Brackets e h =
    subst (Brackets e stops) (sym (bounds-segment e h))
      (segment-Brackets e _ _ _ (ground (arith, h)) (ground (arith, h)))

-- The two stops of an elevation inside of the range and the value between them: the stops follow each other
-- in the table and hold the elevation between them, and every scalar of the grade lies between those of the two.
pub grade_between :
    {C : Type 0} (mix : ℕ → ℕ → Fraction → C) (e : ℤ) (k : ScalarKey)
    → is_inner e ≡ true
    → let (lo, hi) = bounds e in
      let g = (grade_for_elevation mix e).scalar k in
      Brackets e stops (lo, hi)
      × (min (lo.scalar k) (hi.scalar k) * g.whole ≤ g.part)
      × (g.part ≤ max (lo.scalar k) (hi.scalar k) * g.whole)
      × (0 < g.whole)
unfolding grade_for_elevation blend
grade_between mix e k h =
    let (lo, hi) = bounds e in
    let w = weight-le e lo hi in
    let between = blend-le (weight e lo hi) (lo.scalar k) (hi.scalar k) w.0 in
    (bounds-Brackets e h, between.0, between.1, w.1)
