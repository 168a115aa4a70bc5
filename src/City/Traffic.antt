-- ===== src/City/Traffic.antt =====
-- city-scene.js: lemmas on where a vehicle is.
use aetheldesk.Base.{
  ℕ, ◌+◌, ◌*◌, ◌%◌, ◌<◌, ◌≡◌, true, false, if◌then◌else◌, arith, ◌∙◌, ap, sym, inl, inr, Bool-cases,
}
use aetheldesk.Int.{pos_part, neg_part}
use aetheldesk.City.{Vehicle, half_span, span, minus, remainder, wrapped, resolve_from_left}

-- The remainder of the source, wrapped, is the one that lies between 0 and the span.
wrapped-minus :
    (a b : ℕ)
    → (wrapped (remainder (minus a b) span) span < span)
      × ((wrapped (remainder (minus a b) span) span + b) % span ≡ a % span)
wrapped-minus a b = ground arith

from_left-forward :
    (v : Vehicle) (elapsed : ℕ)
    → v.forward ≡ true
    → let p = resolve_from_left v elapsed in
      (p < span)
      × ((p + neg_part v.offset * 1000) % span
          ≡ (pos_part v.offset * 1000 + half_span + elapsed * v.speed) % span)
unfolding resolve_from_left
from_left-forward v elapsed h = rw h (wrapped-minus _ _)

from_left-backward :
    (v : Vehicle) (elapsed : ℕ)
    → v.forward ≡ false
    → let p = resolve_from_left v elapsed in
      (p < span)
      × ((p + (neg_part v.offset * 1000 + elapsed * v.speed)) % span
          ≡ (pos_part v.offset * 1000 + half_span) % span)
unfolding resolve_from_left
from_left-backward v elapsed h = rw h (wrapped-minus _ _)

ahead-forward :
    (p q b s t u : ℕ)
    → q < span
    → (p + b) % span ≡ (s + t) % span
    → (q + b) % span ≡ (s + (t + u)) % span
    → q ≡ (p + u) % span
ahead-forward p q b s t u h k l = omega arith

ahead-backward :
    (p q b s t u : ℕ)
    → p < span
    → (p + (b + t)) % span ≡ s % span
    → (q + (b + (t + u))) % span ≡ s % span
    → p ≡ (q + u) % span
ahead-backward p q b s t u h k l = omega arith

-- Whatever the vehicle and the time, it is on the road, and after any further time it is as much further
-- along its way as its speed has it, counted round from one end of the road to the other.
pub traffic_moves :
    (v : Vehicle) (elapsed further : ℕ)
    → let p = resolve_from_left v elapsed in
      let q = resolve_from_left v (elapsed + further) in
      (p < span)
      × (q < span)
      × ((if v.forward then q else p) ≡ ((if v.forward then p else q) + further * v.speed) % span)
traffic_moves v elapsed further =
    let p : ℕ = resolve_from_left v elapsed in
    let q : ℕ = resolve_from_left v (elapsed + further) in
    let b : ℕ = neg_part v.offset * 1000 in
    let s : ℕ = pos_part v.offset * 1000 + half_span in
    let t : ℕ = elapsed * v.speed in
    let u : ℕ = further * v.speed in
    let longer : (elapsed + further) * v.speed ≡ t + u = omega arith in
    elim (Bool-cases v.forward) [
      | inl ahead ↦
          let now = from_left-forward v elapsed ahead in
          let later = from_left-forward v (elapsed + further) ahead in
          let place = ap (λ (x : ℕ). (s + x) % span) longer in
          simp ahead (now.0, later.0, ahead-forward p q b s t u later.0 now.1 (later.1 ∙ place))
      | inr back ↦
          let now = from_left-backward v elapsed back in
          let later = from_left-backward v (elapsed + further) back in
          let place = ap (λ (x : ℕ). (q + (b + x)) % span) (sym longer) in
          simp back (now.0, later.0, ahead-backward p q b s t u now.0 now.1 (place ∙ later.1))
    ]
