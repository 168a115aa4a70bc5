-- ===== src/Dom/Debounce.antt =====
-- dom.js: `debounce`. Time is counted in milliseconds; `fired` is the calls of the wrapped function,
-- the newest first.
use aetheldesk.Base.{
  ℕ, ◌+◌, ◌<◌, false, Option, none, some, List, [], ◌∷◌, leb, if◌then◌else◌, ◌≡◌, refl, arith, All,
}

pub record Debounced (A : Type 0) : Type 0 where
  pub timer : Option (ℕ × A)
  pub fired : List A

too_early : (now gap ms : ℕ) → gap < ms → leb (now + ms) (now + gap) ≡ false
too_early now gap ms h = ground arith

module _ {A : Type 0} (ms : ℕ) where
  -- The call: clearTimeout and setTimeout.
  unfoldable pub call : ℕ → A → Debounced A → Debounced A
  call now a d = record d { timer = some (now + ms, a) }

  -- What the event loop does up to a moment before it runs other code.
  unfoldable pub pass : ℕ → Debounced A → Debounced A
  pass now d = elim d.timer [
    | none ↦ d
    | some (due, a) ↦ if leb due now then record { timer = none; fired = a ∷ d.fired } else d
  ]

  -- Calls at the given distances from each other, and the time of the last.
  unfoldable pub burst : ℕ → List (ℕ × A) → Debounced A → ℕ × Debounced A
  unfolding call pass
  burst now [] d = (now, d)
  burst now ((gap, a) ∷ rest) d = burst (now + gap) rest (call (now + gap) a (pass (now + gap) d))

  abbrev pub last_of : A → List (ℕ × A) → A
  last_of a [] = a
  last_of a ((gap, b) ∷ rest) = last_of b rest

  abbrev pub IsQuick : ℕ × A → Type 0
  IsQuick (gap, a) = gap < ms

  pending_burst :
      (now : ℕ) (a : A) (fired : List A) (rest : List (ℕ × A))
      → All IsQuick rest
      → let r = burst now rest (record { timer = some (now + ms, a); fired = fired }) in
        r.1 ≡ (record { timer = some (r.0 + ms, last_of a rest); fired = fired })
  unfolding burst call pass
  pending_burst now a fired [] h = refl
  pending_burst now a fired ((gap, b) ∷ rest) (q, h) =
      let early : leb (now + ms) (now + gap) ≡ false = too_early now gap ms q in
      rw (early, burst) (pending_burst (now + gap) b fired rest h)

  -- Of calls that follow each other faster than the delay, none is made before the delay has passed
  -- after the last of them; then that one is, once, with its own argument.
  pub burst_fires_last :
      (now later : ℕ) (a : A) (rest : List (ℕ × A)) (d : Debounced A)
      → All IsQuick rest
      → let r = burst now rest (call now a d) in
        (r.1.fired ≡ d.fired)
        × (pass later r.1 ≡ (
            if leb (r.0 + ms) later
            then record { timer = none; fired = last_of a rest ∷ d.fired }
            else r.1))
  unfolding call pass
  burst_fires_last now later a rest d h =
      let e = pending_burst now a d.fired rest h in rw e (refl, refl)
