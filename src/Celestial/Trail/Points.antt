-- ===== src/Celestial/Trail/Points.antt =====
-- celestial.js: lemmas on the points of the satellite's trail after a history of frames.
use aetheldesk.Base.{
  ℕ, zero, suc, ◌+◌, ◌≤◌, ◌<◌, ◌≡◌, refl, ap, ap₂, ◌∙◌, Bool, true, false, not, ◌&&◌, List, [], ◌∷◌,
  length, ltb, if◌then◌else◌, arith, inl, inr, Bool-cases,
}
use aetheldesk.Arrays.{get_or, push, length-replicate, Holds, push-Holds}
use aetheldesk.Celestial.Trail.{Trail, trail_count, points_from, update_trail, create_trail}

pub record Frame (P : Type 0) : Type 0 where
  pub orbit_visible : Bool
  pub reduced_motion : Bool
  pub place : P

abbrev pub moves : {P : Type 0} → Frame P → Bool
moves f = f.orbit_visible && not f.reduced_motion

-- The places since the trail began to move, the newest first.
abbrev pub streak : {P : Type 0} → List (Frame P) → List P → List P
streak [] places = places
streak (f ∷ fs) places = streak fs (if moves f then f.place ∷ places else [])

module _ {P : Type 0} (origin : P) where
  unfoldable pub run : List (Frame P) → Trail P → Trail P
  run [] t = t
  run (f ∷ fs) t = run fs (update_trail origin f.orbit_visible f.reduced_motion f.place t)

  -- `n` places from the `i`-th newest on; where there are no more, the newest one again.
  abbrev pub spread : List P → P → ℕ → ℕ → List P
  spread places newest i zero = []
  spread places newest i (suc n) =
      (if ltb i (length places) then get_or places i origin else newest)
      ∷ spread places newest (i + 1) n

  abbrev Keeps : Trail P → List P → Type 0
  Keeps t places = Holds origin trail_count (t.history, t.history_length) places

  trail-moves :
      (f : Frame P) (t : Trail P)
      → moves f ≡ true
      → let b = push origin trail_count f.place (t.history, t.history_length) in
        update_trail origin f.orbit_visible f.reduced_motion f.place t ≡ record {
          history = b.0;
          history_length = b.1;
          visible = true;
          points = points_from origin b.0 b.1 f.place 0 trail_count;
        }
  unfolding update_trail
  trail-moves f t h = rw h

  trail-rests :
      (f : Frame P) (t : Trail P)
      → moves f ≡ false
      → update_trail origin f.orbit_visible f.reduced_motion f.place t
        ≡ record t { visible = false; history_length = 0 }
  unfolding update_trail
  trail-rests f t h = rw h

  update-Keeps :
      (f : Frame P) (t : Trail P) (places : List P)
      → Keeps t places
      → Keeps
          (update_trail origin f.orbit_visible f.reduced_motion f.place t)
          (if moves f then f.place ∷ places else [])
  update-Keeps f t places h = elim (Bool-cases (moves f)) [
    | inl e ↦
        rw (trail-moves f t e, e) (push-Holds origin trail_count f.place _ places (omega arith) h)
    | inr e ↦ rw (trail-rests f t e, e) (h.0, refl, λ i lt. elim lt [ ])
  ]

  run-Keeps :
      (fs : List (Frame P)) (t : Trail P) (places : List P)
      → Keeps t places
      → Keeps (run fs t) (streak fs places)
  unfolding run
  run-Keeps [] t places h = h
  run-Keeps (f ∷ fs) t places h = run-Keeps fs _ _ (update-Keeps f t places h)

  point-spread :
      (b : List P × ℕ) (places : List P) (newest : P) (i : ℕ)
      → Holds origin trail_count b places
      → i < trail_count
      → (if ltb i b.1 then get_or b.0 i origin else newest)
        ≡ (if ltb i (length places) then get_or places i origin else newest)
  point-spread b places newest i h fits = elim (Bool-cases (ltb i (length places))) [
    | inl e ↦
        let held : ltb i b.1 ≡ true = ground (arith, h.1) in
        rw (held, e) (h.2 i (ground (arith, h.1)))
    | inr e ↦ let gone : ltb i b.1 ≡ false = ground (arith, h.1) in rw (gone, e)
  ]

  points-spread :
      (b : List P × ℕ) (places : List P) (newest : P) (i n : ℕ)
      → Holds origin trail_count b places
      → i + n ≤ trail_count
      → points_from origin b.0 b.1 newest i n ≡ spread places newest i n
  unfolding points_from
  points-spread b places newest i zero h fits = refl
  points-spread b places newest i (suc n) h fits =
      ap₂ ◌∷◌ (point-spread b places newest i h (omega arith))
        (points-spread b places newest (i + 1) n h (omega arith))

  create-Keeps : Keeps (create_trail origin) []
  unfolding create_trail
  create-Keeps = (length-replicate trail_count origin, refl, λ i lt. elim lt [ ])

  -- After any history of frames on a new trail, a frame in which the satellite moves draws the newest 40
  -- places that it was at since it last stood still, the newest first, and the places of the buffer
  -- that are left over all at the newest one.
  pub points-update_trail :
      (fs : List (Frame P)) (place : P)
      → (update_trail origin true false place (run fs (create_trail origin))).points
        ≡ spread (place ∷ streak fs []) place 0 trail_count
  points-update_trail fs place =
      let f : Frame P = record { orbit_visible = true; reduced_motion = false; place = place } in
      let kept = run-Keeps fs (create_trail origin) [] create-Keeps in
      ap (λ (t : Trail P). t.points) (trail-moves f _ refl)
      ∙ points-spread _ (place ∷ streak fs []) place 0 trail_count
          (push-Holds origin trail_count place _ (streak fs []) (omega arith) kept) (omega arith)
