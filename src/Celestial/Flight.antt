-- ===== src/Celestial/Flight.antt =====
-- celestial.js: a shooting star as a viewer sees it, and lemmas that relate the buffers to it.
pub mod Shown
use aetheldesk.Base.{
  ℕ, zero, suc, ◌+◌, ◌-◌, ◌*◌, ◌≤◌, ◌<◌, ◌≡◌, refl, sym, ap, ◌∙◌, min, Bool, true, false, not, ◌&&◌,
  ◌||◌, List, [], ◌∷◌, length, ltb, leb, ◌==◌, if◌then◌else◌, arith, ◌⊎◌, inl, inr, Bool-cases,
}
use aetheldesk.Arrays.{get_or, push, replicate, Holds, push-Holds, length-replicate}
use aetheldesk.Celestial.Meteor.{
  Meteor, Draws, Vertex, parked, lit, Layer, meteor_trail, fly, wait, step, vertex, vertices_from,
  draw, drop, update_meteors, create_layer,
}

-- A star in flight, with every place that it has been at since it was seen first, the newest first.
pub record Star (P : Type 0) : Type 0 where
  pub head : P
  pub dir : P
  pub speed : ℕ
  pub age : ℕ
  pub duration : ℕ
  pub trail : List P

pub data Night (P : Type 0) : Type 0 where
  waiting : ℕ → Night P
  flying : Star P → Night P

pub record Frame (P : Type 0) : Type 0 where
  pub moon : ℕ
  pub delta : ℕ
  pub reduced_motion : Bool
  pub draws : Draws P

abbrev pub is_seen : {P : Type 0} → Frame P → Bool
is_seen f = not f.reduced_motion && ltb 60 f.moon

abbrev pub hide_night : {P : Type 0} → Night P → Night P
hide_night (waiting timer) = waiting timer
hide_night (flying f) = waiting 0

-- How many places of the trail are drawn.
abbrev pub trail_length : {P : Type 0} → Night P → ℕ
trail_length (waiting timer) = 0
trail_length (flying f) = min meteor_trail (length f.trail)

module _ {P : Type 0} (origin : P) (travel : P → P → ℕ → ℕ → P) where
  abbrev pub begin : Draws P → Night P
  begin d = flying (record {
    head = d.head;
    dir = d.dir;
    speed = d.speed;
    age = 0;
    duration = d.duration;
    trail = [];
  })

  abbrev pub advance : ℕ → Star P → Star P
  advance delta f =
      let head : P = travel f.head f.dir f.speed delta in
      record f { head = head; age = f.age + delta; trail = head ∷ f.trail }

  -- A frame in which the night sky is seen, and one in which it is not.
  abbrev pub next_night : ℕ → Draws P → Night P → Night P
  next_night delta d (waiting timer) = if leb timer delta then begin d else waiting (timer - delta)
  next_night delta d (flying f) =
      if ltb f.duration (f.age + delta) then waiting d.pause else flying (advance delta f)

  abbrev pub night_after : List (Frame P) → Night P → Night P
  night_after [] n = n
  night_after (f ∷ fs) n =
      night_after fs (if is_seen f then next_night f.delta f.draws n else hide_night n)

  unfoldable pub run : List (Frame P) → Layer P → Layer P
  run [] l = l
  run (f ∷ fs) l = run fs (update_meteors origin travel f.moon f.delta f.reduced_motion f.draws l)

  -- What is to be seen at the place `t` of the trail.
  abbrev pub seen_at : ℕ → Night P → ℕ → Vertex P
  seen_at moon (waiting timer) t = parked
  seen_at moon (flying f) t =
      if leb (length f.trail) t
      then parked
      else lit (get_or f.trail t origin) ((meteor_trail - t) * (f.duration - f.age) * moon)

  abbrev pub Refines : Meteor P → Night P → Type 0
  Refines m (waiting timer) =
      (m.active ≡ false)
      × (m.timer ≡ timer)
      × (length m.history ≡ meteor_trail)
      × (m.history_length ≡ 0)
  Refines m (flying f) =
      (m.active ≡ true)
      × (m.timer ≡ 0)
      × (m.head ≡ f.head)
      × (m.dir ≡ f.dir)
      × (m.speed ≡ f.speed)
      × (m.age ≡ f.age)
      × (m.duration ≡ f.duration)
      × Holds origin meteor_trail (m.history, m.history_length) f.trail

  wait-Refines :
      (delta : ℕ) (d : Draws P) (m : Meteor P) (timer : ℕ)
      → Refines m (waiting timer)
      → Refines (wait origin travel delta d m) (next_night delta d (waiting timer))
  unfolding wait
  wait-Refines delta d m timer (a, b, c, e) = elim (Bool-cases (leb timer delta)) [
    | inl now ↦ rw (b, now) (refl, refl, refl, refl, refl, refl, refl, (c, refl, λ i h. elim h [ ]))
    | inr later ↦ rw (b, later) (a, refl, c, e)
  ]

  fly-Refines :
      (delta : ℕ) (d : Draws P) (m : Meteor P) (f : Star P)
      → Refines m (flying f)
      → Refines (fly origin travel delta d m) (next_night delta d (flying f))
  unfolding fly
  fly-Refines delta d m f (a, k, b, c, e, g, i, h) =
      let at : P = travel f.head f.dir f.speed delta in
      let pushed =
        push-Holds origin meteor_trail at (m.history, m.history_length) f.trail (omega arith) h in
      elim (Bool-cases (ltb f.duration (f.age + delta))) [
        | inl ends ↦ rw (b, c, e, g, i, ends) (refl, refl, pushed.0, refl)
        | inr flies ↦ rw (b, c, e, g, i, flies) (refl, k, refl, refl, refl, refl, refl, pushed)
      ]

  step-eq-wait :
      (delta : ℕ) (d : Draws P) (m : Meteor P)
      → m.active ≡ false
      → step origin travel delta d m ≡ wait origin travel delta d m
  unfolding step
  step-eq-wait delta d m h =
      ap (λ b. if b then fly origin travel delta d m else wait origin travel delta d m) h

  step-eq-fly :
      (delta : ℕ) (d : Draws P) (m : Meteor P)
      → m.active ≡ true
      → step origin travel delta d m ≡ fly origin travel delta d m
  unfolding step
  step-eq-fly delta d m h =
      ap (λ b. if b then fly origin travel delta d m else wait origin travel delta d m) h

  pub step-Refines :
      (delta : ℕ) (d : Draws P) (m : Meteor P) (n : Night P)
      → Refines m n
      → Refines (step origin travel delta d m) (next_night delta d n)
  step-Refines delta d m (waiting timer) h =
      rw (step-eq-wait delta d m h.0) (wait-Refines delta d m timer h)
  step-Refines delta d m (flying f) h = rw (step-eq-fly delta d m h.0) (fly-Refines delta d m f h)

  pub vertex-Refines :
      (moon : ℕ) (m : Meteor P) (n : Night P) (t : ℕ)
      → Refines m n
      → t < meteor_trail
      → vertex origin travel moon m t ≡ seen_at moon n t
  unfolding vertex
  vertex-Refines moon m (waiting timer) t h lt = rw h.0
  vertex-Refines moon m (flying f) t (a, k, b, c, e, g, i, h) lt =
      elim (Bool-cases (leb (length f.trail) t)) [
        | inl past ↦
            let gone : leb m.history_length t ≡ true = ground (arith, h.1) in rw (a, gone, past)
        | inr held ↦
            let there : leb m.history_length t ≡ false = ground (arith, h.1) in
            let same = h.2 t (ground (arith, h.1)) in rw (a, there, held, g, i, same)
      ]
