-- ===== src/Celestial/Flight/Shown.antt =====
-- celestial.js: lemmas on the points of the shooting star that a history of frames draws.
use aetheldesk.Base.{
  ℕ, zero, suc, ◌+◌, ◌≤◌, ◌≡◌, refl, sym, ap₂, ◌∙◌, true, false, List, [], ◌∷◌, if◌then◌else◌,
  arith, inl, inr, Bool-cases,
}
use aetheldesk.Arrays.{length-replicate}
use aetheldesk.Celestial.Meteor.{
  Meteor, Vertex, Layer, meteor_trail, step, vertices_from, draw, drop, update_meteors,
  create_layer,
}
use aetheldesk.Celestial.Flight.{
  Night, waiting, flying, Frame, is_seen, next_night, hide_night, night_after, run, seen_at,
  trail_length, Refines, step-Refines, vertex-Refines,
}

abbrev pub take : {A : Type 0} → ℕ → List A → List A
take zero xs = []
take (suc n) [] = []
take (suc n) (x ∷ xs) = x ∷ take n xs

true_ne_false : true ≡ false → ⊥
true_ne_false e = cc

module _ {P : Type 0} (origin : P) (travel : P → P → ℕ → ℕ → P) where
  -- A layer that was not seen has nothing on display, and no star in flight.
  record Shows (l : Layer P) (n : Night P) : Type 0 where
    refines : Refines origin travel l.meteor n
    same : l.visible ≡ l.was_visible
    rests : l.was_visible ≡ false → (trail_length n ≡ 0) × (hide_night n ≡ n)
    count : l.draw_count ≡ trail_length n

  hide-Refines :
      (l : Layer P) (n : Night P)
      → Refines origin travel l.meteor n
      → Refines origin travel (drop origin travel l).meteor (hide_night n)
  unfolding drop
  hide-Refines l (waiting timer) (a, b, c, e) = (refl, b, c, refl)
  hide-Refines l (flying f) h = (refl, h.1, h.7.0, refl)

  count_of :
      (m : Meteor P) (n : Night P)
      → Refines origin travel m n
      → (if m.active then m.history_length else 0) ≡ trail_length n
  count_of m (waiting timer) h = rw h.0
  count_of m (flying f) h = rw h.0 h.7.1

  hidden_night :
      (n : Night P) → (trail_length (hide_night n) ≡ 0) × (hide_night (hide_night n) ≡ hide_night n)
  hidden_night (waiting timer) = (refl, refl)
  hidden_night (flying f) = (refl, refl)

  rest-Shows :
      (l : Layer P) (n : Night P)
      → Shows l n
      → Shows
          (record (if l.was_visible then drop origin travel l else l) {
            visible = false;
            was_visible = false;
          })
          (hide_night n)
  unfolding drop
  rest-Shows l n h = elim (Bool-cases l.was_visible) [
    | inl e ↦ rw e (record {
      refines = hide-Refines l n h.refines;
      same = refl;
      rests = λ _. hidden_night n;
      count = sym (hidden_night n).0;
    })
    | inr e ↦
        let r = h.rests e in
        rw (e, r.1) (record { refines = h.refines; same = refl; rests = λ _. r; count = h.count })
  ]

  seen_frame :
      (f : Frame P) (l : Layer P)
      → is_seen f ≡ true
      → update_meteors origin travel f.moon f.delta f.reduced_motion f.draws l
        ≡ draw origin travel f.moon (record l {
          meteor = step origin travel f.delta f.draws l.meteor;
          visible = true;
          was_visible = true;
        })
  unfolding update_meteors
  seen_frame f l h = rw h

  hidden_frame :
      (f : Frame P) (l : Layer P)
      → is_seen f ≡ false
      → update_meteors origin travel f.moon f.delta f.reduced_motion f.draws l
        ≡ record (if l.was_visible then drop origin travel l else l) {
          visible = false;
          was_visible = false;
        }
  unfolding update_meteors
  hidden_frame f l h = rw h

  draw-Shows :
      (moon : ℕ) (l : Layer P) (n : Night P)
      → Refines origin travel l.meteor n
      → l.visible ≡ true
      → l.was_visible ≡ true
      → Shows (draw origin travel moon l) n
  unfolding draw
  draw-Shows moon l n h v w = record {
    refines = h;
    same = v ∙ sym w;
    rests = λ e. absurd (true_ne_false (sym w ∙ e));
    count = count_of l.meteor n h;
  }

  update-Shows :
      (f : Frame P) (l : Layer P) (n : Night P)
      → Shows l n
      → Shows
          (update_meteors origin travel f.moon f.delta f.reduced_motion f.draws l)
          (if is_seen f then next_night origin travel f.delta f.draws n else hide_night n)
  update-Shows f l n h = elim (Bool-cases (is_seen f)) [
    | inl seen ↦
        rw (seen_frame f l seen, seen)
          (draw-Shows f.moon _ _ (step-Refines origin travel f.delta f.draws l.meteor n h.refines)
            refl refl)
    | inr hidden ↦ rw (hidden_frame f l hidden, hidden) (rest-Shows l n h)
  ]

  run-Shows :
      (fs : List (Frame P)) (l : Layer P) (n : Night P)
      → Shows l n
      → Shows (run origin travel fs l) (night_after origin travel fs n)
  unfolding run
  run-Shows [] l n h = h
  run-Shows (f ∷ fs) l n h = run-Shows fs _ _ (update-Shows f l n h)

  create-Shows : (timer : ℕ) → Shows (create_layer origin travel timer) (waiting timer)
  unfolding create_layer
  create-Shows timer = record {
    refines = (refl, refl, length-replicate meteor_trail origin, refl);
    same = refl;
    rests = λ _. (refl, refl);
    count = refl;
  }

  -- The `k` places of the trail from `t` on, as they are to be seen.
  abbrev pub display : ℕ → Night P → ℕ → ℕ → List (Vertex P)
  display moon n t zero = []
  display moon n t (suc k) = seen_at origin travel moon n t ∷ display moon n (t + 1) k

  take-vertices_from :
      (moon : ℕ) (m : Meteor P) (n : Night P) (t k size : ℕ)
      → Refines origin travel m n
      → k ≤ size
      → t + size ≤ meteor_trail
      → take k (vertices_from origin travel moon m t size) ≡ display moon n t k
  unfolding vertices_from
  take-vertices_from moon m n t zero size h le fits = refl
  take-vertices_from moon m n t (suc k) zero h le fits = elim le [ ]
  take-vertices_from moon m n t (suc k) (suc size) h le fits =
      ap₂ ◌∷◌ (vertex-Refines origin travel moon m n t h (omega arith))
        (take-vertices_from moon m n (t + 1) k size h (omega arith) (omega arith))

  abbrev pub drawn : Layer P → List (Vertex P)
  drawn l = take l.draw_count l.vertices

  trail_length-le : (n : Night P) → trail_length n ≤ meteor_trail
  trail_length-le (waiting timer) = omega arith
  trail_length-le (flying f) = omega arith

  vertices-seen :
      (f : Frame P) (l : Layer P)
      → is_seen f ≡ true
      → (update_meteors origin travel f.moon f.delta f.reduced_motion f.draws l).vertices
        ≡ vertices_from origin travel f.moon
            (step origin travel f.delta f.draws l.meteor)
            0
            meteor_trail
  unfolding update_meteors
  vertices-seen f l h = rw h

  drawn-Shows :
      (f : Frame P) (l : Layer P) (n : Night P)
      → Shows l n
      → let night =
          if is_seen f then next_night origin travel f.delta f.draws n else hide_night n in
        drawn (update_meteors origin travel f.moon f.delta f.reduced_motion f.draws l)
        ≡ display f.moon night 0 (trail_length night)
  drawn-Shows f l n h = elim (Bool-cases (is_seen f)) [
    | inl seen ↦
        let night : Night P = next_night origin travel f.delta f.draws n in
        let shows = rw seen at (update-Shows f l n h) in
        let refines = step-Refines origin travel f.delta f.draws l.meteor n h.refines in
        rw seen (
          ap₂ take shows.count (vertices-seen f l seen)
          ∙ take-vertices_from f.moon _ night 0 (trail_length night) meteor_trail refines
              (trail_length-le night) (omega arith))
    | inr hidden ↦
        let shows = rw hidden at (update-Shows f l n h) in
        let none_drawn = shows.count ∙ (hidden_night n).0 in
        rw (hidden, none_drawn, (hidden_night n).0)
  ]

  -- After any history of frames on a new layer, and whatever the random values were, the points that the
  -- next frame draws are the newest 14 places of the star in flight, the newest first, each as bright as
  -- its place, the star's age and the moon have it; none while no star flies or the sky is not seen.
  pub drawn-update_meteors :
      (timer : ℕ) (fs : List (Frame P)) (f : Frame P)
      → let before = night_after origin travel fs (waiting timer) in
        let night =
          if is_seen f
          then next_night origin travel f.delta f.draws before
          else hide_night before in
        drawn (
          update_meteors origin travel f.moon f.delta f.reduced_motion f.draws
            (run origin travel fs (create_layer origin travel timer)))
        ≡ display f.moon night 0 (trail_length night)
  drawn-update_meteors timer fs f = drawn-Shows f _ _ (run-Shows fs _ _ (create-Shows timer))
