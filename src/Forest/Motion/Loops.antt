-- ===== src/Forest/Motion/Loops.antt =====
-- forest-scene.js: lemmas on what loops around the fire.
use aetheldesk.Base.{
  ℕ, ◌+◌, ◌*◌, ◌≤◌, ◌≡◌, refl, ap, ap₂, Bool, true, List, [], ◌∷◌, map, arith, All,
}
use aetheldesk.Forest.Motion.{
  Ember, Drift, Clearing, wrap_past, still, move_ember, mist_span, smoke_top, move_drift, update,
}

-- Everything is on its way, none past its end.
pub record IsLooping (c : Clearing) : Type 0 where
  pub embers : All (λ (e : Ember). e.y ≤ e.life) c.embers
  pub mist : All (λ (d : Drift). d.at ≤ mist_span) c.mist
  pub smoke : All (λ (d : Drift). d.at ≤ smoke_top) c.smoke

embers_end :
    (time : ℕ) (es : List Ember) → All (λ (e : Ember). e.y ≤ e.life) (map (move_ember time) es)
unfolding move_ember
embers_end time [] = tt
embers_end time (e ∷ es) = (ground arith, embers_end time es)

drifts_end :
    (end time : ℕ) (ds : List Drift)
    → All (λ (d : Drift). d.at ≤ end) (map (move_drift end time) ds)
unfolding move_drift
drifts_end end time [] = tt
drifts_end end time (d ∷ ds) = (ground arith, drifts_end end time ds)

-- After any frame, however long it was and wherever things were, each ember, each mist and each wisp of smoke
-- is on its way between its two ends.
pub update-IsLooping :
    (delta : ℕ) (reduced : Bool) (c : Clearing) → IsLooping (update delta reduced c)
unfolding update
update-IsLooping delta reduced c = record {
  embers = embers_end (still reduced delta) c.embers;
  mist = drifts_end mist_span (still reduced delta) c.mist;
  smoke = drifts_end smoke_top (still reduced delta) c.smoke;
}

embers_rest : (es : List Ember) → All (λ (e : Ember). e.y ≤ e.life) es → map (move_ember 0) es ≡ es
unfolding move_ember
embers_rest [] h = refl
embers_rest (e ∷ es) (h, hs) =
    let rests : wrap_past e.life (e.y + (900 + e.size * 2) * 0) ≡ e.y = ground arith in
    ap₂ (λ x xs. x ∷ xs) (ap (λ n. record e { y = n }) rests) (embers_rest es hs)

drifts_rest :
    (end : ℕ) (ds : List Drift)
    → All (λ (d : Drift). d.at ≤ end) ds
    → map (move_drift end 0) ds ≡ ds
unfolding move_drift
drifts_rest end [] h = refl
drifts_rest end (d ∷ ds) (h, hs) =
    let rests : wrap_past end (d.at + d.speed * 0) ≡ d.at = ground arith in
    ap₂ (λ x xs. x ∷ xs) (ap (λ n. record d { at = n }) rests) (drifts_rest end ds hs)

-- With reduced motion a frame moves nothing of what is on its way.
pub update_rest : (delta : ℕ) (c : Clearing) → IsLooping c → update delta true c ≡ c
unfolding update
update_rest delta c h =
    rw
      (
        embers_rest c.embers h.embers,
        drifts_rest mist_span c.mist h.mist,
        drifts_rest smoke_top c.smoke h.smoke,
      )
      refl
