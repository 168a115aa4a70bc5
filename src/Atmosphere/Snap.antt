-- ===== src/Atmosphere/Snap.antt =====
-- atmosphere.js: lemmas on the live atmosphere after a history of elevations and frames.
use aetheldesk.Base.{ℕ, ◌<◌, ◌≡◌, refl, ◌∙◌, true, Option, none, some, List, [], ◌∷◌, ltb, arith}
use aetheldesk.Int.{ℤ, negsuc}
use aetheldesk.Atmosphere.{
  Fraction, Live, Easing, grade_for_elevation, daylight_for, create_atmosphere, set_elevation,
  update,
}

pub data Call : Type 0 where
  elevates : Option ℤ → Call
  frames : ℕ → Call

-- The last elevation that is a number.
abbrev pub last_elevation : ℤ → List Call → ℤ
last_elevation e [] = e
last_elevation e (elevates none ∷ ks) = last_elevation e ks
last_elevation e (elevates (some e') ∷ ks) = last_elevation e' ks
last_elevation e (frames delta ∷ ks) = last_elevation e ks

module _ {C : Type 0} (mix : ℕ → ℕ → Fraction → C) (ease : Easing C) where
  unfoldable pub perform_all : List Call → Live C → Live C
  perform_all [] a = a
  perform_all (elevates e ∷ ks) a = perform_all ks (set_elevation mix e a)
  perform_all (frames delta ∷ ks) a = perform_all ks (update ease delta a)

  -- The three targets are those of one elevation.
  record Aims (e : ℤ) (a : Live C) : Type 0 where
    grade : a.target ≡ grade_for_elevation mix e
    elevation : a.target_elevation ≡ e
    daylight : a.target_daylight ≡ daylight_for e

  set-Aims : (e' : ℤ) (a : Live C) → Aims e' (set_elevation mix (some e') a)
  unfolding set_elevation
  set-Aims e' a = record { grade = refl; elevation = refl; daylight = refl }

  keep-Aims : (e : ℤ) (a : Live C) → Aims e a → Aims e (set_elevation mix none a)
  unfolding set_elevation
  keep-Aims e a h = h

  frame-Aims : (e : ℤ) (delta : ℕ) (a : Live C) → Aims e a → Aims e (update ease delta a)
  unfolding update
  frame-Aims e delta a h = record {
    grade = frame-target a ∙ h.grade;
    elevation = frame-elevation a ∙ h.elevation;
    daylight = frame-daylight a ∙ h.daylight;
  }
    where
      frame-target : (a : Live C) → (update ease delta a).target ≡ a.target
      frame-target a = ground arith

      frame-elevation : (a : Live C) → (update ease delta a).target_elevation ≡ a.target_elevation
      frame-elevation a = ground arith

      frame-daylight : (a : Live C) → (update ease delta a).target_daylight ≡ a.target_daylight
      frame-daylight a = ground arith

  perform_all-Aims :
      (ks : List Call) (e : ℤ) (a : Live C)
      → Aims e a
      → Aims (last_elevation e ks) (perform_all ks a)
  unfolding perform_all
  perform_all-Aims [] e a h = h
  perform_all-Aims (elevates none ∷ ks) e a h = perform_all-Aims ks e _ (keep-Aims e a h)
  perform_all-Aims (elevates (some e') ∷ ks) e a h = perform_all-Aims ks e' _ (set-Aims e' a)
  perform_all-Aims (frames delta ∷ ks) e a h = perform_all-Aims ks e _ (frame-Aims e delta a h)

  create-Aims : Aims (negsuc 8999) (create_atmosphere mix)
  unfolding create_atmosphere daylight_for
  create-Aims = record { grade = refl; elevation = refl; daylight = refl }

  snaps :
      (delta : ℕ) (a : Live C)
      → 500000 < delta
      → let b = update ease delta a in
        (b.current ≡ a.target)
        × (b.current_elevation ≡ a.target_elevation)
        × (b.current_daylight ≡ a.target_daylight)
  unfolding update
  snaps delta a long = let far : ltb 500000 delta ≡ true = ground arith in rw far (refl, refl, refl)

  -- After any history on a new atmosphere, a frame of more than half a second leaves the palette, the elevation
  -- and the daylight all at what the last elevation that was a number has, however they were eased.
  pub update_snaps :
      (ks : List Call) (delta : ℕ)
      → 500000 < delta
      → let e = last_elevation (negsuc 8999) ks in
        let a = update ease delta (perform_all ks (create_atmosphere mix)) in
        (a.current ≡ grade_for_elevation mix e)
        × (a.current_elevation ≡ e)
        × (a.current_daylight ≡ daylight_for e)
  update_snaps ks delta long =
      let h = perform_all-Aims ks (negsuc 8999) (create_atmosphere mix) create-Aims in
      let s = snaps delta (perform_all ks (create_atmosphere mix)) long in
      (s.0 ∙ h.grade, s.1 ∙ h.elevation, s.2 ∙ h.daylight)
