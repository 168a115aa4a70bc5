-- ===== src/Celestial/Told.antt =====
-- celestial.js: lemmas on what a history of calls tells the sky: the last elevation and the last aspect.
use aetheldesk.Base.{
  ℕ, ◌≡◌, refl, ap, ◌∙◌, min, max, Bool, Option, none, some, List, [], ◌∷◌, arith, if_intro, ◌==◌,
}
use aetheldesk.Int.{ℤ}
use aetheldesk.Celestial.{
  Celestial, Session, update_celestial_state, set_viewport_aspect, set_pixel_ratio, update_pomodoro,
  update,
}

pub data Call : Type 0 where
  states : Option ℤ → Call
  sessions : Option Session → Call
  frames : ℕ → Bool → Call
  aspects : Option ℕ → Call
  ratios : Option ℕ → Call

-- The last elevation and the last aspect that the calls tell, or those before.
abbrev pub last_told : Option ℤ → List Call → Option ℤ
last_told before [] = before
last_told before (states (some e) ∷ ks) = last_told (some e) ks
last_told before (_ ∷ ks) = last_told before ks

abbrev pub last_aspect : ℕ → List Call → ℕ
last_aspect before [] = before
last_aspect before (aspects (some a) ∷ ks) = last_aspect (max 3500 (min 30000 a)) ks
last_aspect before (_ ∷ ks) = last_aspect before ks

module _ (smoothstep : ℤ → ℕ) (ease : ℕ → ℕ → ℕ → ℕ) where
  unfoldable pub perform : Call → Celestial → Celestial
  perform (states e) c = update_celestial_state smoothstep e c
  perform (sessions s) c = update_pomodoro s c
  perform (frames delta reduced) c = update ease delta reduced c
  perform (aspects a) c = set_viewport_aspect smoothstep a c
  perform (ratios r) c = set_pixel_ratio r c

  unfoldable pub perform_all : List Call → Celestial → Celestial
  unfolding perform
  perform_all [] c = c
  perform_all (k ∷ ks) c = perform_all ks (perform k c)

  last-session :
      (s : Option Session) (c : Celestial) → (update_pomodoro s c).last_elevation ≡ c.last_elevation
  unfolding update_pomodoro
  last-session none c = refl
  last-session (some s) c = ground arith

  last-ratio :
      (r : Option ℕ) (c : Celestial) → (set_pixel_ratio r c).last_elevation ≡ c.last_elevation
  unfolding set_pixel_ratio
  last-ratio none c = refl
  last-ratio (some r) c = ground arith

  last-again :
      (e : Option ℤ) (c : Celestial)
      → c.last_elevation ≡ e
      → (update_celestial_state smoothstep e c).last_elevation ≡ e
  unfolding update_celestial_state
  last-again none c h = h
  last-again (some e) c h = refl

  last-aspect :
      (a : Option ℕ) (c : Celestial)
      → (set_viewport_aspect smoothstep a c).last_elevation ≡ c.last_elevation
  unfolding set_viewport_aspect
  last-aspect none c = refl
  last-aspect (some a) c =
      if_intro (λ (d : Celestial). d.last_elevation ≡ c.last_elevation)
        (c.viewport_aspect == max 3500 (min 30000 a)) {x = c} (λ _. refl)
        λ _. last-again c.last_elevation _ refl

  aspect-session :
      (s : Option Session) (c : Celestial)
      → (update_pomodoro s c).viewport_aspect ≡ c.viewport_aspect
  unfolding update_pomodoro
  aspect-session none c = refl
  aspect-session (some s) c = ground arith

  aspect-ratio :
      (r : Option ℕ) (c : Celestial) → (set_pixel_ratio r c).viewport_aspect ≡ c.viewport_aspect
  unfolding set_pixel_ratio
  aspect-ratio none c = refl
  aspect-ratio (some r) c = ground arith

  aspect-again :
      (e : Option ℤ) (c : Celestial)
      → (update_celestial_state smoothstep e c).viewport_aspect ≡ c.viewport_aspect
  unfolding update_celestial_state
  aspect-again none c = refl
  aspect-again (some e) c = refl

  aspect-none :
      (c : Celestial) → (set_viewport_aspect smoothstep none c).viewport_aspect ≡ c.viewport_aspect
  unfolding set_viewport_aspect
  aspect-none c = refl

  aspect-some :
      (a : ℕ) (c : Celestial)
      → (set_viewport_aspect smoothstep (some a) c).viewport_aspect ≡ max 3500 (min 30000 a)
  unfolding set_viewport_aspect
  aspect-some a c =
      let next : ℕ = max 3500 (min 30000 a) in
      if_intro (λ (d : Celestial). d.viewport_aspect ≡ next) (c.viewport_aspect == next)
        (λ h. ground (arith, h)) λ _. aspect-again c.last_elevation _

  pub last_after :
      (ks : List Call) (c : Celestial)
      → (perform_all ks c).last_elevation ≡ last_told c.last_elevation ks
  unfolding perform_all perform update_celestial_state update_pomodoro update set_viewport_aspect
      set_pixel_ratio
  last_after [] c = refl
  last_after (states none ∷ ks) c = last_after ks c
  last_after (states (some e) ∷ ks) c = last_after ks _
  last_after (sessions s ∷ ks) c = last_after ks _ ∙ ap (λ o. last_told o ks) (last-session s c)
  last_after (frames delta reduced ∷ ks) c = last_after ks _
  last_after (aspects a ∷ ks) c = last_after ks _ ∙ ap (λ o. last_told o ks) (last-aspect a c)
  last_after (ratios r ∷ ks) c = last_after ks _ ∙ ap (λ o. last_told o ks) (last-ratio r c)

  pub aspect_after :
      (ks : List Call) (c : Celestial)
      → (perform_all ks c).viewport_aspect ≡ last_aspect c.viewport_aspect ks
  unfolding perform_all perform update_celestial_state update_pomodoro update set_pixel_ratio
  aspect_after [] c = refl
  aspect_after (states none ∷ ks) c = aspect_after ks c
  aspect_after (states (some e) ∷ ks) c = aspect_after ks _
  aspect_after (sessions s ∷ ks) c =
      aspect_after ks _ ∙ ap (λ v. last_aspect v ks) (aspect-session s c)
  aspect_after (frames delta reduced ∷ ks) c = aspect_after ks _
  aspect_after (aspects none ∷ ks) c =
      aspect_after ks _ ∙ ap (λ v. last_aspect v ks) (aspect-none c)
  aspect_after (aspects (some a) ∷ ks) c =
      aspect_after ks _ ∙ ap (λ v. last_aspect v ks) (aspect-some a c)
  aspect_after (ratios r ∷ ks) c = aspect_after ks _ ∙ ap (λ v. last_aspect v ks) (aspect-ratio r c)
