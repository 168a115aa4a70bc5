-- ===== src/SceneManager/History.antt =====
-- What holds of the scene manager after any history of calls, whatever its scenes do.
use aetheldesk.Base.{
  ℕ, String, ◌≡◌, refl, Bool, true, false, Option, List, [], ◌∷◌, inl, inr, ◌⊎◌, All, Bool-cases,
}
use aetheldesk.SceneManager.State.{SceneName, sky, Scene, Health, has}
use aetheldesk.SceneManager.{
  World, Manager, Prepared, prepare_scene, switch_scene, activate_prepared_scene,
  mark_preparation_failed, create_scene_manager, ensure_scene,
}
use aetheldesk.SceneManager.Updates.{
  update_celestial, update, set_light_direction, set_mica_enabled, set_shafts_enabled,
  set_viewport_aspect, set_pixel_ratio,
}
use aetheldesk.SceneManager.Closure.{IsReady, Closed, prepare_scene-Keeps, ensure_scene-Keeps}
use aetheldesk.SceneManager.Operations.{
  switch_scene-Keeps, activate_prepared_scene-Keeps, mark_preparation_failed-Keeps,
  update_celestial-Keeps, update-Keeps, set_light_direction-Keeps, set_mica_enabled-Keeps,
  set_shafts_enabled-Keeps, set_viewport_aspect-Keeps, set_pixel_ratio-Keeps,
}
use aetheldesk.SceneManager.Invariants.{
  failed_Closed, ReportsOnce, reports_Closed, OnlyActive, shows_Closed, IsPresent, OnlyNamed,
  named_Closed, IsPresent-Closed,
}
use aetheldesk.SceneManager.Recovery.{
  IsRecovered, switch_scene-IsRecovered, activate_prepared_scene-IsRecovered,
  mark_preparation_failed-IsRecovered, update_celestial-IsRecovered, update-IsRecovered,
  set_light_direction-IsRecovered, set_mica_enabled-IsRecovered, set_shafts_enabled-IsRecovered,
  set_viewport_aspect-IsRecovered, set_pixel_ratio-IsRecovered,
}
use aetheldesk.SceneManager.Building.{prepare_scene-IsRecovered}

-- A call from outside.
pub data Step (w : World) (m : Manager) : Manager → Type 0 where
  switches : (n : SceneName) (keep : Bool) → Step w m (switch_scene w n keep m)
  prepares : (n : SceneName) (keep : Bool) → Step w m (prepare_scene w n keep m).1
  activates : (p : Prepared) → Step w m (activate_prepared_scene w p m)
  compile_fails : (p : Prepared) (e : String) → Step w m (mark_preparation_failed w p e m)
  sky_moves : (c : ℕ) (a : Option ℕ) → Step w m (update_celestial w c a m)
  frame_passes : (a : Option ℕ) → Step w m (update w a m)
  light_turns : (d : ℕ) → Step w m (set_light_direction w d m)
  mica_set : (b : Bool) → Step w m (set_mica_enabled w b m)
  shafts_set : (b : Bool) → Step w m (set_shafts_enabled w b m)
  aspect_set : (v : Option ℕ) → Step w m (set_viewport_aspect w v m)
  ratio_set : (v : Option ℕ) → Step w m (set_pixel_ratio w v m)

abbrev pub IsTimelyStep : {w : World} {a b : Manager} → Step w a b → Type 0
IsTimelyStep {w} {a} (activates p) = IsReady p a.health
IsTimelyStep _ = Unit

pub data Reach (w : World) (m : Manager) : Manager → Type 0 where
  here : Reach w m m
  next : {a b : Manager} → Reach w m a → Step w a b → Reach w m b

-- Every prepared scene is activated while it is there and has not failed, as one that is activated at
-- once is.
abbrev pub IsTimely : {w : World} {m b : Manager} → Reach w m b → Type 0
IsTimely here = Unit
IsTimely (next r s) = IsTimelyStep s × IsTimely r

abbrev pub IsHiddenOrActive : Manager → Scene → Type 0
IsHiddenOrActive m s = (s.visible ≡ false) ⊎ ((s.name ≡ m.active) × (has s.name m.failed ≡ false))

-- The same without the failures.
abbrev pub IsHiddenOrNamed : Manager → Scene → Type 0
IsHiddenOrNamed m s = (s.visible ≡ false) ⊎ (s.name ≡ m.active)

hidden_or_active :
    (m : Manager) (ss : List Scene) → OnlyActive m.active m.failed ss → All (IsHiddenOrActive m) ss
hidden_or_active m [] h = tt
hidden_or_active m (s ∷ ss) h =
    (elim (Bool-cases s.visible) [ inl e ↦ inr (h.0 e) | inr e ↦ inl e ], hidden_or_active m ss h.1)

hidden_or_named :
    (m : Manager) (ss : List Scene) → OnlyNamed m.active ss → All (IsHiddenOrNamed m) ss
hidden_or_named m [] h = tt
hidden_or_named m (s ∷ ss) h = (h.0, hidden_or_named m ss h.1)

module _ (w : World) where
  Step-Keeps :
      {P : Health → Type 0} (c : Closed IsReady P) {a b : Manager} (s : Step w a b)
      → IsTimelyStep s
      → P a.health
      → P b.health
  Step-Keeps c {a} (switches n keep) t h = switch_scene-Keeps w c n keep a h
  Step-Keeps c {a} (prepares n keep) t h = prepare_scene-Keeps w c n keep a h
  Step-Keeps c {a} (activates p) r h = activate_prepared_scene-Keeps w c p a r h
  Step-Keeps c {a} (compile_fails p e) t h = mark_preparation_failed-Keeps w c p e a h
  Step-Keeps c {a} (sky_moves x y) t h = update_celestial-Keeps w c x y a h
  Step-Keeps c {a} (frame_passes x) t h = update-Keeps w c x a h
  Step-Keeps c {a} (light_turns d) t h = set_light_direction-Keeps w c d a h
  Step-Keeps c {a} (mica_set b) t h = set_mica_enabled-Keeps w c b a h
  Step-Keeps c {a} (shafts_set b) t h = set_shafts_enabled-Keeps w c b a h
  Step-Keeps c {a} (aspect_set v) t h = set_viewport_aspect-Keeps w c v a h
  Step-Keeps c {a} (ratio_set v) t h = set_pixel_ratio-Keeps w c v a h

  -- What needs nothing of the scene that is shown is kept by every call at any time.
  Step-Keeps_always :
      {P : Health → Type 0} (c : Closed (λ p h. Unit) P) {a b : Manager}
      → Step w a b
      → P a.health
      → P b.health
  Step-Keeps_always c {a} (switches n keep) h = switch_scene-Keeps w c n keep a h
  Step-Keeps_always c {a} (prepares n keep) h = prepare_scene-Keeps w c n keep a h
  Step-Keeps_always c {a} (activates p) h = activate_prepared_scene-Keeps w c p a tt h
  Step-Keeps_always c {a} (compile_fails p e) h = mark_preparation_failed-Keeps w c p e a h
  Step-Keeps_always c {a} (sky_moves x y) h = update_celestial-Keeps w c x y a h
  Step-Keeps_always c {a} (frame_passes x) h = update-Keeps w c x a h
  Step-Keeps_always c {a} (light_turns d) h = set_light_direction-Keeps w c d a h
  Step-Keeps_always c {a} (mica_set b) h = set_mica_enabled-Keeps w c b a h
  Step-Keeps_always c {a} (shafts_set b) h = set_shafts_enabled-Keeps w c b a h
  Step-Keeps_always c {a} (aspect_set v) h = set_viewport_aspect-Keeps w c v a h
  Step-Keeps_always c {a} (ratio_set v) h = set_pixel_ratio-Keeps w c v a h

  Step-IsRecovered :
      {a b : Manager} (s : Step w a b)
      → IsTimelyStep s
      → IsPresent a.health
      → IsRecovered a
      → IsRecovered b
  Step-IsRecovered {a} (switches n keep) t p h = switch_scene-IsRecovered w n keep a
  Step-IsRecovered {a} (prepares n keep) t p h = prepare_scene-IsRecovered w n keep a p h
  Step-IsRecovered {a} (activates q) r p h = activate_prepared_scene-IsRecovered w q a r
  Step-IsRecovered {a} (compile_fails q e) t p h = mark_preparation_failed-IsRecovered w q e a h
  Step-IsRecovered {a} (sky_moves x y) t p h = update_celestial-IsRecovered w x y a
  Step-IsRecovered {a} (frame_passes x) t p h = update-IsRecovered w x a h
  Step-IsRecovered {a} (light_turns d) t p h = set_light_direction-IsRecovered w d a h
  Step-IsRecovered {a} (mica_set b) t p h = set_mica_enabled-IsRecovered w b a
  Step-IsRecovered {a} (shafts_set b) t p h = set_shafts_enabled-IsRecovered w b a h
  Step-IsRecovered {a} (aspect_set v) t p h = set_viewport_aspect-IsRecovered w v a h
  Step-IsRecovered {a} (ratio_set v) t p h = set_pixel_ratio-IsRecovered w v a h

  Reach-Keeps :
      {P : Health → Type 0} (c : Closed IsReady P) {a b : Manager}
      → P a.health
      → (r : Reach w a b) → IsTimely r
      → P b.health
  Reach-Keeps c h here t = h
  Reach-Keeps c h (next r s) t = Step-Keeps c s t.0 (Reach-Keeps c h r t.1)

  Reach-Keeps_always :
      {P : Health → Type 0} (c : Closed (λ p h. Unit) P) {a b : Manager}
      → P a.health
      → Reach w a b
      → P b.health
  Reach-Keeps_always c h here = h
  Reach-Keeps_always c h (next r s) = Step-Keeps_always c s (Reach-Keeps_always c h r)

  Reach-Recovered :
      {a b : Manager}
      → IsPresent a.health
      → IsRecovered a
      → (r : Reach w a b) → IsTimely r
      → IsRecovered b
  Reach-Recovered p h here t = h
  Reach-Recovered p h (next r s) t =
      Step-IsRecovered s t.0 (Reach-Keeps IsPresent-Closed p r t.1) (Reach-Recovered p h r t.1)

  create-Keeps :
      {Needs : Prepared → Health → Type 0} {P : Health → Type 0} (c : Closed Needs P)
      → P aetheldesk.SceneManager.State.empty
      → P (create_scene_manager w).health
  unfolding create_scene_manager
  create-Keeps c h = switch_scene-Keeps w c sky false _ (ensure_scene-Keeps w c sky _ h)

  -- Failures are final: a scene that has failed once counts as failed after any further history of
  -- calls.
  pub Reach-failed :
      {a b : Manager} (n : SceneName) → has n a.failed ≡ true → Reach w a b → has n b.failed ≡ true
  Reach-failed n h r = Reach-Keeps_always (failed_Closed n) h r

  -- After any history of calls on a new manager, each pair of a scene and a phase was reported at
  -- most once, and the reports are exactly the recorded pairs, in their order.
  pub Reach-ReportsOnce : {b : Manager} → Reach w (create_scene_manager w) b → ReportsOnce b.health
  Reach-ReportsOnce r =
      Reach-Keeps_always reports_Closed
        (create-Keeps reports_Closed (record { unique = tt; made = refl })) r

  -- After any history of calls on a new manager, every scene that was built is hidden, or it is the
  -- active scene.
  pub Reach-ShowsNamed :
      {b : Manager} → Reach w (create_scene_manager w) b → All (IsHiddenOrNamed b) b.scenes
  Reach-ShowsNamed {b} r =
      hidden_or_named b b.scenes (Reach-Keeps_always named_Closed (create-Keeps named_Closed tt) r)

  -- After any history of calls on a new manager in which every prepared scene is activated while it
  -- is there and has not failed (or, where none was available, is the fallback), every scene that
  -- was built is hidden, or it is the active scene and has not failed.
  pub Reach-ShowsActive :
      {b : Manager} (r : Reach w (create_scene_manager w) b)
      → IsTimely r
      → All (IsHiddenOrActive b) b.scenes
  Reach-ShowsActive {b} r t =
      hidden_or_active b b.scenes (Reach-Keeps shows_Closed (create-Keeps shows_Closed tt) r t)

  Reach-IsRecovered :
      {b : Manager} (r : Reach w (create_scene_manager w) b) → IsTimely r → IsRecovered b
  unfolding create_scene_manager
  Reach-IsRecovered r t =
      Reach-Recovered (create-Keeps IsPresent-Closed (inl refl))
        (switch_scene-IsRecovered w sky false _) r t

  -- After any history of calls on a new manager in which every prepared scene is activated while it
  -- is there and has not failed (or, where none was available, is the fallback), whatever the
  -- scenes throw and whenever, the active scene has not failed, or the active scene is the
  -- fallback.
  pub Reach-active :
      {b : Manager} (r : Reach w (create_scene_manager w) b)
      → IsTimely r
      → (has b.active b.failed ≡ false) ⊎ (b.active ≡ sky)
  Reach-active {b} r t = elim (Bool-cases (has b.active b.failed)) [
    | inl e ↦ inr (Reach-IsRecovered r t e)
    | inr e ↦ inl e
  ]
