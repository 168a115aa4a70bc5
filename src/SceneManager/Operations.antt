-- ===== src/SceneManager/Operations.antt =====
-- scene-manager.js: lemmas on its operations as sequences of the four changes.
use aetheldesk.Base.{
  ℕ, zero, suc, String, Bool, true, not, ◌&&◌, Option, none, some, List, [], ◌∷◌, is_some, if_intro,
  same_flag, ◌||◌,
}
use aetheldesk.SceneManager.State.{
  SceneName, sky, Method, celestial, Phase, celestial_update, frame, light, mica, shafts, aspect,
  ratio, frame_update, light_update, effect_update, viewport_update, pixel_ratio_update, Scene,
  Health, same_name, has, find_scene,
}
use aetheldesk.SceneManager.{
  World, Manager, Prepared, method_of, retry_unless, activate_with, switch_on, switch_scene,
  activate_prepared_scene, recover_active_scene, mark_preparation_failed,
}
use aetheldesk.SceneManager.Closure.{Closed, invoke-Keeps, prepare_scene-Keeps}
use aetheldesk.SceneManager.Ready.{prepare_scene-IsReady}
use aetheldesk.SceneManager.Updates.{
  invoke_all, update_celestial, update_fallback, update, set_light_direction, set_mica_enabled,
  set_shafts_enabled, is_news, set_viewport_aspect, set_pixel_ratio,
}

module _ (w : World) {Needs : Prepared → Health → Type 0} {P : Health → Type 0}
    (c : Closed Needs P) where
  abbrev Keeps : (Manager → Manager) → Type 0
  Keeps f = (m : Manager) → P m.health → P (f m).health

  retry_unless-Keeps :
      (retry : Manager → Manager) (n : SceneName) (r : Bool × Manager)
      → Keeps retry
      → P r.1.health
      → P (retry_unless retry n r).health
  retry_unless-Keeps retry n (done, m) k h =
      if_intro (λ (m : Manager). P m.health) (not done && not (same_name n sky)) (λ _. k m h) λ _. h

  activate_with-Keeps :
      (retry : Manager → Manager) (p : Prepared) (m : Manager)
      → Keeps retry
      → Needs p m.health
      → P m.health
      → P (activate_with w retry p m).health
  unfolding activate_with
  activate_with-Keeps retry p m k ready h =
      let shown = c.shows p m.health ready h in
      if_intro (λ (m : Manager). P m.health)
        (p.available && is_some m.last_celestial && method_of celestial p.resolved_name m)
        (λ _.
          retry_unless-Keeps retry p.resolved_name _ k
            (invoke-Keeps w c p.resolved_name celestial_update celestial _ shown))
        λ _. shown

  switch_on-Keeps : (fuel : ℕ) (n : SceneName) (keep : Bool) → Keeps (switch_on w fuel n keep)
  unfolding switch_on
  switch_on-Keeps zero n keep m h = h
  switch_on-Keeps (suc fuel) n keep m h =
      activate_with-Keeps (switch_on w fuel sky true) _ _ (switch_on-Keeps fuel sky true)
        (c.ready _ _ (prepare_scene-IsReady w n keep m)) (prepare_scene-Keeps w c n keep m h)

  pub switch_scene-Keeps : (n : SceneName) (keep : Bool) → Keeps (switch_scene w n keep)
  unfolding switch_scene
  switch_scene-Keeps = switch_on-Keeps 2

  pub activate_prepared_scene-Keeps :
      (p : Prepared) (m : Manager)
      → Needs p m.health
      → P m.health
      → P (activate_prepared_scene w p m).health
  unfolding activate_prepared_scene
  activate_prepared_scene-Keeps p m ready h =
      activate_with-Keeps (switch_scene w sky true) p m (switch_scene-Keeps sky true) ready h

  pub recover_active_scene-Keeps : Keeps (recover_active_scene w)
  unfolding recover_active_scene
  recover_active_scene-Keeps m h =
      if_intro (λ (m : Manager). P m.health) (not (has m.active m.failed) || same_name m.active sky)
        (λ _. h) λ _. switch_scene-Keeps sky true m h

  pub mark_preparation_failed-Keeps :
      (p : Prepared) (e : String) → Keeps (mark_preparation_failed w p e)
  unfolding mark_preparation_failed
  mark_preparation_failed-Keeps p e m h =
      if_intro (λ (m : Manager). P m.health) (is_some (find_scene p.resolved_name m.scenes))
        (λ _. recover_active_scene-Keeps _ (c.marks p.resolved_name _ e m.health h)) λ _. h

  invoke_all-Keeps : (p : Phase) (f : Method) (ss : List Scene) → Keeps (invoke_all w p f ss)
  unfolding invoke_all
  invoke_all-Keeps p f [] m h = h
  invoke_all-Keeps p f (s ∷ ss) m h = invoke_all-Keeps p f ss _ (
      if_intro (λ (m : Manager). P m.health) (not (s.methods f) || has s.name m.failed) (λ _. h)
        λ _. invoke-Keeps w c s.name p f m h)

  pub update_celestial-Keeps : (x : ℕ) (a : Option ℕ) → Keeps (update_celestial w x a)
  unfolding update_celestial
  update_celestial-Keeps x a m h =
      recover_active_scene-Keeps _ (invoke_all-Keeps celestial_update celestial m.scenes _ h)

  update_fallback-Keeps : Keeps (update_fallback w)
  unfolding update_fallback
  update_fallback-Keeps m h =
      let m' : Manager = switch_scene w sky true m in
      let kept = switch_scene-Keeps sky true m h in
      if_intro (λ (m : Manager). P m.health)
        (method_of frame m'.active m' && not (has m'.active m'.failed))
        (λ _. invoke-Keeps w c m'.active frame_update frame m' kept) λ _. kept

  pub update-Keeps : (a : Option ℕ) → Keeps (update w a)
  unfolding update
  update-Keeps a m h =
      if_intro (λ (m : Manager). P m.health)
        (not (method_of frame m.active m) || has m.active m.failed) (λ _. h)
        λ _.
          retry_unless-Keeps (update_fallback w) m.active _ update_fallback-Keeps
            (invoke-Keeps w c m.active frame_update frame _ h)

  pub set_light_direction-Keeps : (d : ℕ) → Keeps (set_light_direction w d)
  unfolding set_light_direction
  set_light_direction-Keeps d m h =
      if_intro (λ (m : Manager). P m.health)
        (not (method_of light m.active m) || has m.active m.failed) (λ _. h)
        λ _.
          retry_unless-Keeps (switch_scene w sky true) m.active _ (switch_scene-Keeps sky true)
            (invoke-Keeps w c m.active light_update light _ h)

  pub set_mica_enabled-Keeps : (b : Bool) → Keeps (set_mica_enabled w b)
  unfolding set_mica_enabled
  set_mica_enabled-Keeps b m h =
      recover_active_scene-Keeps _ (invoke_all-Keeps effect_update mica m.scenes _ h)

  pub set_shafts_enabled-Keeps : (b : Bool) → Keeps (set_shafts_enabled w b)
  unfolding set_shafts_enabled
  set_shafts_enabled-Keeps b m h =
      if_intro (λ (m : Manager). P m.health) (same_flag b m.shafts_enabled) (λ _. h)
        λ _. recover_active_scene-Keeps _ (invoke_all-Keeps effect_update shafts m.scenes _ h)

  pub set_viewport_aspect-Keeps : (v : Option ℕ) → Keeps (set_viewport_aspect w v)
  unfolding set_viewport_aspect
  set_viewport_aspect-Keeps none m h = h
  set_viewport_aspect-Keeps (some v) m h =
      if_intro (λ (m : Manager). P m.health) (is_news (some v) m.viewport_aspect)
        (λ _. recover_active_scene-Keeps _ (invoke_all-Keeps viewport_update aspect m.scenes _ h))
        λ _. h

  pub set_pixel_ratio-Keeps : (v : Option ℕ) → Keeps (set_pixel_ratio w v)
  unfolding set_pixel_ratio
  set_pixel_ratio-Keeps none m h = h
  set_pixel_ratio-Keeps (some v) m h =
      if_intro (λ (m : Manager). P m.health) (is_news (some v) m.pixel_ratio)
        (λ _. recover_active_scene-Keeps _ (invoke_all-Keeps pixel_ratio_update ratio m.scenes _ h))
        λ _. h
