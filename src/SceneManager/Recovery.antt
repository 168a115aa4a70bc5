-- ===== src/SceneManager/Recovery.antt =====
-- scene-manager.js: lemmas on the recovery from a failed scene.
use aetheldesk.Base.{
  ℕ, suc, String, ◌≡◌, ◌⊎◌, inl, refl, ap, Bool, true, not, ◌&&◌, Option, none, some, arith,
  is_some, if_intro, ◌||◌, ◌∙◌, fun_ext, same_flag,
}
use aetheldesk.SceneManager.State.{
  SceneName, sky, Method, celestial, frame, light, Phase, celestial_update, frame_update,
  light_update, same_name, has, find_scene, mark_failed, show_only,
}
use aetheldesk.SceneManager.{
  World, Manager, Prepared, call, ensure_scene, settle, invoke, fall_back, prepare_scene, method_of,
  retry_unless, activate_with, switch_on, switch_scene, activate_prepared_scene,
  recover_active_scene, mark_preparation_failed,
}
use aetheldesk.SceneManager.Updates.{
  update_celestial, update_fallback, update, set_light_direction, set_mica_enabled,
  set_shafts_enabled, is_news, set_viewport_aspect, set_pixel_ratio,
}
use aetheldesk.SceneManager.Closure.{IsReady}
use aetheldesk.SceneManager.Ready.{prepare_scene-IsReady}

abbrev pub IsRecovered : Manager → Type 0
IsRecovered m = has m.active m.failed ≡ true → m.active ≡ sky

IsRecovered-sky : (m : Manager) → m.active ≡ sky → IsRecovered m
IsRecovered-sky m e h = e

-- What one call can change: nothing, or one more failure.
record Fails (n : SceneName) (m : Manager) (r : Bool × Manager) : Type 0 where
  active : r.1.active ≡ m.active
  unfailed : r.0 ≡ true → r.1.failed ≡ m.failed
  only : (a : SceneName) → has a r.1.failed ≡ true → (has a m.failed ≡ true) ⊎ (a ≡ n)

settle-Fails :
    (n : SceneName) (p : Phase) (r : Option String × Manager) → Fails n r.1 (settle n p r)
unfolding settle mark_failed has
settle-Fails n p (none, m) = record { active = refl; unfailed = λ _. refl; only = λ a h. inl h }
settle-Fails n p (some e, m) = record {
  active = ground arith;
  unfailed = λ h. cc;
  only = λ a h. ground arith;
}

module _ (w : World) where
  invoke-Fails :
      (n : SceneName) (p : Phase) (f : Method) (m : Manager) → Fails n m (invoke w n p f m)
  unfolding invoke
  invoke-Fails n p f m =
      if_intro (Fails n m) (has n m.failed)
        (λ _. record { active = refl; unfailed = λ _. refl; only = λ a h. inl h })
        λ _.
          let v = settle-Fails n p (call w n f m) in
          record { active = v.active; unfailed = v.unfailed; only = v.only }

  -- A retry that ends on the fallback.
  abbrev IsFallback : (Manager → Manager) → Type 0
  IsFallback retry = (m : Manager) → (retry m).active ≡ sky

  retry_unless-IsRecovered :
      (retry : Manager → Manager) (m : Manager) (r : Bool × Manager)
      → IsFallback retry
      → Fails m.active m r
      → IsRecovered m
      → IsRecovered (retry_unless retry m.active r)
  retry_unless-IsRecovered retry m (done, m') k v h =
      if_intro IsRecovered (not done && not (same_name m.active sky))
        (λ _. IsRecovered-sky (retry m') (k m')) λ e f. ground (arith, v.active, v.unfailed, h)

  shown_IsRecovered :
      (p : Prepared) (m : Manager)
      → IsReady p m.health
      → IsRecovered (record m { health = show_only p.resolved_name p.available m.health })
  unfolding show_only
  shown_IsRecovered p m r f = ground (arith, r.unfailed, r.otherwise)

  activate_with-IsRecovered :
      (retry : Manager → Manager) (p : Prepared) (m : Manager)
      → IsFallback retry
      → IsReady p m.health
      → IsRecovered (activate_with w retry p m)
  unfolding activate_with show_only
  activate_with-IsRecovered retry p m k r =
      let shown : Manager = record m { health = show_only p.resolved_name p.available m.health } in
      if_intro IsRecovered
        (p.available && is_some m.last_celestial && method_of celestial p.resolved_name m)
        (λ _.
          retry_unless-IsRecovered retry shown _ k
            (invoke-Fails p.resolved_name celestial_update celestial shown)
            (shown_IsRecovered p m r))
        λ _. shown_IsRecovered p m r

  active-activate_sky :
      (retry : Manager → Manager) (p : Prepared) (m : Manager)
      → p.resolved_name ≡ sky
      → (activate_with w retry p m).active ≡ sky
  unfolding activate_with show_only
  active-activate_sky retry p m e = ground (
    arith,
    (invoke-Fails p.resolved_name celestial_update celestial
        (record m { health = show_only p.resolved_name p.available m.health })).active,
  )

  resolved-fall_back_sky :
      (n : SceneName) (r : Bool × Manager) → n ≡ sky → (fall_back w n r).0.resolved_name ≡ sky
  unfolding fall_back
  resolved-fall_back_sky n (found, m) e = ground arith

  resolved-prepare_sky :
      (keep : Bool) (m : Manager) → (prepare_scene w sky keep m).0.resolved_name ≡ sky
  unfolding prepare_scene
  resolved-prepare_sky keep m =
      resolved-fall_back_sky _ (ensure_scene w _ _)
        (if_intro (λ n. n ≡ sky) (w.exists sky) (λ _. refl) λ _. refl)

  active-switch_on_sky :
      (fuel : ℕ) (keep : Bool) (m : Manager) → (switch_on w (suc fuel) sky keep m).active ≡ sky
  unfolding switch_on
  active-switch_on_sky fuel keep m = active-activate_sky _ _ _ (resolved-prepare_sky keep m)

  retry_unused :
      (f g : Manager → Manager) (p : Prepared) (m : Manager)
      → p.resolved_name ≡ sky
      → activate_with w f p m ≡ activate_with w g p m
  unfolding activate_with
  retry_unused f g p m e = ground arith

  -- A switch calls itself at most once more, for the fallback: with any fuel of two or more it does what it
  -- does with two.
  pub switch_on_enough :
      (extra : ℕ) (n : SceneName) (keep : Bool) (m : Manager)
      → switch_on w (suc (suc extra)) n keep m ≡ switch_scene w n keep m
  unfolding switch_on switch_scene
  switch_on_enough extra n keep m =
      ap (λ retry. activate_with w retry (prepare_scene w n keep m).0 (prepare_scene w n keep m).1)
        (fun_ext λ x. retry_unused _ _ _ _ (resolved-prepare_sky true x))

  switch_scene-IsFallback : (keep : Bool) → IsFallback (switch_scene w sky keep)
  unfolding switch_scene
  switch_scene-IsFallback keep m = active-switch_on_sky 1 keep m

  pub switch_scene-IsRecovered :
      (n : SceneName) (keep : Bool) (m : Manager) → IsRecovered (switch_scene w n keep m)
  unfolding switch_scene switch_on
  switch_scene-IsRecovered n keep m =
      activate_with-IsRecovered (switch_on w 1 sky true) _ _ (active-switch_on_sky 0 true)
        (prepare_scene-IsReady w n keep m)

  pub activate_prepared_scene-IsRecovered :
      (p : Prepared) (m : Manager)
      → IsReady p m.health
      → IsRecovered (activate_prepared_scene w p m)
  unfolding activate_prepared_scene
  activate_prepared_scene-IsRecovered p m r =
      activate_with-IsRecovered (switch_scene w sky true) p m (switch_scene-IsFallback true) r

  pub recover_active_scene-IsRecovered : (m : Manager) → IsRecovered (recover_active_scene w m)
  unfolding recover_active_scene
  recover_active_scene-IsRecovered m =
      if_intro IsRecovered (not (has m.active m.failed) || same_name m.active sky)
        (λ e f. ground arith) λ _. switch_scene-IsRecovered sky true m

  update_fallback-IsFallback : IsFallback (update_fallback w)
  unfolding update_fallback
  update_fallback-IsFallback m =
      let m' : Manager = switch_scene w sky true m in
      if_intro (λ (k : Manager). k.active ≡ sky)
        (method_of frame m'.active m' && not (has m'.active m'.failed))
        (λ _.
          (invoke-Fails m'.active frame_update frame m').active ∙ switch_scene-IsFallback true m)
        λ _. switch_scene-IsFallback true m

  pub update-IsRecovered : (a : Option ℕ) (m : Manager) → IsRecovered m → IsRecovered (update w a m)
  unfolding update
  update-IsRecovered a m h =
      if_intro IsRecovered (not (method_of frame m.active m) || has m.active m.failed) (λ _. h)
        λ _.
          retry_unless-IsRecovered (update_fallback w) _ _ update_fallback-IsFallback
            (invoke-Fails m.active frame_update frame _) h

  pub set_light_direction-IsRecovered :
      (d : ℕ) (m : Manager) → IsRecovered m → IsRecovered (set_light_direction w d m)
  unfolding set_light_direction
  set_light_direction-IsRecovered d m h =
      if_intro IsRecovered (not (method_of light m.active m) || has m.active m.failed) (λ _. h)
        λ _.
          retry_unless-IsRecovered (switch_scene w sky true) _ _ (switch_scene-IsFallback true)
            (invoke-Fails m.active light_update light _) h

  pub mark_preparation_failed-IsRecovered :
      (p : Prepared) (e : String) (m : Manager)
      → IsRecovered m
      → IsRecovered (mark_preparation_failed w p e m)
  unfolding mark_preparation_failed
  mark_preparation_failed-IsRecovered p e m h =
      if_intro IsRecovered (is_some (find_scene p.resolved_name m.scenes))
        (λ _. recover_active_scene-IsRecovered _) λ _. h

  pub update_celestial-IsRecovered :
      (x : ℕ) (a : Option ℕ) (m : Manager) → IsRecovered (update_celestial w x a m)
  unfolding update_celestial
  update_celestial-IsRecovered x a m = recover_active_scene-IsRecovered _

  pub set_mica_enabled-IsRecovered : (b : Bool) (m : Manager) → IsRecovered (set_mica_enabled w b m)
  unfolding set_mica_enabled
  set_mica_enabled-IsRecovered b m = recover_active_scene-IsRecovered _

  pub set_shafts_enabled-IsRecovered :
      (b : Bool) (m : Manager) → IsRecovered m → IsRecovered (set_shafts_enabled w b m)
  unfolding set_shafts_enabled
  set_shafts_enabled-IsRecovered b m h =
      if_intro IsRecovered (same_flag b m.shafts_enabled) (λ _. h)
        λ _. recover_active_scene-IsRecovered _

  pub set_viewport_aspect-IsRecovered :
      (v : Option ℕ) (m : Manager) → IsRecovered m → IsRecovered (set_viewport_aspect w v m)
  unfolding set_viewport_aspect
  set_viewport_aspect-IsRecovered none m h = h
  set_viewport_aspect-IsRecovered (some v) m h =
      if_intro IsRecovered (is_news (some v) m.viewport_aspect)
        (λ _. recover_active_scene-IsRecovered _) λ _. h

  pub set_pixel_ratio-IsRecovered :
      (v : Option ℕ) (m : Manager) → IsRecovered m → IsRecovered (set_pixel_ratio w v m)
  unfolding set_pixel_ratio
  set_pixel_ratio-IsRecovered none m h = h
  set_pixel_ratio-IsRecovered (some v) m h =
      if_intro IsRecovered (is_news (some v) m.pixel_ratio)
        (λ _. recover_active_scene-IsRecovered _) λ _. h
