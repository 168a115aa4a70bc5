-- ===== src/Controller/Keeps/History.antt =====
-- scenes.js: the rest of what is kept: `switchScene` from one wait to the next, and all histories.
use aetheldesk.Base.{
  ℕ, ◌+◌, String, Bool, true, false, Option, none, some, if_intro, Option-cases, inl, inr,
}
use aetheldesk.Storage.{Browser}
use aetheldesk.SceneManager.State.{SceneName, sky}
use aetheldesk.SceneManager.{
  World, Manager, Prepared, prepare_scene, mark_preparation_failed, activate_prepared_scene,
}
use aetheldesk.Controller.{
  Controller, Stage, normalize_scene_name, commit_active_scene, run_runtime_2d_fallback, destroy,
  with_manager,
}
use aetheldesk.Controller.Transition as Transition
use aetheldesk.Controller.Transition.{Ticket, Pending, is_current, interrupted}
use aetheldesk.Controller.Steps.{
  Step, renders, ticks, syncs, shows_frame, switches, compiles, dims, presents, fails, falls_back,
  destroys, Reach, here, next,
}
use aetheldesk.Controller.Keeps.{
  IsKept, saved, schedule-Keeps, render-Keeps, tick-Keeps, frame-Keeps, sync-Keeps,
}

module _ (suppresses : SceneName → Bool) (Q : Browser → SceneName → String → ℕ → Type 0)
    (kept : IsKept Q) (w : World) where
  abbrev pub Held : Controller → Type 0
  Held c = Q c.browser c.active_scene c.dataset_scene c.scene_transition_token

  again-Keeps : (c : Controller) → Held c → Held (Transition.render_again suppresses w c)
  unfolding Transition.render_again
  again-Keeps c h = elim (Option-cases c.last_celestial) [
    | inl e ↦ rw e h
    | inr (x, e) ↦ rw e (render-Keeps suppresses Q kept w none x c h)
  ]

  activate-Keeps :
      (t : Ticket) (p : Prepared) (c : Controller)
      → Held c
      → Held (Transition.activate suppresses w t p c).1
  unfolding Transition.activate Transition.commit_switched commit_active_scene
  activate-Keeps t p c h = elim (Option-cases c.stage) [
    | inl e ↦ rw e h
    | inr (s, e) ↦ rw e (
        again-Keeps
          (Transition.commit_switched suppresses w (activate_prepared_scene w p s.manager).active
            t.requested (with_manager s (activate_prepared_scene w p s.manager) c))
          (saved suppresses Q kept (activate_prepared_scene w p s.manager).active h))
  ]

  dim-Keeps :
      (calm : Bool) (t : Ticket) (p : Prepared) (c : Controller)
      → Held c
      → Held (Transition.dim suppresses w calm t p c).1
  unfolding Transition.dim
  dim-Keeps true t p c h = activate-Keeps t p c h
  dim-Keeps false t p c h = h

  current-Keeps :
      (calm : Bool) (t : Ticket) (p : Prepared) (c : Controller)
      → Held c
      → Held (Transition.dim_if_current suppresses w calm t p c).1
  unfolding Transition.dim_if_current
  current-Keeps calm t p c h =
      if_intro (λ (x : Pending × Controller). Held x.1) _ (λ _. dim-Keeps calm t p c h) (λ _. h)

  start-Keeps :
      (calm : Bool) (t : Ticket) (s : Stage) (p : Prepared × Manager) (c : Controller)
      → Held c
      → Held (Transition.start suppresses w calm t s p c).1
  unfolding Transition.start
  start-Keeps calm t s (p, m) c h =
      if_intro (λ (x : Pending × Controller). Held x.1) p.available (λ _. h)
        (λ _. current-Keeps calm t p (with_manager s m c) h)

  pub switch-Keeps :
      (calm : Bool) (name : String) (c : Controller)
      → Q c.browser c.active_scene c.dataset_scene (c.scene_transition_token + 1)
      → Held (Transition.switch_scene suppresses w calm name c).1
  unfolding Transition.switch_scene commit_active_scene
  switch-Keeps calm name c h = elim (Option-cases c.stage) [
    | inl e ↦ rw e (again-Keeps _ (saved suppresses Q kept sky h))
    | inr (s, e) ↦
        let token : ℕ = c.scene_transition_token + 1 in
        let requested : SceneName = normalize_scene_name name in
        let taken : Controller = record c {
          scene_transition_token = token;
          canvas_dimmed = false;
        } in
        rw e (
          if_intro (λ (x : Pending × Controller). Held x.1) _ (λ _. h)
            (λ _.
              start-Keeps calm (record { token = token; engine = s.number; requested = requested })
                s (prepare_scene w requested false s.manager) taken h))
  ]

  recover-Keeps :
      (calm : Bool) (t : Ticket) (s : Stage) (m : Manager) (c : Controller)
      → Held c
      → Held (Transition.recover suppresses w calm t s m c).1
  unfolding Transition.recover Transition.dim_prepared
  recover-Keeps calm t s m c h =
      let r = prepare_scene w sky true m in
      if_intro (λ (x : Pending × Controller). Held x.1) _
        (λ _. dim-Keeps calm t r.0 (with_manager s r.1 c) h)
        (λ _. schedule-Keeps suppresses Q kept (with_manager s m c) h)

  settled-Keeps :
      (calm : Bool) (error : Option String) (t : Ticket) (p : Prepared) (c : Controller)
      → Held c
      → Held (Transition.settled suppresses w calm error t p c).1
  unfolding Transition.settled
  settled-Keeps calm none t p c h = dim-Keeps calm t p c h
  settled-Keeps calm (some e) t p c h = elim (Option-cases c.stage) [
    | inl q ↦ rw q h
    | inr (s, q) ↦ rw q (recover-Keeps calm t s (mark_preparation_failed w p e s.manager) c h)
  ]

  compiled-Keeps :
      (calm : Bool) (error : Option String) (t : Ticket) (p : Prepared) (c : Controller)
      → Held c
      → Held (Transition.compiled suppresses w calm error t p c).1
  unfolding Transition.compiled
  compiled-Keeps calm error t p c h =
      if_intro (λ (x : Pending × Controller). Held x.1) _ (λ _. settled-Keeps calm error t p c h)
        (λ _. h)

  dimmed-Keeps :
      (t : Ticket) (p : Prepared) (c : Controller)
      → Held c
      → Held (Transition.dimmed suppresses w t p c).1
  unfolding Transition.dimmed
  dimmed-Keeps t p c h =
      if_intro (λ (x : Pending × Controller). Held x.1) _ (λ _. activate-Keeps t p c h) (λ _. h)

  presented-Keeps :
      (ready : Bool) (t : Ticket) (n : SceneName) (c : Controller)
      → Held c
      → Held (Transition.presented suppresses w ready t n c).1
  unfolding Transition.presented
  presented-Keeps ready t n c h =
      if_intro (λ (x : Pending × Controller). Held x.1) _ (λ _. h) (λ _. h)

  pub Step-Keeps : {a b : Controller} → Step suppresses w a b → Held a → Held b
  unfolding run_runtime_2d_fallback commit_active_scene destroy
  Step-Keeps {a} (renders made x) h = render-Keeps suppresses Q kept w made x a h
  Step-Keeps {a} ticks h = tick-Keeps suppresses Q kept w a h
  Step-Keeps {a} (syncs x y z) h = sync-Keeps suppresses Q kept w x y z a h
  Step-Keeps {a} (shows_frame n) h = frame-Keeps suppresses Q kept w n a h
  Step-Keeps {a} (switches calm name) h = switch-Keeps calm name a (kept.raises h)
  Step-Keeps {a} (compiles calm e t p) h = compiled-Keeps calm e t p a h
  Step-Keeps {a} (dims t p) h = dimmed-Keeps t p a h
  Step-Keeps {a} (presents r t n) h = presented-Keeps r t n a h
  Step-Keeps {a} fails h = schedule-Keeps suppresses Q kept a h
  Step-Keeps {a} falls_back h = saved suppresses Q kept sky h
  Step-Keeps {a} destroys h = kept.raises h

  pub Reach-Keeps : {a b : Controller} → Held a → Reach suppresses w a b → Held b
  Reach-Keeps h here = h
  Reach-Keeps h (next r s) = Step-Keeps s (Reach-Keeps h r)
