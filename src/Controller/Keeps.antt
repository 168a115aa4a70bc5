-- ===== src/Controller/Keeps.antt =====
-- scenes.js: lemmas on a predicate `Q` along a history of the controller.
-- `Q` is a property of the stored choice, the scene, `data-scene` and the transition token.
pub mod History
use aetheldesk.Base.{
  ℕ, ◌+◌, String, Bool, true, false, Option, none, some, if_intro, Option-cases, inl, inr,
}
use aetheldesk.Storage.{Browser, store_scene}
use aetheldesk.SceneManager.State.{SceneName, sky}
use aetheldesk.SceneManager.{
  World, Manager, Prepared, switch_scene, prepare_scene, mark_preparation_failed,
  activate_prepared_scene, create_scene_manager,
}
use aetheldesk.SceneManager.Updates.{update, update_celestial}
use aetheldesk.Controller.{
  Controller, Stage, Reason, runtime_fallback, name_text, normalized, normalize_scene_name,
  dataset_of, commit_active_scene, reconcile_managed_scene, settle_stage,
  schedule_runtime_2d_fallback, run_runtime_2d_fallback, destroy, with_manager, is_available,
}
use aetheldesk.Controller.Frames.{
  first_frame, init_failure, take_stage, try_3d, init_3d, sync_scene_metrics, follow_sky,
  render_scene, tick,
}
use aetheldesk.Controller.Transition as Transition
use aetheldesk.Controller.Transition.{Ticket, Pending, is_current, interrupted}
use aetheldesk.Controller.Steps.{
  Step, renders, ticks, syncs, shows_frame, switches, compiles, dims, presents, fails, falls_back,
  destroys, Reach, here, next,
}

pub record IsKept (Q : Browser → SceneName → String → ℕ → Type 0) : Type 0 where
  pub commits :
      {b : Browser} {a : SceneName} {d : String} {t : ℕ} (n : SceneName)
      → Q b a d t
      → Q (store_scene (name_text (normalized n)) b) (normalized n) (dataset_of (normalized n)) t
  pub raises : {b : Browser} {a : SceneName} {d : String} {t : ℕ} → Q b a d t → Q b a d (t + 1)

module _ (suppresses : SceneName → Bool) (Q : Browser → SceneName → String → ℕ → Type 0)
    (kept : IsKept Q) where
  abbrev pub Holds : Controller → Type 0
  Holds c = Q c.browser c.active_scene c.dataset_scene c.scene_transition_token

  pub saved :
      {b : Browser} {a : SceneName} {d : String} {t : ℕ} (n : SceneName)
      → Q b a d t
      → Q (store_scene (name_text (normalized n)) b) (normalized n) (dataset_of (normalized n)) t
  saved n h = kept.commits n h

  pub schedule-Keeps : (c : Controller) → Holds c → Holds (schedule_runtime_2d_fallback c)
  unfolding schedule_runtime_2d_fallback
  schedule-Keeps c h = if_intro (λ (x : Controller). Holds x) _ (λ e. h) (λ e. h)

  reconcile-Keeps :
      (r : Reason) (c : Controller) → Holds c → Holds (reconcile_managed_scene suppresses r c)
  unfolding reconcile_managed_scene commit_active_scene
  reconcile-Keeps r c h = elim (Option-cases c.stage) [
    | inl e ↦ rw e h
    | inr (s, e) ↦
        rw e (if_intro (λ (x : Controller). Holds x) _ (λ e. h) (λ e. saved s.manager.active h))
  ]

  settle-Keeps : (m : Manager) (c : Controller) → Holds c → Holds (settle_stage suppresses m c)
  unfolding settle_stage
  settle-Keeps m c h =
      if_intro (λ (x : Controller). Holds x) _ (λ e. reconcile-Keeps runtime_fallback c h)
        (λ e. schedule-Keeps c h)

  module _ (w : World) where
    try_3d-Keeps : (made : Option ℕ) (c : Controller) → Holds c → Holds (try_3d suppresses w made c)
    unfolding try_3d init_failure take_stage commit_active_scene
    try_3d-Keeps none c h = saved sky h
    try_3d-Keeps (some number) c h =
        if_intro (λ (x : Controller). Holds x) (is_available (create_scene_manager w))
          (λ e. saved (switch_scene w c.active_scene false (create_scene_manager w)).active h)
          (λ e. saved sky h)

    init_3d-Keeps :
        (made : Option ℕ) (c : Controller) → Holds c → Holds (init_3d suppresses w made c)
    unfolding init_3d
    init_3d-Keeps made c h =
        if_intro (λ (x : Controller). Holds x) _ (λ e. h) (λ e. try_3d-Keeps made c h)

    follow_sky-Keeps :
        (celestial : ℕ) (c : Controller) → Holds c → Holds (follow_sky suppresses w celestial c)
    unfolding follow_sky
    follow_sky-Keeps celestial c h = elim (Option-cases c.stage) [
      | inl e ↦ rw e h
      | inr (s, e) ↦
          rw e
            (settle-Keeps _ (with_manager s (update_celestial w celestial (some 0) s.manager) c) h)
    ]

    pub render-Keeps :
        (made : Option ℕ) (celestial : ℕ) (c : Controller)
        → Holds c
        → Holds (render_scene suppresses w made celestial c)
    unfolding render_scene
    render-Keeps made celestial c h =
        let seen : Controller = record c { last_celestial = some celestial } in
        follow_sky-Keeps celestial (init_3d suppresses w made seen) (init_3d-Keeps made seen h)

    pub tick-Keeps : (c : Controller) → Holds c → Holds (tick suppresses w c)
    unfolding tick
    tick-Keeps c h = elim (Option-cases c.stage) [
      | inl e ↦ rw e h
      | inr (s, e) ↦ rw e (settle-Keeps _ (with_manager s (update w (some 0) s.manager) c) h)
    ]

    pub frame-Keeps : (n : ℕ) (c : Controller) → Holds c → Holds (first_frame n c)
    unfolding first_frame
    frame-Keeps n c h = elim (Option-cases c.stage) [
      | inl e ↦ rw e h
      | inr (s, e) ↦ rw e (if_intro (λ (x : Controller). Holds x) _ (λ _. h) (λ _. h))
    ]

    pub sync-Keeps :
        (a r : Option ℕ) (b : Bool) (c : Controller)
        → Holds c
        → Holds (sync_scene_metrics w a r b c)
    unfolding sync_scene_metrics
    sync-Keeps a r b c h = elim (Option-cases c.stage) [ inl e ↦ rw e h | inr (s, e) ↦ rw e h ]
