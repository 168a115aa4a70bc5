-- ===== src/Controller/Frames.antt =====
-- scenes.js: `init3D`, the manager's part of a tick, `syncSceneMetrics` and `renderScene`. The sky, the
-- celestial bodies and the camera only draw and are left out.
use aetheldesk.Base.{
  ℕ, Bool, true, false, not, ◌&&◌, ◌||◌, Option, none, some, ◌==◌, if◌then◌else◌, is_some,
}
use aetheldesk.SceneManager.State.{SceneName, sky, same_name}
use aetheldesk.SceneManager.{World, Manager, switch_scene, create_scene_manager}
use aetheldesk.SceneManager.Updates.{
  update_celestial, update, set_shafts_enabled, set_viewport_aspect, set_pixel_ratio,
}
use aetheldesk.Controller.{
  Controller, Stage, Reason, initialization, construction_fallback, engine_fallback, is_available,
  with_manager, commit_active_scene, settle_stage,
}

-- onFirstFrame of the engine `number`
unfoldable pub first_frame : ℕ → Controller → Controller
first_frame number c = elim c.stage [
  | none ↦ c
  | some s ↦ if not c.init_failed && s.number == number then record c { is_3d = true } else c
]

unfoldable pub sync_scene_metrics : World → Option ℕ → Option ℕ → Bool → Controller → Controller
sync_scene_metrics w aspect pixel_ratio shafts c = elim c.stage [
  | none ↦ c
  | some s ↦
      with_manager s
        (set_shafts_enabled w shafts
          (set_pixel_ratio w pixel_ratio (set_viewport_aspect w aspect s.manager)))
        c
]

module _ (suppresses : SceneName → Bool) (w : World) where
  -- The catch block of init3D.
  unfoldable pub init_failure : Controller → Controller
  unfolding commit_active_scene
  init_failure c =
      commit_active_scene suppresses sky c.active_scene engine_fallback false
        (record c { init_failed = true; stage = none; is_3d = false })

  unfoldable pub take_stage : ℕ → Manager → Controller → Controller
  unfolding commit_active_scene
  take_stage number m c =
      let switched : Manager = switch_scene w c.active_scene false m in
      let reason : Reason =
        if same_name switched.active c.active_scene
        then initialization
        else construction_fallback in
      let stage : Stage = record {
        number = number;
        operational = true;
        manager = switched;
        bloom_suppressed = false;
      } in
      commit_active_scene suppresses switched.active c.active_scene reason false
        (record c { stage = some stage })

  -- The try block; `made` is the new engine's number, or `none` where its creation throws.
  unfoldable pub try_3d : Option ℕ → Controller → Controller
  unfolding init_failure take_stage
  try_3d none c = init_failure c
  try_3d (some number) c =
      if is_available (create_scene_manager w)
      then take_stage number (create_scene_manager w) c
      else init_failure c

  unfoldable pub init_3d : Option ℕ → Controller → Controller
  unfolding try_3d
  init_3d made c = if is_some c.stage || c.init_failed then c else try_3d made c

  unfoldable pub follow_sky : ℕ → Controller → Controller
  unfolding settle_stage
  follow_sky celestial c = elim c.stage [
    | none ↦ c
    | some s ↦
        let m : Manager = update_celestial w celestial (some 0) s.manager in
        settle_stage suppresses m (with_manager s m c)
  ]

  -- renderScene
  unfoldable pub render_scene : Option ℕ → ℕ → Controller → Controller
  unfolding init_3d follow_sky
  render_scene made celestial c =
      follow_sky celestial (init_3d made (record c { last_celestial = some celestial }))

  unfoldable pub tick : Controller → Controller
  unfolding settle_stage
  tick c = elim c.stage [
    | none ↦ c
    | some s ↦
        let m : Manager = update w (some 0) s.manager in
        settle_stage suppresses m (with_manager s m c)
  ]
