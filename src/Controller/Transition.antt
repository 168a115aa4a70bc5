-- ===== src/Controller/Transition.antt =====
-- `switchScene` of scenes.js. It is asynchronous: it waits for the shaders, for a short dimming and
-- for a stable frame, and other calls may come in between. What is left to do is a `Pending` value;
-- each function below is the code from one wait to the next.
use aetheldesk.Base.{
  ℕ, ◌+◌, String, Bool, true, false, ◌&&◌, Option, none, some, ◌==◌, if◌then◌else◌,
}
use aetheldesk.SceneManager.State.{SceneName, sky, same_name}
use aetheldesk.SceneManager.{
  World, Manager, Prepared, prepare_scene, activate_prepared_scene, mark_preparation_failed,
}
use aetheldesk.Controller.{
  Controller, Stage, Reason, selection, construction_fallback, engine_fallback,
  normalize_scene_name, is_available, commit_active_scene, schedule_runtime_2d_fallback,
  with_manager,
}
use aetheldesk.Controller.Frames.{render_scene}

-- A call of `switchScene` that waits: its token, its engine and what it asked for.
pub record Ticket : Type 0 where
  pub token : ℕ
  pub engine : ℕ
  pub requested : SceneName

pub data Pending : Type 0 where
  returned : SceneName → Pending
  compiling dimming : Ticket → Prepared → Pending
  presenting : Ticket → SceneName → Pending

-- isCurrentTransition
unfoldable pub is_current : Ticket → Controller → Bool
is_current t c = elim c.stage [
  | none ↦ false
  | some s ↦ t.token == c.scene_transition_token && s.number == t.engine && s.operational
]

-- transitionEngine.isOperational(); an engine that was dropped is destroyed.
abbrev pub engine_runs : Ticket → Controller → Bool
engine_runs t c = elim c.stage [ none ↦ false | some s ↦ s.number == t.engine && s.operational ]

abbrev pub interrupted : Ticket → Controller → SceneName
interrupted t c = if engine_runs t c then c.active_scene else sky

module _ (suppresses : SceneName → Bool) (w : World) where
  -- `if (lastCelestial) renderScene(lastCelestial, lastState)`. A sky has been rendered, so the start of
  -- an engine has been tried: none is made here.
  unfoldable pub render_again : Controller → Controller
  unfolding render_scene
  render_again c = elim c.last_celestial [
    | none ↦ c
    | some celestial ↦ render_scene suppresses w none celestial c
  ]

  unfoldable pub commit_switched : SceneName → SceneName → Controller → Controller
  unfolding commit_active_scene
  commit_switched resolved requested c =
      let reason : Reason =
        if same_name resolved requested then selection else construction_fallback in
      commit_active_scene suppresses resolved requested reason false c

  -- Activation, commit and the render of the last sky; then the wait for a stable frame.
  unfoldable pub activate : Ticket → Prepared → Controller → Pending × Controller
  unfolding render_again commit_switched
  activate t p c = elim c.stage [
    | none ↦ (returned sky, c)
    | some s ↦
        let m : Manager = activate_prepared_scene w p s.manager in
        (
          presenting t m.active,
          render_again (commit_switched m.active t.requested (with_manager s m c)),
        )
  ]

  -- After the shaders: dim, unless the user asked for less motion.
  unfoldable pub dim : Bool → Ticket → Prepared → Controller → Pending × Controller
  unfolding activate
  dim reduced_motion t p c =
      if reduced_motion then activate t p c else (dimming t p, record c { canvas_dimmed = true })

  unfoldable pub dim_if_current : Bool → Ticket → Prepared → Controller → Pending × Controller
  unfolding dim is_current
  dim_if_current reduced_motion t p c =
      if is_current t c then dim reduced_motion t p c else (returned c.active_scene, c)

  -- Without a scene to compile for, there is nothing to wait for.
  unfoldable pub start :
      Bool → Ticket → Stage → Prepared × Manager → Controller → Pending × Controller
  unfolding dim_if_current
  start reduced_motion t s (p, m) c =
      let prepared : Controller = with_manager s m c in
      if p.available then (compiling t p, prepared) else dim_if_current reduced_motion t p prepared

  unfoldable pub switch_scene : Bool → String → Controller → Pending × Controller
  unfolding start commit_active_scene render_again
  switch_scene reduced_motion name c =
      let requested : SceneName = normalize_scene_name name in
      let token : ℕ = c.scene_transition_token + 1 in
      let taken : Controller = record c { scene_transition_token = token } in
      elim c.stage [
        | none ↦ (
          returned sky,
          render_again (commit_active_scene suppresses sky requested engine_fallback false taken),
        )
        | some s ↦
            if same_name requested c.active_scene
            then (returned c.active_scene, record taken { canvas_dimmed = false })
            else start reduced_motion
                (record { token = token; engine = s.number; requested = requested }) s
                (prepare_scene w requested false s.manager) (record taken { canvas_dimmed = false })
      ]

  unfoldable pub dim_prepared :
      Bool → Ticket → Stage → Prepared × Manager → Controller → Pending × Controller
  unfolding dim
  dim_prepared reduced_motion t s (p, m) c = dim reduced_motion t p (with_manager s m c)

  unfoldable pub recover : Bool → Ticket → Stage → Manager → Controller → Pending × Controller
  unfolding dim_prepared schedule_runtime_2d_fallback
  recover reduced_motion t s m c =
      if is_available m
      then dim_prepared reduced_motion t s (prepare_scene w sky true m) c
      else (returned sky, schedule_runtime_2d_fallback (with_manager s m c))

  -- The scene goes on display, or the sky does where it could not be compiled.
  unfoldable pub settled :
      Bool → Option String → Ticket → Prepared → Controller → Pending × Controller
  unfolding dim recover
  settled reduced_motion none t p c = dim reduced_motion t p c
  settled reduced_motion (some e) t p c = elim c.stage [
    | none ↦ (returned c.active_scene, c)
    | some s ↦ recover reduced_motion t s (mark_preparation_failed w p e s.manager) c
  ]

  -- The end of the compilation.
  unfoldable pub compiled :
      Bool → Option String → Ticket → Prepared → Controller → Pending × Controller
  unfolding settled is_current
  compiled reduced_motion error t p c =
      if is_current t c then settled reduced_motion error t p c else (returned c.active_scene, c)

  unfoldable pub dimmed : Ticket → Prepared → Controller → Pending × Controller
  unfolding activate is_current
  dimmed t p c = if is_current t c then activate t p c else (returned (interrupted t c), c)

  unfoldable pub presented : Bool → Ticket → SceneName → Controller → Pending × Controller
  unfolding is_current
  presented frame_ready t resolved c =
      if frame_ready && is_current t c
      then (returned resolved, record c { canvas_dimmed = false })
      else (returned (interrupted t c), c)
