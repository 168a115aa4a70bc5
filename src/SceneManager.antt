-- ===== src/SceneManager.antt =====
-- frontend/src/3d/scenes/scene-manager.js: which 3D scene is built, shown and updated, and what
-- happens when one fails. The factories and the scenes' own methods are the argument `World`: what
-- they do may differ at every call, so it is given by the number of calls made before. The parts are
-- `SceneManager/State.antt` (the scenes and their failures), this file (building, preparing,
-- activating) and `SceneManager/Updates.antt` (what the frame loop and the settings call).
pub mod State
pub mod Updates
pub mod Compilation
pub mod Closure
pub mod Ready
pub mod Operations
pub mod Invariants
pub mod Recovery
pub mod Building
pub mod History
mod Tests
use Prim.Native.String.{◌++◌}
use aetheldesk.Base.{
  ℕ, zero, suc, ◌+◌, String, Bool, true, false, not, ◌&&◌, ◌||◌, Option, none, some, List, [], ◌∷◌,
  ◌==◌, if◌then◌else◌, is_some,
}
use State.{
  SceneName, sky, Method, celestial, light, mica, shafts, aspect, ratio, Phase, construction,
  celestial_update, Health, same_name, has, find_scene, mark_failed, add_scene, show_only,
}

-- What a factory does: it throws, it returns something that is no group, or it returns a scene with
-- some of the optional methods.
pub data Built : Type 0 where
  throws : String → Built
  no_group : Built
  made : (Method → Bool) → Built

pub record World : Type 0 where
  pub exists : SceneName → Bool
  pub build : ℕ → SceneName → Built
  -- the message of the error that the method throws, if it throws
  pub fails : ℕ → SceneName → Method → Option String

-- Directions, celestial states and atmospheres are passed on unread. Ratios are counted in units of
-- 1e-4, the tolerance of the code.
pub record Manager : Type 0 where
  pub health : Health
  pub open health use *
  pub light_direction : Option ℕ
  pub mica_enabled : Bool
  pub shafts_enabled : Bool
  pub viewport_aspect : ℕ
  pub pixel_ratio : ℕ
  pub last_celestial : Option ℕ
  pub last_atmosphere : Option ℕ
  pub clock : ℕ
  pub calls : List (SceneName × Method)

pub record Prepared : Type 0 where
  pub requested_name : SceneName
  pub resolved_name : SceneName
  pub available : Bool

abbrev pub setters : (Method → Bool) → Manager → List (Method × Bool)
setters methods m =
    (light, is_some m.light_direction && methods light)
    ∷ (mica, methods mica)
    ∷ (shafts, methods shafts)
    ∷ (aspect, methods aspect)
    ∷ (ratio, methods ratio)
    ∷ []

abbrev pub failed_in : SceneName → Phase → String → Manager → Manager
failed_in name phase message m = record m { health = mark_failed name phase message m.health }

unfoldable pub finish : SceneName → Option String × Manager → Bool × Manager
finish name (none, m) = (true, m)
finish name (some e, m) = (false, failed_in name construction e m)

unfoldable pub settle : SceneName → Phase → Option String × Manager → Bool × Manager
settle name phase (none, m) = (true, m)
settle name phase (some e, m) = (false, failed_in name phase e m)

abbrev pub fell_back : SceneName → Bool × Manager → Prepared × Manager
fell_back requested (found, m) =
    (record { requested_name = requested; resolved_name = sky; available = found }, m)

abbrev pub method_of : Method → SceneName → Manager → Bool
method_of method name m = elim (find_scene name m.scenes) [
  | none ↦ false
  | some s ↦ s.methods method
]

-- `retry` is `switchScene(FALLBACK_SCENE, true)`.
abbrev pub retry_unless : (Manager → Manager) → SceneName → Bool × Manager → Manager
retry_unless retry name (done, m) = if not done && not (same_name name sky) then retry m else m

module _ (w : World) where
  -- One call of a scene's method.
  unfoldable pub call : SceneName → Method → Manager → Option String × Manager
  call name method m = (
    w.fails m.clock name method,
    record m { clock = m.clock + 1; calls = (name, method) ∷ m.calls },
  )

  -- `if (next.method) next.method(…)` for each in turn; an error skips the rest.
  unfoldable pub configure : SceneName → List (Method × Bool) → Manager → Option String × Manager
  unfolding call
  configure name [] m = (none, m)
  configure name ((method, wanted) ∷ rest) m =
      let (error, m') = call name method m in
      let called : Option String × Manager = elim error [
        | some e ↦ (some e, m')
        | none ↦ configure name rest m'
      ] in
      let skipped : Option String × Manager = configure name rest m in
      if wanted then called else skipped

  unfoldable pub construct : SceneName → Built → Manager → Bool × Manager
  unfolding configure finish
  construct name (throws e) m = (false, failed_in name construction e m)
  construct name no_group m =
      (false, failed_in name construction "scene factory returned no THREE.Group" m)
  construct name (made methods) m =
      let added : Manager = record m { health = add_scene name methods m.health } in
      finish name (configure name (setters methods m) added)

  -- Whether `ensureScene` returns a scene.
  unfoldable pub ensure_scene : SceneName → Manager → Bool × Manager
  unfolding construct
  ensure_scene name m =
      if not (w.exists name) || has name m.failed
      then (false, m)
      else if is_some (find_scene name m.scenes)
      then (true, m)
      else construct name (w.build m.clock name) (record m { clock = m.clock + 1 })

  unfoldable pub invoke : SceneName → Phase → Method → Manager → Bool × Manager
  unfolding call settle
  invoke name phase method m =
      if has name m.failed then (false, m) else settle name phase (call name method m)

  unfoldable pub fall_back : SceneName → Bool × Manager → Prepared × Manager
  fall_back requested (found, m) =
      if not found && not (same_name requested sky)
      then fell_back requested (ensure_scene sky m)
      else (record { requested_name = requested; resolved_name = requested; available = found }, m)

  unfoldable pub prepare_scene : SceneName → Bool → Manager → Prepared × Manager
  unfolding fall_back
  prepare_scene name preserve_requested m =
      let requested : SceneName = if w.exists name then name else sky in
      let m' : Manager =
        if preserve_requested
        then m
        else record m { health = record (m.health) { requested = requested } } in
      fall_back requested (ensure_scene requested m')

  unfoldable pub activate_with : (Manager → Manager) → Prepared → Manager → Manager
  activate_with retry p m =
      let shown : Manager = record m { health = show_only p.resolved_name p.available m.health } in
      if p.available && is_some m.last_celestial && method_of celestial p.resolved_name m
      then retry_unless retry p.resolved_name
          (invoke p.resolved_name celestial_update celestial shown)
      else shown

  -- Each call of `switchScene` takes one from the fuel; two are enough.
  unfoldable pub switch_on : ℕ → SceneName → Bool → Manager → Manager
  switch_on zero name preserve m = m
  switch_on (suc fuel) name preserve m =
      let (p, m') = prepare_scene name preserve m in activate_with (switch_on fuel sky true) p m'

  unfoldable pub switch_scene : SceneName → Bool → Manager → Manager
  switch_scene = switch_on 2

  unfoldable pub activate_prepared_scene : Prepared → Manager → Manager
  activate_prepared_scene = activate_with (switch_scene sky true)

  unfoldable pub recover_active_scene : Manager → Manager
  recover_active_scene m =
      if not (has m.active m.failed) || same_name m.active sky then m else switch_scene sky true m

  unfoldable pub mark_preparation_failed : Prepared → String → Manager → Manager
  mark_preparation_failed p error m =
      if is_some (find_scene p.resolved_name m.scenes)
      then recover_active_scene (failed_in p.resolved_name Phase.shader_preparation error m)
      else m

  unfoldable pub create_scene_manager : Manager
  create_scene_manager =
      let start : Manager = record {
        health = State.empty;
        light_direction = none;
        mica_enabled = true;
        shafts_enabled = true;
        viewport_aspect = 17778;
        pixel_ratio = 10000;
        last_celestial = none;
        last_atmosphere = none;
        clock = 0;
        calls = [];
      } in
      let (_, built) = ensure_scene sky start in switch_scene sky false built
