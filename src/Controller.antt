-- ===== src/Controller.antt =====
-- frontend/scenes.js: the controller that joins the saved choice of scene, the scene manager and the
-- engine. This file has the names, commits and the 2D fallback, `Controller/Frames.antt` the start of
-- the 3D stage and its frames, `Controller/Transition.antt` `switchScene`, which waits for the
-- shaders and for a frame.
pub mod Frames
pub mod Transition
pub mod Steps
pub mod Keeps
pub mod Displayed
pub mod Persistence
pub mod Stale
pub mod Camera
mod Tests
use aetheldesk.Base.{
  ℕ, ◌+◌, String, Bool, true, false, not, ◌&&◌, ◌||◌, Option, none, some, List, [], ◌∷◌, str_eq,
  if◌then◌else◌, is_some,
}
use aetheldesk.Storage.{Browser, read_scene, store_scene}
use aetheldesk.SceneManager.State.{SceneName, sky, city, forest, other, same_name, has, find_scene}
use aetheldesk.SceneManager.{Manager}

-- normalizeSceneName, over the texts that storage and callers hold
unfoldable pub normalize_scene_name : String → SceneName
normalize_scene_name name =
    if str_eq name "beach"
    then sky
    else if str_eq name "city"
    then city
    else if str_eq name "forest"
    then forest
    else sky

-- and over the names that the manager answers with
abbrev pub normalized : SceneName → SceneName
normalized city = city
normalized forest = forest
normalized _ = sky

unfoldable pub name_text : SceneName → String
name_text sky = "sky"
name_text city = "city"
name_text forest = "forest"
name_text (other s) = s

pub data Reason : Type 0 where
  selection initialization construction_fallback runtime_fallback engine_fallback : Reason

-- What the listeners are told.
pub record Detail : Type 0 where
  pub requested : SceneName
  pub active : SceneName
  pub fallback : Bool
  pub reason : Reason

-- The engine and the scene manager, which are made and dropped together. `number` tells one engine
-- from the next, `operational` is its `isOperational()`, `bloom_suppressed` what it was told.
pub record Stage : Type 0 where
  pub number : ℕ
  pub operational : Bool
  pub manager : Manager
  pub bloom_suppressed : Bool

pub record Controller : Type 0 where
  pub browser : Browser
  pub active_scene : SceneName
  pub dataset_scene : String
  pub stage : Option Stage
  pub init_failed : Bool
  pub scene_transition_token : ℕ
  pub runtime_fallback_scheduled : Bool
  pub last_celestial : Option ℕ
  pub is_3d : Bool
  pub canvas_dimmed : Bool
  pub details : List Detail

-- isAvailable()
unfoldable pub is_available : Manager → Bool
is_available m = is_some (find_scene m.active m.scenes) && not (has m.active m.failed)

-- document.body.dataset.scene
abbrev pub dataset_of : SceneName → String
dataset_of n = if same_name n sky then "" else name_text n

abbrev suppressed : (SceneName → Bool) → Option Stage → Option Stage
suppressed suppresses none = none
suppressed suppresses (some s) = some (record s { bloom_suppressed = suppresses s.manager.active })

abbrev pub with_manager : Stage → Manager → Controller → Controller
with_manager s m c = record c { stage = some (record s { manager = m }) }

unfoldable pub schedule_runtime_2d_fallback : Controller → Controller
schedule_runtime_2d_fallback c =
    if c.runtime_fallback_scheduled || not (is_some c.stage)
    then c
    else record c { runtime_fallback_scheduled = true }

-- `suppresses` is the `suppressBloom` of a scene's profile.
module _ (suppresses : SceneName → Bool) where
  unfoldable pub commit_active_scene :
      SceneName → SceneName → Reason → Bool → Controller → Controller
  unfolding name_text
  commit_active_scene resolved requested reason forced c =
      let scene : SceneName = normalized resolved in
      record c {
        active_scene = scene;
        browser = store_scene (name_text scene) c.browser;
        dataset_scene = dataset_of scene;
        stage = suppressed suppresses c.stage;
        details =
            record {
              requested = normalized requested;
              active = scene;
              fallback = forced || not (same_name scene (normalized requested));
              reason = reason;
            }
            ∷ c.details;
      }

  -- The animation frame that the fallback was scheduled for. After `destroy` it has nothing left to
  -- drop, and still commits the sky.
  unfoldable pub run_runtime_2d_fallback : Controller → Controller
  unfolding commit_active_scene
  run_runtime_2d_fallback c =
      commit_active_scene sky c.active_scene engine_fallback true (record c {
        runtime_fallback_scheduled = false;
        stage = none;
        init_failed = true;
        is_3d = false;
      })

  unfoldable pub reconcile_managed_scene : Reason → Controller → Controller
  unfolding commit_active_scene
  reconcile_managed_scene reason c = elim c.stage [
    | none ↦ c
    | some s ↦
        if same_name (normalized s.manager.active) c.active_scene
        then c
        else commit_active_scene s.manager.active c.active_scene reason false c
  ]

  -- The end of `renderScene` and of a tick: a manager without a scene gives way to the 2D sky.
  unfoldable pub settle_stage : Manager → Controller → Controller
  unfolding schedule_runtime_2d_fallback reconcile_managed_scene
  settle_stage m c =
      if is_available m
      then reconcile_managed_scene runtime_fallback c
      else schedule_runtime_2d_fallback c

unfoldable pub destroy : Controller → Controller
destroy c = record c {
  scene_transition_token = c.scene_transition_token + 1;
  runtime_fallback_scheduled = false;
  stage = none;
  init_failed = true;
  is_3d = false;
}

-- The module's start: the saved choice, normalized, and stored again where that changed it.
unfoldable pub load_controller : Browser → Controller
unfolding normalize_scene_name name_text
load_controller browser =
    let stored : String = read_scene "sky" browser in
    let scene : SceneName = normalize_scene_name stored in
    record {
      browser =
          if str_eq stored (name_text scene)
          then browser
          else store_scene (name_text scene) browser;
      active_scene = scene;
      dataset_scene = dataset_of scene;
      stage = none;
      init_failed = false;
      scene_transition_token = 0;
      runtime_fallback_scheduled = false;
      last_celestial = none;
      is_3d = false;
      canvas_dimmed = false;
      details = [];
    }
