-- ===== src/Controller/Persistence.antt =====
-- scenes.js: lemmas on the scene on display, the stored choice and the page's `data-scene`.
use aetheldesk.Base.{ℕ, String, ◌≡◌}
use aetheldesk.Storage.{Browser, read_scene}
use aetheldesk.SceneManager.State.{SceneName}
use aetheldesk.Controller.{Controller, name_text, normalized, dataset_of}

-- What the next visit will read, and what the style sheet sees.
pub record SavedAs (browser : Browser) (scene : SceneName) (dataset : String) (token : ℕ)
    : Type 0 where
  pub stored : read_scene "sky" browser ≡ name_text scene
  pub styled : dataset ≡ dataset_of scene
  pub known : normalized scene ≡ scene

abbrev pub IsSaved : Controller → Type 0
IsSaved c = SavedAs c.browser c.active_scene c.dataset_scene c.scene_transition_token
