-- ===== src/SceneManager/State.antt =====
-- The scenes that exist, which of them failed, what was reported, and which one is shown.
use aetheldesk.Base.{
  String, Bool, true, false, ◌&&◌, Option, none, some, List, [], ◌∷◌, ◌++◌, ite, if◌then◌else◌,
  String-discrete,
}

-- `other` is any name without a factory.
pub data SceneName : Type 0 where
  sky city forest : SceneName
  other : String → SceneName

pub data Phase : Type 0 where
  construction celestial_update frame_update light_update : Phase
  effect_update viewport_update pixel_ratio_update shader_preparation : Phase

-- updateCelestial, update, setLightDirection, setMicaEnabled, setShaftsEnabled, setViewportAspect
-- and setPixelRatio of a scene
pub data Method : Type 0 where
  celestial frame light mica shafts aspect ratio : Method

unfoldable pub SceneName-discrete : Discrete SceneName
SceneName-discrete = hlevel String-discrete

unfoldable pub Phase-discrete : Discrete Phase
Phase-discrete = hlevel

abbrev pub same_name : SceneName → SceneName → Bool
same_name a b = ite (SceneName-discrete a b) true false

abbrev pub same_phase : Phase → Phase → Bool
same_phase a b = ite (Phase-discrete a b) true false

pub record Scene : Type 0 where
  pub name : SceneName
  pub visible : Bool
  pub methods : Method → Bool

pub record Failure : Type 0 where
  pub name : SceneName
  pub phase : Phase
  pub message : String

-- The sets and the map list their newest entry first; `scenes` is in the order of insertion.
pub record Health : Type 0 where
  pub scenes : List Scene
  pub failed : List SceneName
  pub failures : List Failure
  pub reported : List (SceneName × Phase)
  pub reports : List Failure
  pub active : SceneName
  pub requested : SceneName

abbrev pub empty : Health
empty = record {
  scenes = [];
  failed = [];
  failures = [];
  reported = [];
  reports = [];
  active = sky;
  requested = sky;
}

unfoldable pub has : SceneName → List SceneName → Bool
has n [] = false
has n (x ∷ xs) = if same_name x n then true else has n xs

unfoldable pub has_key : SceneName → Phase → List (SceneName × Phase) → Bool
has_key n p [] = false
has_key n p ((x, q) ∷ ks) = if same_name x n && same_phase q p then true else has_key n p ks

unfoldable pub has_failure : SceneName → List Failure → Bool
has_failure n [] = false
has_failure n (f ∷ fs) = if same_name f.name n then true else has_failure n fs

unfoldable pub find_scene : SceneName → List Scene → Option Scene
find_scene n [] = none
find_scene n (s ∷ ss) = if same_name s.name n then some s else find_scene n ss

unfoldable pub hide : SceneName → List Scene → List Scene
hide n [] = []
hide n (s ∷ ss) = (if same_name s.name n then record s { visible = false } else s) ∷ hide n ss

unfoldable pub report_once : SceneName → Phase → String → Health → Health
report_once name phase message h = if has_key name phase h.reported then h else record h {
  reported = (name, phase) ∷ h.reported;
  reports = record { name = name; phase = phase; message = message } ∷ h.reports;
}

unfoldable pub mark_failed : SceneName → Phase → String → Health → Health
unfolding report_once
mark_failed name phase message h = report_once name phase message (record h {
  failed = if has name h.failed then h.failed else name ∷ h.failed;
  failures =
      if has_failure name h.failures
      then h.failures
      else record { name = name; phase = phase; message = message } ∷ h.failures;
  scenes = hide name h.scenes;
})

-- A scene is added hidden.
unfoldable pub add_scene : SceneName → (Method → Bool) → Health → Health
add_scene name methods h = record h {
  scenes = h.scenes ++ record { name = name; visible = false; methods = methods } ∷ [];
}

unfoldable pub show_scenes : SceneName → Bool → List Scene → List Scene
show_scenes name available [] = []
show_scenes name available (s ∷ ss) =
    record s { visible = available && same_name s.name name } ∷ show_scenes name available ss

-- The visibility that an activation sets, and the active name.
unfoldable pub show_only : SceneName → Bool → Health → Health
unfolding show_scenes
show_only name available h = record h {
  scenes = show_scenes name available h.scenes;
  active = name;
}
