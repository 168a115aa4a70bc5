-- ===== src/SceneManager/Tests.antt =====
-- Scenes of which the city fails with the first celestial state, for the properties of the manager.
use aetheldesk.Base.{
  ℕ, suc, ◌≡◌, ◌⊎◌, Bool, true, false, ◌&&◌, none, some, List, [], ◌∷◌, if◌then◌else◌, All,
}
use aetheldesk.SceneManager.State.{
  SceneName, sky, city, forest, Scene, show_scenes, other, Method, celestial, same_name, has,
}
use aetheldesk.SceneManager.{
  World, Manager, Prepared, made, switch_scene, activate_prepared_scene, create_scene_manager,
}
use aetheldesk.SceneManager.Updates.{update_celestial}
use aetheldesk.SceneManager.Compilation.{
  with_prepared_scene_visible, with_prepared_scene_visible_lem,
}
use aetheldesk.SceneManager.History.{
  switches, sky_moves, here, next, Reach, IsHiddenOrActive, Reach-ShowsActive, activates,
  IsHiddenOrNamed, Reach-ShowsNamed, Reach-active,
}

abbrev is_celestial : Method → Bool
is_celestial celestial = true
is_celestial _ = false

abbrev known : SceneName → Bool
known (other _) = false
known _ = true

abbrev world : World
world = record {
  exists = known;
  build = λ clock name. made (λ _. true);
  fails = λ clock name method.
      if same_name name city && is_celestial method then some "no light" else none;
}

abbrev created : Manager
created = create_scene_manager world

abbrev in_city : Manager
in_city = switch_scene world city false created

abbrev dark : Manager
dark = update_celestial world 3 none in_city

abbrev to_city : Prepared
to_city = record { requested_name = city; resolved_name = city; available = true }

abbrev history : Reach world created dark
history = next (next here (switches city false)) (sky_moves 3 none)

Reach-active_example : (has dark.active dark.failed ≡ false) ⊎ (dark.active ≡ sky)
Reach-active_example = Reach-active world history (tt, (tt, tt))

Reach-ShowsActive_example : All (IsHiddenOrActive dark) dark.scenes
Reach-ShowsActive_example = Reach-ShowsActive world history (tt, (tt, tt))

-- Here the city fails after it was prepared.
abbrev late : Reach world created (activate_prepared_scene world to_city dark)
late = next history (activates to_city)

Reach-ShowsNamed_example :
    let m = activate_prepared_scene world to_city dark in All (IsHiddenOrNamed m) m.scenes
Reach-ShowsNamed_example = Reach-ShowsNamed world late

-- The number of scenes that are visible.
abbrev count_visible : List Scene → ℕ
count_visible [] = 0
count_visible (s ∷ ss) = if s.visible then suc (count_visible ss) else count_visible ss

abbrev to_forest : Prepared
to_forest = record { requested_name = forest; resolved_name = forest; available = true }

with_prepared_scene_visible_example :
    with_prepared_scene_visible to_forest count_visible in_city.scenes
    ≡ (count_visible (show_scenes forest true in_city.scenes), in_city.scenes)
with_prepared_scene_visible_example =
    with_prepared_scene_visible_lem to_forest count_visible in_city.scenes
