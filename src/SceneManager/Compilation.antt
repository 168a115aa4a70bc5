-- ===== src/SceneManager/Compilation.antt =====
-- scene-manager.js: `withPreparedSceneVisibleForCompilation`. `compile` looks at the scenes while only
-- the prepared one is visible; what it returns, or that it throws, is its result.
use aetheldesk.Base.{Bool, true, false, ◌&&◌, List, [], ◌∷◌, map, if◌then◌else◌, ◌≡◌, refl, arith}
use aetheldesk.SceneManager.State.{Scene, same_name, show_scenes}
use aetheldesk.SceneManager.{Prepared}

unfoldable pub visibility : List Scene → List Bool
visibility ss = map (λ (s : Scene). s.visible) ss

unfoldable pub hide_all : List Scene → List Scene
hide_all ss = map (λ (s : Scene). record s { visible = false }) ss

unfoldable pub show_prepared : Prepared → List Scene → List Scene
show_prepared p [] = []
show_prepared p (s ∷ ss) =
    (if p.available && same_name s.name p.resolved_name then record s { visible = true } else s)
    ∷ show_prepared p ss

unfoldable pub restore : List Bool → List Scene → List Scene
restore [] ss = ss
restore (v ∷ vs) [] = []
restore (v ∷ vs) (s ∷ ss) = record s { visible = v } ∷ restore vs ss

unfoldable pub with_prepared_scene_visible :
    {A : Type 0} → Prepared → (List Scene → A) → List Scene → A × List Scene
unfolding visibility hide_all show_prepared restore
with_prepared_scene_visible p compile ss =
    let shown : List Scene = show_prepared p (hide_all ss) in
    (compile shown, restore (visibility ss) shown)

shown_as_activated :
    (p : Prepared) (ss : List Scene)
    → show_prepared p (hide_all ss) ≡ show_scenes p.resolved_name p.available ss
unfolding show_prepared hide_all show_scenes
shown_as_activated p [] = refl
shown_as_activated p (s ∷ ss) = ground (arith, shown_as_activated p ss)

restored :
    (p : Prepared) (ss : List Scene) → restore (visibility ss) (show_prepared p (hide_all ss)) ≡ ss
unfolding restore visibility show_prepared hide_all
restored p [] = refl
restored p (s ∷ ss) = ground (arith, restored p ss)

-- The shaders are compiled for exactly the visibility that the activation of the prepared scene would
-- set, and afterwards every scene is as visible as it was before.
pub with_prepared_scene_visible_lem :
    {A : Type 0} (p : Prepared) (compile : List Scene → A) (ss : List Scene)
    → with_prepared_scene_visible p compile ss
      ≡ (compile (show_scenes p.resolved_name p.available ss), ss)
unfolding with_prepared_scene_visible
with_prepared_scene_visible_lem p compile ss = rw (restored p ss, shown_as_activated p ss) refl
