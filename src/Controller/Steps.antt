-- ===== src/Controller/Steps.antt =====
-- scenes.js: the events of the controller, in any order. A wait of `switchScene` may end at any
-- time, whatever happened in between.
use aetheldesk.Base.{ℕ, String, Bool, Option}
use aetheldesk.SceneManager.State.{SceneName}
use aetheldesk.SceneManager.{World, Prepared}
use aetheldesk.Controller.{
  Controller, schedule_runtime_2d_fallback, run_runtime_2d_fallback, destroy,
}
use aetheldesk.Controller.Frames.{first_frame, sync_scene_metrics, render_scene, tick}
use aetheldesk.Controller.Transition.{Ticket, switch_scene, compiled, dimmed, presented}

module _ (suppresses : SceneName → Bool) (w : World) where
  pub data Step (c : Controller) : Controller → Type 0 where
    renders :
        (made : Option ℕ) (celestial : ℕ) → Step c (render_scene suppresses w made celestial c)
    ticks : Step c (tick suppresses w c)
    syncs :
        (aspect ratio : Option ℕ) (shafts : Bool)
        → Step c (sync_scene_metrics w aspect ratio shafts c)
    shows_frame : (number : ℕ) → Step c (first_frame number c)
    switches : (calm : Bool) (name : String) → Step c (switch_scene suppresses w calm name c).1
    compiles :
        (calm : Bool) (error : Option String) (t : Ticket) (p : Prepared)
        → Step c (compiled suppresses w calm error t p c).1
    dims : (t : Ticket) (p : Prepared) → Step c (dimmed suppresses w t p c).1
    presents :
        (ready : Bool) (t : Ticket) (name : SceneName)
        → Step c (presented suppresses w ready t name c).1
    fails : Step c (schedule_runtime_2d_fallback c)
    falls_back : Step c (run_runtime_2d_fallback suppresses c)
    destroys : Step c (destroy c)

  pub data Reach (c : Controller) : Controller → Type 0 where
    here : Reach c c
    next : {a b : Controller} → Reach c a → Step a b → Reach c b
