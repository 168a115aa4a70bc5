-- ===== src/Controller/Tests.antt =====
-- A page that starts with the retired beach, for the properties of scenes.js.
use aetheldesk.Base.{◌≡◌, arith, Bool, true, false, none, some, str_eq, if◌then◌else◌}
use aetheldesk.Storage.{Browser}
use aetheldesk.SceneManager.State.{SceneName, city}
use aetheldesk.SceneManager.{World, Prepared, made}
use aetheldesk.Controller.{Controller, load_controller}
use aetheldesk.Controller.Frames.{render_scene}
use aetheldesk.Controller.Transition as Transition
use aetheldesk.Controller.Transition.{Ticket}
use aetheldesk.Controller.Steps.{here}
use aetheldesk.Controller.Stale.{superseded}

abbrev world : World
world = record {
  exists = λ name. true;
  build = λ clock name. made (λ _. true);
  fails = λ clock name method. none;
}

abbrev no_bloom : SceneName → Bool
no_bloom name = false

abbrev visitor : Browser
visitor = record {
  local = λ k. if str_eq k "scene" then some "beach" else none;
  session = λ _. none;
}

abbrev loaded : Controller
loaded = load_controller visitor

abbrev rendered : Controller
rendered = render_scene no_bloom world (some 1) 4 loaded

abbrev switched : Controller
switched = (Transition.switch_scene no_bloom world false "city" rendered).1

-- The first call's ticket, after a second call.
abbrev first_ticket : Ticket
first_ticket = record { token = 0; engine = 1; requested = city }

abbrev prepared : Prepared
prepared = record { requested_name = city; resolved_name = city; available = true }

superseded_example :
    let b = (Transition.switch_scene no_bloom world false "forest" loaded).1 in
    ((Transition.compiled no_bloom world false none first_ticket prepared b).1 ≡ b)
    × ((Transition.dimmed no_bloom world first_ticket prepared b).1 ≡ b)
    × ((Transition.presented no_bloom world true first_ticket city b).1 ≡ b)
unfolding load_controller
superseded_example =
    superseded no_bloom world first_ticket false false true "forest" loaded
      (Transition.switch_scene no_bloom world false "forest" loaded).1 none prepared city
      (omega arith) here
