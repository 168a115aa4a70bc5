-- ===== src/Controller/Stale.antt =====
-- scenes.js: what is left of a `switchScene` call after a later call, or after `destroy`.
use aetheldesk.Base.{ℕ, ◌+◌, ◌≤◌, ◌<◌, String, Bool, false, Option, ◌≡◌, refl, arith}
use aetheldesk.SceneManager.State.{SceneName}
use aetheldesk.SceneManager.{World, Prepared}
use aetheldesk.Controller.{Controller}
use aetheldesk.Storage.{Browser}
use aetheldesk.Controller.Keeps.{IsKept}
use aetheldesk.Controller.Keeps.History.{Reach-Keeps, switch-Keeps}
use aetheldesk.Controller.Transition as Transition
use aetheldesk.Controller.Transition.{Ticket, Pending, is_current}
use aetheldesk.Controller.Steps.{Reach}

stale : (t : Ticket) (c : Controller) → t.token < c.scene_transition_token → is_current t c ≡ false
unfolding is_current
stale t c h = ground arith

-- The token never falls.
AtLeast : ℕ → Browser → SceneName → String → ℕ → Type 0
AtLeast n b a d t = n ≤ t

AtLeast-IsKept : (n : ℕ) → IsKept (AtLeast n)
unfolding AtLeast
AtLeast-IsKept n = record { commits = λ k h. h; raises = λ h. ground arith }

module _ (suppresses : SceneName → Bool) (w : World) where
  later_token :
      (t : Ticket) (calm : Bool) (name : String) (a b : Controller)
      → t.token ≤ a.scene_transition_token
      → Reach suppresses w (Transition.switch_scene suppresses w calm name a).1 b
      → t.token < b.scene_transition_token
  unfolding AtLeast
  later_token t calm name a b h r =
      let q : t.token + 1 ≤ b.scene_transition_token =
        Reach-Keeps suppresses (AtLeast (t.token + 1)) (AtLeast-IsKept (t.token + 1)) w
          (switch-Keeps suppresses (AtLeast (t.token + 1)) (AtLeast-IsKept (t.token + 1)) w calm
            name a (omega arith))
          r in
      omega arith

  -- A call of `switchScene` that waits when a later call comes in never changes the controller again,
  -- whichever wait ends, however it ends, and whatever else has happened since: the shaders, the
  -- dimming and the stable frame all find it superseded.
  pub superseded :
      (t : Ticket) (calm calm' ready : Bool) (name : String) (a b : Controller)
      (error : Option String) (p : Prepared) (n : SceneName)
      → t.token ≤ a.scene_transition_token
      → Reach suppresses w (Transition.switch_scene suppresses w calm name a).1 b
      → ((Transition.compiled suppresses w calm' error t p b).1 ≡ b)
        × ((Transition.dimmed suppresses w t p b).1 ≡ b)
        × ((Transition.presented suppresses w ready t n b).1 ≡ b)
  unfolding Transition.compiled Transition.dimmed Transition.presented
  superseded t calm calm' ready name a b error p n h r =
      let e = stale t b (later_token t calm name a b h r) in
      (rw e refl, rw e refl, ground (e, arith))
