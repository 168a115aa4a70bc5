-- ===== src/Controller/Displayed.antt =====
-- scenes.js: lemmas on the scene that the controller holds and the one that the manager displays.
use aetheldesk.Base.{
  ℕ, ◌≡◌, ◌⊎◌, inl, inr, refl, Bool, true, false, not, ◌||◌, Option, none, some, arith, if_intro,
  Option-cases,
}
use aetheldesk.SceneManager.State.{SceneName, same_name}
use aetheldesk.SceneManager.{World, Manager, Prepared, activate_prepared_scene}
use aetheldesk.SceneManager.Updates.{update_celestial, update}
use aetheldesk.Controller.{
  Controller, Stage, Reason, normalized, is_available, with_manager, commit_active_scene,
  reconcile_managed_scene, schedule_runtime_2d_fallback, settle_stage,
}
use aetheldesk.Controller.Frames.{init_3d, follow_sky, render_scene, tick}
use aetheldesk.Controller.Transition.{Ticket, render_again, commit_switched, activate}

-- Without a stage there is no manager to agree with.
abbrev pub ShownOn : Option Stage → Bool → SceneName → Type 0
ShownOn none scheduled active = Unit
ShownOn (some s) scheduled active = (active ≡ normalized s.manager.active) ⊎ (scheduled ≡ true)

-- The controller's scene is the one that the manager displays, or the 2D fallback is on its way.
abbrev pub IsShown : Controller → Type 0
IsShown c = ShownOn c.stage c.runtime_fallback_scheduled c.active_scene

abbrev pub SettledOn : Option Stage → Bool → SceneName → Type 0
SettledOn none scheduled active = Unit
SettledOn (some s) scheduled active =
    ((is_available s.manager ≡ true) × (active ≡ normalized s.manager.active))
    ⊎ ((is_available s.manager ≡ false) × (scheduled ≡ true))

-- The controller's scene is the one that the manager displays where it has one that works, and the 2D
-- fallback is on its way exactly where it has none.
abbrev pub IsSettled : Controller → Type 0
IsSettled c = SettledOn c.stage c.runtime_fallback_scheduled c.active_scene

settled_shown :
    (stage : Option Stage) (scheduled : Bool) (active : SceneName)
    → SettledOn stage scheduled active
    → ShownOn stage scheduled active
settled_shown none scheduled active h = tt
settled_shown (some s) scheduled active (inl h) = inl h.1
settled_shown (some s) scheduled active (inr h) = inr h.1

same-normalized : (n a : SceneName) → same_name (normalized n) a ≡ true → a ≡ normalized n
same-normalized n a h = ground (arith, h)

module _ (suppresses : SceneName → Bool) where
  reconciled :
      (r : Reason) (s : Stage) (c : Controller)
      → is_available s.manager ≡ true
      → IsSettled (reconcile_managed_scene suppresses r (record c { stage = some s }))
  unfolding reconcile_managed_scene commit_active_scene
  reconciled r s c h =
      if_intro (λ (x : Controller). IsSettled x)
        (same_name (normalized s.manager.active) c.active_scene)
        (λ e. inl (h, same-normalized s.manager.active c.active_scene e)) λ _. inl (h, refl)

  settled :
      (s : Stage) (m : Manager) (c : Controller)
      → IsSettled (settle_stage suppresses m (with_manager s m c))
  unfolding settle_stage schedule_runtime_2d_fallback
  settled s m c =
      if_intro (λ (x : Controller). IsSettled x) (is_available m)
        (λ e. reconciled _ (record s { manager = m }) c e)
        λ e.
          let managed : Controller = with_manager s m c in
          if_intro (λ (x : Controller). IsSettled x) (c.runtime_fallback_scheduled || not true)
            {x = managed} {y = record managed { runtime_fallback_scheduled = true }}
            (λ f. inr (e, ground (arith, f))) λ _. inr (e, refl)

  module _ (w : World) where
    follow_sky-IsSettled :
        (celestial : ℕ) (c : Controller) → IsSettled (follow_sky suppresses w celestial c)
    unfolding follow_sky
    follow_sky-IsSettled celestial c = elim (Option-cases c.stage) [
      | inl e ↦ rw e tt
      | inr (s, e) ↦ rw e (settled s (update_celestial w celestial (some 0) s.manager) c)
    ]

    pub render_scene-IsSettled :
        (made : Option ℕ) (celestial : ℕ) (c : Controller)
        → IsSettled (render_scene suppresses w made celestial c)
    unfolding render_scene
    render_scene-IsSettled made celestial c =
        follow_sky-IsSettled celestial
          (init_3d suppresses w made (record c { last_celestial = some celestial }))

    pub tick-IsSettled : (c : Controller) → IsSettled (tick suppresses w c)
    unfolding tick
    tick-IsSettled c = elim (Option-cases c.stage) [
      | inl e ↦ rw e tt
      | inr (s, e) ↦ rw e (settled s (update w (some 0) s.manager) c)
    ]

    again-IsShown : (c : Controller) → IsShown c → IsShown (render_again suppresses w c)
    unfolding render_again
    again-IsShown c h = elim (Option-cases c.last_celestial) [
      | inl e ↦ rw e h
      | inr (x, e) ↦ rw e (settled_shown _ _ _ (render_scene-IsSettled none x c))
    ]

    pub activate-IsShown :
        (t : Ticket) (p : Prepared) (c : Controller) → IsShown (activate suppresses w t p c).1
    unfolding activate commit_switched commit_active_scene
    activate-IsShown t p c = elim (Option-cases c.stage) [
      | inl e ↦ rw e tt
      | inr (s, e) ↦
          let m : Manager = activate_prepared_scene w p s.manager in
          rw e (
            again-IsShown (commit_switched suppresses w m.active t.requested (with_manager s m c))
              (inl refl))
    ]
