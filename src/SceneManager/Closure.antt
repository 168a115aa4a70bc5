-- ===== src/SceneManager/Closure.antt =====
-- Every operation of the scene manager is made of four changes to its health: a failure is marked,
-- a scene is added, a scene is shown, and a request is noted. What these keep, all operations keep.
use aetheldesk.Base.{
  String, ◌≡◌, refl, sym, subst, Bool, true, false, not, ◌&&◌, Option, none, some, List, [], ◌∷◌,
  arith, is_some, if_intro, ◌+◌, ◌||◌,
}
use aetheldesk.SceneManager.State.{
  SceneName, sky, Method, Phase, Health, same_name, has, find_scene, mark_failed, add_scene,
  show_only,
}
use aetheldesk.SceneManager.{
  World, Built, throws, no_group, made, Manager, Prepared, call, configure, setters, finish,
  construct, ensure_scene, settle, invoke, fall_back, prepare_scene,
}

-- The scene to be shown exists and has not failed; without one, the fallback is shown.
pub record IsReady (p : Prepared) (h : Health) : Type 0 where
  pub unfailed : p.available ≡ true → has p.resolved_name h.failed ≡ false
  pub present : p.available ≡ true → is_some (find_scene p.resolved_name h.scenes) ≡ true
  pub otherwise : p.available ≡ false → p.resolved_name ≡ sky

-- What the four changes keep; `Needs` is what showing a scene has to assume of it, and a scene that is
-- ready has that.
pub record Closed (Needs : Prepared → Health → Type 0) (P : Health → Type 0) : Type 0 where
  pub ready : (p : Prepared) (h : Health) → IsReady p h → Needs p h
  pub marks : (n : SceneName) (p : Phase) (e : String) (h : Health) → P h → P (mark_failed n p e h)
  pub adds : (n : SceneName) (ms : Method → Bool) (h : Health) → P h → P (add_scene n ms h)
  pub shows :
      (p : Prepared) (h : Health) → Needs p h → P h → P (show_only p.resolved_name p.available h)
  pub requests : (n : SceneName) (h : Health) → P h → P (record h { requested = n })

module _ (w : World) where
  pub health-configure :
      (n : SceneName) (l : List (Method × Bool)) (m : Manager)
      → (configure w n l m).1.health ≡ m.health
  unfolding configure
  health-configure n [] m = refl
  health-configure n ((method, wanted) ∷ rest) m =
      ground (arith, health-configure n rest m, health-configure n rest (call w n method m).1)

  module _ {Needs : Prepared → Health → Type 0} {P : Health → Type 0} (c : Closed Needs P) where
    finish-Keeps :
        (n : SceneName) (r : Option String × Manager) → P r.1.health → P (finish n r).1.health
    unfolding finish
    finish-Keeps n (none, m) h = h
    finish-Keeps n (some e, m) h = c.marks n _ e m.health h

    construct-Keeps :
        (n : SceneName) (b : Built) (m : Manager) → P m.health → P (construct w n b m).1.health
    unfolding construct
    construct-Keeps n (throws e) m h = c.marks n _ e m.health h
    construct-Keeps n no_group m h = c.marks n _ _ m.health h
    construct-Keeps n (made ms) m h =
        finish-Keeps n _
          (subst P (sym (health-configure n (setters ms m) _)) (c.adds n ms m.health h))

    pub ensure_scene-Keeps :
        (n : SceneName) (m : Manager) → P m.health → P (ensure_scene w n m).1.health
    unfolding ensure_scene
    ensure_scene-Keeps n m h =
        if_intro (λ (r : Bool × Manager). P r.1.health) (not (w.exists n) || has n m.failed)
          (λ _. h)
          λ _.
            if_intro (λ (r : Bool × Manager). P r.1.health) (is_some (find_scene n m.scenes))
              (λ _. h)
              λ _. construct-Keeps n (w.build m.clock n) (record m { clock = m.clock + 1 }) h

    settle-Keeps :
        (n : SceneName) (p : Phase) (r : Option String × Manager)
        → P r.1.health
        → P (settle n p r).1.health
    unfolding settle
    settle-Keeps n p (none, m) h = h
    settle-Keeps n p (some e, m) h = c.marks n p e m.health h

    pub invoke-Keeps :
        (n : SceneName) (p : Phase) (f : Method) (m : Manager)
        → P m.health
        → P (invoke w n p f m).1.health
    unfolding invoke
    invoke-Keeps n p f m h =
        if_intro (λ (r : Bool × Manager). P r.1.health) (has n m.failed) (λ _. h)
          λ _. settle-Keeps n p (call w n f m) h

    fall_back-Keeps :
        (n : SceneName) (r : Bool × Manager) → P r.1.health → P (fall_back w n r).1.health
    unfolding fall_back
    fall_back-Keeps n (found, m) h =
        if_intro (λ (r : Prepared × Manager). P r.1.health) (not found && not (same_name n sky))
          (λ _. ensure_scene-Keeps sky m h) λ _. h

    pub prepare_scene-Keeps :
        (n : SceneName) (keep : Bool) (m : Manager)
        → P m.health
        → P (prepare_scene w n keep m).1.health
    unfolding prepare_scene
    prepare_scene-Keeps n keep m h = fall_back-Keeps _ _ (
        ensure_scene-Keeps _ _
          (if_intro (λ (k : Manager). P k.health) keep (λ _. h) λ _. c.requests _ m.health h))
