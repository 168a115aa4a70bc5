-- ===== src/SceneManager/Building.antt =====
-- scene-manager.js: lemmas on `buildScene` and its failures.
use aetheldesk.Base.{
  String, ◌≡◌, ◌⊎◌, inl, refl, subst, ap, Bool, true, false, not, ◌&&◌, Option, none, some, List,
  arith, if◌then◌else◌, is_some, if_intro, ◌+◌, ◌||◌,
}
use aetheldesk.SceneManager.State.{
  SceneName, sky, Health, same_name, has, find_scene, mark_failed, add_scene,
}
use aetheldesk.SceneManager.{
  World, Built, throws, no_group, made, Manager, Prepared, configure, setters, finish, construct,
  ensure_scene, fall_back, prepare_scene,
}
use aetheldesk.SceneManager.Closure.{health-configure, ensure_scene-Keeps}
use aetheldesk.SceneManager.Invariants.{IsPresent, IsPresent-Closed}
use aetheldesk.SceneManager.Recovery.{IsRecovered}

module _ (w : World) where
  -- What building a scene can change.
  record Builds (n : SceneName) (m m' : Manager) : Type 0 where
    active : m'.active ≡ m.active
    only :
        (a : SceneName)
        → has a m'.failed ≡ true
        → (has a m.failed ≡ true) ⊎ ((a ≡ n) × (is_some (find_scene n m.scenes) ≡ false))

  finish-Builds :
      (n : SceneName) (m : Manager) (r : Option String × Manager)
      → is_some (find_scene n m.scenes) ≡ false
      → r.1.active ≡ m.active
      → r.1.failed ≡ m.failed
      → Builds n m (finish n r).1
  unfolding finish mark_failed has
  finish-Builds n m (none, m') e a f = record {
    active = a;
    only = λ x h. inl (subst (λ (l : List SceneName). has x l ≡ true) f h);
  }
  finish-Builds n m (some err, m') e a f = record {
    active = ground arith;
    only = λ x h. ground arith;
  }

  construct-Builds :
      (n : SceneName) (b : Built) (m : Manager)
      → is_some (find_scene n m.scenes) ≡ false
      → Builds n m (construct w n b m).1
  unfolding construct mark_failed has add_scene
  construct-Builds n (throws e) m h = record { active = ground arith; only = λ x f. ground arith }
  construct-Builds n no_group m h = record { active = ground arith; only = λ x f. ground arith }
  construct-Builds n (made ms) m h =
      let added : Manager = record m { health = add_scene n ms m.health } in
      let same = health-configure w n (setters ms m) added in
      finish-Builds n m (configure w n (setters ms m) added) h (ap (λ (k : Health). k.active) same)
        (ap (λ (k : Health). k.failed) same)

  ensure_scene-Builds : (n : SceneName) (m : Manager) → Builds n m (ensure_scene w n m).1
  unfolding ensure_scene
  ensure_scene-Builds n m =
      let nothing : Builds n m m = record { active = refl; only = λ x f. inl f } in
      if_intro (λ (r : Bool × Manager). Builds n m r.1) (not (w.exists n) || has n m.failed)
        (λ _. nothing)
        λ _.
          if_intro (λ (r : Bool × Manager). Builds n m r.1) (is_some (find_scene n m.scenes))
            (λ _. nothing)
            λ e.
              let b = construct-Builds n (w.build m.clock n) (record m { clock = m.clock + 1 }) e in
              record { active = b.active; only = b.only }

  ensure_scene-IsRecovered :
      (n : SceneName) (m : Manager)
      → IsPresent m.health
      → IsRecovered m
      → IsRecovered (ensure_scene w n m).1
  ensure_scene-IsRecovered n m p h f =
      let b = ensure_scene-Builds n m in ground (arith, b.active, b.only m.active, h)

  fall_back-IsRecovered :
      (n : SceneName) (r : Bool × Manager)
      → IsPresent r.1.health
      → IsRecovered r.1
      → IsRecovered (fall_back w n r).1
  unfolding fall_back
  fall_back-IsRecovered n (found, m) p h =
      if_intro (λ (r : Prepared × Manager). IsRecovered r.1) (not found && not (same_name n sky))
        (λ _. ensure_scene-IsRecovered sky m p h) λ _. h

  pub prepare_scene-IsRecovered :
      (n : SceneName) (keep : Bool) (m : Manager)
      → IsPresent m.health
      → IsRecovered m
      → IsRecovered (prepare_scene w n keep m).1
  unfolding prepare_scene
  prepare_scene-IsRecovered n keep m p h =
      let requested : SceneName = if w.exists n then n else sky in
      let noted : Manager =
        if keep then m else record m { health = record (m.health) { requested = requested } } in
      let p' : IsPresent noted.health =
        if_intro (λ (k : Manager). IsPresent k.health) keep (λ _. p) λ _. p in
      let h' : IsRecovered noted = if_intro IsRecovered keep (λ _. h) λ _. h in
      fall_back-IsRecovered requested (ensure_scene w requested noted)
        (ensure_scene-Keeps w IsPresent-Closed requested noted p')
        (ensure_scene-IsRecovered requested noted p' h')
