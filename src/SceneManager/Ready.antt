-- ===== src/SceneManager/Ready.antt =====
-- scene-manager.js: lemmas on the results of `ensureScene` and `prepareScene`.
use aetheldesk.Base.{
  String, ◌≡◌, inl, inr, refl, sym, subst, Bool, true, false, not, ◌&&◌, Option, none, some, List,
  [], ◌∷◌, ◌++◌, arith, is_some, Bool-cases, if_intro, ◌+◌, ◌||◌,
}
use aetheldesk.SceneManager.State.{
  SceneName, sky, Method, Scene, Health, same_name, has, find_scene, add_scene,
}
use aetheldesk.SceneManager.{
  World, Built, throws, no_group, made, Manager, Prepared, configure, setters, finish, construct,
  ensure_scene, fell_back, fall_back, prepare_scene,
}
use aetheldesk.SceneManager.Closure.{IsReady, health-configure}

failed-add_scene :
    (n : SceneName) (ms : Method → Bool) (h : Health)
    → has n h.failed ≡ false
    → has n (add_scene n ms h).failed ≡ false
unfolding add_scene
failed-add_scene n ms h e = e

find-snoc :
    (n : SceneName) (s : Scene) (ss : List Scene)
    → s.name ≡ n
    → is_some (find_scene n (ss ++ s ∷ [])) ≡ true
unfolding find_scene
find-snoc n s [] e = ground arith
find-snoc n s (x ∷ ss) e = ground (arith, find-snoc n s ss e)

find-add_scene :
    (n : SceneName) (ms : Method → Bool) (h : Health)
    → is_some (find_scene n (add_scene n ms h).scenes) ≡ true
unfolding add_scene
find-add_scene n ms h = find-snoc n _ h.scenes refl

-- A scene that was found is there, and has not failed.
abbrev IsFound : SceneName → Bool × Manager → Type 0
IsFound n (found, m) =
    found ≡ true → (has n m.failed ≡ false) × (is_some (find_scene n m.scenes) ≡ true)

finish-IsFound :
    (n : SceneName) (r : Option String × Manager)
    → has n r.1.failed ≡ false
    → is_some (find_scene n r.1.scenes) ≡ true
    → IsFound n (finish n r)
unfolding finish
finish-IsFound n (none, m) f p h = (f, p)
finish-IsFound n (some e, m) f p h = cc

abbrev Ready : Prepared × Manager → Type 0
Ready (p, m) = IsReady p m.health

found-Ready :
    (n : SceneName) (r : Bool × Manager)
    → (r.0 ≡ false → n ≡ sky)
    → IsFound n r
    → Ready (record { requested_name = n; resolved_name = n; available = r.0 }, r.1)
found-Ready n (found, m) o f = record {
  unfailed = λ e. (f e).0;
  present = λ e. (f e).1;
  otherwise = o;
}

fell_back-Ready : (n : SceneName) (r : Bool × Manager) → IsFound sky r → Ready (fell_back n r)
fell_back-Ready n (found, m) f = record {
  unfailed = λ e. (f e).0;
  present = λ e. (f e).1;
  otherwise = λ _. refl;
}

module _ (w : World) where
  construct-IsFound :
      (n : SceneName) (b : Built) (m : Manager)
      → has n m.failed ≡ false
      → IsFound n (construct w n b m)
  unfolding construct
  construct-IsFound n (throws e) m f = λ h. cc
  construct-IsFound n no_group m f = λ h. cc
  construct-IsFound n (made ms) m f =
      let added : Manager = record m { health = add_scene n ms m.health } in
      let same = health-configure w n (setters ms m) added in
      finish-IsFound n (configure w n (setters ms m) added)
        (subst (λ (k : Health). has n k.failed ≡ false) (sym same)
          (failed-add_scene n ms m.health f))
        (subst (λ (k : Health). is_some (find_scene n k.scenes) ≡ true) (sym same)
          (find-add_scene n ms m.health))

  ensure_scene-IsFound : (n : SceneName) (m : Manager) → IsFound n (ensure_scene w n m)
  unfolding ensure_scene
  ensure_scene-IsFound n m = elim (Bool-cases (has n m.failed)) [
    | inl bad ↦ λ h. ground arith
    | inr good ↦
        if_intro (IsFound n) (not (w.exists n) || has n m.failed) (λ _ h. cc)
          λ _.
            if_intro (IsFound n) (is_some (find_scene n m.scenes)) (λ there _. (good, there))
              λ _. construct-IsFound n (w.build m.clock n) (record m { clock = m.clock + 1 }) good
  ]

  fall_back-Ready : (n : SceneName) (r : Bool × Manager) → IsFound n r → Ready (fall_back w n r)
  unfolding fall_back
  fall_back-Ready n (found, m) f =
      if_intro Ready (not found && not (same_name n sky))
        (λ _. fell_back-Ready n (ensure_scene w sky m) (ensure_scene-IsFound sky m))
        λ e. found-Ready n (found, m) (λ h. ground arith) f

  -- What `prepareScene` returns can be activated at once.
  pub prepare_scene-IsReady :
      (n : SceneName) (keep : Bool) (m : Manager)
      → let r = prepare_scene w n keep m in IsReady r.0 r.1.health
  unfolding prepare_scene
  prepare_scene-IsReady n keep m = fall_back-Ready _ (ensure_scene w _ _) (ensure_scene-IsFound _ _)
