-- ===== src/SceneManager/Invariants.antt =====
-- Facts about the health of the scene manager that its four changes keep.
use aetheldesk.Base.{
  ◌≡◌, ◌⊎◌, inl, inr, refl, Bool, true, false, List, [], ◌∷◌, ◌++◌, arith, is_some, Bool-cases, map,
  ◌∙◌,
}
use aetheldesk.SceneManager.State.{
  SceneName, sky, Phase, Scene, Failure, Health, has, has_key, find_scene, hide, mark_failed,
  add_scene, show_scenes, show_only,
}
use aetheldesk.SceneManager.Closure.{IsReady, Closed}

pub failed_Closed : (n : SceneName) → Closed (λ p h. Unit) (λ h. has n h.failed ≡ true)
unfolding mark_failed add_scene show_only has
failed_Closed n = record {
  ready = λ p h r. tt;
  marks = λ k p e h v. ground arith;
  adds = λ k ms h v. v;
  shows = λ p h r v. v;
  requests = λ k h v. v;
}

abbrev pub Unique : List (SceneName × Phase) → Type 0
Unique [] = Unit
Unique ((n, p) ∷ ks) = (has_key n p ks ≡ false) × Unique ks

abbrev pub key_of : Failure → SceneName × Phase
key_of f = (f.name, f.phase)

pub record ReportsOnce (h : Health) : Type 0 where
  pub unique : Unique h.reported
  pub made : map key_of h.reports ≡ h.reported

pub reports_Closed : Closed (λ p h. Unit) ReportsOnce
unfolding mark_failed add_scene show_only
reports_Closed = record {
  ready = λ p h r. tt;
  marks = λ k p e h v. record { unique = ground arith; made = ground arith };
  adds = λ k ms h v. record { unique = v.unique; made = v.made };
  shows = λ p h r v. record { unique = v.unique; made = v.made };
  requests = λ k h v. record { unique = v.unique; made = v.made };
}

abbrev pub OnlyActive : SceneName → List SceneName → List Scene → Type 0
OnlyActive active failed [] = Unit
OnlyActive active failed (s ∷ ss) =
    (s.visible ≡ true → (s.name ≡ active) × (has s.name failed ≡ false))
    × OnlyActive active failed ss

hide-OnlyActive :
    (n active : SceneName) (failed : List SceneName) (ss : List Scene)
    → OnlyActive active failed ss
    → OnlyActive active (n ∷ failed) (hide n ss)
unfolding hide has
hide-OnlyActive n active failed [] v = tt
hide-OnlyActive n active failed (s ∷ ss) v =
    (λ h. ground arith, hide-OnlyActive n active failed ss v.1)

hide-OnlyActive_same :
    (n active : SceneName) (failed : List SceneName) (ss : List Scene)
    → OnlyActive active failed ss
    → OnlyActive active failed (hide n ss)
unfolding hide
hide-OnlyActive_same n active failed [] v = tt
hide-OnlyActive_same n active failed (s ∷ ss) v =
    (λ h. ground arith, hide-OnlyActive_same n active failed ss v.1)

snoc-OnlyActive :
    (s : Scene) (active : SceneName) (failed : List SceneName) (ss : List Scene)
    → s.visible ≡ false
    → OnlyActive active failed ss
    → OnlyActive active failed (ss ++ s ∷ [])
snoc-OnlyActive s active failed [] e v = (λ h. cc, tt)
snoc-OnlyActive s active failed (x ∷ ss) e v = (v.0, snoc-OnlyActive s active failed ss e v.1)

show-OnlyActive :
    (name : SceneName) (available : Bool) (failed : List SceneName) (ss : List Scene)
    → (available ≡ true → has name failed ≡ false)
    → OnlyActive name failed (show_scenes name available ss)
unfolding show_scenes
show-OnlyActive name available failed [] r = tt
show-OnlyActive name available failed (s ∷ ss) r =
    (λ h. ground arith, show-OnlyActive name available failed ss r)

abbrev pub ShowsActive : Health → Type 0
ShowsActive h = OnlyActive h.active h.failed h.scenes

pub shows_Closed : Closed IsReady ShowsActive
unfolding mark_failed add_scene show_only
shows_Closed = record {
  ready = λ p h r. r;
  marks = λ k p e h v. ground (
    arith,
    hide-OnlyActive_same k h.active h.failed h.scenes v,
    hide-OnlyActive k h.active h.failed h.scenes v,
  );
  adds = λ k ms h v. snoc-OnlyActive _ h.active h.failed h.scenes refl v;
  shows = λ p h r v. show-OnlyActive p.resolved_name p.available h.failed h.scenes r.unfailed;
  requests = λ k h v. v;
}

-- Without the failures: a scene in view is the active one.
abbrev pub OnlyNamed : SceneName → List Scene → Type 0
OnlyNamed active [] = Unit
OnlyNamed active (s ∷ ss) = ((s.visible ≡ false) ⊎ (s.name ≡ active)) × OnlyNamed active ss

hide-OnlyNamed :
    (n active : SceneName) (ss : List Scene) → OnlyNamed active ss → OnlyNamed active (hide n ss)
unfolding hide
hide-OnlyNamed n active [] v = tt
hide-OnlyNamed n active (s ∷ ss) v = (ground (arith, v.0), hide-OnlyNamed n active ss v.1)

snoc-OnlyNamed :
    (s : Scene) (active : SceneName) (ss : List Scene)
    → s.visible ≡ false
    → OnlyNamed active ss
    → OnlyNamed active (ss ++ s ∷ [])
snoc-OnlyNamed s active [] e v = (inl e, tt)
snoc-OnlyNamed s active (x ∷ ss) e v = (v.0, snoc-OnlyNamed s active ss e v.1)

show-OnlyNamed :
    (name : SceneName) (available : Bool) (ss : List Scene)
    → OnlyNamed name (show_scenes name available ss)
unfolding show_scenes
show-OnlyNamed name available [] = tt
show-OnlyNamed name available (s ∷ ss) = (ground arith, show-OnlyNamed name available ss)

abbrev pub ShowsNamed : Health → Type 0
ShowsNamed h = OnlyNamed h.active h.scenes

pub named_Closed : Closed (λ p h. Unit) ShowsNamed
unfolding mark_failed add_scene show_only
named_Closed = record {
  ready = λ p h r. tt;
  marks = λ k p e h v. ground (arith, hide-OnlyNamed k h.active h.scenes v);
  adds = λ k ms h v. snoc-OnlyNamed _ h.active h.scenes refl v;
  shows = λ p h r v. show-OnlyNamed p.resolved_name p.available h.scenes;
  requests = λ k h v. v;
}

abbrev pub IsPresent : Health → Type 0
IsPresent h = (h.active ≡ sky) ⊎ (is_some (find_scene h.active h.scenes) ≡ true)

find-hide :
    (a n : SceneName) (ss : List Scene)
    → is_some (find_scene a (hide n ss)) ≡ is_some (find_scene a ss)
unfolding find_scene hide
find-hide a n [] = refl
find-hide a n (s ∷ ss) = ground (arith, find-hide a n ss)

find-show :
    (a n : SceneName) (b : Bool) (ss : List Scene)
    → is_some (find_scene a (show_scenes n b ss)) ≡ is_some (find_scene a ss)
unfolding find_scene show_scenes
find-show a n b [] = refl
find-show a n b (s ∷ ss) = ground (arith, find-show a n b ss)

find-append :
    (a : SceneName) (ss ts : List Scene)
    → is_some (find_scene a ss) ≡ true
    → is_some (find_scene a (ss ++ ts)) ≡ true
unfolding find_scene
find-append a [] ts h = cc
find-append a (s ∷ ss) ts h = ground (arith, find-append a ss ts)

pub IsPresent-Closed : Closed IsReady IsPresent
unfolding mark_failed add_scene show_only
IsPresent-Closed = record {
  ready = λ p h r. r;
  marks = λ k p e h v. ground (arith, find-hide h.active k h.scenes);
  adds = λ k ms h v. elim v [ inl e ↦ inl e | inr e ↦ inr (find-append h.active h.scenes _ e) ];
  shows = λ p h r v. elim (Bool-cases p.available) [
    | inl e ↦ inr (find-show p.resolved_name p.resolved_name p.available h.scenes ∙ r.present e)
    | inr e ↦ inl (r.otherwise e)
  ];
  requests = λ k h v. v;
}
