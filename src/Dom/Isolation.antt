-- ===== src/Dom/Isolation.antt =====
-- dom.js: modal isolation, when panels are opened one over another.
use aetheldesk.Base.{
  ℕ, Bool, true, false, Option, none, some, List, [], ◌∷◌, ◌==◌, if◌then◌else◌, ◌≡◌, refl, sym, ap,
  ◌∙◌, arith, Bool-cases, inl, inr, subst,
}
use aetheldesk.Dom.{
  Element, Page, hide_sibling, show_sibling, for_each, Level, modal_siblings, Document, release,
  release_other, isolate, set_modal_isolation,
}
use aetheldesk.Dom.Restore.{
  mem, for_each-mem, hide_sibling_twice, show_sibling_twice, IsFresh, show-hide_sibling,
}

eq→≡ : (q r : ℕ) → (q == r) ≡ true → q ≡ r
eq→≡ q r h = ground arith

leaf : (r : ℕ) → (r == r) ≡ true
leaf r = ground arith

if_true : {A : Type 0} (b : Bool) (x y : A) → b ≡ true → (if b then x else y) ≡ x
if_true true x y h = refl
if_true false x y h = ground arith

if_false : {A : Type 0} (b : Bool) (x y : A) → b ≡ false → (if b then x else y) ≡ y
if_false true x y h = ground arith
if_false false x y h = refl

module _ (levels : ℕ → List Level) where
  abbrev around : ℕ → List ℕ
  around root = modal_siblings (levels root)

  -- What the page `before` becomes while `root` is a modal.
  pub record IsIsolated (root : ℕ) (before : Page) (d : Document) : Type 0 where
    pub active : d.active_modal_root ≡ some root
    pub hides :
        (j : ℕ) → d.page j ≡ (if mem j (around root) then hide_sibling (before j) else before j)

  -- Opening the roots in turn, the last of the list first.
  abbrev pub open_all : ℕ → List ℕ → Document → Document
  open_all r [] d = set_modal_isolation levels r true d
  open_all r (q ∷ qs) d = set_modal_isolation levels r true (open_all q qs d)

  isolate_fresh :
      (r : ℕ) (before : Page) (d : Document)
      → ((j : ℕ) → d.page j ≡ before j)
      → IsIsolated r before (isolate levels r d)
  unfolding isolate
  isolate_fresh r before d same = record {
    active = refl;
    hides = λ j.
        for_each-mem hide_sibling hide_sibling_twice (around r) d.page j
        ∙ ap (λ e. if mem j (around r) then hide_sibling e else e) (same j);
  }

  shown_again :
      (b : Bool) (e : Element)
      → IsFresh e
      → (if b
          then show_sibling (if b then hide_sibling e else e)
          else (if b then hide_sibling e else e))
        ≡ e
  shown_again true e h = show-hide_sibling e h
  shown_again false e h = refl

  hidden_again :
      (b : Bool) (e : Element)
      → (if b
          then hide_sibling (if b then hide_sibling e else e)
          else (if b then hide_sibling e else e))
        ≡ (if b then hide_sibling e else e)
  hidden_again true e = hide_sibling_twice e
  hidden_again false e = refl

  release-active :
      (r : ℕ) (d : Document)
      → d.active_modal_root ≡ some r
      → release levels r d
        ≡ (record { page = for_each show_sibling (around r) d.page; active_modal_root = none })
  unfolding release
  release-active r d h = rw h (if_true (r == r) _ _ (leaf r))

  release_restores :
      (r : ℕ) (before : Page) (d : Document)
      → ((j : ℕ) → IsFresh (before j))
      → IsIsolated r before d
      → (j : ℕ) → (release levels r d).page j ≡ before j
  release_restores r before d fresh h j =
      ap (λ (x : Document). x.page j) (release-active r d h.active)
      ∙ for_each-mem show_sibling show_sibling_twice (around r) d.page j
      ∙ ap (λ e. if mem j (around r) then show_sibling e else e) (h.hides j)
      ∙ shown_again (mem j (around r)) (before j) (fresh j)

  reisolate :
      (r : ℕ) (before : Page) (d : Document)
      → IsIsolated r before d
      → IsIsolated r before (isolate levels r d)
  unfolding isolate
  reisolate r before d h = record {
    active = refl;
    hides = λ j.
        for_each-mem hide_sibling hide_sibling_twice (around r) d.page j
        ∙ ap (λ e. if mem j (around r) then hide_sibling e else e) (h.hides j)
        ∙ hidden_again (mem j (around r)) (before j);
  }

  release_other-active :
      (q r : ℕ) (d : Document)
      → d.active_modal_root ≡ some q
      → release_other levels r d ≡ (if q == r then d else release levels q d)
  unfolding release_other
  release_other-active q r d h =
      ap (λ (o : Option ℕ). elim o [ none ↦ d | some a ↦ if a == r then d else release levels a d ])
        h

  -- Opening over an open panel: the same one, or another, whose isolation ends first.
  reopen :
      (q r : ℕ) (before : Page) (d : Document)
      → ((j : ℕ) → IsFresh (before j))
      → IsIsolated q before d
      → IsIsolated r before (set_modal_isolation levels r true d)
  unfolding set_modal_isolation
  reopen q r before d fresh h = elim (Bool-cases (q == r)) [
    | inl e ↦
        subst (λ (x : Document). IsIsolated r before (isolate levels r x))
          (sym (release_other-active q r d h.active ∙ if_true (q == r) _ _ e))
          (reisolate r before d (subst (λ n. IsIsolated n before d) (eq→≡ q r e) h))
    | inr e ↦
        subst (λ (x : Document). IsIsolated r before (isolate levels r x))
          (sym (release_other-active q r d h.active ∙ if_false (q == r) _ _ e))
          (isolate_fresh r before (release levels q d) (release_restores q before d fresh h))
  ]

  pub open_all-IsIsolated :
      (r : ℕ) (qs : List ℕ) (d : Document)
      → d.active_modal_root ≡ none
      → ((j : ℕ) → IsFresh (d.page j))
      → IsIsolated r d.page (open_all r qs d)
  unfolding set_modal_isolation release_other
  open_all-IsIsolated r [] d h fresh = rw h (isolate_fresh r d.page d (λ j. refl))
  open_all-IsIsolated r (q ∷ qs) d h fresh =
      reopen q r d.page (open_all q qs d) fresh (open_all-IsIsolated q qs d h fresh)

  -- Where no panel has touched the page before, closing the last of any number of modals that were
  -- opened one over another gives every element the attributes that it had before the first.
  pub close-open_all :
      (r : ℕ) (qs : List ℕ) (d : Document)
      → d.active_modal_root ≡ none
      → ((j : ℕ) → IsFresh (d.page j))
      → (j : ℕ) → (set_modal_isolation levels r false (open_all r qs d)).page j ≡ d.page j
  unfolding set_modal_isolation
  close-open_all r qs d h fresh =
      release_restores r d.page (open_all r qs d) fresh (open_all-IsIsolated r qs d h fresh)
