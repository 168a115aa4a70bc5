-- ===== src/Dom/Restore.antt =====
-- dom.js: lemmas on hiding, isolating and their restoration.
use aetheldesk.Base.{
  ℕ, zero, suc, String, Bool, true, false, ◌||◌, Option, none, some, List, [], ◌∷◌, str_eq, ◌==◌,
  if◌then◌else◌, ◌≡◌, refl, ap, ◌∙◌, arith,
}
use aetheldesk.Dom.{
  Element, Page, is_true, hide_interaction, show_interaction, hide_sibling, show_sibling, kept_text,
  restored, at, for_each, mark_hidden, set_hidden_interaction,
}

abbrev pub mem : ℕ → List ℕ → Bool
mem j [] = false
mem j (i ∷ is) = j == i || mem j is

once :
    (g : Element → Element)
    → ((e : Element) → g (g e) ≡ g e)
    → (a b : Bool) (e : Element)
    → (if b then g (if a then g e else e) else (if a then g e else e)) ≡ (if a || b then g e else e)
once g twice true true e = twice e
once g twice true false e = refl
once g twice false true e = refl
once g twice false false e = refl

-- A loop over elements whose body does nothing the second time is its body, once, at each of them.
pub for_each-mem :
    (g : Element → Element)
    → ((e : Element) → g (g e) ≡ g e)
    → (is : List ℕ) (page : Page) (j : ℕ)
    → for_each g is page j ≡ (if mem j is then g (page j) else page j)
unfolding for_each
for_each-mem g twice [] page j = refl
for_each-mem g twice (i ∷ is) page j =
    for_each-mem g twice is (at i g page) j ∙ once g twice (j == i) (mem j is) (page j)

pub hide_interaction_twice :
    (e : Element) → hide_interaction (hide_interaction e) ≡ hide_interaction e
unfolding hide_interaction
hide_interaction_twice e = ground arith

pub show_interaction_twice :
    (e : Element) → show_interaction (show_interaction e) ≡ show_interaction e
unfolding show_interaction
show_interaction_twice e = ground arith

pub hide_sibling_twice : (e : Element) → hide_sibling (hide_sibling e) ≡ hide_sibling e
unfolding hide_sibling
hide_sibling_twice e = ground arith

pub show_sibling_twice : (e : Element) → show_sibling (show_sibling e) ≡ show_sibling e
unfolding show_sibling
show_sibling_twice e = ground arith

abbrev reads_none : Option String → Bool
reads_none none = false
reads_none (some s) = str_eq s "__none__"

-- An element that no panel has touched: no notes of dom.js, and no attribute that reads like one.
pub record IsFresh (e : Element) : Type 0 where
  pub not_hidden : e.interaction_hidden ≡ none
  pub no_index : e.original_tab_index ≡ none
  pub not_isolated : e.modal_isolation_hidden ≡ none
  pub no_aria : e.modal_original_aria_hidden ≡ none
  pub no_inert : e.modal_original_inert ≡ none
  pub plain_index : reads_none e.tabindex ≡ false
  pub plain_aria : reads_none e.aria_hidden ≡ false

restored-kept_text : (o : Option String) → reads_none o ≡ false → restored (some (kept_text o)) ≡ o
restored-kept_text none h = refl
restored-kept_text (some s) h = rw h refl

show-hide_interaction : (e : Element) → IsFresh e → show_interaction (hide_interaction e) ≡ e
unfolding show_interaction hide_interaction
show-hide_interaction e h =
    ground (arith, h.not_hidden, h.no_index, restored-kept_text e.tabindex h.plain_index)

inert_text : (b : Bool) → is_true (some (if b then "true" else "false")) ≡ b
inert_text true = refl
inert_text false = refl

pub show-hide_sibling : (e : Element) → IsFresh e → show_sibling (hide_sibling e) ≡ e
unfolding show_sibling hide_sibling
show-hide_sibling e h = ground (
  arith,
  h.not_isolated,
  h.no_aria,
  h.no_inert,
  inert_text e.inert,
  restored-kept_text e.aria_hidden h.plain_aria,
)

-- One call of setHiddenInteraction at one element: whether it is the root, whether it is in the list.
abbrev hidden_at : Bool → Bool → Element → Element
hidden_at is_root listed e =
    let marked : Element = if is_root then mark_hidden true e else e in
    if listed then hide_interaction marked else marked

abbrev shown_at : Bool → Bool → Element → Element
shown_at is_root listed e =
    let marked : Element = if is_root then mark_hidden false e else e in
    if listed then show_interaction marked else marked

hidden_at_twice : (r l : Bool) (e : Element) → hidden_at r l (hidden_at r l e) ≡ hidden_at r l e
unfolding hide_interaction
hidden_at_twice r l e = ground arith

shown-hidden_at :
    (r l : Bool) (e : Element)
    → IsFresh e
    → shown_at r l (hidden_at r l e) ≡ (if r then mark_hidden false e else e)
unfolding show_interaction hide_interaction
shown-hidden_at r l e h =
    ground (arith, h.not_hidden, h.no_index, restored-kept_text e.tabindex h.plain_index)

hide_is_hidden_at :
    (root : ℕ) (below : List ℕ) (page : Page) (j : ℕ)
    → set_hidden_interaction root below true page j
      ≡ hidden_at (j == root) (mem j (root ∷ below)) (page j)
unfolding set_hidden_interaction
hide_is_hidden_at root below page j =
    for_each-mem hide_interaction hide_interaction_twice (root ∷ below) _ j

show_is_shown_at :
    (root : ℕ) (below : List ℕ) (page : Page) (j : ℕ)
    → set_hidden_interaction root below false page j
      ≡ shown_at (j == root) (mem j (root ∷ below)) (page j)
unfolding set_hidden_interaction
show_is_shown_at root below page j =
    for_each-mem show_interaction show_interaction_twice (root ∷ below) _ j

-- Hiding again and again, as the renderers do for every snapshot.
abbrev pub hide_often : ℕ → ℕ → List ℕ → Page → Page
hide_often zero root below page = page
hide_often (suc n) root below page =
    set_hidden_interaction root below true (hide_often n root below page)

hide_often_once :
    (n root : ℕ) (below : List ℕ) (page : Page) (j : ℕ)
    → hide_often (suc n) root below page j ≡ hidden_at (j == root) (mem j (root ∷ below)) (page j)
hide_often_once zero root below page j = hide_is_hidden_at root below page j
hide_often_once (suc n) root below page j =
    hide_is_hidden_at root below (hide_often (suc n) root below page) j
    ∙ ap (hidden_at (j == root) (mem j (root ∷ below))) (hide_often_once n root below page j)
    ∙ hidden_at_twice (j == root) (mem j (root ∷ below)) (page j)

-- Where no panel has touched the elements before, one show undoes any positive number of hides: every
-- element is as it was, its tab index included, and only the root's two marks say "shown".
pub show-hide_often :
    (n root : ℕ) (below : List ℕ) (page : Page)
    → ((j : ℕ) → IsFresh (page j))
    → (j : ℕ)
    → set_hidden_interaction root below false (hide_often (suc n) root below page) j
      ≡ (if j == root then mark_hidden false (page j) else page j)
show-hide_often n root below page fresh j =
    show_is_shown_at root below (hide_often (suc n) root below page) j
    ∙ ap (shown_at (j == root) (mem j (root ∷ below))) (hide_often_once n root below page j)
    ∙ shown-hidden_at (j == root) (mem j (root ∷ below)) (page j) (fresh j)
