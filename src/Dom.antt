-- ===== src/Dom.antt =====
-- frontend/src/dom.js: what the panels and the room page do with elements. A page gives each element,
-- a number here, its attributes; the tree is an argument of the operations that walk it.
pub mod Restore
pub mod Isolation
pub mod Trap
pub mod TrapLaws
pub mod Debounce
mod Tests
use aetheldesk.Base.{
  ℕ, String, Bool, true, false, not, ◌&&◌, ◌||◌, Option, none, some, List, [], ◌∷◌, ◌++◌, str_eq,
  ◌==◌, if◌then◌else◌,
}

-- The attributes and `data-` entries that dom.js reads and writes; one that is not there is `none`.
pub record Element : Type 0 where
  pub tabindex : Option String
  pub aria_hidden : Option String
  pub inert : Bool
  pub interaction_hidden : Option String
  pub original_tab_index : Option String
  pub modal_isolation_hidden : Option String
  pub modal_original_aria_hidden : Option String
  pub modal_original_inert : Option String

abbrev pub Page : Type 0
Page = ℕ → Element

-- `dataset.x === "true"`
abbrev pub is_true : Option String → Bool
is_true none = false
is_true (some s) = str_eq s "true"

-- An attribute, kept as a text where "__none__" says that there was none; and back.
abbrev pub kept_text : Option String → String
kept_text none = "__none__"
kept_text (some s) = s

abbrev pub restored : Option String → Option String
restored none = none
restored (some s) = if str_eq s "__none__" then none else some s

-- The body of setHiddenInteraction's loop.
unfoldable pub hide_interaction : Element → Element
hide_interaction e = if is_true e.interaction_hidden then e else record e {
  interaction_hidden = some "true";
  original_tab_index = some (kept_text e.tabindex);
  tabindex = some "-1";
}

unfoldable pub show_interaction : Element → Element
show_interaction e =
    if is_true e.interaction_hidden
    then record e {
      tabindex = restored e.original_tab_index;
      original_tab_index = none;
      interaction_hidden = none;
    }
    else e

-- setModalSiblingHidden
unfoldable pub hide_sibling : Element → Element
hide_sibling e = if is_true e.modal_isolation_hidden then e else record e {
  modal_isolation_hidden = some "true";
  modal_original_aria_hidden = some (kept_text e.aria_hidden);
  modal_original_inert = some (if e.inert then "true" else "false");
  aria_hidden = some "true";
  inert = true;
}

unfoldable pub show_sibling : Element → Element
show_sibling e =
    if is_true e.modal_isolation_hidden
    then record e {
      aria_hidden = restored e.modal_original_aria_hidden;
      inert = is_true e.modal_original_inert;
      modal_isolation_hidden = none;
      modal_original_aria_hidden = none;
      modal_original_inert = none;
    }
    else e

abbrev pub at : ℕ → (Element → Element) → Page → Page
at i g page j = if j == i then g (page j) else page j

unfoldable pub for_each : (Element → Element) → List ℕ → Page → Page
for_each g [] page = page
for_each g (i ∷ is) page = for_each g is (at i g page)

abbrev pub mark_hidden : Bool → Element → Element
mark_hidden hidden e = record e {
  inert = hidden;
  aria_hidden = some (if hidden then "true" else "false");
}

-- `below` are the controls under the root.
unfoldable pub set_hidden_interaction : ℕ → List ℕ → Bool → Page → Page
unfolding for_each
set_hidden_interaction root below hidden page =
    for_each (if hidden then hide_interaction else show_interaction) (root ∷ below)
      (at root (mark_hidden hidden) page)

-- One turn of walkModalSiblings: the current element and its parent's children, each with whether it
-- is a script or a style.
abbrev pub Level : Type 0
Level = ℕ × List (ℕ × Bool)

unfoldable pub level_siblings : ℕ → List (ℕ × Bool) → List ℕ
level_siblings current [] = []
level_siblings current ((sibling, is_code) ∷ rest) =
    let others : List ℕ = level_siblings current rest in
    if sibling == current || is_code then others else sibling ∷ others

unfoldable pub modal_siblings : List Level → List ℕ
unfolding level_siblings
modal_siblings [] = []
modal_siblings ((current, children) ∷ above) =
    level_siblings current children ++ modal_siblings above

pub record Document : Type 0 where
  pub page : Page
  pub active_modal_root : Option ℕ

-- `levels` gives the way from an element up to the top of its tree.
module _ (levels : ℕ → List Level) where
  unfoldable pub release : ℕ → Document → Document
  unfolding for_each modal_siblings
  release root d = elim d.active_modal_root [
    | none ↦ d
    | some active ↦
        if active == root
        then record {
          page = for_each show_sibling (modal_siblings (levels root)) d.page;
          active_modal_root = none;
        }
        else d
  ]

  unfoldable pub release_other : ℕ → Document → Document
  unfolding release
  release_other root d = elim d.active_modal_root [
    | none ↦ d
    | some active ↦ if active == root then d else release active d
  ]

  unfoldable pub isolate : ℕ → Document → Document
  unfolding for_each modal_siblings
  isolate root d = record {
    page = for_each hide_sibling (modal_siblings (levels root)) d.page;
    active_modal_root = some root;
  }

  unfoldable pub set_modal_isolation : ℕ → Bool → Document → Document
  unfolding release release_other isolate
  set_modal_isolation root true d = isolate root (release_other root d)
  set_modal_isolation root false d = release root d
