-- ===== src/Dom/Tests.antt =====
-- A small document, for the properties of dom.js.
use aetheldesk.Base.{
  ℕ, ◌≡◌, ◌==◌, leb, refl, String, Bool, true, false, Option, none, some, List, [], ◌∷◌,
  if◌then◌else◌, arith,
}
use aetheldesk.Dom.{
  Element, Page, Level, Document, mark_hidden, set_hidden_interaction, set_modal_isolation,
}
use aetheldesk.Dom.Restore.{IsFresh, hide_often, show-hide_often}
use aetheldesk.Dom.Isolation.{open_all, close-open_all}
use aetheldesk.Dom.Trap.{
  Trap, Event, key, tab, shift_tab, moves, activates, focus_initial, activate, handle_all,
}
use aetheldesk.Dom.TrapLaws.{is_in, trapped_focus_inside}

abbrev element : Option String → Element
element tabindex = record {
  tabindex = tabindex;
  aria_hidden = none;
  inert = false;
  interaction_hidden = none;
  original_tab_index = none;
  modal_isolation_hidden = none;
  modal_original_aria_hidden = none;
  modal_original_inert = none;
}

-- Element 2 has a tab index of its own.
abbrev page : Page
page i = if i == 2 then element (some "0") else element none

page-IsFresh : (i : ℕ) → IsFresh (page i)
page-IsFresh i = record {
  not_hidden = ground arith;
  no_index = ground arith;
  not_isolated = ground arith;
  no_aria = ground arith;
  no_inert = ground arith;
  plain_index = ground arith;
  plain_aria = ground arith;
}

show-hide_often_example :
    set_hidden_interaction 1 (2 ∷ 3 ∷ []) false (hide_often 3 1 (2 ∷ 3 ∷ []) page) 2
    ≡ (if 2 == 1 then mark_hidden false (page 2) else page 2)
show-hide_often_example = show-hide_often 2 1 (2 ∷ 3 ∷ []) page page-IsFresh 2

-- The body 0 holds the elements 1 to 4, of which 4 is a script.
abbrev levels : ℕ → List Level
levels i = (i, (1, false) ∷ (2, false) ∷ (3, false) ∷ (4, true) ∷ []) ∷ []

abbrev document : Document
document = record { page = page; active_modal_root = none }

close-open_all_example :
    (set_modal_isolation levels 3 false (open_all levels 3 (3 ∷ 1 ∷ []) document)).page 2 ≡ page 2
close-open_all_example = close-open_all levels 3 (3 ∷ 1 ∷ []) document refl page-IsFresh 2

-- A dialog 10 with two buttons.
abbrev inside : ℕ → Bool
inside i = leb 10 i

abbrev at_page : Trap
at_page = record {
  restore_el = none;
  active = false;
  focused = some 5;
  prevented = false;
  cancels = 0;
}

abbrev history : List Event
history = key tab ∷ moves 3 ∷ key shift_tab ∷ activates ∷ []

trapped_focus_inside_example :
    let opened =
      focus_initial 10 none
        (11 ∷ 12 ∷ [])
        inside
        (activate 10 none (11 ∷ 12 ∷ []) inside at_page) in
    is_in 10 none
      (11 ∷ 12 ∷ [])
      inside
      (handle_all 10 none (11 ∷ 12 ∷ []) inside history opened).focused
    ≡ true
trapped_focus_inside_example =
    trapped_focus_inside 10 none (11 ∷ 12 ∷ []) inside at_page history refl (refl, (refl, tt)) refl
      refl
