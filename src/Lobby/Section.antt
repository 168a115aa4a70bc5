-- ===== src/Lobby/Section.antt =====
-- lobby.js: how the section for a room code unfolds. Heights are in pixels, times in milliseconds; a timer that
-- runs is the time at which it is due.
use aetheldesk.Base.{
  ℕ, ◌+◌, ◌≡◌, refl, Bool, true, false, not, ◌||◌, List, [], ◌∷◌, leb, if◌then◌else◌, arith,
}
use aetheldesk.Int.{ℤ, pos, negsuc}

pub record Section : Type 0 where
  pub code_open : Bool
  pub is_open : Bool
  pub max_height : ℕ
  pub opaque : Bool
  pub takes_pointer : Bool
  pub aria_hidden : Bool
  pub aria_expanded : Bool
  pub input_tab_index : ℤ
  pub button_tab_index : ℤ
  pub focus_timers : List ℕ
  pub input_focused : Bool

unfoldable pub toggle : ℕ → Section → Section
toggle now s =
    let opens : Bool = not s.code_open in
    record s {
      code_open = opens;
      is_open = opens;
      max_height = if opens then 190 else 0;
      opaque = opens;
      takes_pointer = opens;
      aria_hidden = not opens;
      aria_expanded = opens;
      input_tab_index = if opens then pos 0 else negsuc 0;
      button_tab_index = if opens then pos 0 else negsuc 0;
      focus_timers = if opens then (now + 380) ∷ s.focus_timers else s.focus_timers;
    }

abbrev any_due : ℕ → List ℕ → Bool
any_due now [] = false
any_due now (t ∷ ts) = leb t now || any_due now ts

abbrev not_due : ℕ → List ℕ → List ℕ
not_due now [] = []
not_due now (t ∷ ts) = let rest : List ℕ = not_due now ts in if leb t now then rest else t ∷ rest

-- The timers that are due run.
unfoldable pub elapse : ℕ → Section → Section
elapse now s = record s {
  focus_timers = not_due now s.focus_timers;
  input_focused = s.input_focused || any_due now s.focus_timers;
}

-- As the page comes.
abbrev pub closed : Section
closed = record {
  code_open = false;
  is_open = false;
  max_height = 0;
  opaque = false;
  takes_pointer = false;
  aria_hidden = true;
  aria_expanded = false;
  input_tab_index = negsuc 0;
  button_tab_index = negsuc 0;
  focus_timers = [];
  input_focused = false;
}

pub data Call : Type 0 where
  toggles elapses : ℕ → Call

unfoldable pub perform_all : List Call → Section → Section
perform_all [] s = s
perform_all (toggles now ∷ ks) s = perform_all ks (toggle now s)
perform_all (elapses now ∷ ks) s = perform_all ks (elapse now s)

-- What is on display, what the accessibility tree is told and what the keyboard reaches agree.
pub record IsFolded (s : Section) : Type 0 where
  pub shown : s.is_open ≡ s.code_open
  pub height : s.max_height ≡ (if s.code_open then 190 else 0)
  pub pointer : s.takes_pointer ≡ s.opaque
  pub opacity : s.opaque ≡ s.code_open
  pub hidden : s.aria_hidden ≡ not s.code_open
  pub expanded : s.aria_expanded ≡ s.code_open
  pub input : s.input_tab_index ≡ (if s.code_open then pos 0 else negsuc 0)
  pub button : s.button_tab_index ≡ s.input_tab_index

perform_from-IsFolded : (ks : List Call) (s : Section) → IsFolded s → IsFolded (perform_all ks s)
unfolding perform_all toggle elapse
perform_from-IsFolded [] s h = h
perform_from-IsFolded (toggles now ∷ ks) s h = perform_from-IsFolded ks (toggle now s) (record {
  shown = refl;
  height = refl;
  pointer = refl;
  opacity = refl;
  hidden = refl;
  expanded = refl;
  input = refl;
  button = refl;
})
perform_from-IsFolded (elapses now ∷ ks) s h = perform_from-IsFolded ks (elapse now s) (record {
  shown = h.shown;
  height = h.height;
  pointer = h.pointer;
  opacity = h.opacity;
  hidden = h.hidden;
  expanded = h.expanded;
  input = h.input;
  button = h.button;
})

-- However often the section is toggled, and whatever timers have run, its looks, its place in the
-- accessibility tree and the tab order say the same of it.
pub perform_all-IsFolded : (ks : List Call) → IsFolded (perform_all ks closed)
perform_all-IsFolded ks = perform_from-IsFolded ks closed (ground arith)
