-- ===== src/RestRitual/Panel.antt =====
-- The document's part of `createRestRitual`: the panel and its two groups (whose `hidden` flag is
-- always written with their `inert` flag), the phase and progress that the style sheet reads, the
-- stars, the pressed buttons, the status line and where the keyboard focus is. A wording is a
-- constructor with the values that it is filled with.
use aetheldesk.Base.{
  ℕ, zero, suc, ◌+◌, ◌/◌, String, Bool, true, false, ◌&&◌, ◌||◌, Option, none, some, List, [], ◌∷◌,
  map, ltb, ◌==◌, str_eq, if◌then◌else◌, get_or,
}
use aetheldesk.Js.{truthy}
use aetheldesk.RestRitual.{RestPhase, inactive, reveal, restore, returning, Snapshot, Model}

-- phaseCopy
pub data Copy : Type 0 where
  no_copy : Copy
  completed : ℕ → ℕ → ℕ → Copy
  come_back : Copy
  recovering : Copy

pub data Live : Type 0 where
  silent : Live
  recovery_chosen intent_saved : String → Live
  recovery_cleared intent_cleared : Live
  focus_completed : ℕ → Live
  one_minute_left : Live

-- document.activeElement, as far as the panel asks for it
pub data Focus : Type 0 where
  recovery_button intent_button : ℕ → Focus
  rest_title pause_button focus_button elsewhere : Focus

abbrev pub in_recovery : Focus → Bool
in_recovery (recovery_button _) = true
in_recovery _ = false

abbrev pub in_intent : Focus → Bool
in_intent (intent_button _) = true
in_intent _ = false

abbrev pub in_root : Focus → Bool
in_root rest_title = true
in_root f = in_recovery f || in_intent f

pub record View : Type 0 where
  pub phase : RestPhase
  pub shown_progress : ℕ
  pub root_hidden : Bool
  pub recovery_hidden : Bool
  pub intent_hidden : Bool
  pub copy : Copy
  pub cycle_label : ℕ × ℕ
  pub stars : List Bool
  pub recovery_pressed : List Bool
  pub intent_pressed : List Bool
  pub screen_away : Option String
  pub next_intent : String
  pub live : Live
  pub focus : Focus

-- The buttons of the page, by their data attributes, and its number of stars.
pub record Page : Type 0 where
  pub recovery_buttons : List String
  pub intent_buttons : List String
  pub star_count : ℕ

abbrev pub same_id : Option ℕ → Option ℕ → Bool
same_id none none = true
same_id (some a) (some b) = a == b
same_id _ _ = false

abbrev pub same_choice : Option String → String → Bool
same_choice none v = false
same_choice (some s) v = str_eq s v

abbrev phase_number : RestPhase → ℕ
phase_number inactive = 0
phase_number reveal = 1
phase_number restore = 2
phase_number returning = 3

abbrev pub same_phase : RestPhase → RestPhase → Bool
same_phase a b = phase_number a == phase_number b

-- the first `earned` of `n` stars, from the star at `i`
unfoldable pub stars_from : ℕ → ℕ → ℕ → List Bool
stars_from zero i earned = []
stars_from (suc n) i earned = ltb i earned ∷ stars_from n (i + 1) earned

unfoldable pub phase_copy : RestPhase → Model → Copy
phase_copy reveal m = completed m.focus_minutes m.cycle_progress ((m.break_duration + 30) / 60)
phase_copy returning m = come_back
phase_copy _ m = recovering

unfoldable pub render_recovery_selection : Page → Option String → View → View
render_recovery_selection p selected v = record v {
  recovery_pressed = map (same_choice selected) p.recovery_buttons;
  screen_away = selected;
}

unfoldable pub render_intent_selection : Page → Option String → View → View
render_intent_selection p selected v = record v {
  intent_pressed = map (same_choice selected) p.intent_buttons;
  next_intent = get_or selected "none";
}

-- focusBeforeHide
abbrev focus_before_hide : (Focus → Bool) → Focus → Focus → Focus
focus_before_hide contains fallback f = if contains f then fallback else f

unfoldable pub hide_recovery : Focus → View → View
hide_recovery fallback v = record v {
  focus = focus_before_hide in_recovery fallback v.focus;
  recovery_hidden = true;
}

unfoldable pub hide_intent : Focus → View → View
hide_intent fallback v = record v {
  focus = focus_before_hide in_intent fallback v.focus;
  intent_hidden = true;
}

abbrev first_or_title : List String → Focus → Focus
first_or_title [] button = rest_title
first_or_title (_ ∷ _) button = button

unfoldable pub render_idle : Snapshot → View → View
unfolding hide_recovery hide_intent
render_idle s v =
    let left : View = record v {
      focus =
          focus_before_hide in_root (if truthy s.focus then pause_button else focus_button) v.focus;
      root_hidden = true;
    } in
    hide_intent rest_title (hide_recovery rest_title left)

unfoldable pub render_groups : Page → RestPhase → View → View
unfolding hide_recovery hide_intent
render_groups p returning v =
    hide_recovery (first_or_title p.intent_buttons (intent_button 0))
      (record v { intent_hidden = false })
render_groups p _ v =
    hide_intent (first_or_title p.recovery_buttons (recovery_button 0))
      (record v { recovery_hidden = false })

unfoldable pub render_break : Page → Model → RestPhase → Option String → Option String → View → View
unfolding render_groups phase_copy render_recovery_selection render_intent_selection
render_break p m phase recovery intent v = render_intent_selection p intent (
    render_recovery_selection p recovery (
      render_groups p phase (record v {
        root_hidden = false;
        copy = phase_copy phase m;
        cycle_label = (m.cycle_progress, m.sessions_done);
        stars = stars_from p.star_count 0 m.cycle_progress;
      })))

unfoldable pub announce : Bool → Bool → Bool → RestPhase → ℕ → Live → Live
announce is_break reveals phase_changed phase progress old =
    if is_break && reveals
    then focus_completed progress
    else if is_break && phase_changed && same_phase phase returning
    then one_minute_left
    else old
