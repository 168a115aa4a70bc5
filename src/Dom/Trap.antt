-- ===== src/Dom/Trap.antt =====
-- dom.js: `createFocusTrap`. Elements are numbers; `focused` is document.activeElement where that is
-- an HTML element.
use aetheldesk.Base.{
  ℕ, suc, Bool, true, false, not, ◌&&◌, Option, none, some, List, [], ◌∷◌, ◌==◌, if◌then◌else◌,
  head?, get_or,
}

pub data Key : Type 0 where
  escape tab shift_tab other_key : Key

pub record Trap : Type 0 where
  pub restore_el : Option ℕ
  pub active : Bool
  pub focused : Option ℕ
  pub prevented : Bool
  pub cancels : ℕ

-- What may happen to an active trap.
pub data Event : Type 0 where
  key : Key → Event
  moves : ℕ → Event
  initial_focus : Event
  activates : Event

abbrev pub focus : ℕ → Trap → Trap
focus e t = record t { focused = some e }

abbrev pub same_element : Option ℕ → ℕ → Bool
same_element none e = false
same_element (some f) e = f == e

abbrev pub last_or : ℕ → List ℕ → ℕ
last_or a [] = a
last_or a (b ∷ bs) = last_or b bs

abbrev pub wrap_tab : Bool → ℕ → ℕ → Trap → Trap
wrap_tab shift first last t =
    if shift && same_element t.focused first
    then focus last (record t { prevented = true })
    else if not shift && same_element t.focused last
    then focus first (record t { prevented = true })
    else t

-- `items` are the focusable elements of the dialog, `initial` is the chosen one, `inside` says what
-- the dialog contains.
module _ (dialog : ℕ) (initial : Option ℕ) (items : List ℕ) (inside : ℕ → Bool) where
  unfoldable pub focus_initial : Trap → Trap
  focus_initial = focus (get_or initial (get_or (head? items) dialog))

  unfoldable pub on_tab : Bool → List ℕ → Trap → Trap
  on_tab shift [] t = focus dialog (record t { prevented = true })
  on_tab shift (first ∷ rest) t = wrap_tab shift first (last_or first rest) t

  unfoldable pub on_key_down : Key → Trap → Trap
  unfolding on_tab
  on_key_down escape t = record t { prevented = true; cancels = suc t.cancels }
  on_key_down tab t = on_tab false items t
  on_key_down shift_tab t = on_tab true items t
  on_key_down other_key t = t

  -- focusin: the browser has moved the focus to `target`.
  unfoldable pub on_focus_in : ℕ → Trap → Trap
  unfolding focus_initial
  on_focus_in target t =
      let moved : Trap = focus target t in
      if t.active && not (inside target) then focus_initial moved else moved

  unfoldable pub activate : Trap → Trap
  activate t = if t.active then t else record t { active = true; restore_el = t.focused }

  -- `document` says which elements the document still has.
  unfoldable pub deactivate : Bool → (ℕ → Bool) → Trap → Trap
  deactivate restore document t = if not t.active then t else record t {
    active = false;
    restore_el = none;
    focused = elim t.restore_el [
      | none ↦ t.focused
      | some e ↦ if restore && document e then some e else t.focused
    ];
  }

  unfoldable pub handle : Event → Trap → Trap
  unfolding on_key_down on_focus_in activate
  handle (key k) t = on_key_down k t
  handle (moves target) t = on_focus_in target t
  handle initial_focus t = focus_initial t
  handle activates t = activate t

  unfoldable pub handle_all : List Event → Trap → Trap
  unfolding handle
  handle_all [] t = t
  handle_all (e ∷ es) t = handle_all es (handle e t)
