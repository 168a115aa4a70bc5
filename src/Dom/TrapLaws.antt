-- ===== src/Dom/TrapLaws.antt =====
-- dom.js: where the focus is while a trap is active, and after it.
use aetheldesk.Base.{
  ℕ, Bool, true, false, Option, none, some, List, [], ◌∷◌, ◌≡◌, arith, if_intro, All, get_or, head?,
  ◌∙◌,
}
use aetheldesk.Dom.Trap.{
  escape, tab, shift_tab, other_key, Trap, last_or, focus_initial, on_tab, on_key_down, on_focus_in,
  activate, deactivate, Event, key, moves, initial_focus, activates, handle, handle_all,
}

start_of :
    (dialog : ℕ) (inside : ℕ → Bool) (initial : Option ℕ) (items : List ℕ)
    → inside dialog ≡ true
    → All (λ i. inside i ≡ true) items
    → inside (get_or initial dialog) ≡ true
    → inside (get_or initial (get_or (head? items) dialog)) ≡ true
start_of dialog inside none [] d hs q = d
start_of dialog inside none (i ∷ is) d (h, hs) q = h
start_of dialog inside (some i) items d hs q = q

module _ (dialog : ℕ) (initial : Option ℕ) (items : List ℕ) (inside : ℕ → Bool) where
  -- What `deactivate` will give back, and that it will.
  record Holds (before : Option ℕ) (t : Trap) : Type 0 where
    is_active : t.active ≡ true
    gives : t.restore_el ≡ before

  on_tab-Holds :
      (before : Option ℕ) (shift : Bool) (is : List ℕ) (t : Trap)
      → Holds before t
      → Holds before (on_tab dialog initial items inside shift is t)
  unfolding on_tab
  on_tab-Holds before shift [] t h = record { is_active = h.is_active; gives = h.gives }
  on_tab-Holds before shift (i ∷ is) t h = record {
    is_active = ground (h.is_active, arith);
    gives = ground (h.gives, arith);
  }

  handle-Holds :
      (before : Option ℕ) (e : Event) (t : Trap)
      → Holds before t
      → Holds before (handle dialog initial items inside e t)
  unfolding handle on_key_down on_focus_in activate focus_initial
  handle-Holds before (key escape) t h = record { is_active = h.is_active; gives = h.gives }
  handle-Holds before (key tab) t h = on_tab-Holds before false items t h
  handle-Holds before (key shift_tab) t h = on_tab-Holds before true items t h
  handle-Holds before (key other_key) t h = h
  handle-Holds before (moves target) t h = record {
    is_active = ground (h.is_active, arith);
    gives = ground (h.gives, arith);
  }
  handle-Holds before initial_focus t h = record { is_active = h.is_active; gives = h.gives }
  handle-Holds before activates t h = record {
    is_active = ground (h.is_active, arith);
    gives = ground (h.is_active, h.gives, arith);
  }

  handle_all-Holds :
      (before : Option ℕ) (es : List Event) (t : Trap)
      → Holds before t
      → Holds before (handle_all dialog initial items inside es t)
  unfolding handle_all
  handle_all-Holds before [] t h = h
  handle_all-Holds before (e ∷ es) t h =
      handle_all-Holds before es (handle dialog initial items inside e t)
        (handle-Holds before e t h)

  activate-Holds :
      (t : Trap) → t.active ≡ false → Holds t.focused (activate dialog initial items inside t)
  unfolding activate
  activate-Holds t h = record { is_active = ground (h, arith); gives = ground (h, arith) }

  -- Closing a trap gives the focus back to the element that had it when the trap was activated, where
  -- the document still has that element, whatever keys, focus moves and further activations came in
  -- between.
  pub deactivate-activate :
      (f : ℕ) (t : Trap) (es : List Event) (document : ℕ → Bool)
      → t.active ≡ false
      → t.focused ≡ some f
      → document f ≡ true
      → let after =
          handle_all dialog initial items inside es (activate dialog initial items inside t) in
        let closed = deactivate dialog initial items inside true document after in
        (closed.focused ≡ some f) × (closed.active ≡ false)
  unfolding deactivate
  deactivate-activate f t es document idle focused here =
      let after : Trap =
        handle_all dialog initial items inside es (activate dialog initial items inside t) in
      let h =
        handle_all-Holds t.focused es (activate dialog initial items inside t)
          (activate-Holds t idle) in
      let gives : after.restore_el ≡ some f = h.gives ∙ focused in
      ground (h.is_active, gives, here, arith)

  unfoldable pub is_in : Option ℕ → Bool
  is_in none = false
  is_in (some f) = inside f

  abbrev pub IsIn : Trap → Type 0
  IsIn t = is_in t.focused ≡ true

  abbrev pub AllInside : List ℕ → Type 0
  AllInside = All (λ i. inside i ≡ true)

  last_or-inside :
      (i : ℕ) (is : List ℕ) → inside i ≡ true → AllInside is → inside (last_or i is) ≡ true
  last_or-inside i [] h hs = h
  last_or-inside i (j ∷ js) h (q, qs) = last_or-inside j js q qs

  on_tab-IsIn :
      (shift : Bool) (is : List ℕ) (t : Trap)
      → inside dialog ≡ true
      → AllInside is
      → IsIn t
      → IsIn (on_tab dialog initial items inside shift is t)
  unfolding on_tab is_in
  on_tab-IsIn shift [] t d hs h = d
  on_tab-IsIn shift (i ∷ is) t d (q, qs) h = ground (last_or-inside i is q qs, q, h, arith)

  start_inside :
      inside dialog ≡ true
      → AllInside items
      → inside (get_or initial dialog) ≡ true
      → inside (get_or initial (get_or (head? items) dialog)) ≡ true
  start_inside d hs q = start_of dialog inside initial items d hs q

  focus_initial-IsIn :
      (t : Trap)
      → inside (get_or initial (get_or (head? items) dialog)) ≡ true
      → IsIn (focus_initial dialog initial items inside t)
  unfolding focus_initial is_in
  focus_initial-IsIn t h = h

  moves-IsIn :
      (target : ℕ) (t : Trap)
      → inside (get_or initial (get_or (head? items) dialog)) ≡ true
      → t.active ≡ true
      → IsIn (on_focus_in dialog initial items inside target t)
  unfolding on_focus_in focus_initial is_in
  moves-IsIn target t q a = ground (q, a, arith)

  handle-IsIn :
      (before : Option ℕ) (e : Event) (t : Trap)
      → inside dialog ≡ true
      → AllInside items
      → inside (get_or initial (get_or (head? items) dialog)) ≡ true
      → Holds before t
      → IsIn t
      → IsIn (handle dialog initial items inside e t)
  unfolding handle on_key_down activate
  handle-IsIn before (key escape) t d hs q a h = h
  handle-IsIn before (key tab) t d hs q a h = on_tab-IsIn false items t d hs h
  handle-IsIn before (key shift_tab) t d hs q a h = on_tab-IsIn true items t d hs h
  handle-IsIn before (key other_key) t d hs q a h = h
  handle-IsIn before (moves target) t d hs q a h = moves-IsIn target t q a.is_active
  handle-IsIn before initial_focus t d hs q a h = focus_initial-IsIn t q
  handle-IsIn before activates t d hs q a h = if_intro IsIn _ (λ _. h) (λ _. h)

  all-IsIn :
      (before : Option ℕ) (es : List Event) (t : Trap)
      → inside dialog ≡ true
      → AllInside items
      → inside (get_or initial (get_or (head? items) dialog)) ≡ true
      → Holds before t
      → IsIn t
      → IsIn (handle_all dialog initial items inside es t)
  unfolding handle_all
  all-IsIn before [] t d hs q a h = h
  all-IsIn before (e ∷ es) t d hs q a h =
      all-IsIn before es (handle dialog initial items inside e t) d hs q (handle-Holds before e t a)
        (handle-IsIn before e t d hs q a h)

  -- From the initial focus of an activated trap on, the focus is in the dialog after any keys, focus
  -- moves and further activations, where the dialog, its focusable elements and the chosen first
  -- element are in the dialog.
  pub trapped_focus_inside :
      (t : Trap) (es : List Event)
      → inside dialog ≡ true
      → AllInside items
      → inside (get_or initial dialog) ≡ true
      → t.active ≡ false
      → let opened =
          focus_initial dialog initial items inside (activate dialog initial items inside t) in
        is_in (handle_all dialog initial items inside es opened).focused ≡ true
  unfolding focus_initial handle
  trapped_focus_inside t es d hs q idle =
      let a = activate-Holds t idle in
      let s = start_inside d hs q in
      all-IsIn t.focused es
        (focus_initial dialog initial items inside (activate dialog initial items inside t)) d hs s
        (handle-Holds t.focused initial_focus (activate dialog initial items inside t) a)
        (focus_initial-IsIn (activate dialog initial items inside t) s)
