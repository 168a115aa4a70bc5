-- ===== src/Panels/Modal.antt =====
-- display-settings.js, scene-picker.js, app.js: which dialog is the modal one.
use aetheldesk.Base.{true, false, not, none, some, List, [], ◌∷◌, ◌≡◌, ◌⊎◌, arith, if_intro, ◌||◌}
use aetheldesk.Panels.{
  Dialog, display_panel, scene_panel, exit_confirm, room_auth, same_dialog, Dialogs, is_shown,
  close, hear, panel_opens, open_dialog, click_display, click_scene, click_exit, show_auth,
  hide_auth, Event, display_button, scene_button, exit_button, closes, auth_shows, auth_hides,
  handle, handle_all,
}

-- The three dialogs that listen to each other.
pub record IsModal (d : Dialogs) : Type 0 where
  pub display : (d.display_shown ≡ false) ⊎ (d.modal_root ≡ some display_panel)
  pub scene : (d.scene_shown ≡ false) ⊎ (d.modal_root ≡ some scene_panel)
  pub exit : (d.exit_shown ≡ false) ⊎ (d.modal_root ≡ some exit_confirm)
  pub bar : d.action_bar ≡ not d.exit_shown

close-IsModal : (p : Dialog) (d : Dialogs) → IsModal d → IsModal (close p d)
unfolding close same_dialog
close-IsModal p d h = record {
  display = ground (h.display, arith);
  scene = ground (h.scene, arith);
  exit = ground (h.exit, arith);
  bar = ground (h.bar, arith);
}

open-IsModal : (p : Dialog) (d : Dialogs) → IsModal d → IsModal (open_dialog p d)
unfolding open_dialog panel_opens hear close same_dialog
open-IsModal p d h = record {
  display = ground arith;
  scene = ground arith;
  exit = ground arith;
  bar = ground (h.bar, arith);
}

handle-IsModal : (e : Event) (d : Dialogs) → IsModal d → IsModal (handle e d)
unfolding handle click_display click_scene click_exit show_auth hide_auth
handle-IsModal display_button d h =
    if_intro (λ (x : Dialogs). IsModal x) d.display_shown (λ _. close-IsModal display_panel d h)
      (λ _. open-IsModal display_panel d h)
handle-IsModal scene_button d h =
    if_intro (λ (x : Dialogs). IsModal x) d.scene_shown (λ _. close-IsModal scene_panel d h)
      (λ _. open-IsModal scene_panel d h)
handle-IsModal (exit_button active) d h =
    if_intro (λ (x : Dialogs). IsModal x) active (λ _. open-IsModal exit_confirm d h) (λ _. h)
handle-IsModal (closes p) d h = close-IsModal p d h
handle-IsModal auth_shows d h = open-IsModal room_auth d h
handle-IsModal auth_hides d h = close-IsModal room_auth d h

-- From a page on which each of the settings, the scene picker and the confirmation is hidden or the
-- modal root, any clicks, Escapes, choices and connections lead to such a page: at most one of the
-- three is ever shown, and the action bar is away exactly while the confirmation is shown.
pub handle_all-IsModal : (es : List Event) (d : Dialogs) → IsModal d → IsModal (handle_all es d)
unfolding handle_all
handle_all-IsModal [] d h = h
handle_all-IsModal (e ∷ es) d h = handle_all-IsModal es (handle e d) (handle-IsModal e d h)

-- Whatever is shown, opening a dialog hides the other two of the three, marks the body and makes that
-- dialog the modal root; closing it again leaves none of the three shown but itself hidden, no modal
-- root, no mark on the body and the action bar in place.
pub close-open_dialog :
    (p : Dialog) (d : Dialogs)
    → IsModal d
    → let opened = open_dialog p d in
      let after = close p opened in
      (is_shown p opened ≡ true)
      × (opened.panel_open ≡ true)
      × (opened.modal_root ≡ some p)
      × (after.display_shown || after.scene_shown || after.exit_shown ≡ false)
      × (after.modal_root ≡ none)
      × (after.panel_open ≡ false)
      × (after.action_bar ≡ true)
unfolding open_dialog panel_opens hear close same_dialog
close-open_dialog p d h = ground (h.bar, arith)
