-- ===== src/Panels.antt =====
-- The dialogs of the room page: frontend/src/display-settings.js, frontend/src/scene-picker.js, the
-- confirmation of frontend/app.js and the PIN prompt of frontend/src/room-auth.js. They share the
-- class "panel-open" of the body, the modal root of dom.js and the event "aethel:panel-open", which
-- each sends when it opens. What the dialogs show inside is left out here.
pub mod Modal
mod Tests
use aetheldesk.Base.{
  ℕ, Bool, true, false, not, ◌&&◌, ◌||◌, Option, none, some, List, [], ◌∷◌, if◌then◌else◌,
}

pub data Dialog : Type 0 where
  display_panel scene_panel exit_confirm room_auth : Dialog

unfoldable pub same_dialog : Dialog → Dialog → Bool
same_dialog display_panel display_panel = true
same_dialog scene_panel scene_panel = true
same_dialog exit_confirm exit_confirm = true
same_dialog room_auth room_auth = true
same_dialog _ _ = false

pub record Dialogs : Type 0 where
  pub display_shown : Bool
  pub scene_shown : Bool
  pub exit_shown : Bool
  pub auth_shown : Bool
  pub panel_open : Bool
  pub modal_root : Option Dialog
  pub action_bar : Bool

abbrev pub is_shown : Dialog → Dialogs → Bool
is_shown display_panel d = d.display_shown
is_shown scene_panel d = d.scene_shown
is_shown exit_confirm d = d.exit_shown
is_shown room_auth d = d.auth_shown

abbrev pub show_dialog : Dialog → Bool → Dialogs → Dialogs
show_dialog display_panel shown d = record d { display_shown = shown }
show_dialog scene_panel shown d = record d { scene_shown = shown }
show_dialog exit_confirm shown d = record d { exit_shown = shown; action_bar = not shown }
show_dialog room_auth shown d = record d { auth_shown = shown }

-- setModalIsolation(root, false) and (root, true), as far as `activeModalRoot` goes.
abbrev pub without_modal : Dialog → Option Dialog → Option Dialog
without_modal p none = none
without_modal p (some q) = if same_dialog q p then none else some q

-- `close` of the two panels, `closeExitConfirm` and `hide` of the prompt.
unfoldable pub close : Dialog → Dialogs → Dialogs
unfolding same_dialog
close p d =
    show_dialog p false (record d { modal_root = without_modal p d.modal_root; panel_open = false })

-- One listener of "aethel:panel-open"; the prompt does not listen.
unfoldable pub hear : Dialog → Dialog → Dialogs → Dialogs
unfolding close
hear opened listener d =
    if not (same_dialog opened listener) && is_shown listener d then close listener d else d

unfoldable pub panel_opens : Dialog → Dialogs → Dialogs
unfolding hear
panel_opens p d = hear p exit_confirm (hear p scene_panel (hear p display_panel d))

-- `open` of the two panels, `openExitConfirm` and `show` of the prompt.
unfoldable pub open_dialog : Dialog → Dialogs → Dialogs
unfolding panel_opens
open_dialog p d =
    let alone : Dialogs = panel_opens p d in
    show_dialog p true (record alone { panel_open = true; modal_root = some p })

pub data Event : Type 0 where
  -- the buttons "화면" and "장면"
  display_button scene_button : Event
  -- the button that leaves, and whether a session runs
  exit_button : Bool → Event
  -- Escape, a close button, a choice that was made, "no"
  closes : Dialog → Event
  -- `auth.show` and `auth.hide`, which every `connect` calls
  auth_shows auth_hides : Event

-- display-settings.js: the button, with `open` and `close`
unfoldable pub click_display : Dialogs → Dialogs
unfolding open_dialog close
click_display d = if d.display_shown then close display_panel d else open_dialog display_panel d

-- scene-picker.js: the button, with `open` and `close`
unfoldable pub click_scene : Dialogs → Dialogs
unfolding open_dialog close
click_scene d = if d.scene_shown then close scene_panel d else open_dialog scene_panel d

-- app.js: the button that leaves; without a session the page is left.
unfoldable pub click_exit : Bool → Dialogs → Dialogs
unfolding open_dialog
click_exit active d = if active then open_dialog exit_confirm d else d

-- room-auth.js: `show` and `hide`
unfoldable pub show_auth : Dialogs → Dialogs
unfolding open_dialog
show_auth = open_dialog room_auth

unfoldable pub hide_auth : Dialogs → Dialogs
unfolding close
hide_auth = close room_auth

unfoldable pub handle : Event → Dialogs → Dialogs
unfolding click_display click_scene click_exit show_auth hide_auth close
handle display_button d = click_display d
handle scene_button d = click_scene d
handle (exit_button active) d = click_exit active d
handle (closes p) d = close p d
handle auth_shows d = show_auth d
handle auth_hides d = hide_auth d

unfoldable pub handle_all : List Event → Dialogs → Dialogs
unfolding handle
handle_all [] d = d
handle_all (e ∷ es) d = handle_all es (handle e d)

abbrev pub closed : Dialogs
closed = record {
  display_shown = false;
  scene_shown = false;
  exit_shown = false;
  auth_shown = false;
  panel_open = false;
  modal_root = none;
  action_bar = true;
}
