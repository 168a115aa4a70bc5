-- ===== src/Panels/Tests.antt =====
-- Dialogs that are opened one over another.
use aetheldesk.Base.{inl, refl, true, [], ◌∷◌}
use aetheldesk.Panels.{
  display_button, scene_button, exit_button, closes, auth_hides, exit_confirm, handle_all, closed,
}
use aetheldesk.Panels.Modal.{IsModal, handle_all-IsModal}

closed-IsModal : IsModal closed
closed-IsModal = record { display = inl refl; scene = inl refl; exit = inl refl; bar = refl }

handle_all-IsModal_example : IsModal (
    handle_all
      (display_button ∷ scene_button ∷ auth_hides ∷ exit_button true ∷ closes exit_confirm ∷ [])
      closed)
handle_all-IsModal_example =
    handle_all-IsModal
      (display_button ∷ scene_button ∷ auth_hides ∷ exit_button true ∷ closes exit_confirm ∷ [])
      closed closed-IsModal
