-- ===== src/Socket/Stale.antt =====
-- Sockets that have been replaced, and rooms that refuse the token.
use aetheldesk.Base.{◌∷◌, false, ℕ, ◌≡◌, ◌≢◌, none, some, arith, eq_refl}
use aetheldesk.Storage.{read_room_token}
use aetheldesk.Storage.Laws.{read-clear_room_token}
use aetheldesk.Socket.{
  Client, Page, Payload, opens, receives, closes, connects, step, connect, pin_needed, show,
}

module _ {S D : Type 0} (page : Page S D) (g : ℕ) (c : Client S) where
  -- The opening, a message and the closing of a socket that has been replaced change nothing.
  pub step_stale :
      c.ws ≢ some g
      → (code : ℕ) (p : Payload D)
      → (step page (opens g) c ≡ c)
        × (step page (receives g p) c ≡ c)
        × (step page (closes g code) c ≡ c)
  unfolding step
  step_stale h code Payload.unreadable = ground arith
  step_stale h code _ = ground arith

  -- When the room refuses the token, the token is gone, no attempt to reconnect is scheduled, the prompt
  -- for the PIN is shown with the refusal, and a further `connect` opens no socket.
  pub close_refused :
      c.ws ≡ some g
      → let after = step page (closes g 1008) c in
        (read_room_token page.room_id after.browser ≡ none)
        × (after.reconnect_timer ≡ none)
        × (after.status ≡ pin_needed)
        × (after.auth ≡ show "입장할 수 없습니다" ∷ c.auth)
        × (after.dot_visible ≡ false)
        × ((step page connects after).urls ≡ c.urls)
        × ((step page connects after).connection_generation ≡ c.connection_generation)
  unfolding step connect
  close_refused h =
      ground
        (arith, read-clear_room_token page.room_id page.room_id c.browser, eq_refl page.room_id)
