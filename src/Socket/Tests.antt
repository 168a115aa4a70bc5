-- ===== src/Socket/Tests.antt =====
-- A page in the room AB12, for the properties of room-websocket.js.
use aetheldesk.Base.{
  ℕ, ◌+◌, ◌≡◌, refl, true, false, none, some, [], ◌∷◌, str_eq, if◌then◌else◌, ◌==◌,
}
use aetheldesk.Storage.{Browser, read_room_token, token_storage_key}
use aetheldesk.Socket.{
  Client, Page, snapshot, connects, opens, receives, closes, step, run, new_client, retry_delay,
  pin_needed, show, connect,
}
use aetheldesk.Socket.Stale.{close_refused}
use aetheldesk.Socket.Snapshots.{Marked, Below, run-Marked}
use aetheldesk.Socket.Backoff.{IsRetrying, lose, outages, outages_retry}

-- The room's state is the number of snapshots that `onState` took; it throws at the number 13.
abbrev page : Page ℕ ℕ
page = record {
  room_id = "AB12";
  encode = λ token. token;
  protocol = "https:";
  host = "desk.example";
  handle = λ d g first n. if d == 13 then (n, false) else (n + 1, true);
}

abbrev member : Browser
member = record {
  local = λ _. none;
  session = λ k. if str_eq k "room_token:AB12" then some "secret" else none;
}

abbrev joined : Client ℕ
joined = step page connects (new_client member 0)

run-Marked_example :
    let c =
      run page
        (connects
          ∷ opens 1
          ∷ receives 1 (snapshot 13)
          ∷ receives 1 (snapshot 4)
          ∷ receives 1 (snapshot 5)
          ∷ [])
        (new_client member 0) in
    Marked c.delivered × Below c.connection_generation c.delivered
run-Marked_example = run-Marked page member 0 (
    connects
    ∷ opens 1
    ∷ receives 1 (snapshot 13)
    ∷ receives 1 (snapshot 4)
    ∷ receives 1 (snapshot 5)
    ∷ [])

joined_first : joined.ws ≡ some 1
unfolding step connect read_room_token token_storage_key
joined_first = refl

close_refused_example :
    let after = step page (closes 1 1008) joined in
    (read_room_token page.room_id after.browser ≡ none)
    × (after.reconnect_timer ≡ none)
    × (after.status ≡ pin_needed)
    × (after.auth ≡ show "입장할 수 없습니다" ∷ joined.auth)
    × (after.dot_visible ≡ false)
    × ((step page connects after).urls ≡ joined.urls)
    × ((step page connects after).connection_generation ≡ joined.connection_generation)
close_refused_example = close_refused page 1 joined joined_first

joined-IsRetrying : IsRetrying page "secret" 0 1 joined
unfolding step connect read_room_token token_storage_key
joined-IsRetrying = record { attempted = refl; generated = refl; in_use = refl; entered = refl }

outages_retry_example :
    let c = outages page 6 joined in
    (c.connection_generation ≡ 1 + 6)
    × (c.ws ≡ some (1 + 6))
    × ((lose page c).reconnect_timer ≡ some (retry_delay (0 + 6)))
outages_retry_example = outages_retry page "secret" 6 0 1 joined refl joined-IsRetrying
