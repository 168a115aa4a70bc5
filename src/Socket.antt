-- ===== src/Socket.antt =====
-- frontend/src/room-websocket.js, with the `auth` object that frontend/app.js hands to it: the
-- connection of one page. A socket is known by the number of its generation. The token lives in
-- session storage. What the browser reports is an `Event`; an event may come from a socket that has
-- been replaced. `handle` stands for `onState`, and says whether it threw.
pub mod Stale
pub mod Snapshots
pub mod Backoff
mod Tests
use Prim.Native.String.{◌++◌}
use aetheldesk.Base.{
  ℕ, ◌+◌, ◌*◌, ◌^◌, min, String, Bool, true, false, not, Option, none, some, List, [], ◌∷◌, ◌==◌,
  ◌&&◌, str_eq, if◌then◌else◌,
}
use aetheldesk.Storage.{Browser, read_room_token, clear_room_token}

-- The texts of `connStatus` and `connCopy`, which are always written in pairs.
pub data Status : Type 0 where
  initial pin_needed connecting connected reconnecting : Status

pub data AuthCall : Type 0 where
  show : String → AuthCall
  hide : AuthCall

-- A call of `onState`: for which socket, with which `firstSnapshot`, and whether it returned.
pub record Delivery : Type 0 where
  pub generation : ℕ
  pub first : Bool
  pub returned : Bool

pub record Client (S : Type 0) : Type 0 where
  pub browser : Browser
  pub ws : Option ℕ
  pub reconnect_attempt : ℕ
  pub reconnect_timer : Option ℕ
  pub connection_generation : ℕ
  pub first_snapshot : ℕ → Bool
  pub dot_visible : Bool
  pub status : Status
  pub auth : List AuthCall
  pub urls : List String
  pub sent : List String
  pub closing : List ℕ
  pub delivered : List Delivery
  pub room : S

-- `event.data` of a message: no JSON, JSON without a `data` field, or a snapshot.
pub data Payload (D : Type 0) : Type 0 where
  unreadable empty : Payload D
  snapshot : D → Payload D

pub data Event (D : Type 0) : Type 0 where
  connects reconnects clears timer_fires : Event D
  opens fails : ℕ → Event D
  receives : ℕ → Payload D → Event D
  closes : ℕ → ℕ → Event D
  sends : String → Bool → Event D

-- Math.min(30000, 1000 * 2 ** attempt)
unfoldable pub retry_delay : ℕ → ℕ
retry_delay attempt = min 30000 (1000 * 2 ^ attempt)

abbrev pub same_socket : Option ℕ → ℕ → Bool
same_socket none g = false
same_socket (some w) g = w == g

-- wsUrl; `encode` is encodeURIComponent
unfoldable pub ws_url : (String → String) → String → String → String → String → String
ws_url encode protocol host room_id token =
    (if str_eq protocol "https:" then "wss" else "ws")
    ++ "://"
    ++ host
    ++ "/ws/"
    ++ room_id
    ++ "?token="
    ++ encode token

module _ {S : Type 0} where
  unfoldable pub clear_reconnect : Client S → Client S
  clear_reconnect c = record c { reconnect_timer = none }

  -- `auth.show` as app.js wraps it
  unfoldable pub auth_show : String → Client S → Client S
  unfolding clear_reconnect
  auth_show message c =
      let cleared : Client S = clear_reconnect c in
      record cleared { dot_visible = false; status = pin_needed; auth = show message ∷ c.auth }

  unfoldable pub send : String → Bool → Client S → Client S
  send msg is_open c = elim c.ws [
    | none ↦ c
    | some _ ↦ if is_open then record c { sent = msg ∷ c.sent } else c
  ]

-- The page: its room, its address, and what a snapshot does to the rest of the page.
pub record Page (S D : Type 0) : Type 0 where
  pub room_id : String
  pub encode : String → String
  pub protocol : String
  pub host : String
  pub handle : D → ℕ → Bool → S → S × Bool

module _ {S D : Type 0} (page : Page S D) where
  unfoldable pub open_socket : String → Client S → Client S
  open_socket token c =
      let generation : ℕ = c.connection_generation + 1 in
      record c {
        auth = hide ∷ c.auth;
        status = connecting;
        connection_generation = generation;
        first_snapshot = λ g. if g == generation then true else c.first_snapshot g;
        ws = some generation;
        urls = ws_url page.encode page.protocol page.host page.room_id token ∷ c.urls;
      }

  -- An empty token counts as missing.
  unfoldable pub connect : Client S → Client S
  unfolding open_socket auth_show
  connect c = elim (read_room_token page.room_id c.browser) [
    | none ↦ auth_show "" (record c { status = pin_needed })
    | some token ↦
        if str_eq token ""
        then auth_show "" (record c { status = pin_needed })
        else open_socket token c
  ]

  unfoldable pub reconnect_now : Client S → Client S
  reconnect_now c = connect (record c { reconnect_attempt = 0 })

  unfoldable pub on_open : ℕ → Client S → Client S
  on_open g c =
      if same_socket c.ws g
      then record c { reconnect_attempt = 0; dot_visible = true; status = connected }
      else c

  -- `firstSnapshot = false` is reached only if `onState` returned.
  unfoldable pub deliver : D → ℕ → Client S → Client S
  deliver d g c =
      let first : Bool = c.first_snapshot g in
      let (room, returned) = page.handle d g first c.room in
      record c {
        room = room;
        first_snapshot = λ h. if h == g && returned then false else c.first_snapshot h;
        delivered = record { generation = g; first = first; returned = returned } ∷ c.delivered;
      }

  unfoldable pub on_message : ℕ → Payload D → Client S → Client S
  on_message g unreadable c = c
  on_message g empty c = c
  on_message g (snapshot d) c = if same_socket c.ws g then deliver d g c else c

  unfoldable pub on_close : ℕ → ℕ → Client S → Client S
  unfolding auth_show clear_reconnect
  on_close g code c =
      if not (same_socket c.ws g)
      then c
      else if code == 1008
      then auth_show "입장할 수 없습니다" (record c {
        dot_visible = false;
        browser = clear_room_token page.room_id c.browser;
        status = pin_needed;
      })
      else record c {
        dot_visible = false;
        reconnect_attempt = c.reconnect_attempt + 1;
        status = reconnecting;
        reconnect_timer = some (retry_delay c.reconnect_attempt);
      }

  -- The timer's callback is `connect`; a timer that was cleared does not fire.
  unfoldable pub on_timer : Client S → Client S
  on_timer c = elim c.reconnect_timer [
    | none ↦ c
    | some _ ↦ connect (record c { reconnect_timer = none })
  ]

  unfoldable pub step : Event D → Client S → Client S
  unfolding reconnect_now on_open on_message on_close on_timer clear_reconnect send
  step connects c = connect c
  step reconnects c = reconnect_now c
  step clears c = clear_reconnect c
  step timer_fires c = on_timer c
  step (opens g) c = on_open g c
  step (fails g) c = record c { closing = g ∷ c.closing }
  step (receives g p) c = on_message g p c
  step (closes g code) c = on_close g code c
  step (sends msg is_open) c = send msg is_open c

  unfoldable pub run : List (Event D) → Client S → Client S
  run [] c = c
  run (e ∷ es) c = run es (step e c)

-- createRoomSocket
abbrev pub new_client : {S : Type 0} → Browser → S → Client S
new_client browser room = record {
  browser = browser;
  ws = none;
  reconnect_attempt = 0;
  reconnect_timer = none;
  connection_generation = 0;
  first_snapshot = λ _. true;
  dot_visible = false;
  status = initial;
  auth = [];
  urls = [];
  sent = [];
  closing = [];
  delivered = [];
  room = room;
}
