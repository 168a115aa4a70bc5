-- ===== src/Socket/Backoff.antt =====
-- The delays between attempts to reconnect.
use aetheldesk.Base.{ℕ, String, str_eq, zero, suc, ◌+◌, ◌*◌, ◌^◌, ◌≤◌, min, ◌≡◌, false, some, arith}
use native.Mathlib.Nat.{pow-suc, add-zero}
use native.Mathlib.Numerals.{add-one}
use aetheldesk.Storage.{read_room_token}
use aetheldesk.Socket.{Client, Page, closes, timer_fires, connect, step, retry_delay}

power_pos : (n : ℕ) → 1 ≤ 2 ^ n
power_pos zero = omega arith
power_pos (suc n) = rw pow-suc (omega (arith, power_pos n))

power_double : (n : ℕ) → 2 ^ (n + 1) ≡ 2 * 2 ^ n
power_double n = rw (add-one, pow-suc) (omega arith)

-- The delay is between one second and half a minute, and doubles from one attempt to the next up to
-- that bound.
pub retry_delay_bounds :
    (n : ℕ)
    → (1000 ≤ retry_delay n)
      × (retry_delay n ≤ 30000)
      × (retry_delay (n + 1) ≡ min 30000 (2 * retry_delay n))
unfolding retry_delay
retry_delay_bounds n = omega (arith, power_pos n, power_double n)

module _ {S D : Type 0} (page : Page S D) where
  -- The socket in use breaks, and the timer that this sets runs out.
  abbrev pub lose : Client S → Client S
  lose c = step page (closes c.connection_generation 1006) c

  unfoldable pub outages : ℕ → Client S → Client S
  outages zero c = c
  outages (suc n) c = outages n (step page timer_fires (lose c))

  pub record IsRetrying (token : String) (attempt generation : ℕ) (c : Client S) : Type 0 where
    pub attempted : c.reconnect_attempt ≡ attempt
    pub generated : c.connection_generation ≡ generation
    pub in_use : c.ws ≡ some generation
    pub entered : read_room_token page.room_id c.browser ≡ some token

  retry-IsRetrying :
      (token : String) (a g : ℕ) (c : Client S)
      → str_eq token "" ≡ false
      → IsRetrying token a g c
      → IsRetrying token (a + 1) (g + 1) (step page timer_fires (lose c))
  unfolding step connect
  retry-IsRetrying token a g c t v = ground arith

  outages-IsRetrying :
      (token : String) (n a g : ℕ) (c : Client S)
      → str_eq token "" ≡ false
      → IsRetrying token a g c
      → IsRetrying token (a + n) (g + n) (outages n c)
  unfolding outages
  outages-IsRetrying token zero a g c t v = rw (add-zero, add-zero) v
  outages-IsRetrying token (suc n) a g c t v =
      let rest =
        outages-IsRetrying token n (a + 1) (g + 1) (step page timer_fires (lose c)) t
          (retry-IsRetrying token a g c t v) in
      ground (arith, rest)

  -- From a socket in use and a token that is not empty, any number of outages in a row, each ended by
  -- its timer, opens one new socket each, which is the one in use; the next outage waits for the delay
  -- of as many more attempts.
  pub outages_retry :
      (token : String) (n a g : ℕ) (c : Client S)
      → str_eq token "" ≡ false
      → IsRetrying token a g c
      → let c' = outages n c in
        (c'.connection_generation ≡ g + n)
        × (c'.ws ≡ some (g + n))
        × ((lose c').reconnect_timer ≡ some (retry_delay (a + n)))
  unfolding step
  outages_retry token n a g c t v = ground (arith, outages-IsRetrying token n a g c t v)
