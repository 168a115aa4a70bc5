-- ===== src/Engine/Quality/Watchdog.antt =====
-- engine.js: lemmas on the watchdog of the auto quality.
use aetheldesk.Base.{ℕ, ◌+◌, ◌*◌, ◌≤◌, ◌<◌, ◌≡◌, ◌⊎◌, true, none, some, arith}
use aetheldesk.Engine.Tiers.{Tier, tier_number}
use aetheldesk.Engine.Quality.{Quality, watch_fps, apply_pending_configuration}

-- A frame makes the watchdog ask for another tier only in auto quality, only for the one just below,
-- and only after at least four seconds at less than 45 frames per second.
pub watch_fps_steps :
    (delta : ℕ) (q : Quality) (t : Tier)
    → q.pending_tier ≡ none
    → (watch_fps delta q).pending_tier ≡ some t
    → (q.is_auto ≡ true)
      × (tier_number t + 1 ≡ tier_number q.active_tier)
      × (4000000 ≤ q.fps_time + delta)
      × ((q.fps_frames + 1) * 1000000 < 45 * (q.fps_time + delta))
unfolding watch_fps
watch_fps_steps delta q t p e = ground arith

-- A timed frame and the configuration after it lower the tier by at most one step and never raise it,
-- leave nothing pending, and leave the tier alone where the user chose it.
pub frame_tier :
    (delta : ℕ) (q : Quality)
    → q.pending_tier ≡ none
    → let q' = apply_pending_configuration (watch_fps delta q) in
      (q'.pending_tier ≡ none)
      × (tier_number q'.active_tier ≤ tier_number q.active_tier)
      × (tier_number q.active_tier ≤ tier_number q'.active_tier + 1)
      × ((q.is_auto ≡ true) ⊎ (q'.active_tier ≡ q.active_tier))
unfolding watch_fps apply_pending_configuration
frame_tier delta q p = ground arith
