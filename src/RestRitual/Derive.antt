-- ===== src/RestRitual/Derive.antt =====
-- What `derive_rest_ritual_state` says of any snapshot, however malformed.
use aetheldesk.Base.{ℕ, ◌+◌, ◌-◌, ◌*◌, ◌/◌, ◌≤◌, ◌<◌, ◌≡◌, ◌↔◌, true, false, arith}
use aetheldesk.RestRitual.{
  Snapshot, Model, inactive, reveal, returning, cycle_progress_of, phase_of,
  derive_rest_ritual_state,
}

-- The position in the current cycle: none before the first completion, then 1 to 4, and it is the
-- count up to whole cycles.
pub cycle_progress_lem :
    (n : ℕ)
    → (cycle_progress_of n ≤ 4)
      × ((cycle_progress_of n ≡ 0) ↔ (n ≡ 0))
      × ((k : ℕ) × (n ≡ 4 * k + cycle_progress_of n))
unfolding cycle_progress_of
cycle_progress_lem n = (ground arith, ground arith, ((n - cycle_progress_of n) / 4, ground arith))

module _ (s : Snapshot) where
  abbrev m : Model
  m = derive_rest_ritual_state s

  -- Of any snapshot, a break lasts at least a second, no more than all of it remains, and the focus
  -- time is at least a minute.
  pub derive_bounds :
      (1 ≤ m.break_duration) × (m.break_remaining ≤ m.break_duration) × (1 ≤ m.focus_minutes)
  unfolding derive_rest_ritual_state
  derive_bounds = omega arith

  -- Of any snapshot, the phase is inactive exactly outside of a break, the return phase exactly in its
  -- last 60 seconds, and the reveal phase exactly before those and within its first 30 seconds.
  pub derive_phase :
      ((m.phase ≡ inactive) ↔ (m.is_break ≡ false))
      × ((m.phase ≡ returning) ↔ ((m.is_break ≡ true) × (m.break_remaining ≤ 60)))
      × ((m.phase ≡ reveal) ↔ (
          (m.is_break ≡ true)
          × (60 < m.break_remaining)
          × (m.break_duration ≤ m.break_remaining + 30)))
  unfolding derive_rest_ritual_state phase_of
  derive_phase = ground arith
