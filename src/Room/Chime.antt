-- ===== src/Room/Chime.antt =====
-- When the chime plays.
use aetheldesk.Base.{◌+◌, ◌≡◌, true, false, arith, Bool, not, ◌&&◌, if◌then◌else◌}
use aetheldesk.Js.{truthy}
use aetheldesk.RestRitual.Panel.{Page}
use aetheldesk.RestRitual.View.{update}
use aetheldesk.RestRitual.Tracker.{observe, observe_id}
use aetheldesk.RestRitual.View.Events.{update_twice_quiet}
use aetheldesk.Room.{State, Room, was_break, apply_state}

no_reveal_at_reset :
    (page : Page) (s : State) (r : Room) → (update page s.rest true r.ritual).latest_reveal ≡ false
unfolding update observe observe_id
no_reveal_at_reset page s r = ground arith

-- The first snapshot of a connection plays no completion that it restores: the chime plays only if
-- the page showed a break, and the snapshot shows none.
pub first_snapshot_chime :
    (page : Page) (s : State) (r : Room)
    → (apply_state page s true r).chimes
      ≡ (if was_break r.current_state && not (truthy s.break) then r.chimes + 1 else r.chimes)
unfolding apply_state
first_snapshot_chime page s r = ground (arith, no_reveal_at_reset page s r)

-- A snapshot that arrives a second time plays no chime.
pub repeated_snapshot_quiet :
    (page : Page) (s : State) (first : Bool) (r : Room)
    → let once = apply_state page s first r in (apply_state page s false once).chimes ≡ once.chimes
unfolding apply_state
repeated_snapshot_quiet page s first r =
    ground (arith, update_twice_quiet page s.rest first r.ritual)
