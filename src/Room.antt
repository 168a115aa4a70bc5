-- ===== src/Room.antt =====
-- frontend/app.js, `applyState`: what a snapshot of the room does to the page. The parts of the page
-- that only draw are given as what they are called with.
pub mod Revisions
pub mod Chime
mod Tests
use aetheldesk.Base.{
  ℕ, ◌+◌, ◌/◌, Bool, true, false, not, ◌&&◌, ◌||◌, Option, none, some, List, [], ◌∷◌, ltb,
  if◌then◌else◌, is_some,
}
use aetheldesk.Js.{Value, truthy, natural?, trunc_or}
use aetheldesk.RestRitual.{Snapshot}
use aetheldesk.RestRitual.Panel.{Page}
use aetheldesk.RestRitual.View.{Ritual, update}

-- The fields of a server message that `applyState` itself reads.
pub record State : Type 0 where
  pub revision : Value
  pub paused : Value
  pub rest : Snapshot
  pub open rest use *

-- One round of calls: renderFocus, updateReward (cycle progress, reveal, active), renderSessions.
pub record Drawn : Type 0 where
  pub focus : Value
  pub break : Value
  pub paused : Value
  pub remaining : Value
  pub break_remaining : Value
  pub reward : ℕ × Bool × Bool
  pub sessions : Value

pub record Room : Type 0 where
  pub current_state : Option State
  pub accepted_revision : Option ℕ
  pub ritual : Ritual
  pub chimes : ℕ
  pub drawn : List Drawn

-- `none` where the snapshot is to be ignored, else the revision that is accepted from then on.
unfoldable pub accept : Option ℕ → Option ℕ → Option (Option ℕ)
accept none accepted = elim accepted [ none ↦ some none | some _ ↦ none ]
accept (some revision) none = some (some revision)
accept (some revision) (some accepted) =
    if ltb revision accepted then none else some (some revision)

abbrev pub was_break : Option State → Bool
was_break none = false
was_break (some s) = truthy s.break

unfoldable pub draw : Page → State → Bool → Room → Option ℕ → Room
draw page s first r accepted =
    let ritual : Ritual = update page s.rest first r.ritual in
    let reveal : Bool = ritual.latest_reveal in
    record {
      current_state = some s;
      accepted_revision = accepted;
      ritual = ritual;
      chimes =
          if reveal
            || (is_some r.current_state && was_break r.current_state && not (truthy s.break))
          then r.chimes + 1
          else r.chimes;
      drawn =
          record {
            focus = s.focus;
            break = s.break;
            paused = s.paused;
            remaining = s.pomodoro_remaining;
            break_remaining = s.break_remaining;
            reward = (ritual.latest_model.cycle_progress, reveal, ritual.latest_model.is_break);
            sessions = s.sessions_done;
          }
          ∷ r.drawn;
    }

-- The first snapshot of a connection forgets the accepted revision.
unfoldable pub apply_state : Page → State → Bool → Room → Room
unfolding accept draw
apply_state page s first r =
    let accepted : Option ℕ = if first then none else r.accepted_revision in
    elim (accept (natural? s.revision) accepted) [
      | none ↦ record r { accepted_revision = accepted }
      | some revision ↦ draw page s first r revision
    ]

-- The snapshots of one connection after its first.
unfoldable pub apply_all : Page → List State → Room → Room
apply_all page [] r = r
apply_all page (s ∷ ss) r = apply_all page ss (apply_state page s false r)
