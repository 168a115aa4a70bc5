-- ===== src/RoomRenderer/Reach.antt =====
-- room-renderer.js: lemmas on the controls that `renderFocus` takes out of the tab order.
use aetheldesk.Base.{ℕ, Bool, not, ◌||◌, ◌∷◌, if◌then◌else◌}
use aetheldesk.Dom.{Page, is_true}
use aetheldesk.Dom.Restore.{mem}
use aetheldesk.RoomRenderer.{Snapshot, Regions}

-- Whether a control has been taken out of the tab order.
abbrev pub is_away : Page → ℕ → Bool
is_away page j = is_true (page j).interaction_hidden

-- A region with the controls in it.
abbrev pub within : Regions → ℕ → ℕ → Bool
within r region j = mem j (region ∷ r.controls region)

-- What the last snapshot alone says about a control, read from the innermost region outwards.
abbrev pub away_after : Regions → Snapshot → ℕ → Bool → Bool
away_after r s j before =
    let session : Bool = s.focus || s.is_break in
    if within r r.focus_row j
    then not s.focus
    else if within r r.break_row j
    then s.focus || not s.is_break
    else if within r r.pom j
    then not session
    else if within r r.dur_chips j
        || within r r.btn j
        || within r r.hud_tl j
        || within r r.time_dial j
    then session
    else before
