-- ===== src/RoomRenderer/Sessions.antt =====
-- room-renderer.js: lemmas on the dots of `renderSessions` and on the two satellites.
use aetheldesk.Base.{
  ℕ, ◌+◌, ◌≡◌, ◌≤◌, Bool, true, false, List, [], ◌∷◌, length, ◌==◌, if◌then◌else◌, arith, ◌∙◌, sym,
  inl, inr, Bool-cases,
}
use aetheldesk.RestRitual.{cycle_progress_of}
use aetheldesk.RoomRenderer.{cycle_position, dots_from, render_sessions}

abbrev pub filled : List Bool → ℕ
filled [] = 0
filled (true ∷ dots) = 1 + filled dots
filled (false ∷ dots) = filled dots

-- No filled dot behind an empty one.
abbrev pub none_filled : List Bool → Bool
none_filled [] = true
none_filled (true ∷ dots) = false
none_filled (false ∷ dots) = none_filled dots

abbrev pub in_order : List Bool → Bool
in_order [] = true
in_order (true ∷ dots) = in_order dots
in_order (false ∷ dots) = none_filled dots

position-eq : (count : ℕ) → cycle_position count ≡ cycle_progress_of count
unfolding cycle_position cycle_progress_of
position-eq count = ground arith

dots_filled : (p : ℕ) → p ≤ 4 → filled (dots_from p 0 4) ≡ p
unfolding dots_from
dots_filled p h = ground arith

dots_in_order : (p : ℕ) → in_order (dots_from p 0 4) ≡ true
unfolding dots_from
dots_in_order p = ground arith

position-le : (count : ℕ) → cycle_position count ≤ 4
unfolding cycle_position
position-le count = ground arith

position-zero : (count : ℕ) → (count == 0) ≡ true → cycle_progress_of count ≡ 0
unfolding cycle_progress_of
position-zero count e = rw e

dots_shown :
    (count : ℕ)
    → cycle_position count ≡ cycle_progress_of count
    → cycle_position count ≤ 4
    → filled (if count == 0 then false ∷ [] else dots_from (cycle_position count) 0 4)
      ≡ cycle_progress_of count
dots_shown count same h = elim (Bool-cases (count == 0)) [
  | inl e ↦ rw e (sym (position-zero count e))
  | inr e ↦ rw e (dots_filled (cycle_position count) h ∙ same)
]

dots_ordered :
    (count : ℕ)
    → in_order (if count == 0 then false ∷ [] else dots_from (cycle_position count) 0 4) ≡ true
dots_ordered count = elim (Bool-cases (count == 0)) [
  | inl e ↦ rw e
  | inr e ↦ rw e (dots_in_order (cycle_position count))
]

-- For any count the dots show the position in the cycle that the rest ritual and the reward show: as
-- many are filled, those before the empty ones; there are four, or one empty one before the first
-- completed session.
pub render_sessions_dots :
    (count : ℕ)
    → let shown = render_sessions count in
      (shown.position ≡ cycle_progress_of count)
      × (filled shown.dots ≡ cycle_progress_of count)
      × (in_order shown.dots ≡ true)
      × (length shown.dots ≡ (if count == 0 then 1 else 4))
unfolding render_sessions
render_sessions_dots count = (
  position-eq count,
  dots_shown count (position-eq count) (position-le count),
  dots_ordered count,
  ground arith,
)
