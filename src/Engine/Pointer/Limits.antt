-- ===== src/Engine/Pointer/Limits.antt =====
-- engine.js: lemmas on how far the camera turns.
use aetheldesk.Base.{
  ℕ, ◌≤◌, min, max, Bool, true, false, not, ◌&&◌, List, [], ◌∷◌, arith, Bool-cases, inl, inr,
}
use aetheldesk.Int.{ℤ}
use aetheldesk.Engine.Pointer.{
  is_inside, part_along, Rect, Pointer, turned, drag, on_pointer_move, on_pointer_down,
  on_pointer_up, turn_camera, create_pointer,
}

pub data Event : Type 0 where
  moves : Bool → Rect → ℤ → ℤ → Event
  presses : Bool → Bool → ℤ → ℤ → Event
  releases : Event
  frames : Bool → Event

pub record IsFacing (p : Pointer) : Type 0 where
  pub target_side : p.target_angle_x ≤ 700
  pub target_up : p.target_angle_y ≤ 1000
  pub side : p.camera_angle_x ≤ 700
  pub up : p.camera_angle_y ≤ 1000

drag-IsFacing : (x y : ℤ) (p : Pointer) → IsFacing p → IsFacing (drag x y p)
unfolding drag turned
drag-IsFacing x y p h = ground arith

move-IsFacing :
    (reduced : Bool) (r : Rect) (x y : ℤ) (p : Pointer)
    → IsFacing p
    → IsFacing (on_pointer_move reduced r x y p)
unfolding on_pointer_move
move-IsFacing true r x y p h = ground arith
move-IsFacing false r x y p h = elim (Bool-cases (not (is_inside r x y) && not p.is_pointer_down)) [
  | inl e ↦ rw e (ground arith)
  | inr e ↦
      let aimed : Pointer = record p {
        target_x = part_along r.left r.width x;
        target_y = part_along r.top r.height y;
      } in
      let facing : IsFacing aimed = record {
        target_side = h.target_side;
        target_up = h.target_up;
        side = h.side;
        up = h.up;
      } in
      rw e (drag-IsFacing x y aimed facing)
]

-- An easing stays between where it is and where it goes.
module _ (ease : ℕ → ℕ → ℕ)
    (between : (live target : ℕ)
      → (min live target ≤ ease live target) × (ease live target ≤ max live target)) where
  unfoldable pub perform : Event → Pointer → Pointer
  perform (moves reduced r x y) p = on_pointer_move reduced r x y p
  perform (presses in_container on_control x y) p = on_pointer_down in_container on_control x y p
  perform releases p = on_pointer_up p
  perform (frames reduced) p = turn_camera ease reduced p

  unfoldable pub perform_all : List Event → Pointer → Pointer
  unfolding perform
  perform_all [] p = p
  perform_all (e ∷ es) p = perform_all es (perform e p)

  perform-IsFacing : (e : Event) (p : Pointer) → IsFacing p → IsFacing (perform e p)
  unfolding perform on_pointer_down on_pointer_up turn_camera
  perform-IsFacing (moves reduced r x y) p h = move-IsFacing reduced r x y p h
  perform-IsFacing (presses in_container on_control x y) p h = ground arith
  perform-IsFacing releases p h = ground arith
  perform-IsFacing (frames reduced) p h =
      let a = between p.camera_angle_x p.target_angle_x in
      let b = between p.camera_angle_y p.target_angle_y in ground arith

  perform_from-IsFacing : (es : List Event) (p : Pointer) → IsFacing p → IsFacing (perform_all es p)
  unfolding perform_all
  perform_from-IsFacing [] p h = h
  perform_from-IsFacing (e ∷ es) p h = perform_from-IsFacing es _ (perform-IsFacing e p h)

  -- Whatever the pointer does and however long, with reduced motion on or off at each event and frame, the
  -- camera and where it goes are turned by at most 0.35 to either side, 0.4 down and 0.6 up; an easing
  -- is to stay between where it is and where it goes.
  pub perform_all-IsFacing : (es : List Event) → IsFacing (perform_all es create_pointer)
  perform_all-IsFacing es = perform_from-IsFacing es create_pointer (omega arith)
