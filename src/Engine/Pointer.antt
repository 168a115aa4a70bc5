-- ===== src/Engine/Pointer.antt =====
-- engine.js: how the pointer moves the camera. A target of the mouse is a part of its range, from the left or
-- from the top; an angle is in thousandths above the lowest that the code allows: -350 to 350 to the
-- side and -400 to 600 up. The camera's place, a sine of the angles, is left out.
pub mod Limits
pub mod Drag
use aetheldesk.Base.{ℕ, ◌+◌, ◌-◌, ◌*◌, min, Bool, true, false, not, ◌&&◌, ◌||◌, leb, if◌then◌else◌}
use aetheldesk.Int.{ℤ, pos, pos_part, neg_part, leb_ℤ, above}

pub record Rect : Type 0 where
  pub left : ℤ
  pub top : ℤ
  pub width : ℕ
  pub height : ℕ

pub record Part : Type 0 where
  pub part : ℕ
  pub whole : ℕ

pub record Pointer : Type 0 where
  pub target_x : Part
  pub target_y : Part
  pub is_pointer_down : Bool
  pub start_x : ℤ
  pub start_y : ℤ
  pub target_angle_x : ℕ
  pub target_angle_y : ℕ
  pub camera_angle_x : ℕ
  pub camera_angle_y : ℕ

abbrev pub centre : Part
centre = record { part = 1; whole = 2 }

abbrev pub within : ℤ → ℕ → ℤ → Bool
within low size x = leb_ℤ low x && leb (above x low) size

abbrev pub is_inside : Rect → ℤ → ℤ → Bool
is_inside r x y = within r.left r.width x && within r.top r.height y

-- Math.max(-1, Math.min(1, ...)) of the place on a side
abbrev pub part_along : ℤ → ℕ → ℤ → Part
part_along low size x = record { part = min size (above x low); whole = size }

-- Math.max(low, Math.min(high, angle + (x - start) * 0.003)), from `low`
unfoldable pub turned : ℕ → ℕ → ℤ → ℤ → ℕ
turned limit angle start x =
    min limit (angle + 3 * (pos_part x + neg_part start) - 3 * (neg_part x + pos_part start))

unfoldable pub drag : ℤ → ℤ → Pointer → Pointer
unfolding turned
drag x y p =
    if p.is_pointer_down
    then record p {
      target_angle_x = turned 700 p.target_angle_x p.start_x x;
      target_angle_y = turned 1000 p.target_angle_y p.start_y y;
      start_x = x;
      start_y = y;
    }
    else p

unfoldable pub on_pointer_move : Bool → Rect → ℤ → ℤ → Pointer → Pointer
unfolding drag
on_pointer_move reduced_motion r x y p =
    if reduced_motion
    then record p { target_x = centre; target_y = centre; is_pointer_down = false }
    else if not (is_inside r x y) && not p.is_pointer_down
    then record p { target_x = centre; target_y = centre }
    else drag x y (record p {
      target_x = part_along r.left r.width x;
      target_y = part_along r.top r.height y;
    })

-- `in_container` is whether the target is an element of the container, `on_control` whether it lies in one
-- of the controls that keep their clicks.
unfoldable pub on_pointer_down : Bool → Bool → ℤ → ℤ → Pointer → Pointer
on_pointer_down in_container on_control x y p =
    if not in_container || on_control
    then p
    else record p { is_pointer_down = true; start_x = x; start_y = y }

unfoldable pub on_pointer_up : Pointer → Pointer
on_pointer_up p = record p { is_pointer_down = false }

-- The part of a frame that turns the camera: `ease live target` is `live + (target - live) * 0.08`.
unfoldable pub turn_camera : (ℕ → ℕ → ℕ) → Bool → Pointer → Pointer
turn_camera ease reduced_motion p = if reduced_motion then p else record p {
  camera_angle_x = ease p.camera_angle_x p.target_angle_x;
  camera_angle_y = ease p.camera_angle_y p.target_angle_y;
}

abbrev pub create_pointer : Pointer
create_pointer = record {
  target_x = centre;
  target_y = centre;
  is_pointer_down = false;
  start_x = pos 0;
  start_y = pos 0;
  target_angle_x = 350;
  target_angle_y = 400;
  camera_angle_x = 350;
  camera_angle_y = 400;
}
