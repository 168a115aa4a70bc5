-- ===== src/Engine/Pointer/Drag.antt =====
-- engine.js: lemmas on a drag.
use aetheldesk.Base.{ℕ, ◌+◌, ◌*◌, ◌≤◌, ◌≡◌, refl, true, List, [], ◌∷◌, arith, All, ◌∙◌, sym}
use aetheldesk.Int.{ℤ, pos_part, neg_part}
use aetheldesk.Engine.Pointer.{Pointer, turned, drag}

-- No limit is met on the way from `start` to `x`.
pub record IsFree (limit angle : ℕ) (start x : ℤ) : Type 0 where
  pub low : 3 * (neg_part x + pos_part start) ≤ angle + 3 * (pos_part x + neg_part start)
  pub high : angle + 3 * (pos_part x + neg_part start) ≤ limit + 3 * (neg_part x + pos_part start)

turned-turned :
    (limit angle : ℕ) (start x y : ℤ)
    → IsFree limit angle start x
    → turned limit (turned limit angle start x) x y ≡ turned limit angle start y
unfolding turned
turned-turned limit angle start x y h = omega (arith, h.low, h.high)

-- A drag goes on through the places of the pointer.
unfoldable pub drag_through : List (ℤ × ℤ) → Pointer → Pointer
drag_through [] p = p
drag_through ((x, y) ∷ rest) p = drag_through rest (drag x y p)

-- The way to a place meets no limit, in either direction.
abbrev pub IsFreeTo : Pointer → ℤ × ℤ → Type 0
IsFreeTo p (x, y) =
    IsFree 700 p.target_angle_x p.start_x x × IsFree 1000 p.target_angle_y p.start_y y

turned-IsFree :
    (limit angle : ℕ) (start x y : ℤ)
    → IsFree limit angle start x
    → IsFree limit angle start y
    → IsFree limit (turned limit angle start x) x y
unfolding turned
turned-IsFree limit angle start x y h k = record {
  low = omega (arith, h.low, h.high, k.low, k.high);
  high = omega (arith, h.low, h.high, k.low, k.high);
}

abbrev moved : ℤ → ℤ → Pointer → Pointer
moved x y p = record p {
  target_angle_x = turned 700 p.target_angle_x p.start_x x;
  target_angle_y = turned 1000 p.target_angle_y p.start_y y;
  start_x = x;
  start_y = y;
}

drag-down : (x y : ℤ) (p : Pointer) → p.is_pointer_down ≡ true → drag x y p ≡ moved x y p
unfolding drag
drag-down x y p down = rw down refl

moved-moved :
    (x y x' y' : ℤ) (p : Pointer) → IsFreeTo p (x, y) → moved x' y' (moved x y p) ≡ moved x' y' p
moved-moved x y x' y' p (h, k) =
    rw
      (
        turned-turned 700 p.target_angle_x p.start_x x x' h,
        turned-turned 1000 p.target_angle_y p.start_y y y' k,
      )
      refl

free_on :
    (x y : ℤ) (p : Pointer) (places : List (ℤ × ℤ))
    → IsFreeTo p (x, y)
    → All (IsFreeTo p) places
    → All (IsFreeTo (moved x y p)) places
free_on x y p [] h hs = tt
free_on x y p ((a, b) ∷ rest) h ((k, l), hs) = (
  (
    turned-IsFree 700 p.target_angle_x p.start_x x a h.0 k,
    turned-IsFree 1000 p.target_angle_y p.start_y y b h.1 l,
  ),
  free_on x y p rest h hs,
)

-- While a pointer is down and on its way meets no limit, it turns the camera to where the place that it is at
-- last would have turned it at once, whatever way it took.
pub drag-drag_through :
    (places : List (ℤ × ℤ)) (x y : ℤ) (p : Pointer)
    → p.is_pointer_down ≡ true
    → All (IsFreeTo p) places
    → drag x y (drag_through places p) ≡ drag x y p
unfolding drag_through
drag-drag_through [] x y p down hs = refl
drag-drag_through ((a, b) ∷ rest) x y p down (h, hs) = rw (drag-down a b p down) (
    drag-drag_through rest x y (moved a b p) down (free_on a b p rest h hs)
    ∙ drag-down x y (moved a b p) down
    ∙ moved-moved a b x y p h
    ∙ sym (drag-down x y p down))
