-- ===== src/RoomRenderer/Loop.antt =====
-- room-renderer.js: lemmas on the frames that the 2D clouds ask for.
use aetheldesk.Base.{
  ℕ, ◌≡◌, refl, Bool, true, false, ◌||◌, Option, none, some, List, [], ◌∷◌, ◌==◌, arith, length,
  ◌≤◌,
}
use aetheldesk.RoomRenderer.Sky.{Sky, render_sky, reset_for_resize, frame}

abbrev pub blank_sky : Sky
blank_sky = record {
  stars_drawn = false;
  has_clouds = false;
  cloud_raf = none;
  pending = [];
  requests = 0;
}

abbrev pub is_pending : ℕ → List ℕ → Bool
is_pending id [] = false
is_pending id (x ∷ xs) = x == id || is_pending id xs

-- What happens to the sky of the page: snapshots, changes of size and frames that were asked for, each
-- with whether the 3D engine is on, whether motion is reduced and whether it is night.
pub data Step : Sky → Sky → Type 0 where
  snapshot : (s : Sky) (is_3d reduced night : Bool) → Step s (render_sky is_3d reduced night s)
  resize : (s : Sky) (is_3d reduced night : Bool) → Step s (reset_for_resize is_3d reduced night s)
  fires :
      (s : Sky) (reduced : Bool) (id : ℕ)
      → is_pending id s.pending ≡ true
      → Step s (frame reduced id s)

pub data Reach (s : Sky) : Sky → Type 0 where
  here : Reach s s
  next : {t u : Sky} → Reach s t → Step t u → Reach s u

-- Nothing waits, or one frame of clouds that are there, and it is the one that can be cancelled.
abbrev one_loop : Option ℕ → Bool → List ℕ → Bool
one_loop raf clouds [] = true
one_loop (some raf) true (id ∷ []) = raf == id
one_loop _ _ (id ∷ ids) = false

abbrev IsLoop : Sky → Type 0
IsLoop s = one_loop s.cloud_raf s.has_clouds s.pending ≡ true

render_sky-IsLoop : (s : Sky) (d r n : Bool) → IsLoop s → IsLoop (render_sky d r n s)
unfolding render_sky
render_sky-IsLoop s d r n h = ground arith

reset-IsLoop : (s : Sky) (d r n : Bool) → IsLoop s → IsLoop (reset_for_resize d r n s)
unfolding reset_for_resize
reset-IsLoop s d r n h = ground arith

frame-IsLoop :
    (s : Sky) (r : Bool) (id : ℕ)
    → is_pending id s.pending ≡ true
    → IsLoop s
    → IsLoop (frame r id s)
unfolding frame
frame-IsLoop s r id p h = ground arith

one_loop-length :
    (raf : Option ℕ) (b : Bool) (ids : List ℕ) → one_loop raf b ids ≡ true → length ids ≤ 1
one_loop-length raf b [] h = omega arith
one_loop-length raf b (id ∷ ids) h = ground arith

Reach-IsLoop : {s t : Sky} → IsLoop s → Reach s t → IsLoop t
Reach-IsLoop h here = h
Reach-IsLoop h (next path (snapshot s d r n)) = render_sky-IsLoop s d r n (Reach-IsLoop h path)
Reach-IsLoop h (next path (resize s d r n)) = reset-IsLoop s d r n (Reach-IsLoop h path)
Reach-IsLoop h (next path (fires s r id p)) = frame-IsLoop s r id p (Reach-IsLoop h path)

-- Whatever snapshots, changes of size and frames come on a new page, in whatever order and with the 3D
-- engine and reduced motion on or off at each of them, at most one frame of the clouds waits.
pub Reach-pending : {s : Sky} → Reach blank_sky s → length s.pending ≤ 1
Reach-pending path = one_loop-length _ _ _ (Reach-IsLoop refl path)
