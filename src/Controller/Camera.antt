-- ===== src/Controller/Camera.antt =====
-- scenes.js: the camera's field of view and the place of the reward in front of it. Angles are in thousandths of
-- a degree, aspects and lengths in parts of 10,000, the scale in hundredths; the easing is an argument.
use aetheldesk.Base.{
  ℕ, ◌+◌, ◌-◌, ◌*◌, ◌/◌, ◌≤◌, ◌≡◌, min, max, Bool, true, not, ◌&&◌, ◌||◌, List, [], ◌∷◌, ltb, leb,
  ◌==◌, if◌then◌else◌, arith,
}

pub record View : Type 0 where
  pub focus_active : Bool
  pub fov : ℕ

-- updatePomodoro: focus and break of the snapshot
unfoldable pub update_pomodoro : Bool → Bool → View → View
update_pomodoro focus break v = record v { focus_active = focus || break }

abbrev pub target_fov : Bool → Bool → ℕ
target_fov focus_active reduced_motion = if focus_active && not reduced_motion then 52500 else 55000

module _ (ease : ℕ → ℕ → ℕ → ℕ) where
  unfoldable pub push_in : ℕ → Bool → View → View
  push_in delta reduced_motion v =
      let target : ℕ = target_fov v.focus_active reduced_motion in
      let apart : ℕ = (v.fov - target) + (target - v.fov) in
      let next : ℕ = if reduced_motion then target else ease delta v.fov target in
      record v { fov = if ltb 20 apart then next else v.fov }

pub record Placement : Type 0 where
  -- How far to the left.
  pub left : ℕ
  pub up : ℕ
  pub scale : ℕ

-- camera.aspect || 16 / 9
abbrev pub aspect_or : ℕ → ℕ
aspect_or aspect = if aspect == 0 then 17778 else aspect

abbrev pub height_or : ℕ → ℕ → ℕ
height_or client window = if client == 0 then window else client

-- positionRewardConstellation
unfoldable pub position_reward : ℕ → ℕ → ℕ → Placement
position_reward aspect client window =
    let a : ℕ = aspect_or aspect in
    record {
      left = min 96000 (max 32000 (a * 51 / 10));
      up = if ltb a 8000 then 100000 else 90000;
      scale = if ltb a 8000 then 52 else if leb (height_or client window) 480 then 80 else 96;
    }

pub data Call : Type 0 where
  snapshots : Bool → Bool → Call
  frames : ℕ → Bool → Call

pub record IsFramed (v : View) : Type 0 where
  pub narrow : 52500 ≤ v.fov
  pub wide : v.fov ≤ 55000

module _ (ease : ℕ → ℕ → ℕ → ℕ)
    (between : (delta live target : ℕ)
      → (min live target ≤ ease delta live target)
        × (ease delta live target ≤ max live target)) where
  unfoldable pub perform_all : List Call → View → View
  perform_all [] v = v
  perform_all (snapshots focus break ∷ ks) v = perform_all ks (update_pomodoro focus break v)
  perform_all (frames delta reduced ∷ ks) v = perform_all ks (push_in ease delta reduced v)

  push_in-IsFramed :
      (delta : ℕ) (reduced : Bool) (v : View) → IsFramed v → IsFramed (push_in ease delta reduced v)
  unfolding push_in
  push_in-IsFramed delta reduced v h =
      let a = between delta v.fov 52500 in let b = between delta v.fov 55000 in ground arith

  -- Whatever snapshots and frames come, the field of view stays between that of a session and that of the
  -- idle page; an easing is to stay between where it is and where it goes.
  pub perform_all-IsFramed : (ks : List Call) (v : View) → IsFramed v → IsFramed (perform_all ks v)
  unfolding perform_all update_pomodoro
  perform_all-IsFramed [] v h = h
  perform_all-IsFramed (snapshots focus break ∷ ks) v h =
      perform_all-IsFramed ks (update_pomodoro focus break v)
        (record { narrow = h.narrow; wide = h.wide })
  perform_all-IsFramed (frames delta reduced ∷ ks) v h =
      perform_all-IsFramed ks (push_in ease delta reduced v) (push_in-IsFramed delta reduced v h)

-- With reduced motion one frame ends a push-in.
pub push_in-reduced :
    (ease : ℕ → ℕ → ℕ → ℕ) (delta : ℕ) (v : View)
    → let after = push_in ease delta true v in
      ((after.fov - 55000) + (55000 - after.fov) ≤ 20) × (after.focus_active ≡ v.focus_active)
unfolding push_in
push_in-reduced ease delta v = ground arith
