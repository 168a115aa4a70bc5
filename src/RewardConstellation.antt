-- ===== src/RewardConstellation.antt =====
-- frontend/src/3d/reward-constellation.js: what the four-star mark shows for the completed sessions,
-- and frontend/scenes.js `updateReward`, which feeds it. Opacities are in thousandths, the emissive
-- intensity and the pixel ratio in hundredths, the energy of a reveal in parts of 10000, time in
-- microseconds. Geometry, colours and the pulse are left out.
pub mod Progress
use aetheldesk.Base.{
  ℕ, suc, zero, ◌+◌, ◌-◌, ◌*◌, min, max, Bool, true, false, not, ◌&&◌, ◌||◌, Option, none, some,
  List, [], ◌∷◌, ltb, ◌==◌, if◌then◌else◌,
}
use aetheldesk.Js.{Number, nan, infinite, finite}

abbrev pub reward_constellation_cap : ℕ
reward_constellation_cap = 4

unfoldable pub clamp_completed_sessions : Number → ℕ
clamp_completed_sessions (finite false whole exact) = min reward_constellation_cap whole
clamp_completed_sessions _ = 0

pub record Constellation : Type 0 where
  pub completed : ℕ
  pub group_visible : Bool
  pub star_draw_count : ℕ
  pub line_draw_count : ℕ
  pub lines_visible : Bool
  pub stars_visible : Bool
  pub base_line_opacity : ℕ
  pub emissive_intensity : ℕ
  pub active_nodes : List Bool
  pub reveal_energy : ℕ
  pub motion_time : ℕ
  pub pixel_ratio : ℕ
  pub disposed : Bool

unfoldable pub visible_edges : ℕ → ℕ
visible_edges completed =
    if ltb completed 2
    then 0
    else if completed == reward_constellation_cap
    then 4
    else completed - 1

-- The loop over the node records: from `i` on, `count` of them.
unfoldable pub nodes_from : ℕ → ℕ → ℕ → List Bool
nodes_from completed i zero = []
nodes_from completed i (suc count) = ltb i completed ∷ nodes_from completed (suc i) count

unfoldable pub apply_progress : ℕ → Bool → Constellation → Constellation
unfolding visible_edges nodes_from
apply_progress completed animate c = record c {
  completed = completed;
  group_visible = ltb 0 completed;
  star_draw_count = completed;
  line_draw_count = visible_edges completed * 2;
  lines_visible = ltb 0 (visible_edges completed);
  stars_visible = ltb 0 completed;
  base_line_opacity = if ltb 1 completed then 220 + completed * 45 else 0;
  emissive_intensity = if completed == reward_constellation_cap then 46 else 22 + completed * 4;
  active_nodes = nodes_from completed 0 4;
  reveal_energy = if animate && ltb 0 completed then 10000 else 0;
}

unfoldable pub set_completed_sessions : Number → Bool → Constellation → Constellation
unfolding clamp_completed_sessions apply_progress
set_completed_sessions next reveal c =
    let normalized : ℕ = clamp_completed_sessions next in
    if c.disposed
    then c
    else if not (normalized == c.completed) || reveal
    then apply_progress normalized reveal c
    else c

-- `none` is a ratio that is not finite.
unfoldable pub set_pixel_ratio : Option ℕ → Constellation → Constellation
set_pixel_ratio none c = if c.disposed then c else record c { pixel_ratio = 100 }
set_pixel_ratio (some ratio) c =
    if c.disposed then c else record c { pixel_ratio = max 50 (min 200 ratio) }

-- The state that a frame moves on. `decay step energy` is the energy times Math.exp of the step.
unfoldable pub update : (ℕ → ℕ → ℕ) → ℕ → Bool → Constellation → Constellation
update decay step reduced_motion c =
    if c.disposed
    then c
    else if reduced_motion
    then record c { reveal_energy = 0 }
    else record c { motion_time = c.motion_time + step; reveal_energy = decay step c.reveal_energy }

unfoldable pub dispose : Constellation → Constellation
dispose c = record c { disposed = true }

abbrev pub blank : Constellation
blank = record {
  completed = 0;
  group_visible = false;
  star_draw_count = 0;
  line_draw_count = 0;
  lines_visible = false;
  stars_visible = false;
  base_line_opacity = 0;
  emissive_intensity = 0;
  active_nodes = [];
  reveal_energy = 0;
  motion_time = 0;
  pixel_ratio = 100;
  disposed = false;
}

unfoldable pub create_reward_constellation : Number → Option ℕ → Constellation
unfolding clamp_completed_sessions apply_progress set_pixel_ratio
create_reward_constellation completed ratio =
    apply_progress (clamp_completed_sessions completed) false (set_pixel_ratio ratio blank)

-- scenes.js: the controller's part. `aspect` is in hundredths, `height` in pixels.
pub record Reward : Type 0 where
  pub reward_progress : ℕ
  pub reward_rest_active : Bool
  pub constellation : Option Constellation

unfoldable pub sync_reward_visibility : ℕ → ℕ → Reward → Reward
sync_reward_visibility aspect height r = elim r.constellation [
  | none ↦ r
  | some c ↦
      let compact_idle : Bool = ltb aspect 80 || not (ltb 480 height) in
      record r {
        constellation = some (record c {
          group_visible = ltb 0 r.reward_progress && (r.reward_rest_active || not compact_idle);
        });
      }
]

unfoldable pub update_reward : ℕ → ℕ → Number → Bool → Bool → Reward → Reward
unfolding clamp_completed_sessions set_completed_sessions sync_reward_visibility
update_reward aspect height completed_sessions reveal active r =
    let progress : ℕ = clamp_completed_sessions completed_sessions in
    sync_reward_visibility aspect height (record {
      reward_progress = progress;
      reward_rest_active = active;
      constellation = elim r.constellation [
        | none ↦ none
        | some c ↦ some (set_completed_sessions (finite false progress true) reveal c)
      ];
    })
