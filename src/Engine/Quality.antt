-- ===== src/Engine/Quality.antt =====
-- engine.js: the choice of a quality tier and of the effects.
-- Ratios and grain are counted in hundredths, frame times in microseconds.
pub mod Laws
pub mod Watchdog
use aetheldesk.Base.{
  ℕ, zero, suc, ◌+◌, ◌*◌, ◌<◌, String, Bool, true, false, not, ◌&&◌, ◌||◌, Option, none, some, List,
  [], ◌∷◌, ltb, leb, ◌==◌, str_eq, if◌then◌else◌, get_or, same_flag,
}
use aetheldesk.Engine.Tiers.{
  Tier, low, medium, high, ultra, TierSettings, settings_of, tier_below, tier_number, same_tier,
  tier_named,
}
use aetheldesk.Js.{Value, null, boolean, truthy, coalesce}

-- `null` follows the tier.
pub record Overrides : Type 0 where
  pub bloom : Value
  pub shafts : Value
  pub shadows : Value
  pub grain : Value

-- What the post stack and the shadow map were told last.
pub record Applied : Type 0 where
  pub bloom : Bool
  pub shafts : Bool
  pub grain : ℕ
  pub shadow_map : ℕ

pub record Quality : Type 0 where
  pub start_tier : Tier
  pub is_auto : Bool
  pub active_tier : Tier
  pub pending_tier : Option Tier
  pub fx_pending : Bool
  pub bloom_suppressed : Bool
  pub overrides : Overrides
  pub applied : Option Applied
  pub resize_pending : Bool
  pub resizes : ℕ
  pub fps_time : ℕ
  pub fps_frames : ℕ

-- An explicit opt-in at a tier without shadows gets the medium map.
abbrev pub shadow_map_of : Bool → ℕ → ℕ
shadow_map_of enabled size = if enabled then (if size == 0 then 1024 else size) else 0

abbrev pub is_false : Value → Bool
is_false (boolean false) = true
is_false _ = false

abbrev pub grain_of : Value → ℕ → ℕ
grain_of override grain = if is_false override then 0 else grain

-- What `applyFX` tells the post stack and the shadow map.
unfoldable pub options_for : Tier → Overrides → Bool → Applied
unfolding settings_of
options_for active overrides suppressed =
    let tier : TierSettings = settings_of active in
    record {
      bloom = not suppressed && truthy (coalesce overrides.bloom (boolean tier.bloom));
      shafts = truthy (coalesce overrides.shafts (boolean tier.shafts));
      grain = grain_of overrides.grain tier.grain;
      shadow_map =
          shadow_map_of (truthy (coalesce overrides.shadows (boolean (ltb 0 tier.shadows))))
            tier.shadows;
    }

unfoldable pub apply_fx : Quality → Quality
apply_fx q = record q { applied = some (options_for q.active_tier q.overrides q.bloom_suppressed) }

unfoldable pub set_quality : String → Quality → Quality
unfolding tier_named
set_quality name q =
    if str_eq name "auto"
    then record q { is_auto = true; pending_tier = some q.start_tier }
    else elim (tier_named name) [
      | none ↦ q
      | some tier ↦ record q { is_auto = false; pending_tier = some tier }
    ]

-- `if (k in next) fxOverrides[k] = next[k]`
unfoldable pub field_or : String → List (String × Value) → Value → Value
field_or key [] old = old
field_or key ((k, v) ∷ rest) old = if str_eq k key then v else field_or key rest old

unfoldable pub set_fx : List (String × Value) → Quality → Quality
set_fx next q = record q {
  overrides = record {
    bloom = field_or "bloom" next q.overrides.bloom;
    shafts = field_or "shafts" next q.overrides.shafts;
    shadows = field_or "shadows" next q.overrides.shadows;
    grain = field_or "grain" next q.overrides.grain;
  };
  fx_pending = true;
}

unfoldable pub set_bloom_suppressed : Bool → Quality → Quality
set_bloom_suppressed next q =
    if same_flag q.bloom_suppressed next
    then q
    else record q { bloom_suppressed = next; fx_pending = true }

pub record Fx : Type 0 where
  pub bloom : Bool
  pub shafts : Bool
  pub grain : ℕ
  pub shadows : Bool

unfoldable pub get_preferred_fx : Quality → Fx
unfolding settings_of
get_preferred_fx q =
    let tier : TierSettings = settings_of (get_or q.pending_tier q.active_tier) in
    record {
      bloom = truthy (coalesce q.overrides.bloom (boolean tier.bloom));
      shafts = truthy (coalesce q.overrides.shafts (boolean tier.shafts));
      grain = grain_of q.overrides.grain tier.grain;
      shadows = truthy (coalesce q.overrides.shadows (boolean (ltb 0 tier.shadows)));
    }

unfoldable pub get_effective_fx : Quality → Fx
unfolding get_preferred_fx
get_effective_fx q =
    let preferred : Fx = get_preferred_fx q in
    record preferred { bloom = not q.bloom_suppressed && preferred.bloom }

abbrev pub is_other : Option Tier → Tier → Bool
is_other none active = false
is_other (some tier) active = not (same_tier tier active)

-- Resize, tier and effects take effect together, before a frame is drawn.
unfoldable pub apply_pending_configuration : Quality → Quality
unfolding apply_fx
apply_pending_configuration q =
    let changed : Bool = is_other q.pending_tier q.active_tier in
    let tiered : Quality = record q {
      pending_tier = none;
      active_tier = if changed then get_or q.pending_tier q.active_tier else q.active_tier;
    } in
    let sized : Quality =
      if q.resize_pending || changed
      then record tiered { resize_pending = false; resizes = q.resizes + 1 }
      else tiered in
    if changed || q.fx_pending then apply_fx (record sized { fx_pending = false }) else sized

-- The rolling window of auto quality: four seconds of frames shorter than a quarter of a second.
-- `45 * time` is compared with the frames, in place of a division.
unfoldable pub watch_fps : ℕ → Quality → Quality
unfolding tier_below
watch_fps delta q =
    let time : ℕ = q.fps_time + delta in
    let frames : ℕ = q.fps_frames + 1 in
    let slow : Bool = ltb (frames * 1000000) (45 * time) in
    let restarted : Quality = record q { fps_time = 0; fps_frames = 0 } in
    let counted : Quality = record q { fps_time = time; fps_frames = frames } in
    let lowered : Quality = elim (tier_below q.active_tier) [
      | none ↦ restarted
      | some tier ↦ if slow then record restarted { pending_tier = some tier } else restarted
    ] in
    if q.is_auto && ltb 0 delta && ltb delta 250000
    then (if leb 4000000 time then lowered else counted)
    else q

unfoldable pub new_quality : Tier → Quality
new_quality start = record {
  start_tier = start;
  is_auto = true;
  active_tier = start;
  pending_tier = none;
  fx_pending = false;
  bloom_suppressed = false;
  overrides = record { bloom = null; shafts = null; shadows = null; grain = null };
  applied = none;
  resize_pending = false;
  resizes = 0;
  fps_time = 0;
  fps_frames = 0;
}
