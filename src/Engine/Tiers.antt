-- ===== src/Engine/Tiers.antt =====
-- engine.js: the quality tiers and their settings. Ratios and grain are counted in hundredths.
use aetheldesk.Base.{
  ℕ, String, Bool, true, false, ◌||◌, Option, none, some, leb, ◌==◌, str_eq, if◌then◌else◌,
}

pub data Tier : Type 0 where
  low medium high ultra : Tier

pub record TierSettings : Type 0 where
  pub dpr_cap : ℕ
  pub render_scale : ℕ
  pub max_pixels : ℕ
  pub shadows : ℕ
  pub bloom : Bool
  pub shafts : Bool
  pub grain : ℕ

-- QUALITY_TIERS
unfoldable pub settings_of : Tier → TierSettings
settings_of low = record {
  dpr_cap = 100;
  render_scale = 100;
  max_pixels = 2073600;
  shadows = 0;
  bloom = false;
  shafts = false;
  grain = 50;
}
settings_of medium = record {
  dpr_cap = 150;
  render_scale = 100;
  max_pixels = 3686400;
  shadows = 1024;
  bloom = true;
  shafts = false;
  grain = 75;
}
settings_of high = record {
  dpr_cap = 200;
  render_scale = 100;
  max_pixels = 5000000;
  shadows = 2048;
  bloom = true;
  shafts = true;
  grain = 100;
}
settings_of ultra = record {
  dpr_cap = 200;
  render_scale = 125;
  max_pixels = 8294400;
  shadows = 2048;
  bloom = true;
  shafts = true;
  grain = 100;
}

-- TIER_ORDER, with the step that the watchdog takes from each
unfoldable pub tier_below : Tier → Option Tier
tier_below low = none
tier_below medium = some low
tier_below high = some medium
tier_below ultra = some high

abbrev pub tier_number : Tier → ℕ
tier_number low = 0
tier_number medium = 1
tier_number high = 2
tier_number ultra = 3

abbrev pub same_tier : Tier → Tier → Bool
same_tier a b = tier_number a == tier_number b

unfoldable pub tier_named : String → Option Tier
tier_named name =
    if str_eq name "low"
    then some low
    else if str_eq name "medium"
    then some medium
    else if str_eq name "high"
    then some high
    else if str_eq name "ultra"
    then some ultra
    else none

-- AUTO_START_TIER, from the pointer and the number of cores where the browser tells it
unfoldable pub auto_start_tier : Bool → Option ℕ → Tier
auto_start_tier coarse_pointer none = if coarse_pointer then medium else high
auto_start_tier coarse_pointer (some cores) = if coarse_pointer || leb cores 4 then medium else high
