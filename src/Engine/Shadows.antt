-- ===== src/Engine/Shadows.antt =====
-- engine.js: which light casts shadows. A light is known by a number, and the scene is seen as the list of
-- its lights.
pub mod Casting
use aetheldesk.Base.{
  ℕ, ◌+◌, Bool, true, false, not, ◌&&◌, Option, none, some, List, map, ltb, ◌==◌, if◌then◌else◌,
  is_some, same_flag,
}

pub record Light : Type 0 where
  pub name : ℕ
  pub is_directional_light : Bool
  pub has_shadow : Bool
  pub cast_shadow : Bool
  pub map_size : ℕ
  pub has_map : Bool
  pub disposals : ℕ

pub record Shadows : Type 0 where
  pub shadow_source : Option ℕ
  pub active_shadow_map_size : ℕ
  pub enabled : Bool
  pub recompiles : ℕ
  pub lights : List Light

abbrev pub is_source : Option ℕ → Light → Bool
is_source none l = false
is_source (some name) l = name == l.name

-- if (o.shadow.map) { o.shadow.map.dispose(); o.shadow.map = null; }
abbrev pub dispose_map : Light → Light
dispose_map l = if l.has_map then record l { has_map = false; disposals = l.disposals + 1 } else l

unfoldable pub apply_to_light : Bool → Option ℕ → ℕ → Light → Light
apply_to_light enabled source size l =
    let should_cast : Bool = enabled && is_source source l in
    let told : Light = record l { cast_shadow = should_cast } in
    let dropped : Light = if should_cast then told else dispose_map told in
    if l.is_directional_light && l.has_shadow
    then if should_cast && not (l.map_size == size)
      then dispose_map (record dropped { map_size = size })
      else dropped
    else l

unfoldable pub apply_shadows : ℕ → Shadows → Shadows
unfolding apply_to_light
apply_shadows size s =
    let enabled : Bool = ltb 0 size && is_some s.shadow_source in
    record s {
      active_shadow_map_size = size;
      enabled = enabled;
      recompiles = if same_flag s.enabled enabled then s.recompiles else s.recompiles + 1;
      lights = map (apply_to_light enabled s.shadow_source size) s.lights;
    }

abbrev pub directional : Option Light → Option ℕ
directional none = none
directional (some l) = if l.is_directional_light then some l.name else none

abbrev pub same_source : Option ℕ → Option ℕ → Bool
same_source none none = true
same_source (some a) (some b) = a == b
same_source _ _ = false

unfoldable pub set_shadow_source : Option Light → Shadows → Shadows
unfolding apply_shadows
set_shadow_source light s =
    if same_source s.shadow_source (directional light)
    then s
    else apply_shadows s.active_shadow_map_size (record s { shadow_source = directional light })
