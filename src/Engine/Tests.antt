-- ===== src/Engine/Tests.antt =====
-- A few frames, for the properties of engine.js.
use aetheldesk.Base.{
  Bool, ◌+◌, none, ℕ, zero, suc, ◌*◌, leb, if◌then◌else◌, arith, ◌≡◌, ◌≤◌, refl, true, false, some,
  List, [], ◌∷◌, All,
}
use aetheldesk.Js.{boolean}
use aetheldesk.Engine.Tiers.{high, tier_named, settings_of}
use aetheldesk.Engine.Quality.{
  Quality, Applied, apply_pending_configuration, set_fx, set_quality, get_effective_fx, new_quality,
  apply_fx, options_for, field_or,
}
use aetheldesk.Engine.Quality.Laws.{Matches, here, next, quality_set, fx_set, drawn_as_reported}
use aetheldesk.Engine.Frames.{
  drawn, shader_fails, asks_stable, frame, presents, content_arrives, run, new_loop, Event,
}
use aetheldesk.Engine.Resolution.{Extent, Container, create_metrics}
use aetheldesk.Engine.Resolution.Budget.{
  Call, sets_quality, resizes, configures, counts_frame, perform_all, IsWithin,
  perform_all-IsWithin,
}
use aetheldesk.Engine.Shadows.{Light, Shadows, apply_shadows}
use aetheldesk.Engine.Shadows.Casting
use aetheldesk.Engine.Shadows.Casting.{sets_source, applies, draws, IsCast, perform_all-IsCast}
use aetheldesk.Engine.Pointer.{Pointer, drag, on_pointer_down, create_pointer}
use aetheldesk.Engine.Pointer.Drag.{IsFreeTo, drag_through, drag-drag_through}
use aetheldesk.Int.{ℤ, pos, negsuc}
use aetheldesk.Engine.Resources.{
  of_shadow_map, of_texture, of_material, of_geometry, texture, array, other, nil, cons, Materials,
  SceneObject, Scene, has, add, collect_texture, dispose_scene_resources,
}
use aetheldesk.Engine.Resources.Disposals.{IsDisposed, dispose_scene_resources-IsDisposed}
use aetheldesk.Engine.Frames.Laws.{IsKept, run_kept}

abbrev frames : List Event
frames =
    content_arrives
    ∷ asks_stable
    ∷ frame false drawn
    ∷ presents
    ∷ asks_stable
    ∷ frame false shader_fails
    ∷ asks_stable
    ∷ []

run_kept_example : let e = run frames new_loop in All IsKept e.resolved × (e.fatal_calls ≤ 1)
run_kept_example = run_kept frames

abbrev chosen : Quality
chosen = set_fx (("bloom", boolean false) ∷ []) (set_quality "low" (new_quality high))

abbrev told : Applied
told = record { bloom = false; shafts = false; grain = 50; shadow_map = 0 }

chosen_applied : (apply_pending_configuration chosen).applied ≡ some told
unfolding apply_pending_configuration apply_fx set_fx set_quality new_quality tier_named options_for
    settings_of field_or
chosen_applied = refl

drawn_as_reported_example : Matches (get_effective_fx chosen) told
drawn_as_reported_example =
    drawn_as_reported high chosen told
      (next (next here (quality_set "low")) (fx_set (("bloom", boolean false) ∷ []))) chosen_applied

-- The square root, rounded down.
unfoldable isqrt : ℕ → ℕ
isqrt zero = 0
isqrt (suc n) = let r : ℕ = isqrt n in if leb ((r + 1) * (r + 1)) (suc n) then r + 1 else r

isqrt-le : (n : ℕ) → isqrt n * isqrt n ≤ n
unfolding isqrt
isqrt-le zero = omega arith
isqrt-le (suc n) = let h = isqrt-le n in ground arith

abbrev extent : ℕ → Extent
extent size = record { rect = size; client = size; window = size }

abbrev container : ℕ → ℕ → Container
container width height = record {
  width = extent width;
  height = extent height;
  device_pixel_ratio = 200000000;
}

abbrev session : List Call
session =
    sets_quality "ultra"
    ∷ configures (container 1920 1080)
    ∷ counts_frame 16667
    ∷ resizes
    ∷ configures (container 3840 2160)
    ∷ []

perform_all-IsWithin_example :
    let r =
      perform_all isqrt session
        (new_quality high, create_metrics isqrt none high (container 1920 1080)) in
    IsWithin r.0.active_tier r.1
perform_all-IsWithin_example =
    perform_all-IsWithin isqrt isqrt-le none high (container 1920 1080) session

abbrev light : ℕ → Light
light name = record {
  name = name;
  is_directional_light = true;
  has_shadow = true;
  cast_shadow = true;
  map_size = 512;
  has_map = true;
  disposals = 0;
}

abbrev shadows : Shadows
shadows = record {
  shadow_source = none;
  active_shadow_map_size = 0;
  enabled = true;
  recompiles = 0;
  lights = light 1 ∷ light 2 ∷ [];
}

abbrev draws_all : ℕ → Bool
draws_all n = true

perform_all-IsCast_example : IsCast (
    Casting.perform_all
      (sets_source (some (light 2)) ∷ draws draws_all ∷ applies 2048 ∷ [])
      (apply_shadows 1024 shadows))
perform_all-IsCast_example =
    perform_all-IsCast 1024 shadows
      (sets_source (some (light 2)) ∷ draws draws_all ∷ applies 2048 ∷ [])

abbrev pressed : Pointer
pressed = on_pointer_down true false (pos 100) (pos 80) create_pointer

abbrev places : List (ℤ × ℤ)
places = (pos 140, pos 60) ∷ (negsuc 9, pos 90) ∷ []

is_down : pressed.is_pointer_down ≡ true
unfolding on_pointer_down
is_down = refl

places_free : All (IsFreeTo pressed) places
unfolding on_pointer_down
places_free = ground arith

drag-drag_through_example :
    drag (pos 110) (pos 70) (drag_through places pressed) ≡ drag (pos 110) (pos 70) pressed
drag-drag_through_example = drag-drag_through places (pos 110) (pos 70) pressed is_down places_free

-- Two objects that share a geometry and a material, with a texture in an array.
abbrev stuff : Materials
stuff = record {
  values = λ m. cons (texture 7) (cons (array (cons (texture 8) (cons (texture 7) nil))) nil);
  uniforms = λ m. nil;
}

abbrev tree : SceneObject
tree = record {
  geometry = some 1;
  materials = some 3 ∷ none ∷ [];
  custom_depth_material = none;
  custom_distance_material = some 4;
  bone_texture = other;
  shadow_map = none;
}

abbrev lamp : SceneObject
lamp = record tree { geometry = none; materials = none ∷ []; shadow_map = some 5 }

abbrev grove : Scene
grove = record {
  background = texture 7;
  environment = other;
  override_material = none;
  objects = tree ∷ lamp ∷ tree ∷ [];
}

grove_textures :
    dispose_scene_resources stuff grove
    ≡ of_shadow_map 5
      ∷ of_texture 7
      ∷ of_texture 8
      ∷ of_material 3
      ∷ of_material 4
      ∷ of_geometry 1
      ∷ []
unfolding dispose_scene_resources collect_texture add has
grove_textures = refl

dispose_scene_resources-IsDisposed_example :
    IsDisposed stuff grove (dispose_scene_resources stuff grove)
dispose_scene_resources-IsDisposed_example = dispose_scene_resources-IsDisposed stuff grove
