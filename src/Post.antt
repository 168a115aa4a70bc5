-- ===== src/Post.antt =====
-- frontend/src/3d/post.js: the post stack's options, sizes and passes. Daylight and the offset from the
-- frame are in thousandths, elevations in hundredths of a degree, grain and the colour fringe in
-- hundredths, the pixel ratio in parts of 100,000,000, the grade's uniforms in millionths (the grain in
-- ten-millionths). Tints, the shaders and the composer are left out; the camera's view of the light is an argument.
pub mod Gates
mod Tests
use aetheldesk.Base.{
  ℕ, ◌+◌, ◌-◌, ◌*◌, ◌/◌, min, max, String, Bool, true, false, not, ◌&&◌, ◌||◌, Option, none, some,
  ltb, ◌==◌, if◌then◌else◌, get_or, is_some,
}
use aetheldesk.Int.{ℤ, pos, above}

-- What the renderer says of an extension: none where it throws.
abbrev pub Extensions : Type 0
Extensions = Option (String → Option Bool)

-- hasExtension(a) || hasExtension(b), false where a call throws
abbrev pub either : Option Bool → Option Bool → Bool
either none b = false
either (some true) b = true
either (some false) b = get_or b false

unfoldable pub resolve_hdr : Extensions → Bool
resolve_hdr none = false
resolve_hdr (some has) = either (has "EXT_color_buffer_float") (has "EXT_color_buffer_half_float")

pub record Options : Type 0 where
  pub bloom : Bool
  pub grain : ℕ
  pub shafts : Bool
  pub ca : ℕ

-- The argument of setOptions; a field of another type is `none`.
pub record NextOptions : Type 0 where
  pub bloom : Option Bool
  pub grain : Option ℕ
  pub shafts : Option Bool
  pub ca : Option ℕ

pub record Uniforms : Type 0 where
  pub night : ℕ
  pub black : ℕ
  pub vignette : ℕ
  pub saturation : ℕ
  pub grain : ℕ
  pub ca : ℕ
  pub bloom_strength : ℕ
  pub bloom_radius : ℕ
  pub bloom_threshold : ℕ

pub record PostFx : Type 0 where
  pub hdr : Bool
  pub options : Options
  pub bloom_enabled : Bool
  pub shafts_enabled : Bool
  pub light_world_set : Bool
  pub composer_width : ℕ
  pub composer_height : ℕ
  -- The texel size is 1 over each of these.
  pub texels : ℕ × ℕ
  pub uniforms : Option Uniforms
  pub time : ℕ
  pub disposed : Bool
  pub disposals : ℕ

pub record Atmosphere : Type 0 where
  pub daylight : ℕ
  pub elevation : ℤ

-- How the camera sees the light: behind it, or off the frame by so much.
pub data View : Type 0 where
  behind : View
  offscreen : ℕ → View

abbrev pub physical : ℕ → ℕ → ℕ
physical ratio size = max 1 (size * ratio / 100000000)

unfoldable pub create_post_fx : Extensions → ℕ → ℕ → ℕ → PostFx
unfolding resolve_hdr
create_post_fx extensions ratio width height = record {
  hdr = resolve_hdr extensions;
  options = record { bloom = true; grain = 100; shafts = true; ca = 100 };
  bloom_enabled = resolve_hdr extensions;
  shafts_enabled = resolve_hdr extensions;
  light_world_set = false;
  composer_width = physical ratio width;
  composer_height = physical ratio height;
  texels = (physical ratio width, physical ratio height);
  uniforms = none;
  time = 0;
  disposed = false;
  disposals = 0;
}

unfoldable pub set_options : Option NextOptions → PostFx → PostFx
set_options none p = p
set_options (some next) p =
    let options : Options = record {
      bloom = get_or next.bloom p.options.bloom;
      grain = get_or next.grain p.options.grain;
      shafts = get_or next.shafts p.options.shafts;
      ca = get_or next.ca p.options.ca;
    } in
    record p { options = options; bloom_enabled = p.hdr && options.bloom }

unfoldable pub set_light_world_position : PostFx → PostFx
set_light_world_position p = record p { light_world_set = true }

unfoldable pub set_size : ℕ → ℕ → ℕ → PostFx → PostFx
set_size ratio width height p =
    let w : ℕ = physical ratio width in
    let h : ℕ = physical ratio height in
    if p.composer_width == w && p.composer_height == h
    then p
    else record p { composer_width = w; composer_height = h; texels = (w, h) }

unfoldable pub grade_for : Options → ℕ → Uniforms
grade_for o day =
    let night : ℕ = 1000 - day in
    record {
      night = night * 1000;
      black = 4000 + day * 18;
      vignette = 220000 + night * 190;
      saturation = 1100000 + night * 75;
      grain = (85000 + night * 35) * o.grain;
      ca = 5500 * o.ca;
      bloom_strength = 140000 + night * 270;
      bloom_radius = 480000 + night * 120;
      bloom_threshold = 1000000 + day * 80;
    }

unfoldable pub apply_grade : Option Atmosphere → PostFx → PostFx
unfolding grade_for
apply_grade none p = p
apply_grade (some a) p = record p { uniforms = some (grade_for p.options a.daylight) }

-- smoothstep(edge0, edge1, x), times the cube of the distance of the edges
unfoldable pub smoothstep_part : ℤ → ℤ → ℤ → ℕ
smoothstep_part edge0 edge1 x =
    let span : ℕ = above edge1 edge0 in
    let t : ℕ = min span (above x edge0) in t * t * (3 * span - 2 * t)

-- intensity < 0.004, with both sides times the denominators
unfoldable pub is_faint : Atmosphere → ℕ → Bool
unfolding smoothstep_part
is_faint a off =
    let low_whole : ℕ = 2200 * 2200 * 2200 in
    let edge_whole : ℕ = 470 * 470 * 470 in
    let low_sun : ℕ = low_whole - smoothstep_part (pos 800) (pos 3000) a.elevation in
    let edge_fade : ℕ = edge_whole - smoothstep_part (pos 80) (pos 550) (pos off) in
    ltb ((a.daylight * low_sun * 700 + (1000 - a.daylight) * 120 * low_whole) * edge_fade)
      (4000 * low_whole * edge_whole)

abbrev pub in_view : View → Atmosphere → Bool
in_view behind a = false
in_view (offscreen off) a = not (is_faint a off)

unfoldable pub update_shafts : View → Option Atmosphere → Bool → PostFx → PostFx
update_shafts view none reduced_motion p = record p { shafts_enabled = false }
update_shafts view (some a) reduced_motion p = record p {
  shafts_enabled =
      if not p.hdr || not p.light_world_set || not p.options.shafts || reduced_motion
      then false
      else in_view view a;
}

unfoldable pub render : View → Option Atmosphere → ℕ → Bool → PostFx → PostFx
unfolding apply_grade update_shafts
render view a elapsed reduced_motion p =
    record (update_shafts view a reduced_motion (apply_grade a p)) {
      time = if reduced_motion then 0 else elapsed;
    }

unfoldable pub dispose : PostFx → PostFx
dispose p = if p.disposed then p else record p { disposed = true; disposals = p.disposals + 1 }
