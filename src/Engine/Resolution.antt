-- ===== src/Engine/Resolution.antt =====
-- engine.js: the size of the drawing buffer. Sizes are in whole CSS pixels, pixel ratios in parts of
-- 100,000,000, rounded down; `Math.sqrt` is an argument. The post stack is that of post.js.
pub mod Budget
use aetheldesk.Base.{
  ℕ, ◌+◌, ◌*◌, ◌/◌, min, max, Bool, true, false, not, ◌&&◌, ◌||◌, Option, none, some, ◌==◌,
  if◌then◌else◌, get_or, ltb,
}
use aetheldesk.Engine.Tiers.{Tier, TierSettings, settings_of}
use aetheldesk.Engine.Quality.{Quality, is_other, apply_pending_configuration, new_quality}
use aetheldesk.Post.{Extensions, PostFx, create_post_fx, set_size}

-- What the browser says of one side of the container: its rectangle, the client size, the window.
pub record Extent : Type 0 where
  pub rect : ℕ
  pub client : ℕ
  pub window : ℕ

pub record Container : Type 0 where
  pub width : Extent
  pub height : Extent
  pub device_pixel_ratio : ℕ

-- a || b
abbrev pub or_else : ℕ → ℕ → ℕ
or_else a b = if a == 0 then b else a

abbrev pub size_of : Extent → ℕ
size_of e = max 1 (or_else e.rect (or_else e.client e.window))

unfoldable pub get_container_size : Container → ℕ × ℕ
get_container_size c = (size_of c.width, size_of c.height)

pub record Metrics : Type 0 where
  pub renderer_width : ℕ
  pub renderer_height : ℕ
  pub renderer_pixel_ratio : ℕ
  pub camera_aspect : ℕ × ℕ
  pub allocations : ℕ
  pub post : PostFx

-- The pixels of the drawing buffer along a side.
abbrev pub drawn : ℕ → ℕ → ℕ
drawn ratio size = size * ratio / 100000000

-- Math.abs(rendererPixelRatio - nextPixelRatio) < 1e-4
abbrev pub is_near : ℕ → ℕ → Bool
is_near old next = ltb old (next + 10000) && ltb next (old + 10000)

module _ (sqrt : ℕ → ℕ) where
  unfoldable pub resolve_pixel_ratio : Tier → ℕ → ℕ → ℕ → ℕ
  unfolding settings_of
  resolve_pixel_ratio active device_pixel_ratio width height =
      let tier : TierSettings = settings_of active in
      let base : ℕ =
        min (or_else device_pixel_ratio 100000000) (tier.dpr_cap * 1000000)
        * tier.render_scale
        / 100 in
      let area_cap_ratio : ℕ =
        sqrt (tier.max_pixels * (100000000 * 100000000) / (width * height)) in
      min 200000000 (min base area_cap_ratio)

  unfoldable pub apply_renderer_metrics : Tier → ℕ → ℕ × ℕ → Metrics → Metrics
  apply_renderer_metrics active device_pixel_ratio (width, height) m =
      let next : ℕ = resolve_pixel_ratio active device_pixel_ratio width height in
      let kept : Bool =
        is_near m.renderer_pixel_ratio next
        && m.renderer_width == width
        && m.renderer_height == height in
      if kept then m else record m {
        renderer_width = width;
        renderer_height = height;
        renderer_pixel_ratio = next;
        allocations = m.allocations + 1;
        post = set_size next width height m.post;
      }

  -- applyPendingConfiguration, with the part of it that resizes
  unfoldable pub configure : Container → Quality × Metrics → Quality × Metrics
  unfolding apply_renderer_metrics get_container_size
  configure c (q, m) =
      let after : Quality = apply_pending_configuration q in
      let size : ℕ × ℕ = get_container_size c in
      let resized : Metrics =
        apply_renderer_metrics after.active_tier c.device_pixel_ratio size
          (record m { camera_aspect = size }) in
      (after, if q.resize_pending || is_other q.pending_tier q.active_tier then resized else m)

  -- The part of create3DEngine that sizes the renderer and builds the post stack.
  unfoldable pub create_metrics : Extensions → Tier → Container → Metrics
  unfolding get_container_size
  create_metrics extensions start c =
      let (width, height) = get_container_size c in
      let dpr : ℕ = resolve_pixel_ratio start c.device_pixel_ratio width height in
      record {
        renderer_width = width;
        renderer_height = height;
        renderer_pixel_ratio = dpr;
        camera_aspect = (width, height);
        allocations = 1;
        post = create_post_fx extensions dpr width height;
      }

-- applyResize
unfoldable pub apply_resize : Quality → Quality
apply_resize q = record q { resize_pending = true }
