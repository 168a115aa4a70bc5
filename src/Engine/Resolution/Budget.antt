-- ===== src/Engine/Resolution/Budget.antt =====
-- engine.js: lemmas on the size of the drawing buffer after any history.
use native.Mathlib.Nat.{
  div-mul-le_self, mul-le-mul, le_of_mul-le-mul_right, mul-mul-mul_comm, le_trans, mul_comm,
}
use aetheldesk.Base.{
  ℕ, ◌+◌, ◌*◌, ◌/◌, ◌≤◌, ◌<◌, ◌≡◌, refl, sym, subst, Bool, true, false, ◌||◌, String, List, [], ◌∷◌,
  arith, inl, inr, Bool-cases,
}
use aetheldesk.Js.{Value}
use aetheldesk.Engine.Tiers.{Tier, settings_of}
use aetheldesk.Engine.Quality.{
  Quality, apply_pending_configuration, apply_fx, watch_fps, set_quality, set_fx,
  set_bloom_suppressed, new_quality, is_other,
}
use aetheldesk.Engine.Resolution.{
  Container, Metrics, get_container_size, drawn, resolve_pixel_ratio, apply_renderer_metrics,
  configure, create_metrics, apply_resize,
}
use aetheldesk.Post.{Extensions, physical, create_post_fx, set_size}

tier_stays :
    (q : Quality)
    → is_other q.pending_tier q.active_tier ≡ false
    → (apply_pending_configuration q).active_tier ≡ q.active_tier
unfolding apply_pending_configuration apply_fx
tier_stays q e = ground arith

or-right : (a b : Bool) → a || b ≡ false → b ≡ false
or-right true b e = cc
or-right false b e = e

-- What holds of the metrics while a tier is active. The tier allows a ratio `allowed` that is less than
-- 0.0001 away from the ratio in force.
pub record IsWithin (t : Tier) (m : Metrics) : Type 0 where
  pub allowed : ℕ
  pub budget :
      drawn allowed m.renderer_width * drawn allowed m.renderer_height ≤ (settings_of t).max_pixels
  pub below : m.renderer_pixel_ratio < allowed + 10000
  pub above : allowed < m.renderer_pixel_ratio + 10000
  pub capped : m.renderer_pixel_ratio ≤ 200000000
  pub wide : m.post.composer_width ≡ physical m.renderer_pixel_ratio m.renderer_width
  pub high : m.post.composer_height ≡ physical m.renderer_pixel_ratio m.renderer_height

kept-IsWithin : {t t' : Tier} (m : Metrics) → t' ≡ t → IsWithin t m → IsWithin t' m
kept-IsWithin m e k = subst (λ (t : Tier). IsWithin t m) (sym e) k

-- Two counts rounded down to units of `k`: their product stays within a bound of the product.
product_bound : (a b k m : ℕ) → 0 < k * k → a * b ≤ m * (k * k) → (a / k) * (b / k) ≤ m
product_bound a b k m pos_k h =
    let units : (a / k) * (b / k) * (k * k) ≤ m * (k * k) =
      subst (λ (x : ℕ). x ≤ m * (k * k)) (sym (mul-mul-mul_comm (a / k) (b / k) k k))
        (le_trans (mul-le-mul (div-mul-le_self a k) (div-mul-le_self b k)) h) in
    le_of_mul-le-mul_right units pos_k

-- A ratio whose square is within the budget of a pixel of the page.
area_bound : (w h r budget : ℕ) → r * r ≤ budget / (w * h) → w * r * (h * r) ≤ budget
area_bound w h r budget k =
    subst (λ (x : ℕ). x ≤ budget) (sym (mul-mul-mul_comm w r h r))
      (subst (λ (x : ℕ). x ≤ budget) (mul_comm (r * r) (w * h))
        (le_trans (mul-le-mul k (omega arith)) (div-mul-le_self budget (w * h))))

module _ (sqrt : ℕ → ℕ) (sqrt-le : (n : ℕ) → sqrt n * sqrt n ≤ n) where
  ratio-budget :
      (t : Tier) (dpr w h : ℕ)
      → let r = resolve_pixel_ratio sqrt t dpr w h in
        drawn r w * drawn r h ≤ (settings_of t).max_pixels
  unfolding resolve_pixel_ratio
  ratio-budget t dpr w h =
      let budget : ℕ = (settings_of t).max_pixels * (100000000 * 100000000) in
      let r : ℕ = resolve_pixel_ratio sqrt t dpr w h in
      let small : r ≤ sqrt (budget / (w * h)) = omega arith in
      product_bound (w * r) (h * r) 100000000 (settings_of t).max_pixels (omega arith)
        (area_bound w h r budget (le_trans (mul-le-mul small small) (sqrt-le (budget / (w * h)))))

  ratio-capped : (t : Tier) (dpr w h : ℕ) → resolve_pixel_ratio sqrt t dpr w h ≤ 200000000
  unfolding resolve_pixel_ratio
  ratio-capped t dpr w h = omega arith

  apply_metrics-IsWithin :
      (t old : Tier) (dpr w h : ℕ) (m : Metrics)
      → IsWithin old m
      → IsWithin t (apply_renderer_metrics sqrt t dpr (w, h) m)
  unfolding apply_renderer_metrics set_size
  apply_metrics-IsWithin t old dpr w h m k =
      let b = ratio-budget t dpr w h in
      let c = ratio-capped t dpr w h in
      record {
        allowed = resolve_pixel_ratio sqrt t dpr w h;
        budget = ground arith;
        below = ground arith;
        above = ground arith;
        capped = ground arith;
        wide = ground arith;
        high = ground arith;
      }

  configure-IsWithin :
      (c : Container) (q : Quality) (m : Metrics)
      → IsWithin q.active_tier m
      → let r = configure sqrt c (q, m) in IsWithin r.0.active_tier r.1
  unfolding configure
  configure-IsWithin c q m k =
      let (w, h) = get_container_size c in
      let seen : Metrics = record m { camera_aspect = (w, h) } in
      elim (Bool-cases (q.resize_pending || is_other q.pending_tier q.active_tier)) [
        | inl e ↦ rw e (
            apply_metrics-IsWithin (apply_pending_configuration q).active_tier q.active_tier
              c.device_pixel_ratio w h seen
              (record {
                allowed = k.allowed;
                budget = k.budget;
                below = k.below;
                above = k.above;
                capped = k.capped;
                wide = k.wide;
                high = k.high;
              }))
        | inr e ↦ rw e (kept-IsWithin m (tier_stays q (or-right _ _ e)) k)
      ]

-- What changes the quality and the size: settings, the window, and the two steps of a frame.
pub data Call : Type 0 where
  sets_quality : String → Call
  sets_fx : List (String × Value) → Call
  sets_bloom : Bool → Call
  resizes : Call
  configures : Container → Call
  counts_frame : ℕ → Call

unfoldable pub perform : (ℕ → ℕ) → Call → Quality × Metrics → Quality × Metrics
perform sqrt (sets_quality name) (q, m) = (set_quality name q, m)
perform sqrt (sets_fx fx) (q, m) = (set_fx fx q, m)
perform sqrt (sets_bloom b) (q, m) = (set_bloom_suppressed b q, m)
perform sqrt resizes (q, m) = (apply_resize q, m)
perform sqrt (configures c) e = configure sqrt c e
perform sqrt (counts_frame delta) (q, m) = (watch_fps delta q, m)

unfoldable pub perform_all : (ℕ → ℕ) → List Call → Quality × Metrics → Quality × Metrics
unfolding perform
perform_all sqrt [] e = e
perform_all sqrt (k ∷ ks) e = perform_all sqrt ks (perform sqrt k e)

tier-set_quality : (name : String) (q : Quality) → (set_quality name q).active_tier ≡ q.active_tier
unfolding set_quality
tier-set_quality name q = ground arith

tier-set_bloom : (b : Bool) (q : Quality) → (set_bloom_suppressed b q).active_tier ≡ q.active_tier
unfolding set_bloom_suppressed
tier-set_bloom b q = ground arith

tier-watch_fps : (delta : ℕ) (q : Quality) → (watch_fps delta q).active_tier ≡ q.active_tier
unfolding watch_fps
tier-watch_fps delta q = ground arith

module _ (sqrt : ℕ → ℕ) (sqrt-le : (n : ℕ) → sqrt n * sqrt n ≤ n) where
  perform-IsWithin :
      (k : Call) (e : Quality × Metrics)
      → IsWithin e.0.active_tier e.1
      → let r = perform sqrt k e in IsWithin r.0.active_tier r.1
  unfolding perform apply_resize set_fx
  perform-IsWithin (sets_quality name) (q, m) h = kept-IsWithin m (tier-set_quality name q) h
  perform-IsWithin (sets_fx fx) (q, m) h = h
  perform-IsWithin (sets_bloom b) (q, m) h = kept-IsWithin m (tier-set_bloom b q) h
  perform-IsWithin resizes (q, m) h = h
  perform-IsWithin (configures c) (q, m) h = configure-IsWithin sqrt sqrt-le c q m h
  perform-IsWithin (counts_frame delta) (q, m) h = kept-IsWithin m (tier-watch_fps delta q) h

  perform_from-IsWithin :
      (ks : List Call) (e : Quality × Metrics)
      → IsWithin e.0.active_tier e.1
      → let r = perform_all sqrt ks e in IsWithin r.0.active_tier r.1
  unfolding perform_all
  perform_from-IsWithin [] e h = h
  perform_from-IsWithin (k ∷ ks) e h = perform_from-IsWithin ks _ (perform-IsWithin k e h)

  create-IsWithin :
      (extensions : Extensions) (start : Tier) (c : Container)
      → IsWithin start (create_metrics sqrt extensions start c)
  unfolding create_metrics create_post_fx
  create-IsWithin extensions start c =
      let (w, h) = get_container_size c in
      record {
        allowed = resolve_pixel_ratio sqrt start c.device_pixel_ratio w h;
        below = omega arith;
        above = omega arith;
        budget = ratio-budget sqrt sqrt-le start c.device_pixel_ratio w h;
        capped = ratio-capped sqrt sqrt-le start c.device_pixel_ratio w h;
        wide = refl;
        high = refl;
      }

  -- Whatever settings, sizes of the window and frames a new engine sees, in any order, its pixel
  -- ratio is less than 0.0001 away from one with which the drawing buffer has no more pixels than the
  -- active tier allows, it is at most two, and the post stack has the buffer's size (at least one pixel
  -- wide and high); a square root squared is to be at most the number.
  pub perform_all-IsWithin :
      (extensions : Extensions) (start : Tier) (c : Container) (ks : List Call)
      → let r = perform_all sqrt ks (new_quality start, create_metrics sqrt extensions start c) in
        IsWithin r.0.active_tier r.1
  unfolding new_quality
  perform_all-IsWithin extensions start c ks =
      perform_from-IsWithin ks _ (create-IsWithin extensions start c)
