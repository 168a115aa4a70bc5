-- ===== src/SceneManager/Updates.antt =====
-- What the frame loop, the sky and the settings ask of the scene manager.
use aetheldesk.Base.{
  ℕ, Bool, true, false, not, ◌&&◌, ◌||◌, Option, none, some, List, [], ◌∷◌, ◌==◌, if◌then◌else◌,
  is_some, same_flag,
}
use aetheldesk.SceneManager.State.{
  sky, Method, celestial, frame, light, mica, shafts, aspect, ratio, Phase, celestial_update,
  frame_update, light_update, effect_update, viewport_update, pixel_ratio_update, Scene, has,
}
use aetheldesk.SceneManager.{
  World, Manager, invoke, switch_scene, recover_active_scene, method_of, retry_unless,
}

-- `none` is a value that is not finite, `some 0` one that is not positive.
unfoldable pub is_news : Option ℕ → ℕ → Bool
is_news none old = false
is_news (some value) old = not (value == 0) && not (value == old)

module _ (w : World) where
  -- `for (const [name, scene] of Object.entries(scenes))`: scenes without the method, or failed,
  -- are passed over.
  unfoldable pub invoke_all : Phase → Method → List Scene → Manager → Manager
  invoke_all phase method [] m = m
  invoke_all phase method (s ∷ ss) m = invoke_all phase method ss (
      if not (s.methods method) || has s.name m.failed
      then m
      else (invoke w s.name phase method m).1)

  unfoldable pub update_celestial : ℕ → Option ℕ → Manager → Manager
  update_celestial c atmosphere m =
      let seen : Manager = record m {
        last_celestial = some c;
        last_atmosphere = if is_some atmosphere then atmosphere else m.last_atmosphere;
      } in
      recover_active_scene w (invoke_all celestial_update celestial seen.scenes seen)

  -- The fallback takes over within the frame.
  unfoldable pub update_fallback : Manager → Manager
  update_fallback m =
      let m' : Manager = switch_scene w sky true m in
      if method_of frame m'.active m' && not (has m'.active m'.failed)
      then (invoke w m'.active frame_update frame m').1
      else m'

  unfoldable pub update : Option ℕ → Manager → Manager
  unfolding update_fallback
  update atmosphere m =
      let seen : Manager = record m {
        last_atmosphere = if is_some atmosphere then atmosphere else m.last_atmosphere;
      } in
      if not (method_of frame seen.active seen) || has seen.active seen.failed
      then seen
      else retry_unless update_fallback seen.active (invoke w seen.active frame_update frame seen)

  unfoldable pub set_light_direction : ℕ → Manager → Manager
  set_light_direction direction m =
      let lit : Manager = record m { light_direction = some direction } in
      if not (method_of light lit.active lit) || has lit.active lit.failed
      then lit
      else retry_unless (switch_scene w sky true) lit.active
          (invoke w lit.active light_update light lit)

  unfoldable pub set_mica_enabled : Bool → Manager → Manager
  set_mica_enabled enabled m =
      let set : Manager = record m { mica_enabled = enabled } in
      recover_active_scene w (invoke_all effect_update mica set.scenes set)

  -- Only a change is passed on.
  unfoldable pub set_shafts_enabled : Bool → Manager → Manager
  set_shafts_enabled enabled m =
      let set : Manager = record m { shafts_enabled = enabled } in
      let told : Manager =
        recover_active_scene w (invoke_all effect_update shafts set.scenes set) in
      if same_flag enabled m.shafts_enabled then m else told

  unfoldable pub set_viewport_aspect : Option ℕ → Manager → Manager
  unfolding is_news
  set_viewport_aspect none m = m
  set_viewport_aspect (some value) m =
      let set : Manager = record m { viewport_aspect = value } in
      let told : Manager =
        recover_active_scene w (invoke_all viewport_update aspect set.scenes set) in
      if is_news (some value) m.viewport_aspect then told else m

  unfoldable pub set_pixel_ratio : Option ℕ → Manager → Manager
  unfolding is_news
  set_pixel_ratio none m = m
  set_pixel_ratio (some value) m =
      let set : Manager = record m { pixel_ratio = value } in
      let told : Manager =
        recover_active_scene w (invoke_all pixel_ratio_update ratio set.scenes set) in
      if is_news (some value) m.pixel_ratio then told else m
