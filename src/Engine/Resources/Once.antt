-- ===== src/Engine/Resources/Once.antt =====
-- engine.js: lemmas on what a scene adds to the three sets.
use aetheldesk.Base.{ℕ, ◌≡◌, Bool, false, Option, none, some, List, [], ◌∷◌, ◌||◌, arith}
use aetheldesk.Engine.Resources.{
  Materials, SceneObject, Scene, Collected, has, add_some, collect_material, collect_materials,
  maps_after, collect_object, collect_objects, collect_scene,
}
use aetheldesk.Engine.Resources.Collect.{
  IsUnique, has-add, add-IsUnique, holds, is_named, material_holds, IsSound, Gains, Gains-trans,
  any_named, any_material_holds, collect_material-Gains, collect_materials-Gains, no_more,
  collect_texture-Gains,
}

-- What an object refers to.
abbrev object_material : ℕ → SceneObject → Bool
object_material n o =
    (any_named n o.materials || is_named n o.custom_depth_material)
    || is_named n o.custom_distance_material

module _ (w : Materials) where
  abbrev object_texture : ℕ → SceneObject → Bool
  object_texture n o =
      ((any_material_holds w n o.materials || material_holds w n o.custom_depth_material)
        || material_holds w n o.custom_distance_material)
      || holds n o.bone_texture

  add_some-IsSound :
      (o : Option ℕ) (c : Collected)
      → IsSound w c
      → Gains w
          (λ n. is_named n o)
          (λ n. false)
          (λ n. false)
          c
          (record c { geometries = add_some o c.geometries })
  add_some-IsSound none c h = no_more w c h
  add_some-IsSound (some g) c h = record {
    geometries = λ n. has-add n g c.geometries;
    materials = λ n. ground arith;
    textures = λ n. ground arith;
    sound = record {
      geometries = add-IsUnique g c.geometries h.geometries;
      materials = h.materials;
      textures = h.textures;
      covered = h.covered;
    };
  }

  collect_object-Gains :
      (o : SceneObject) (c : Collected)
      → IsSound w c
      → Gains w
          (λ n. is_named n o.geometry)
          (λ n. object_material n o)
          (λ n. object_texture n o)
          c
          (collect_object w o c)
  unfolding collect_object
  collect_object-Gains o c h =
      let a = add_some-IsSound o.geometry c h in
      let b = collect_materials-Gains w o.materials _ a.sound in
      let d = collect_material-Gains w o.custom_depth_material _ b.sound in
      let e = collect_material-Gains w o.custom_distance_material _ d.sound in
      let lit : Collected = collect_material w o.custom_distance_material (
        collect_material w o.custom_depth_material (
          collect_materials w o.materials
            (record c { geometries = add_some o.geometry c.geometries }))) in
      let f =
        collect_texture-Gains w o.bone_texture (maps_after o.shadow_map lit.shadow_maps) _
          e.sound in
      let all = Gains-trans w _ _ _ _ _ _ _ _ _ a (
        Gains-trans w _ _ _ _ _ _ _ _ _ b
          (Gains-trans w _ _ _ _ _ _ _ _ _ d (Gains-trans w _ _ _ _ _ _ _ _ _ e f))) in
      record {
        geometries = λ n. let x = all.geometries n in ground (arith, x);
        materials = λ n. let x = all.materials n in ground (arith, x);
        textures = λ n. let x = all.textures n in ground (arith, x);
        sound = all.sound;
      }

  abbrev pub any_geometry : ℕ → List SceneObject → Bool
  any_geometry n [] = false
  any_geometry n (o ∷ os) = is_named n o.geometry || any_geometry n os

  abbrev pub any_object_material : ℕ → List SceneObject → Bool
  any_object_material n [] = false
  any_object_material n (o ∷ os) = object_material n o || any_object_material n os

  abbrev pub any_object_texture : ℕ → List SceneObject → Bool
  any_object_texture n [] = false
  any_object_texture n (o ∷ os) = object_texture n o || any_object_texture n os

  collect_objects-Gains :
      (os : List SceneObject) (c : Collected)
      → IsSound w c
      → Gains w
          (λ n. any_geometry n os)
          (λ n. any_object_material n os)
          (λ n. any_object_texture n os)
          c
          (collect_objects w os c)
  unfolding collect_objects
  collect_objects-Gains [] c h = no_more w c h
  collect_objects-Gains (o ∷ os) c h =
      let one = collect_object-Gains o c h in
      Gains-trans w _ _ _ _ _ _ _ _ _ one
        (collect_objects-Gains os (collect_object w o c) one.sound)

  abbrev nothing : Collected
  nothing = record { geometries = []; materials = []; textures = []; shadow_maps = [] }

  nothing-IsSound : IsSound w nothing
  unfolding has
  nothing-IsSound = record {
    geometries = tt;
    materials = tt;
    textures = tt;
    covered = λ k n p q. p;
  }

  -- Each of the three sets has what the scene refers to, no more and nothing twice.
  pub record IsCollected (s : Scene) (c : Collected) : Type 0 where
    pub geometries : (n : ℕ) → has n c.geometries ≡ any_geometry n s.objects
    pub materials :
        (n : ℕ)
        → has n c.materials ≡ (is_named n s.override_material || any_object_material n s.objects)
    pub textures :
        (n : ℕ)
        → has n c.textures ≡ (
            (holds n s.background || holds n s.environment)
            || material_holds w n s.override_material
            || any_object_texture n s.objects)
    pub geometries_once : IsUnique c.geometries
    pub materials_once : IsUnique c.materials
    pub textures_once : IsUnique c.textures

  pub collect_scene-IsCollected : (s : Scene) → IsCollected s (collect_scene w s)
  unfolding collect_scene has
  collect_scene-IsCollected s =
      let a = collect_texture-Gains w s.background [] nothing nothing-IsSound in
      let b = collect_texture-Gains w s.environment [] _ a.sound in
      let d = collect_material-Gains w s.override_material _ b.sound in
      let e = collect_objects-Gains s.objects _ d.sound in
      let all =
        Gains-trans w _ _ _ _ _ _ _ _ _ a
          (Gains-trans w _ _ _ _ _ _ _ _ _ b (Gains-trans w _ _ _ _ _ _ _ _ _ d e)) in
      record {
        geometries = λ n. let x = all.geometries n in ground (arith, x);
        materials = λ n. let x = all.materials n in ground (arith, x);
        textures = λ n. let x = all.textures n in ground (arith, x);
        geometries_once = all.sound.geometries;
        materials_once = all.sound.materials;
        textures_once = all.sound.textures;
      }
