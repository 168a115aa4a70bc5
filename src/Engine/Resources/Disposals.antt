-- ===== src/Engine/Resources/Disposals.antt =====
-- engine.js: what is disposed of with a scene, and that it is disposed of once.
use aetheldesk.Base.{ℕ, ◌≡◌, refl, ◌∙◌, ap, Bool, Option, none, some, List, [], ◌∷◌, ◌||◌, arith}
use aetheldesk.Engine.Resources.{
  Disposal, Materials, SceneObject, Scene, Collected, has, maps_after, collect_material,
  collect_materials, collect_object, collect_objects, collect_scene, dispose_scene_resources,
}
use aetheldesk.Engine.Resources.Collect.{IsUnique, holds, is_named, material_holds}
use aetheldesk.Engine.Resources.Once.{
  any_geometry, any_object_material, any_object_texture, collect_scene-IsCollected,
}
use aetheldesk.Engine.Resources.Loops.{
  textures_of, materials_of, geometries_of, shadow_maps_of, times, once_if, turn, turn_twice,
  times-turn, turn_after, append_nil, times-IsUnique, textures-own, materials-own, geometries-own,
  shadow_maps-own, textures-materials, textures-geometries, textures-shadow_maps,
  materials-textures, materials-geometries, materials-shadow_maps, geometries-textures,
  geometries-materials, geometries-shadow_maps, shadow_maps-textures, shadow_maps-materials,
  shadow_maps-geometries,
}

-- The shadow maps of the objects.
abbrev pub maps_in : List SceneObject → List ℕ
maps_in [] = []
maps_in (o ∷ os) = elim o.shadow_map [ none ↦ maps_in os | some s ↦ s ∷ maps_in os ]

module _ (w : Materials) where
  maps-material :
      (m : Option ℕ) (c : Collected) → (collect_material w m c).shadow_maps ≡ c.shadow_maps
  unfolding collect_material
  maps-material none c = refl
  maps-material (some m) c = ground arith

  maps-materials :
      (ms : List (Option ℕ)) (c : Collected)
      → (collect_materials w ms c).shadow_maps ≡ c.shadow_maps
  unfolding collect_materials
  maps-materials [] c = refl
  maps-materials (m ∷ ms) c = maps-materials ms (collect_material w m c) ∙ maps-material m c

  maps-object :
      (o : SceneObject) (c : Collected)
      → (collect_object w o c).shadow_maps ≡ maps_after o.shadow_map c.shadow_maps
  unfolding collect_object
  maps-object o c = ap (maps_after o.shadow_map) (
      maps-material o.custom_distance_material _
      ∙ maps-material o.custom_depth_material _
      ∙ maps-materials o.materials _)

  maps-objects :
      (os : List SceneObject) (c : Collected)
      → (collect_objects w os c).shadow_maps ≡ turn (maps_in os) c.shadow_maps
  unfolding collect_objects
  maps-objects [] c = refl
  maps-objects (o ∷ os) c =
      maps-objects os (collect_object w o c)
      ∙ (ap (turn (maps_in os)) (maps-object o c)
          ∙ turn_after o.shadow_map (maps_in os) c.shadow_maps)

  maps-scene : (s : Scene) → (collect_scene w s).shadow_maps ≡ turn (maps_in s.objects) []
  unfolding collect_scene
  maps-scene s =
      maps-objects s.objects _ ∙ ap (turn (maps_in s.objects)) (maps-material s.override_material _)

  -- Each texture, material and geometry that the scene refers to is disposed of once, anything else
  -- never, and the shadow maps are those of the objects, in their order.
  pub record IsDisposed (s : Scene) (ds : List Disposal) : Type 0 where
    pub geometries : (n : ℕ) → times n (geometries_of ds) ≡ once_if (any_geometry w n s.objects)
    pub materials :
        (n : ℕ)
        → times n (materials_of ds)
          ≡ once_if (is_named n s.override_material || any_object_material w n s.objects)
    pub textures :
        (n : ℕ)
        → times n (textures_of ds)
          ≡ once_if (
              (holds n s.background || holds n s.environment)
              || material_holds w n s.override_material
              || any_object_texture w n s.objects)
    pub shadow_maps : shadow_maps_of ds ≡ maps_in s.objects

  -- The calls of a loop over one of the three sets, counted.
  counted :
      (n : ℕ) (xs ys : List ℕ) (b : Bool)
      → ys ≡ turn xs []
      → IsUnique xs
      → has n xs ≡ b
      → times n ys ≡ once_if b
  counted n xs ys b e u h =
      ap (times n) e ∙ times-turn n xs [] ∙ (let k = times-IsUnique n xs u in ground (arith, k, h))

  -- With an engine each geometry, each material and each texture that the scene refers to is disposed of once,
  -- however many objects, materials or arrays share it, and none that it does not refer to; the shadow
  -- maps that are disposed of are those of the objects, each as often as an object has it.
  pub dispose_scene_resources-IsDisposed : (s : Scene) → IsDisposed s (dispose_scene_resources w s)
  unfolding dispose_scene_resources
  dispose_scene_resources-IsDisposed s =
      let c : Collected = collect_scene w s in
      let h = collect_scene-IsCollected w s in
      record {
        geometries = λ n.
            counted n c.geometries _ _
              (geometries-shadow_maps c.shadow_maps _
                ∙ geometries-textures c.textures _
                ∙ geometries-materials c.materials _
                ∙ geometries-own c.geometries [])
              h.geometries_once (h.geometries n);
        materials = λ n.
            counted n c.materials _ _
              (materials-shadow_maps c.shadow_maps _
                ∙ materials-textures c.textures _
                ∙ materials-own c.materials _
                ∙ ap (turn c.materials) (materials-geometries c.geometries []))
              h.materials_once (h.materials n);
        textures = λ n.
            counted n c.textures _ _
              (textures-shadow_maps c.shadow_maps _
                ∙ textures-own c.textures _
                ∙ ap (turn c.textures)
                    (textures-materials c.materials _ ∙ textures-geometries c.geometries []))
              h.textures_once (h.textures n);
        shadow_maps =
            shadow_maps-own c.shadow_maps _
            ∙ ap (turn c.shadow_maps) (
                shadow_maps-textures c.textures _
                ∙ shadow_maps-materials c.materials _
                ∙ shadow_maps-geometries c.geometries [])
            ∙ ap (λ xs. turn xs []) (maps-scene s)
            ∙ turn_twice (maps_in s.objects) [] []
            ∙ append_nil (maps_in s.objects);
      }
