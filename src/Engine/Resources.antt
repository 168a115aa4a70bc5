-- ===== src/Engine/Resources.antt =====
-- engine.js, `disposeSceneResources`: what is disposed of when an engine ends. Geometries, materials and textures
-- are known by numbers, and a `Set` is the list of what it holds, the newest first; the scene is the list
-- of the objects that `traverse` meets. What a material's fields and uniforms hold is an argument.
pub mod Collect
pub mod Once
pub mod Loops
pub mod Disposals
use aetheldesk.Base.{
  ℕ, Bool, true, false, Option, none, some, List, [], ◌∷◌, ◌==◌, ◌||◌, if◌then◌else◌,
}

mutual
  pub data Value : Type 0 where
    texture : ℕ → Value
    array : Values → Value
    other : Value

  pub data Values : Type 0 where
    nil : Values
    cons : Value → Values → Values

pub record Materials : Type 0 where
  pub values : ℕ → Values
  pub uniforms : ℕ → Values

pub record SceneObject : Type 0 where
  pub geometry : Option ℕ
  pub materials : List (Option ℕ)
  pub custom_depth_material : Option ℕ
  pub custom_distance_material : Option ℕ
  pub bone_texture : Value
  pub shadow_map : Option ℕ

pub record Scene : Type 0 where
  pub background : Value
  pub environment : Value
  pub override_material : Option ℕ
  pub objects : List SceneObject

pub record Collected : Type 0 where
  pub geometries : List ℕ
  pub materials : List ℕ
  pub textures : List ℕ
  pub shadow_maps : List ℕ

unfoldable pub has : ℕ → List ℕ → Bool
has n [] = false
has n (x ∷ xs) = has n xs || x == n

-- Set.prototype.add
unfoldable pub add : ℕ → List ℕ → List ℕ
add x xs = if has x xs then xs else x ∷ xs

unfoldable mutual
  pub collect_texture : Value → List ℕ → List ℕ
  collect_texture (texture t) ts = add t ts
  collect_texture (array vs) ts = collect_textures vs ts
  collect_texture other ts = ts

  pub collect_textures : Values → List ℕ → List ℕ
  collect_textures nil ts = ts
  collect_textures (cons v vs) ts = collect_textures vs (collect_texture v ts)

abbrev pub add_some : Option ℕ → List ℕ → List ℕ
add_some none xs = xs
add_some (some x) xs = add x xs

abbrev pub maps_after : Option ℕ → List ℕ → List ℕ
maps_after none maps = maps
maps_after (some s) maps = s ∷ maps

-- A call of `dispose`, and what it disposes of.
pub data Disposal : Type 0 where
  of_shadow_map of_texture of_material of_geometry : ℕ → Disposal

-- for (const x of xs) x.dispose(), before the calls that follow
unfoldable pub dispose_all : (ℕ → Disposal) → List ℕ → List Disposal → List Disposal
dispose_all dispose [] later = later
dispose_all dispose (x ∷ xs) later = dispose_all dispose xs (dispose x ∷ later)

module _ (w : Materials) where
  unfoldable pub collect_material : Option ℕ → Collected → Collected
  collect_material none c = c
  collect_material (some m) c = if has m c.materials then c else record c {
    materials = m ∷ c.materials;
    textures = collect_textures (w.uniforms m) (collect_textures (w.values m) c.textures);
  }

  unfoldable pub collect_materials : List (Option ℕ) → Collected → Collected
  collect_materials [] c = c
  collect_materials (m ∷ ms) c = collect_materials ms (collect_material m c)

  -- A shadow map is disposed of as it is met.
  unfoldable pub collect_object : SceneObject → Collected → Collected
  unfolding collect_material collect_materials
  collect_object o c =
      let kept : Collected = record c { geometries = add_some o.geometry c.geometries } in
      let lit : Collected =
        collect_material o.custom_distance_material
          (collect_material o.custom_depth_material (collect_materials o.materials kept)) in
      record lit {
        textures = collect_texture o.bone_texture lit.textures;
        shadow_maps = maps_after o.shadow_map lit.shadow_maps;
      }

  unfoldable pub collect_objects : List SceneObject → Collected → Collected
  unfolding collect_object
  collect_objects [] c = c
  collect_objects (o ∷ os) c = collect_objects os (collect_object o c)

  unfoldable pub collect_scene : Scene → Collected
  unfolding collect_objects
  collect_scene s =
      let seen : List ℕ = collect_texture s.environment (collect_texture s.background []) in
      collect_objects s.objects (
        collect_material s.override_material
          (record { geometries = []; materials = []; textures = seen; shadow_maps = [] }))

  -- The calls of `dispose`, in their order: the shadow maps as they are met, then the three loops.
  unfoldable pub dispose_scene_resources : Scene → List Disposal
  unfolding collect_scene dispose_all
  dispose_scene_resources s =
      let c : Collected = collect_scene s in
      dispose_all of_shadow_map c.shadow_maps (
        dispose_all of_texture c.textures
          (dispose_all of_material c.materials (dispose_all of_geometry c.geometries [])))
