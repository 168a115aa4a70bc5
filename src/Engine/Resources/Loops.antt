-- ===== src/Engine/Resources/Loops.antt =====
-- engine.js: lemmas on the loops of `disposeSceneResources` and the calls that they make.
use aetheldesk.Base.{
  ℕ, ◌+◌, ◌≡◌, refl, ap, Bool, true, Option, none, some, List, [], ◌∷◌, ◌++◌, ◌==◌, if◌then◌else◌,
  arith,
}
use aetheldesk.Engine.Resources.{
  Disposal, of_shadow_map, of_texture, of_material, of_geometry, has, maps_after, dispose_all,
}
use aetheldesk.Engine.Resources.Collect.{IsUnique}

-- What is disposed of, by its kind, in the order of the calls.
abbrev pub textures_of : List Disposal → List ℕ
textures_of [] = []
textures_of (of_texture t ∷ ds) = t ∷ textures_of ds
textures_of (_ ∷ ds) = textures_of ds

abbrev pub materials_of : List Disposal → List ℕ
materials_of [] = []
materials_of (of_material m ∷ ds) = m ∷ materials_of ds
materials_of (_ ∷ ds) = materials_of ds

abbrev pub geometries_of : List Disposal → List ℕ
geometries_of [] = []
geometries_of (of_geometry g ∷ ds) = g ∷ geometries_of ds
geometries_of (_ ∷ ds) = geometries_of ds

abbrev pub shadow_maps_of : List Disposal → List ℕ
shadow_maps_of [] = []
shadow_maps_of (of_shadow_map s ∷ ds) = s ∷ shadow_maps_of ds
shadow_maps_of (_ ∷ ds) = shadow_maps_of ds

-- How often a number is in a list.
abbrev pub times : ℕ → List ℕ → ℕ
times n [] = 0
times n (x ∷ xs) = if x == n then 1 + times n xs else times n xs

abbrev pub once_if : Bool → ℕ
once_if b = if b then 1 else 0

-- The elements of a list in the opposite order, before those of another.
abbrev pub turn : List ℕ → List ℕ → List ℕ
turn [] ys = ys
turn (x ∷ xs) ys = turn xs (x ∷ ys)

pub turn_twice : (xs ys zs : List ℕ) → turn (turn xs ys) zs ≡ turn ys (xs ++ zs)
turn_twice [] ys zs = refl
turn_twice (x ∷ xs) ys zs = turn_twice xs (x ∷ ys) zs

pub turn_after :
    (m : Option ℕ) (xs ys : List ℕ)
    → turn xs (maps_after m ys) ≡ turn (elim m [ none ↦ xs | some s ↦ s ∷ xs ]) ys
turn_after none xs ys = refl
turn_after (some s) xs ys = refl

pub append_nil : (xs : List ℕ) → xs ++ [] ≡ xs
append_nil [] = refl
append_nil (x ∷ xs) = ap (λ ys. x ∷ ys) (append_nil xs)

pub times-turn : (n : ℕ) (xs ys : List ℕ) → times n (turn xs ys) ≡ times n xs + times n ys
times-turn n [] ys = omega arith
times-turn n (x ∷ xs) ys = let h = times-turn n xs (x ∷ ys) in ground (arith, h)

times-eq : (x n : ℕ) (xs : List ℕ) → x == n ≡ true → has x xs ≡ has n xs
times-eq x n xs e = let same : x ≡ n = ground arith in cc

pub times-IsUnique : (n : ℕ) (xs : List ℕ) → IsUnique xs → times n xs ≡ once_if (has n xs)
unfolding has
times-IsUnique n [] h = refl
times-IsUnique n (x ∷ xs) h =
    let k = times-IsUnique n xs h.1 in ground (arith, k, h.0, times-eq x n xs)

-- What a loop adds to its own kind, and that it adds nothing to the others.
pub textures-own :
    (xs : List ℕ) (ds : List Disposal)
    → textures_of (dispose_all of_texture xs ds) ≡ turn xs (textures_of ds)
unfolding dispose_all
textures-own [] ds = refl
textures-own (x ∷ xs) ds = textures-own xs (of_texture x ∷ ds)

pub materials-own :
    (xs : List ℕ) (ds : List Disposal)
    → materials_of (dispose_all of_material xs ds) ≡ turn xs (materials_of ds)
unfolding dispose_all
materials-own [] ds = refl
materials-own (x ∷ xs) ds = materials-own xs (of_material x ∷ ds)

pub geometries-own :
    (xs : List ℕ) (ds : List Disposal)
    → geometries_of (dispose_all of_geometry xs ds) ≡ turn xs (geometries_of ds)
unfolding dispose_all
geometries-own [] ds = refl
geometries-own (x ∷ xs) ds = geometries-own xs (of_geometry x ∷ ds)

pub shadow_maps-own :
    (xs : List ℕ) (ds : List Disposal)
    → shadow_maps_of (dispose_all of_shadow_map xs ds) ≡ turn xs (shadow_maps_of ds)
unfolding dispose_all
shadow_maps-own [] ds = refl
shadow_maps-own (x ∷ xs) ds = shadow_maps-own xs (of_shadow_map x ∷ ds)

pub textures-shadow_maps :
    (xs : List ℕ) (ds : List Disposal)
    → textures_of (dispose_all of_shadow_map xs ds) ≡ textures_of ds
unfolding dispose_all
textures-shadow_maps [] ds = refl
textures-shadow_maps (x ∷ xs) ds = textures-shadow_maps xs (of_shadow_map x ∷ ds)

pub materials-shadow_maps :
    (xs : List ℕ) (ds : List Disposal)
    → materials_of (dispose_all of_shadow_map xs ds) ≡ materials_of ds
unfolding dispose_all
materials-shadow_maps [] ds = refl
materials-shadow_maps (x ∷ xs) ds = materials-shadow_maps xs (of_shadow_map x ∷ ds)

pub materials-textures :
    (xs : List ℕ) (ds : List Disposal)
    → materials_of (dispose_all of_texture xs ds) ≡ materials_of ds
unfolding dispose_all
materials-textures [] ds = refl
materials-textures (x ∷ xs) ds = materials-textures xs (of_texture x ∷ ds)

pub geometries-shadow_maps :
    (xs : List ℕ) (ds : List Disposal)
    → geometries_of (dispose_all of_shadow_map xs ds) ≡ geometries_of ds
unfolding dispose_all
geometries-shadow_maps [] ds = refl
geometries-shadow_maps (x ∷ xs) ds = geometries-shadow_maps xs (of_shadow_map x ∷ ds)

pub geometries-textures :
    (xs : List ℕ) (ds : List Disposal)
    → geometries_of (dispose_all of_texture xs ds) ≡ geometries_of ds
unfolding dispose_all
geometries-textures [] ds = refl
geometries-textures (x ∷ xs) ds = geometries-textures xs (of_texture x ∷ ds)

pub geometries-materials :
    (xs : List ℕ) (ds : List Disposal)
    → geometries_of (dispose_all of_material xs ds) ≡ geometries_of ds
unfolding dispose_all
geometries-materials [] ds = refl
geometries-materials (x ∷ xs) ds = geometries-materials xs (of_material x ∷ ds)

pub shadow_maps-textures :
    (xs : List ℕ) (ds : List Disposal)
    → shadow_maps_of (dispose_all of_texture xs ds) ≡ shadow_maps_of ds
unfolding dispose_all
shadow_maps-textures [] ds = refl
shadow_maps-textures (x ∷ xs) ds = shadow_maps-textures xs (of_texture x ∷ ds)

pub shadow_maps-materials :
    (xs : List ℕ) (ds : List Disposal)
    → shadow_maps_of (dispose_all of_material xs ds) ≡ shadow_maps_of ds
unfolding dispose_all
shadow_maps-materials [] ds = refl
shadow_maps-materials (x ∷ xs) ds = shadow_maps-materials xs (of_material x ∷ ds)

pub shadow_maps-geometries :
    (xs : List ℕ) (ds : List Disposal)
    → shadow_maps_of (dispose_all of_geometry xs ds) ≡ shadow_maps_of ds
unfolding dispose_all
shadow_maps-geometries [] ds = refl
shadow_maps-geometries (x ∷ xs) ds = shadow_maps-geometries xs (of_geometry x ∷ ds)

pub materials-geometries :
    (xs : List ℕ) (ds : List Disposal)
    → materials_of (dispose_all of_geometry xs ds) ≡ materials_of ds
unfolding dispose_all
materials-geometries [] ds = refl
materials-geometries (x ∷ xs) ds = materials-geometries xs (of_geometry x ∷ ds)

pub textures-materials :
    (xs : List ℕ) (ds : List Disposal)
    → textures_of (dispose_all of_material xs ds) ≡ textures_of ds
unfolding dispose_all
textures-materials [] ds = refl
textures-materials (x ∷ xs) ds = textures-materials xs (of_material x ∷ ds)

pub textures-geometries :
    (xs : List ℕ) (ds : List Disposal)
    → textures_of (dispose_all of_geometry xs ds) ≡ textures_of ds
unfolding dispose_all
textures-geometries [] ds = refl
textures-geometries (x ∷ xs) ds = textures-geometries xs (of_geometry x ∷ ds)
