-- ===== src/Engine/Resources/Collect.antt =====
-- engine.js: lemmas on what a texture, a value or a material adds to the sets.
use aetheldesk.Base.{
  ℕ, ◌≡◌, refl, ◌∙◌, subst, Bool, true, false, Option, none, some, List, [], ◌∷◌, ◌==◌, ◌||◌, arith,
  Bool-cases, inl, inr,
}
use aetheldesk.Engine.Resources.{
  Value, Values, texture, array, other, nil, cons, Materials, Collected, has, add, collect_texture,
  collect_textures, collect_material, collect_materials,
}

has-eq : (x n : ℕ) (xs : List ℕ) → x == n ≡ true → has x xs ≡ has n xs
has-eq x n xs e = let same : x ≡ n = ground arith in cc

pub has-add : (n x : ℕ) (xs : List ℕ) → has n (add x xs) ≡ (has n xs || x == n)
unfolding add has
has-add n x xs = let h = has-eq x n xs in ground (arith, h)

-- A list without repetitions.
abbrev pub IsUnique : List ℕ → Type 0
IsUnique [] = Unit
IsUnique (x ∷ xs) = (has x xs ≡ false) × IsUnique xs

pub add-IsUnique : (x : ℕ) (xs : List ℕ) → IsUnique xs → IsUnique (add x xs)
unfolding add
add-IsUnique x xs h = elim (Bool-cases (has x xs)) [ inl e ↦ rw e h | inr e ↦ rw e (e, h) ]

-- Whether a value holds a texture, however deep.
unfoldable mutual
  pub holds : ℕ → Value → Bool
  holds n (texture t) = t == n
  holds n (array vs) = any_holds n vs
  holds n other = false

  pub any_holds : ℕ → Values → Bool
  any_holds n nil = false
  any_holds n (cons v vs) = holds n v || any_holds n vs

mutual
  unfolding collect_texture holds

  pub has-collect_texture :
      (n : ℕ) (v : Value) (ts : List ℕ) → has n (collect_texture v ts) ≡ (has n ts || holds n v)
  has-collect_texture n (texture t) ts = has-add n t ts
  has-collect_texture n (array vs) ts = has-collect_textures n vs ts
  has-collect_texture n other ts = ground arith

  has-collect_textures :
      (n : ℕ) (vs : Values) (ts : List ℕ)
      → has n (collect_textures vs ts) ≡ (has n ts || any_holds n vs)
  has-collect_textures n nil ts = ground arith
  has-collect_textures n (cons v vs) ts =
      let a = has-collect_textures n vs (collect_texture v ts) in
      let b = has-collect_texture n v ts in ground (arith, a, b)

mutual
  unfolding collect_texture

  pub collect_texture-IsUnique :
      (v : Value) (ts : List ℕ) → IsUnique ts → IsUnique (collect_texture v ts)
  collect_texture-IsUnique (texture t) ts h = add-IsUnique t ts h
  collect_texture-IsUnique (array vs) ts h = collect_textures-IsUnique vs ts h
  collect_texture-IsUnique other ts h = h

  collect_textures-IsUnique :
      (vs : Values) (ts : List ℕ) → IsUnique ts → IsUnique (collect_textures vs ts)
  collect_textures-IsUnique nil ts h = h
  collect_textures-IsUnique (cons v vs) ts h =
      collect_textures-IsUnique vs (collect_texture v ts) (collect_texture-IsUnique v ts h)

abbrev pub is_named : ℕ → Option ℕ → Bool
is_named n none = false
is_named n (some m) = m == n

abbrev pub any_named : ℕ → List (Option ℕ) → Bool
any_named n [] = false
any_named n (o ∷ os) = is_named n o || any_named n os

module _ (w : Materials) where
  abbrev pub material_holds : ℕ → Option ℕ → Bool
  material_holds n none = false
  material_holds n (some m) = any_holds n (w.values m) || any_holds n (w.uniforms m)

  -- No repetitions, and the textures of every material are there.
  pub record IsSound (c : Collected) : Type 0 where
    pub geometries : IsUnique c.geometries
    pub materials : IsUnique c.materials
    pub textures : IsUnique c.textures
    pub covered :
        (k n : ℕ)
        → has k c.materials ≡ true
        → material_holds n (some k) ≡ true
        → has n c.textures ≡ true

  -- What a step adds.
  pub record Gains (g m t : ℕ → Bool) (c c' : Collected) : Type 0 where
    pub geometries : (n : ℕ) → has n c'.geometries ≡ (has n c.geometries || g n)
    pub materials : (n : ℕ) → has n c'.materials ≡ (has n c.materials || m n)
    pub textures : (n : ℕ) → has n c'.textures ≡ (has n c.textures || t n)
    pub sound : IsSound c'

  pub Gains-trans :
      (g m t g' m' t' : ℕ → Bool) (a b c : Collected)
      → Gains g m t a b
      → Gains g' m' t' b c
      → Gains (λ n. g n || g' n) (λ n. m n || m' n) (λ n. t n || t' n) a c
  Gains-trans g m t g' m' t' a b c h k = record {
    geometries = λ n. let x = h.geometries n in let y = k.geometries n in ground (arith, x, y);
    materials = λ n. let x = h.materials n in let y = k.materials n in ground (arith, x, y);
    textures = λ n. let x = h.textures n in let y = k.textures n in ground (arith, x, y);
    sound = k.sound;
  }

  material-textures :
      (n k : ℕ) (ts : List ℕ)
      → has n (collect_textures (w.uniforms k) (collect_textures (w.values k) ts))
        ≡ (has n ts || material_holds n (some k))
  material-textures n k ts =
      let a = has-collect_textures n (w.uniforms k) (collect_textures (w.values k) ts) in
      let b = has-collect_textures n (w.values k) ts in ground (arith, a, b)

  covers_more :
      (k : ℕ) (c : Collected)
      → IsSound c
      → (j n : ℕ) → has j (k ∷ c.materials) ≡ true
      → material_holds n (some j) ≡ true
      → has n (collect_textures (w.uniforms k) (collect_textures (w.values k) c.textures)) ≡ true
  unfolding has
  covers_more k c h j n p q =
      material-textures n k c.textures ∙ elim (Bool-cases (has j c.materials)) [
        | inl e ↦ let x = h.covered j n e q in ground (arith, x)
        | inr e ↦
            let same : j ≡ k = ground (arith, p, e) in
            let x : material_holds n (some k) ≡ true =
              subst (λ (i : ℕ). material_holds n (some i) ≡ true) same q in
            ground (arith, x)
      ]

  pub collect_material-Gains :
      (o : Option ℕ) (c : Collected)
      → IsSound c
      → Gains (λ n. false) (λ n. is_named n o) (λ n. material_holds n o) c (collect_material w o c)
  unfolding collect_material has
  collect_material-Gains none c h = record {
    geometries = λ n. ground arith;
    materials = λ n. ground arith;
    textures = λ n. ground arith;
    sound = h;
  }
  collect_material-Gains (some k) c h = elim (Bool-cases (has k c.materials)) [
    | inl e ↦ rw e (record {
      geometries = λ n. ground arith;
      materials = λ n. let x = has-eq k n c.materials in ground (arith, x, e);
      textures = λ n. let x = h.covered k n e in ground (arith, x);
      sound = h;
    })
    | inr e ↦ rw e (record {
      geometries = λ n. ground arith;
      materials = λ n. refl;
      textures = λ n. material-textures n k c.textures;
      sound = record {
        geometries = h.geometries;
        materials = (e, h.materials);
        textures =
            collect_textures-IsUnique (w.uniforms k) _
              (collect_textures-IsUnique (w.values k) c.textures h.textures);
        covered = covers_more k c h;
      };
    })
  ]

  pub no_more : (c : Collected) → IsSound c → Gains (λ n. false) (λ n. false) (λ n. false) c c
  no_more c h = record {
    geometries = λ n. ground arith;
    materials = λ n. ground arith;
    textures = λ n. ground arith;
    sound = h;
  }

  abbrev pub any_material_holds : ℕ → List (Option ℕ) → Bool
  any_material_holds n [] = false
  any_material_holds n (o ∷ os) = material_holds n o || any_material_holds n os

  pub collect_materials-Gains :
      (os : List (Option ℕ)) (c : Collected)
      → IsSound c
      → Gains
          (λ n. false)
          (λ n. any_named n os)
          (λ n. any_material_holds n os)
          c
          (collect_materials w os c)
  unfolding collect_materials
  collect_materials-Gains [] c h = no_more c h
  collect_materials-Gains (o ∷ os) c h =
      let one = collect_material-Gains o c h in
      Gains-trans _ _ _ _ _ _ _ _ _ one
        (collect_materials-Gains os (collect_material w o c) one.sound)

  pub collect_texture-Gains :
      (v : Value) (maps : List ℕ) (c : Collected)
      → IsSound c
      → Gains
          (λ n. false)
          (λ n. false)
          (λ n. holds n v)
          c
          (record c { textures = collect_texture v c.textures; shadow_maps = maps })
  collect_texture-Gains v maps c h = record {
    geometries = λ n. ground arith;
    materials = λ n. ground arith;
    textures = λ n. has-collect_texture n v c.textures;
    sound = record {
      geometries = h.geometries;
      materials = h.materials;
      textures = collect_texture-IsUnique v c.textures h.textures;
      covered = λ k n p q.
          let x = h.covered k n p q in
          let y = has-collect_texture n v c.textures in ground (arith, x, y);
    };
  }
