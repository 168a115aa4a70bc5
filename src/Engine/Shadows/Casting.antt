-- ===== src/Engine/Shadows/Casting.antt =====
-- engine.js: lemmas on the light that casts shadows.
use aetheldesk.Base.{
  ℕ, ◌≡◌, Bool, true, false, ◌&&◌, Option, List, [], ◌∷◌, map, ltb, if◌then◌else◌, is_some, All,
  arith, refl, Bool-cases, inl, inr,
}
use aetheldesk.Engine.Shadows.{
  Light, Shadows, is_source, apply_to_light, apply_shadows, directional, same_source,
  set_shadow_source,
}

-- What the source and the size of the map make of a directional light with a shadow.
pub record IsLit (enabled : Bool) (source : Option ℕ) (size : ℕ) (l : Light) : Type 0 where
  pub casts :
      l.is_directional_light && l.has_shadow ≡ true
      → l.cast_shadow ≡ (enabled && is_source source l)
  pub sized :
      l.is_directional_light && l.has_shadow ≡ true → l.cast_shadow ≡ true → l.map_size ≡ size
  pub free :
      l.is_directional_light && l.has_shadow ≡ true → l.cast_shadow ≡ false → l.has_map ≡ false

apply_to_light-IsLit :
    (enabled : Bool) (source : Option ℕ) (size : ℕ) (l : Light)
    → IsLit enabled source size (apply_to_light enabled source size l)
unfolding apply_to_light
apply_to_light-IsLit enabled source size l = record {
  casts = ground arith;
  sized = ground arith;
  free = ground arith;
}

pub record IsCast (s : Shadows) : Type 0 where
  pub enabled : s.enabled ≡ (ltb 0 s.active_shadow_map_size && is_some s.shadow_source)
  pub lights : All (IsLit s.enabled s.shadow_source s.active_shadow_map_size) s.lights

lights-IsLit :
    (enabled : Bool) (source : Option ℕ) (size : ℕ) (ls : List Light)
    → All (IsLit enabled source size) (map (apply_to_light enabled source size) ls)
lights-IsLit enabled source size [] = tt
lights-IsLit enabled source size (l ∷ ls) =
    (apply_to_light-IsLit enabled source size l, lights-IsLit enabled source size ls)

apply_shadows-IsCast : (size : ℕ) (s : Shadows) → IsCast (apply_shadows size s)
unfolding apply_shadows
apply_shadows-IsCast size s = record {
  enabled = refl;
  lights = lights-IsLit (ltb 0 size && is_some s.shadow_source) s.shadow_source size s.lights;
}

-- three.js gives maps to lights that cast, when it draws: to which of them is `draws`.
abbrev pub allocate : (ℕ → Bool) → Light → Light
allocate draws l = if l.cast_shadow && draws l.name then record l { has_map = true } else l

allocate-IsLit :
    (draws : ℕ → Bool) (enabled : Bool) (source : Option ℕ) (size : ℕ) (ls : List Light)
    → All (IsLit enabled source size) ls
    → All (IsLit enabled source size) (map (allocate draws) ls)
allocate-IsLit draws enabled source size [] h = tt
allocate-IsLit draws enabled source size (l ∷ ls) (h, hs) = (
  record {
    casts = ground (arith, h.casts);
    sized = ground (arith, h.sized);
    free = ground (arith, h.free);
  },
  allocate-IsLit draws enabled source size ls hs,
)

pub data Call : Type 0 where
  sets_source : Option Light → Call
  applies : ℕ → Call
  draws : (ℕ → Bool) → Call

unfoldable pub perform : Call → Shadows → Shadows
perform (sets_source light) s = set_shadow_source light s
perform (applies size) s = apply_shadows size s
perform (draws which) s = record s { lights = map (allocate which) s.lights }

unfoldable pub perform_all : List Call → Shadows → Shadows
unfolding perform
perform_all [] s = s
perform_all (k ∷ ks) s = perform_all ks (perform k s)

perform-IsCast : (k : Call) (s : Shadows) → IsCast s → IsCast (perform k s)
unfolding perform set_shadow_source
perform-IsCast (sets_source light) s h =
    elim (Bool-cases (same_source s.shadow_source (directional light))) [
      | inl e ↦ rw e h
      | inr e ↦ rw e (
          apply_shadows-IsCast s.active_shadow_map_size
            (record s { shadow_source = directional light }))
    ]
perform-IsCast (applies size) s h = apply_shadows-IsCast size s
perform-IsCast (draws which) s h = record {
  enabled = h.enabled;
  lights =
      allocate-IsLit which s.enabled s.shadow_source s.active_shadow_map_size s.lights h.lights;
}

perform_from-IsCast : (ks : List Call) (s : Shadows) → IsCast s → IsCast (perform_all ks s)
unfolding perform_all
perform_from-IsCast [] s h = h
perform_from-IsCast (k ∷ ks) s h = perform_from-IsCast ks _ (perform-IsCast k s h)

-- From the first effects on that an engine applies, whatever effects, sources and frames follow: shadows are
-- on exactly where the size of the map is not zero and there is a source; of the directional lights with
-- a shadow the source casts it exactly then, in that size, and no other does or holds a map.
pub perform_all-IsCast :
    (size : ℕ) (s : Shadows) (ks : List Call) → IsCast (perform_all ks (apply_shadows size s))
perform_all-IsCast size s ks = perform_from-IsCast ks _ (apply_shadows-IsCast size s)
