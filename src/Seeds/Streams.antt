-- ===== src/Seeds/Streams.antt =====
-- celestial.js and the scenes: lemmas on the values of `makeRng`.
use aetheldesk.Base.{ℕ, zero, suc, ◌+◌, ◌*◌, ◌%◌, ◌^◌, ◌<◌, ◌≡◌, sym, ap, ◌∙◌, arith}
use aetheldesk.Seeds.{make_rng}

-- The value after `n` draws from a seed.
unfoldable pub value_after : ℕ → ℕ → ℕ
value_after zero seed = seed % 2 ^ 32
value_after (suc n) seed = make_rng (value_after n seed)

value_after-lt : (n seed : ℕ) → value_after n seed < 2 ^ 32
unfolding value_after make_rng
value_after-lt zero seed = omega arith
value_after-lt (suc n) seed = omega arith

-- 4276115653 undoes the factor of the generator on 32 bits.
abbrev undone : ℕ → ℕ
undone v = (v + 3281063073) * 4276115653 % 2 ^ 32

undone-make_rng : (s : ℕ) → s < 2 ^ 32 → undone (make_rng s) ≡ s
unfolding make_rng
undone-make_rng s h = omega arith

-- Two seeds that lead to the same value after the same number of draws, however many, are the same 32-bit
-- seed: streams of different seeds differ at each of their places.
pub value_after-injective :
    (n a b : ℕ) → value_after n a ≡ value_after n b → a % 2 ^ 32 ≡ b % 2 ^ 32
unfolding value_after
value_after-injective zero a b e = e
value_after-injective (suc n) a b e = value_after-injective n a b (
    sym (undone-make_rng _ (value_after-lt n a))
    ∙ ap undone e
    ∙ undone-make_rng _ (value_after-lt n b))
