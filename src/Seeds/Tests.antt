-- ===== src/Seeds/Tests.antt =====
-- Seeds of the properties of the random numbers, and a value of `hashSeed`.
use aetheldesk.Base.{◌≡◌, refl, [], ◌∷◌}
use aetheldesk.Seeds.{hash_seed}

-- The FNV hash of "a".
hash_of_a : hash_seed (0x61 ∷ []) ≡ 0xe40c292c
unfolding hash_seed
hash_of_a = refl
