-- ===== src/Arrays.antt =====
-- Arrays as lists with native indices: reads, writes, and a buffer of fixed size whose entries move up by
-- one place when a new one is written in front.
use aetheldesk.Base.{
  ℕ, zero, suc, ◌+◌, ◌-◌, ◌<◌, ◌≡◌, refl, ap, ◌∙◌, min, ◌&&◌, ◌||◌, List, [], ◌∷◌, length, ltb,
  ◌==◌, if◌then◌else◌, arith,
}

module _ {ℓ} {A : Type ℓ} where
  abbrev pub get_or : List A → ℕ → A → A
  get_or [] i d = d
  get_or (x ∷ xs) zero d = x
  get_or (x ∷ xs) (suc i) d = get_or xs i d

  abbrev pub set : List A → ℕ → A → List A
  set [] i v = []
  set (x ∷ xs) zero v = v ∷ xs
  set (x ∷ xs) (suc i) v = x ∷ set xs i v

  abbrev pub replicate : ℕ → A → List A
  replicate zero x = []
  replicate (suc n) x = x ∷ replicate n x

  pub length-replicate : (n : ℕ) (x : A) → length (replicate n x) ≡ n
  length-replicate zero x = refl
  length-replicate (suc n) x = ap suc (length-replicate n x)

  pub length-set : (xs : List A) (i : ℕ) (v : A) → length (set xs i v) ≡ length xs
  length-set [] i v = refl
  length-set (x ∷ xs) zero v = refl
  length-set (x ∷ xs) (suc i) v = ap suc (length-set xs i v)

  pub get_or-set :
      (xs : List A) (i j : ℕ) (v d : A)
      → get_or (set xs i v) j d ≡ (if j == i && ltb i (length xs) then v else get_or xs j d)
  get_or-set [] i j v d = ground arith
  get_or-set (x ∷ xs) zero zero v d = ground arith
  get_or-set (x ∷ xs) zero (suc j) v d = ground arith
  get_or-set (x ∷ xs) (suc i) zero v d = ground arith
  get_or-set (x ∷ xs) (suc i) (suc j) v d = ground (arith, get_or-set xs i j v d)

module _ {A : Type 0} (d : A) where
  -- for (let i = last; i > 0; i--) a[i].copy(a[i - 1])
  unfoldable pub shift : ℕ → List A → List A
  shift zero xs = xs
  shift (suc i) xs = shift i (set xs (suc i) (get_or xs i d))

  -- The shift, the write in front and the new length, of a buffer for `cap` entries.
  unfoldable pub push : ℕ → A → List A × ℕ → List A × ℕ
  unfolding shift
  push cap x (xs, len) = (set (shift (min len (cap - 1)) xs) 0 x, min cap (len + 1))

  length-shift : (i : ℕ) (xs : List A) → length (shift i xs) ≡ length xs
  unfolding shift
  length-shift zero xs = refl
  length-shift (suc i) xs = omega (
    arith,
    length-shift i (set xs (suc i) (get_or xs i d)),
    length-set xs (suc i) (get_or xs i d),
  )

  get_or-shift :
      (i : ℕ) (xs : List A) (j : ℕ)
      → i < length xs
      → get_or (shift i xs) j d ≡ (if j == 0 || ltb i j then get_or xs j d else get_or xs (j - 1) d)
  unfolding shift
  get_or-shift zero xs j h = ground arith
  get_or-shift (suc i) xs j h = ground (
    arith,
    length-set xs (suc i) (get_or xs i d),
    get_or-shift i (set xs (suc i) (get_or xs i d)) j,
    get_or-set xs (suc i) j (get_or xs i d) d,
    get_or-set xs (suc i) (j - 1) (get_or xs i d) d,
  )

  -- The buffer holds the newest of all the entries that were written, the newest first.
  abbrev pub Holds : ℕ → List A × ℕ → List A → Type 0
  Holds cap (xs, len) all =
      (length xs ≡ cap)
      × (len ≡ min cap (length all))
      × ((i : ℕ) → i < len → get_or xs i d ≡ get_or all i d)

  get_or-push :
      (cap : ℕ) (x : A) (xs : List A) (len i : ℕ)
      → length xs ≡ cap
      → suc i < min cap (len + 1)
      → get_or (set (shift (min len (cap - 1)) xs) 0 x) (suc i) d ≡ get_or xs i d
  get_or-push cap x xs len i h lt = ground (
    arith,
    get_or-set (shift (min len (cap - 1)) xs) 0 (suc i) x d,
    get_or-shift (min len (cap - 1)) xs (suc i),
  )

  first_of_push :
      (k : ℕ) (x : A) (xs : List A) → 0 < length xs → get_or (set (shift k xs) 0 x) 0 d ≡ x
  first_of_push k x xs h = ground (arith, get_or-set (shift k xs) 0 0 x d, length-shift k xs)

  pub push-Holds :
      (cap : ℕ) (x : A) (b : List A × ℕ) (all : List A)
      → 0 < cap
      → Holds cap b all
      → Holds cap (push cap x b) (x ∷ all)
  unfolding push
  push-Holds cap x (xs, len) all h (size, count, same) = (
    omega (
      arith,
      length-set (shift (min len (cap - 1)) xs) 0 x,
      length-shift (min len (cap - 1)) xs,
      size,
    ),
    omega (arith, count),
    front,
  )
    where
      front :
          (i : ℕ)
          → i < min cap (len + 1)
          → get_or (set (shift (min len (cap - 1)) xs) 0 x) i d ≡ get_or (x ∷ all) i d
      front zero lt = first_of_push (min len (cap - 1)) x xs (omega (arith, size, h))
      front (suc i) lt = get_or-push cap x xs len i size lt ∙ same i (omega (arith, lt))
