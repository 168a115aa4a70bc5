-- ===== src/TimerControls/Texts/Readers.antt =====
-- Reading the texts of times back: an independent description of them.
use aetheldesk.Base.{
  ℕ, zero, suc, ◌+◌, ◌-◌, ◌*◌, ◌/◌, ◌%◌, ◌<◌, ◌≡◌, refl, ◌∙◌, Bool, true, false, not, ◌&&◌, List,
  [], ◌∷◌, ltb, leb, if◌then◌else◌, arith, Bool-cases, inl, inr,
}
use aetheldesk.TimerControls.Texts.{digits_from, string_of, padded, colon}

abbrev pub is_digit : ℕ → Bool
is_digit c = leb 48 c && leb c 57

-- The number at the start of a text, and what follows it.
unfoldable pub read_number : ℕ → List ℕ → ℕ × List ℕ
read_number n [] = (n, [])
read_number n (c ∷ cs) =
    let more : ℕ × List ℕ = read_number (n * 10 + (c - 48)) cs in
    if is_digit c then more else (n, c ∷ cs)

read_digit :
    (n d m : ℕ) (rest : List ℕ)
    → d < 10
    → n * 10 + d ≡ m
    → read_number n ((48 + d) ∷ rest) ≡ read_number m rest
unfolding read_number
read_digit n d m rest h e =
    let digit : is_digit (48 + d) ≡ true = ground arith in
    let next : n * 10 + (48 + d - 48) ≡ m = omega arith in rw (digit, next) refl

-- A number that is written out is read as itself, in front of whatever follows.
read-digits_from :
    (fuel n : ℕ) (rest : List ℕ)
    → n < fuel
    → read_number 0 (digits_from fuel n rest) ≡ read_number n rest
unfolding digits_from
read-digits_from zero n rest h = ground arith
read-digits_from (suc fuel) n rest h = elim (Bool-cases (ltb n 10)) [
  | inl e ↦ rw e (read_digit 0 n n rest (ground arith) (omega arith))
  | inr e ↦
      let tenth = read-digits_from fuel (n / 10) ((48 + n % 10) ∷ rest) (ground arith) in
      rw e (tenth ∙ read_digit (n / 10) (n % 10) n rest (omega arith) (omega arith))
]

abbrev pub ends_number : List ℕ → Bool
ends_number [] = true
ends_number (c ∷ cs) = not (is_digit c)

read_end : (n : ℕ) (rest : List ℕ) → ends_number rest ≡ true → read_number n rest ≡ (n, rest)
unfolding read_number
read_end n [] h = refl
read_end n (c ∷ cs) h = ground arith

pub read-string_of :
    (n : ℕ) (rest : List ℕ) → ends_number rest ≡ true → read_number 0 (string_of n rest) ≡ (n, rest)
unfolding string_of
read-string_of n rest h = read-digits_from (suc n) n rest (omega arith) ∙ read_end n rest h

read_if :
    (b : Bool) (xs ys : List ℕ) (r : ℕ × List ℕ)
    → read_number 0 xs ≡ r
    → read_number 0 ys ≡ r
    → read_number 0 (if b then xs else ys) ≡ r
read_if true xs ys r h k = h
read_if false xs ys r h k = k

read_zero : (xs : List ℕ) → read_number 0 (48 ∷ xs) ≡ read_number 0 xs
unfolding read_number
read_zero xs = refl

-- A zero in front makes no difference.
pub read-padded :
    (n : ℕ) (rest : List ℕ) → ends_number rest ≡ true → read_number 0 (padded n rest) ≡ (n, rest)
unfolding padded
read-padded n rest h =
    let plain = read-string_of n rest h in
    read_if (ltb n 10) (48 ∷ string_of n rest) (string_of n rest) (n, rest)
      (read_zero (string_of n rest) ∙ plain) plain

-- The times that texts stand for: `HH:MM` or `MM:SS`, an offset with its sign, and a whole local time.
abbrev pub after : List ℕ → List ℕ
after [] = []
after (c ∷ cs) = cs

unfoldable pub read_pair : List ℕ → (ℕ × ℕ) × List ℕ
read_pair t =
    let (a, t1) = read_number 0 t in let (b, t2) = read_number 0 (after t1) in ((a, b), t2)

pub read-pair :
    (a b : ℕ) (rest : List ℕ)
    → ends_number rest ≡ true
    → read_pair (padded a (colon ∷ padded b rest)) ≡ ((a, b), rest)
unfolding read_pair
read-pair a b rest h =
    rw (read-padded a (colon ∷ padded b rest) refl) (rw (read-padded b rest h) refl)
