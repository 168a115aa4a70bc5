-- ===== src/TimerControls/Texts/RoundTrip.antt =====
-- timer-controls.js: what is shown and sent can be read back.
use aetheldesk.Base.{
  ℕ, zero, suc, ◌+◌, ◌-◌, ◌*◌, ◌/◌, ◌%◌, ◌≡◌, refl, ◌&&◌, Option, none, some, List, [], ◌∷◌, ◌==◌,
  if◌then◌else◌, arith,
}
use aetheldesk.Int.{ℤ, pos, negsuc}
use aetheldesk.TimerControls.Texts.{colon, dash, fmt_time, Today}
use aetheldesk.TimerControls.Texts.Readers.{is_digit, read_number, read_pair, read-pair}

-- Sixty of the first to one of the second.
unfoldable pub read_time : List ℕ → ℕ
read_time t = let ((a, b), rest) = read_pair t in a * 60 + b

-- However long a time is, its text says it to the second.
pub read-fmt_time : (n : ℕ) → read_time (fmt_time n) ≡ n
unfolding read_time fmt_time
read-fmt_time n = rw (read-pair (n / 60) (n % 60) [] refl) (omega arith)

abbrev pub minus : ℕ → Option ℤ
minus zero = none
minus (suc n) = some (negsuc n)

-- `+` or `-`, in front of a size; nothing is at minus zero.
abbrev pub signed : ℕ → ℕ → Option ℤ
signed sign n = if sign == 43 then some (pos n) else if sign == 45 then minus n else none

pub record LocalTime : Type 0 where
  pub today : Today
  pub minutes : ℕ
  pub seconds : ℕ

infixl 5 ◌>>=◌
abbrev pub ◌>>=◌ : {A B : Type 0} → Option A → (A → Option B) → Option B
none >>= f = none
some a >>= f = f a

-- One mark, and what follows it.
abbrev pub skip : ℕ → List ℕ → Option (List ℕ)
skip mark [] = none
skip mark (c ∷ cs) = if c == mark then some cs else none

-- A number of two digits, and what follows it.
unfoldable pub two_digits : List ℕ → Option (ℕ × List ℕ)
two_digits [] = none
two_digits (a ∷ []) = none
two_digits (a ∷ b ∷ rest) =
    if is_digit a && is_digit b then some ((a - 48) * 10 + (b - 48), rest) else none

abbrev pub at_end : {A : Type 0} → Option A → List ℕ → Option A
at_end r [] = r
at_end r (c ∷ cs) = none

unfoldable pub read_offset : List ℕ → Option ℤ
unfolding two_digits
read_offset [] = none
read_offset (sign ∷ t) = do
  (hours, t1) ← two_digits t
  t2 ← skip colon t1
  (minutes, t3) ← two_digits t2
  at_end (signed sign (hours * 60 + minutes)) t3

-- A year of any number of digits, two digits to everything else, and each mark in its place:
-- `YYYY-MM-DDTHH:MM:00+HH:MM`, and nothing after it.
unfoldable pub read_local : List ℕ → Option LocalTime
read_local t = do
  let (year, t1) = read_number 0 t
  t2 ← skip dash t1
  (month, t3) ← two_digits t2
  t4 ← skip dash t3
  (day, t5) ← two_digits t4
  t6 ← skip 84 t5
  (hours, t7) ← two_digits t6
  t8 ← skip colon t7
  (minutes, t9) ← two_digits t8
  t10 ← skip colon t9
  (seconds, t11) ← two_digits t10
  offset ← read_offset t11
  some (record {
    today = record { year = year; month = month; day = day; offset_minutes = offset };
    minutes = hours * 60 + minutes;
    seconds = seconds;
  })
