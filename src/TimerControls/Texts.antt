-- ===== src/TimerControls/Texts.antt =====
-- timer-controls.js: the texts of times, and the local time that `sendOverride` sends. A text is its char codes;
-- what `Date` says of today is an argument, and an offset is in minutes to the east.
pub mod Readers
pub mod RoundTrip
use aetheldesk.Base.{ℕ, zero, suc, ◌+◌, ◌/◌, ◌%◌, Bool, List, [], ◌∷◌, ltb, if◌then◌else◌}
use aetheldesk.Int.{ℤ, pos, negsuc}

-- String(n), before a text that follows
unfoldable pub digits_from : ℕ → ℕ → List ℕ → List ℕ
digits_from zero n rest = rest
digits_from (suc fuel) n rest =
    let more : List ℕ = digits_from fuel (n / 10) ((48 + n % 10) ∷ rest) in
    if ltb n 10 then (48 + n) ∷ rest else more

unfoldable pub string_of : ℕ → List ℕ → List ℕ
unfolding digits_from
string_of n rest = digits_from (suc n) n rest

-- String(n).padStart(2, "0")
unfoldable pub padded : ℕ → List ℕ → List ℕ
unfolding string_of
padded n rest = if ltb n 10 then 48 ∷ string_of n rest else string_of n rest

abbrev pub colon : ℕ
colon = 58

abbrev pub dash : ℕ
dash = 45

-- fmtTime of seconds, and fmtSliderMinutes of minutes
unfoldable pub fmt_time : ℕ → List ℕ
unfolding padded
fmt_time n = padded (n / 60) (colon ∷ padded (n % 60) [])

pub record Today : Type 0 where
  pub year : ℕ
  pub month : ℕ
  pub day : ℕ
  pub offset_minutes : ℤ

abbrev pub sign_of : ℤ → ℕ
sign_of (pos n) = 43
sign_of (negsuc n) = 45

abbrev pub magnitude : ℤ → ℕ
magnitude (pos n) = n
magnitude (negsuc n) = suc n

unfoldable pub offset_text : ℤ → List ℕ
unfolding padded
offset_text offset =
    sign_of offset ∷ padded (magnitude offset / 60) (colon ∷ padded (magnitude offset % 60) [])

-- The `iso` of the message.
unfoldable pub override_text : Today → ℕ → List ℕ
unfolding string_of padded offset_text
override_text now value = string_of now.year (
    dash
    ∷ padded now.month (
        dash
        ∷ padded now.day (
            84
            ∷ padded (value / 60)
                (colon ∷ padded (value % 60) (colon ∷ 48 ∷ 48 ∷ offset_text now.offset_minutes)))))
