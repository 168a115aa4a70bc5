-- ===== src/TimerControls/Tests.antt =====
-- The evening of a day to the west of UTC, for the property of the message's text.
use aetheldesk.Base.{◌≡◌, refl, [], ◌∷◌}
use aetheldesk.Int.{negsuc}
use aetheldesk.TimerControls.Texts.{Today, fmt_time, padded, string_of, digits_from}

-- "07:05"
label : fmt_time 425 ≡ 48 ∷ 55 ∷ 58 ∷ 48 ∷ 53 ∷ []
unfolding fmt_time padded string_of digits_from
label = refl

abbrev today : Today
today = record { year = 2026; month = 3; day = 9; offset_minutes = negsuc 209 }
