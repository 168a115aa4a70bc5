-- ===== src/Js.antt =====
-- The JavaScript values that a server message or a caller may carry where the client expects a
-- number or a flag. A finite number is read through its sign, the whole part of its magnitude and
-- whether a fraction is left over: that is all that `Math.trunc`, `Number.isInteger`, `Boolean` and
-- a comparison with 0 look at. -0 is `finite true 0 true`.
use aetheldesk.Base.{
  ℕ, String, Bool, true, false, not, ◌&&◌, ◌||◌, Option, none, some, ◌==◌, str_eq, if◌then◌else◌,
}

pub data Number : Type 0 where
  nan : Number
  infinite : Bool → Number
  finite : Bool → ℕ → Bool → Number

pub data Value : Type 0 where
  undefined null object : Value
  boolean : Bool → Value
  number : Number → Value
  text : String → Value

abbrev pub natural : ℕ → Value
natural n = number (finite false n true)

-- Boolean(v)
abbrev pub truthy : Value → Bool
truthy undefined = false
truthy null = false
truthy object = true
truthy (boolean b) = b
truthy (number nan) = false
truthy (number (infinite _)) = true
truthy (number (finite _ whole exact)) = not (whole == 0 && exact)
truthy (text s) = not (str_eq s "")

-- a ?? b
abbrev pub coalesce : Value → Value → Value
coalesce undefined b = b
coalesce null b = b
coalesce a b = a

-- Number.isFinite(v)
abbrev pub is_finite : Value → Bool
is_finite (number (finite _ _ _)) = true
is_finite _ = false

-- Math.max(0, Math.trunc(v)) where v is finite, the fallback elsewhere
abbrev pub trunc_or : Value → ℕ → ℕ
trunc_or (number (finite negative whole _)) d = if negative then 0 else whole
trunc_or _ d = d

-- Number.isInteger(v) && v >= 0 ? v : null
abbrev pub natural? : Value → Option ℕ
natural? (number (finite negative whole exact)) =
    if exact && (not negative || whole == 0) then some whole else none
natural? _ = none
