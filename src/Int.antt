-- ===== src/Int.antt =====
-- Signed numbers: `negsuc n` is -(n + 1).
use aetheldesk.Base.{ℕ, suc, ◌+◌, ◌-◌, Bool, leb}

pub data ℤ : Type 0 where
  pos : ℕ → ℤ
  negsuc : ℕ → ℤ

abbrev pub pos_part : ℤ → ℕ
pos_part (pos n) = n
pos_part (negsuc n) = 0

abbrev pub neg_part : ℤ → ℕ
neg_part (pos n) = 0
neg_part (negsuc n) = suc n

-- a <= b
abbrev pub leb_ℤ : ℤ → ℤ → Bool
leb_ℤ a b = leb (pos_part a + neg_part b) (pos_part b + neg_part a)

-- How far `a` lies above `b`: Math.max(0, a - b).
abbrev pub above : ℤ → ℤ → ℕ
above a b = pos_part a + neg_part b - (pos_part b + neg_part a)
