-- ===== src/Models/Signed.antt =====
-- Python's `int` where it can be negative: the points of a risk factor.
use lan_fence.Base.{if◌then◌else◌, ltb, suc, ℕ, ◌+◌, ◌-◌}

pub data ℤ : Type 0 where
  pos : ℕ → ℤ
  negsuc : ℕ → ℤ

-- the difference of two numbers
abbrev pub minus : ℕ → ℕ → ℤ
minus m n = if ltb m n then negsuc (n - suc m) else pos (m - n)

infixl 60 ◌+ℤ◌
abbrev pub ◌+ℤ◌ : ℤ → ℤ → ℤ
pos m +ℤ pos n = pos (m + n)
pos m +ℤ negsuc n = minus m (suc n)
negsuc m +ℤ pos n = minus n (suc m)
negsuc m +ℤ negsuc n = negsuc (suc (m + n))

abbrev pub abs : ℤ → ℕ
abs (pos n) = n
abs (negsuc n) = suc n
