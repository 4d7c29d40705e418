-- ===== src/Base/Int.antt =====
-- The `int` results of the C code: zero, counts and negative error numbers.
use Prim.Native.Nat.{ℕ}
use mathlib.Core.Bool.{Bool, true, false}
use uprobe_tests.Base.Tests.{◌==◌}

-- `negsuc n` is -(n + 1).
pub data ℤ : Type 0 where
  pos : ℕ → ℤ
  negsuc : ℕ → ℤ

abbrev pub is_zero : ℤ → Bool
is_zero (pos n) = n == 0
is_zero (negsuc n) = false

abbrev pub is_neg : ℤ → Bool
is_neg (pos n) = false
is_neg (negsuc n) = true

abbrev pub eq_int : ℤ → ℤ → Bool
eq_int (pos a) (pos b) = a == b
eq_int (negsuc a) (negsuc b) = a == b
eq_int (pos a) (negsuc b) = false
eq_int (negsuc a) (pos b) = false

-- -1, and the error numbers that the code names.
abbrev pub minus_one : ℤ
minus_one = negsuc 0

abbrev pub neg_enomem : ℤ
neg_enomem = negsuc 11

abbrev pub neg_einval : ℤ
neg_einval = negsuc 21

abbrev pub neg_einprogress : ℤ
neg_einprogress = negsuc 114
