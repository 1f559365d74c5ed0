-- ===== src/Common/Int.antt =====
-- C's `int`, for return values, descriptors and `ssize_t`: only the tests that the code makes.
use Prim.Native.Nat.{ℕ, zero, suc}
use mathlib.Core.Path.{◌≡◌, refl, sym, ap, ◌∙◌}
use mathlib.Core.Logic.{◌≢◌}
use mathlib.Core.Bool.{Bool, true, false}

-- `negsuc n` is -(n + 1).
pub data ℤ : Type 0 where
  pos : ℕ → ℤ
  negsuc : ℕ → ℤ

-- What a function returns that succeeded, and the -1 of one that failed.
abbrev pub success : ℤ
success = pos 0

abbrev pub failure : ℤ
failure = negsuc 0

-- `x == 0`
abbrev pub is_zero : ℤ → Bool
is_zero (pos zero) = true
is_zero (pos (suc n)) = false
is_zero (negsuc n) = false

pub is_zero-success : (r : ℤ) → is_zero r ≡ true → r ≡ success
is_zero-success (pos zero) e = refl
is_zero-success (pos (suc n)) e = cc
is_zero-success (negsuc n) e = cc

-- `x == -1`
abbrev pub is_invalid : ℤ → Bool
is_invalid (pos n) = false
is_invalid (negsuc zero) = true
is_invalid (negsuc (suc n)) = false

-- `x >= 0`
abbrev pub is_nonneg : ℤ → Bool
is_nonneg (pos n) = true
is_nonneg (negsuc n) = false

-- `(size_t)x` where the code has seen that `x` is not -1; a negative value does not occur there.
abbrev pub to_size : ℤ → ℕ
to_size (pos n) = n
to_size (negsuc n) = 0

-- What is not 0 is no success.
pub not_zero : (r : ℤ) → is_zero r ≡ false → r ≢ success
not_zero r e is = let zero_is : is_zero r ≡ true = ap is_zero is in true_not_false (sym zero_is ∙ e)
  where
    true_not_false : true ≡ false → ⊥
    true_not_false f = cc
