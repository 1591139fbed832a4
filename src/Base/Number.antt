-- ===== src/Base/Number.antt =====
-- Signed integers and floating-point numbers, as far as the program compares them.
use nakama_playflow.Base.Tests.{leb}
use Prim.Native.Nat.{ℕ}
use mathlib.Core.Bool.{Bool, true, false}

-- `negsuc n` is -(n + 1).
pub data ℤ : Type 0 where
  pos : ℕ → ℤ
  negsuc : ℕ → ℤ

abbrev pub is_zero : ℤ → Bool
is_zero (pos n) = leb n 0
is_zero (negsuc n) = false

abbrev pub is_nonneg : ℤ → Bool
is_nonneg (pos n) = true
is_nonneg (negsuc n) = false

-- A float64. A finite one is a whole multiple of 2 ^ -1074: `num n` is n times that, and `neg n` is
-- -(n + 1) times that. Both zeros are `num 0`, which compare alike.
pub data Float64 : Type 0 where
  nan inf neg_inf : Float64
  num : ℕ → Float64
  neg : ℕ → Float64

-- `a <= b`, which is false as soon as one side is NaN.
unfoldable pub float_leb : Float64 → Float64 → Bool
float_leb nan b = false
float_leb a nan = false
float_leb neg_inf b = true
float_leb a inf = true
float_leb (num m) (num n) = leb m n
float_leb (neg m) (num n) = true
float_leb (neg m) (neg n) = leb n m
float_leb _ _ = false

abbrev pub is_nan : Float64 → Bool
is_nan nan = true
is_nan _ = false

-- `math.IsInf(f, 0)`.
abbrev pub is_inf : Float64 → Bool
is_inf inf = true
is_inf neg_inf = true
is_inf _ = false
