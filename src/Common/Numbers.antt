-- ===== src/Common/Numbers.antt =====
-- JavaScript numbers as the code inspects them: integers of either sign, and everything that
-- is no integer (a fraction, NaN, an infinity, or a value of another type). BigInts are the
-- integers alone.
use Prim.Native.Nat.{ℕ, ◌<◌}
use mathlib.Core.Path.{◌≡◌}
use mathlib.Core.Bool.{Bool, true, false, ◌&&◌}
use native.Mathlib.Omega.{arith}
use reapp_protocol.Common.Tests.{ltb, leb}

-- `negsuc n` is -(n + 1).
pub data ℤ : Type 0 where
  pos : ℕ → ℤ
  negsuc : ℕ → ℤ

pub data Number : Type 0 where
  int : ℤ → Number
  non_integer : Number

-- Number.MAX_SAFE_INTEGER
abbrev pub max_safe_integer : ℕ
max_safe_integer = 9007199254740991

-- `Number.isSafeInteger(value) && value > 0`
unfoldable pub is_positive_safe : Number → Bool
is_positive_safe (int (pos n)) = ltb 0 n && leb n max_safe_integer
is_positive_safe _ = false

-- `Number.isSafeInteger(value) && value >= 0`
unfoldable pub is_natural_safe : Number → Bool
is_natural_safe (int (pos n)) = leb n max_safe_integer
is_natural_safe _ = false

-- The value of a number that such a check has let through.
abbrev pub natural : Number → ℕ
natural (int (pos n)) = n
natural _ = 0

pub natural_pos : (x : Number) → is_positive_safe x ≡ true → 0 < natural x
unfolding is_positive_safe
natural_pos (int (pos n)) h = ground arith
natural_pos (int (negsuc n)) h = cc
natural_pos non_integer h = cc
