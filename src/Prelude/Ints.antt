-- ===== src/Prelude/Ints.antt =====
-- C integers with a sign, over the native numbers.
use Prim.Native.Nat.{ℕ}
use mathlib.Core.Bool.{Bool, true, false}
use openamp_core.Prelude.Tests.{◌==◌}

pub data ℤ : Type 0 where
  pos : ℕ → ℤ
  negsuc : ℕ → ℤ

abbrev pub is_negative : ℤ → Bool
is_negative (pos _) = false
is_negative (negsuc _) = true

abbrev pub is_success : ℤ → Bool
is_success (pos n) = n == 0
is_success (negsuc _) = false
