-- ===== src/Prelude/Int.antt =====
-- Integers over the native numbers, as far as the code compares them.
use Prim.Native.Nat.{ℕ, ◌*◌, ◌+◌}
use mathlib.Core.Bool.{◌&&◌}
use mathlib.Core.Option.{Option, none, some}
use polaris_gslb.Prelude.Tests.{leb, if◌then◌else◌}

pub data ℤ : Type 0 where
  pos negsuc : ℕ → ℤ

-- The number itself, if it lies between two bounds that are not negative.
abbrev pub within : ℕ → ℕ → ℤ → Option ℕ
within low high (pos n) = if leb low n && leb n high then some n else none
within low high (negsuc n) = none

abbrev pub thousandfold : ℤ → ℤ
thousandfold (pos n) = pos (1000 * n)
thousandfold (negsuc n) = negsuc (1000 * n + 999)
