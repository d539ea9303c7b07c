-- ===== src/Common/Int.antt =====
-- C's `int` results: a sign and a size, with the tests that the code makes on them.
use Prim.Native.Nat.{ℕ, zero, ◌-◌}
use mathlib.Core.Bool.{Bool, true, false}
use network_monitoring_emula.Common.Tests.{leb, if◌then◌else◌}

-- `negsuc n` is -(n + 1).
pub data ℤ : Type 0 where
  pos : ℕ → ℤ
  negsuc : ℕ → ℤ

-- a - b, as an integer.
abbrev pub sub_ℕ : ℕ → ℕ → ℤ
sub_ℕ a b = if leb b a then pos (a - b) else negsuc (b - a - 1)

abbrev pub is_zero : ℤ → Bool
is_zero (pos zero) = true
is_zero _ = false
