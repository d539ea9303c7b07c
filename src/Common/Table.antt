-- ===== src/Common/Table.antt =====
-- A test that holds of every index of a table, by evaluation.
use Prim.Native.Nat.{ℕ, zero, suc, ◌<◌}
use mathlib.Core.Path.{◌≡◌}
use mathlib.Core.Bool.{Bool, true, ◌&&◌}
use native.Mathlib.Omega.{arith}

unfoldable pub table_holds : (ℕ → Bool) → ℕ → Bool
table_holds test zero = true
table_holds test (suc size) = table_holds test size && test size

pub table_at :
    (test : ℕ → Bool) (size index : ℕ)
    → index < size
    → table_holds test size ≡ true
    → test index ≡ true
unfolding table_holds
table_at test zero index inside h = absurd (omega arith)
table_at test (suc size) index inside h = ground (arith, table_at test size index)
