-- ===== src/Common/Flags.antt =====
-- Flags of a mask: one bit taken out leaves the others.
use native.Mathlib.Nat.{
  pow-suc, pow-succ', div-div-eq-div-mul, div-one, div-mul-le_self, mul-le-mul_right,
}
use Prim.Native.Nat.{ℕ, zero, suc, ◌+◌, ◌-◌, ◌*◌, ◌/◌, ◌%◌, ◌^◌, ◌≤◌}
use mathlib.Core.Path.{◌≡◌, refl, ap, ◌∙◌}
use mathlib.Core.Logic.{◌≢◌, inl, inr}
use mathlib.Core.Bool.{Bool, true, false}
use native.Mathlib.Omega.{arith}
use network_monitoring_emula.Common.Tests.{◌==◌, if◌then◌else◌, Bool-cases}

-- `mask & (1 << i)` as a truth value, `mask | (1 << i)` and `mask & ~(1 << i)`.
abbrev pub has_bit : ℕ → ℕ → Bool
has_bit mask i = mask / 2 ^ i % 2 == 1

abbrev pub with_bit : ℕ → ℕ → ℕ
with_bit mask i = if has_bit mask i then mask else mask + 2 ^ i

abbrev pub without_bit : ℕ → ℕ → ℕ
without_bit mask i = if has_bit mask i then mask - 2 ^ i else mask

shift_suc : (m i : ℕ) → m / 2 ^ suc i ≡ m / 2 / 2 ^ i
shift_suc m i = rw (pow-succ', div-div-eq-div-mul) refl

has_bit-suc : (m i : ℕ) → has_bit m (suc i) ≡ has_bit (m / 2) i
has_bit-suc m i = ap (λ (t : ℕ). t % 2 == 1) (shift_suc m i)

has_bit-le : (m i : ℕ) → has_bit m i ≡ true → 2 ^ i ≤ m
has_bit-le m i h =
    let some_left : 1 ≤ m / 2 ^ i = ground arith in
    omega (arith, mul-le-mul_right (2 ^ i) some_left, div-mul-le_self m (2 ^ i))

without_bit-suc : (m i : ℕ) → without_bit m (suc i) ≡ without_bit (m / 2) i * 2 + m % 2
without_bit-suc m i = elim (Bool-cases (has_bit (m / 2) i)) [
  | inl set ↦
      let fits : 2 ^ i ≤ m / 2 = has_bit-le (m / 2) i set in
      rw (has_bit-suc m i, set, pow-suc) (omega arith)
  | inr unset ↦ rw (has_bit-suc m i, unset) (omega arith)
]

-- The lowest digit, and the others one place down.
without_bit-half : (m i : ℕ) → without_bit m (suc i) / 2 ≡ without_bit (m / 2) i
without_bit-half m i = omega (arith, without_bit-suc m i)

pub has_bit-without : (i j m : ℕ) → i ≢ j → has_bit (without_bit m i) j ≡ has_bit m j
has_bit-without zero zero m h = absurd (h refl)
has_bit-without zero (suc j) m h =
    let e : without_bit m 0 / 2 ≡ m / 2 = ground arith in
    has_bit-suc (without_bit m 0) j ∙ ap (λ (t : ℕ). has_bit t j) e ∙ (rw (has_bit-suc m j))
has_bit-without (suc i) zero m h =
    let e : without_bit m (suc i) % 2 ≡ m % 2 = omega (arith, without_bit-suc m i) in
    rw (div-one, div-one) (ap (λ (t : ℕ). t == 1) e)
has_bit-without (suc i) (suc j) m h =
    has_bit-suc (without_bit m (suc i)) j
    ∙ ap (λ (t : ℕ). has_bit t j) (without_bit-half m i)
    ∙ has_bit-without i j (m / 2) (λ e. h (ap suc e))
    ∙ (rw (has_bit-suc m j))

pub has_bit-half : (m j : ℕ) → has_bit (m / 2) j ≡ has_bit m (suc j)
has_bit-half m j = rw (has_bit-suc m j)

pub has_bit-without_self : (i m : ℕ) → has_bit (without_bit m i) i ≡ false
has_bit-without_self zero m = rw div-one (ground arith)
has_bit-without_self (suc i) m =
    has_bit-suc (without_bit m (suc i)) i
    ∙ ap (λ (t : ℕ). has_bit t i) (without_bit-half m i)
    ∙ has_bit-without_self i (m / 2)
