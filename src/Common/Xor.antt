-- ===== src/Common/Xor.antt =====
-- The laws of `bit_xor`: associative, a sum where the bits are apart, and no wider than its operands.
use Prim.Native.Nat.{ℕ, zero, suc, ◌+◌, ◌*◌, ◌/◌, ◌%◌, ◌^◌, ◌<◌, differ, bit_xor, bit_xor-bitwise}
use mathlib.Core.Path.{◌≡◌, refl, ap, ◌∙◌}
use native.Mathlib.Nat.{pow-suc, pow-succ', div-one, div-div-eq-div-mul}
use native.Mathlib.Omega.{arith}
use network_monitoring_emula.Common.Bits.{bitwise_digit, double_power}

differ-digits : (a b : ℕ) → a < 2 → b < 2 → differ a b ≡ (a + b) % 2
differ-digits zero b h k = omega arith
differ-digits (suc zero) zero h k = refl
differ-digits (suc zero) (suc zero) h k = refl
differ-digits (suc zero) (suc (suc b)) h k = absurd (omega arith)
differ-digits (suc (suc a)) b h k = absurd (omega arith)

-- The lowest digit.
pub bit_xor_step : (a b : ℕ) → bit_xor a b ≡ bit_xor (a / 2) (b / 2) * 2 + (a + b) % 2
bit_xor_step zero b = simp bit_xor-bitwise (omega arith)
bit_xor_step (suc a) b = simp bit_xor-bitwise (
    omega (
      arith,
      bitwise_digit (λ y. y) differ a b,
      differ-digits (suc a % 2) (b % 2) (omega arith) (omega arith),
    ))

pub zero-bit_xor : (b : ℕ) → bit_xor 0 b ≡ b
zero-bit_xor b = bit_xor-bitwise 0 b

pub bit_xor-half : (a b : ℕ) → bit_xor a b / 2 ≡ bit_xor (a / 2) (b / 2)
bit_xor-half a b = omega (arith, bit_xor_step a b)

pub bit_xor-parity : (a b : ℕ) → bit_xor a b % 2 ≡ (a + b) % 2
bit_xor-parity a b = omega (arith, bit_xor_step a b)

below_xor-zero : (bound a : ℕ) → a < bound → bit_xor a 0 ≡ a
below_xor-zero zero a h = absurd (omega arith)
below_xor-zero (suc bound) zero h = refl
below_xor-zero (suc bound) (suc a) h =
    omega (arith, bit_xor_step (suc a) 0, below_xor-zero bound (suc a / 2) (omega arith))

pub bit_xor-zero : (a : ℕ) → bit_xor a 0 ≡ a
bit_xor-zero a = below_xor-zero (suc a) a (omega arith)

-- `a` falls by half, and `b` and `c` with it.
bit_xor_assoc_fuel : (n a b c : ℕ) → a < n → bit_xor (bit_xor a b) c ≡ bit_xor a (bit_xor b c)
bit_xor_assoc_fuel zero a b c h = absurd (omega arith)
bit_xor_assoc_fuel (suc n) zero b c h =
    ap (λ (t : ℕ). bit_xor t c) (zero-bit_xor b) ∙ (rw (zero-bit_xor (bit_xor b c)))
bit_xor_assoc_fuel (suc n) (suc a) b c h = ground (
  arith,
  bit_xor_step (bit_xor (suc a) b) c,
  bit_xor_step (suc a) (bit_xor b c),
  bit_xor-half (suc a) b,
  bit_xor-half b c,
  bit_xor-parity (suc a) b,
  bit_xor-parity b c,
  bit_xor_assoc_fuel n (suc a / 2) (b / 2) (c / 2),
)

pub bit_xor_assoc : (a b c : ℕ) → bit_xor (bit_xor a b) c ≡ bit_xor a (bit_xor b c)
bit_xor_assoc a b c = bit_xor_assoc_fuel (suc a) a b c (omega arith)

bit_xor_comm_fuel : (n a b : ℕ) → a < n → bit_xor a b ≡ bit_xor b a
bit_xor_comm_fuel zero a b h = absurd (omega arith)
bit_xor_comm_fuel (suc n) zero b h = rw (zero-bit_xor b, bit_xor-zero b) refl
bit_xor_comm_fuel (suc n) (suc a) b h = omega (
  arith,
  bit_xor_step (suc a) b,
  bit_xor_step b (suc a),
  bit_xor_comm_fuel n (suc a / 2) (b / 2) (omega arith),
)

pub bit_xor_comm : (a b : ℕ) → bit_xor a b ≡ bit_xor b a
bit_xor_comm a b = bit_xor_comm_fuel (suc a) a b (omega arith)

-- High bits and low bits do not meet.
pub bit_xor_fields : (k q r : ℕ) → r < 2 ^ k → bit_xor r (q * 2 ^ k) ≡ q * 2 ^ k + r
bit_xor_fields zero q r h = let e : r ≡ 0 = omega arith in rw e (zero-bit_xor (q * 1) ∙ omega arith)
bit_xor_fields (suc k) q r h = ground (
  arith,
  bit_xor_step r (q * 2 ^ suc k),
  double_power k q,
  pow-suc 2 k,
  bit_xor_fields k q (r / 2),
)

pub bit_xor-lt : (k a b : ℕ) → a < 2 ^ k → b < 2 ^ k → bit_xor a b < 2 ^ k
bit_xor-lt zero a b ha hb = let e : a ≡ 0 = omega arith in rw e (rw (zero-bit_xor b) hb)
bit_xor-lt (suc k) a b ha hb = omega (
  arith,
  bit_xor_step a b,
  pow-suc 2 k,
  bit_xor-lt k (a / 2) (b / 2) (omega (arith, pow-suc 2 k)) (omega (arith, pow-suc 2 k)),
)

pub bit_xor-shift : (k a b : ℕ) → bit_xor a b / 2 ^ k ≡ bit_xor (a / 2 ^ k) (b / 2 ^ k)
bit_xor-shift zero a b = rw (div-one, div-one, div-one) refl
bit_xor-shift (suc k) a b =
    rw
      (
        pow-succ',
        ← div-div-eq-div-mul (bit_xor a b) 2 (2 ^ k),
        ← div-div-eq-div-mul a 2 (2 ^ k),
        ← div-div-eq-div-mul b 2 (2 ^ k),
        bit_xor-half a b,
      )
      (bit_xor-shift k (a / 2) (b / 2))
