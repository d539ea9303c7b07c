-- ===== src/Common/Bits.antt =====
-- The native bitwise operations at variables: one equation for the lowest digit, and what `bit_and`
-- does under the masks of low and of high bits.
use Prim.Native.Nat.{
  ℕ, zero, suc, ◌+◌, ◌-◌, ◌*◌, ◌/◌, ◌%◌, ◌^◌, ◌≤◌, ◌<◌, min, digits, bitwise, bit_and,
  bit_and-bitwise,
}
use mathlib.Core.Path.{◌≡◌, refl, ap, ◌∙◌}
use native.Mathlib.Nat.{
  add-zero, div-add-mod', div-lt_iff_lt-mul, mod-eq_of_lt, pow-suc, one-le-pow,
}
use native.Mathlib.Omega.{arith}

-- Fuel beyond the number itself changes nothing.
module _ (rest : ℕ → ℕ) (op : ℕ → ℕ → ℕ) where
  one_more : (fuel x y : ℕ) → x ≤ fuel → digits rest op (suc fuel) x y ≡ digits rest op fuel x y
  one_more zero zero y h = refl
  one_more zero (suc x) y h = absurd (omega arith)
  one_more (suc fuel) zero y h = refl
  one_more (suc fuel) (suc x) y h = rw (one_more fuel (suc x / 2) (y / 2) (omega arith)) refl

  spare : (extra x y : ℕ) → digits rest op (extra + x) x y ≡ digits rest op x x y
  spare zero x y = let e : 0 + x ≡ x = omega arith in ap (λ (t : ℕ). digits rest op t x y) e
  spare (suc extra) x y =
      let e : suc extra + x ≡ suc (extra + x) = omega arith in
      ap (λ (t : ℕ). digits rest op t x y) e
      ∙ one_more (extra + x) x y (omega arith)
      ∙ spare extra x y

  enough : (fuel x y : ℕ) → x ≤ fuel → digits rest op fuel x y ≡ digits rest op x x y
  enough fuel x y h =
      let e : fuel ≡ fuel - x + x = omega arith in
      ap (λ (t : ℕ). digits rest op t x y) e ∙ spare (fuel - x) x y

  pub bitwise_digit :
      (x y : ℕ)
      → op (suc x % 2) (y % 2) + 2 * bitwise rest op (suc x / 2) (y / 2) ≡ bitwise rest op (suc x) y
  bitwise_digit x y = omega (arith, enough x (suc x / 2) (y / 2) (omega arith))

bit_and_digit : (x y : ℕ) → min (x % 2) (y % 2) + 2 * bit_and (x / 2) (y / 2) ≡ bit_and x y
bit_and_digit zero y = simp bit_and-bitwise (omega arith)
bit_and_digit (suc x) y = simp bit_and-bitwise (bitwise_digit (λ t. 0) min x y)

below_and-zero : (bound x : ℕ) → x < bound → bit_and x 0 ≡ 0
below_and-zero zero x h = absurd (omega arith)
below_and-zero (suc bound) zero h = refl
below_and-zero (suc bound) (suc x) h =
    omega (arith, bit_and_digit (suc x) 0, below_and-zero bound (suc x / 2) (omega arith))

pub double_power : (k q : ℕ) → 2 * (q * 2 ^ k) ≡ q * 2 ^ suc k
double_power k q = let p = ap (λ (t : ℕ). q * t) (pow-suc 2 k) in omega (arith, p)

-- `low + high * 2 ^ k` is a number split at bit `k`. A mask of high bits acts on `high` alone.
bit_and_high :
    (k low high m : ℕ)
    → low < 2 ^ k
    → bit_and (high * 2 ^ k + low) (m * 2 ^ k) ≡ bit_and high m * 2 ^ k
bit_and_high zero low high m fits =
    let e : low ≡ 0 = omega arith in
    rw e (ground (arith, ap (λ (t : ℕ). bit_and t m) (add-zero high)))
bit_and_high (suc k) low high m fits = ground (
  arith,
  double_power k high,
  double_power k m,
  double_power k (bit_and high m),
  bit_and_digit (high * 2 ^ suc k + low) (m * 2 ^ suc k),
  bit_and_high k (low / 2) high m (omega arith),
)

-- A mask of low bits keeps `low`.
bit_and_low : (k low high : ℕ) → low < 2 ^ k → low ≡ bit_and (low + high * 2 ^ k) (2 ^ k - 1)
bit_and_low zero low high fits =
    omega (arith, below_and-zero (suc (low + high * 1)) (low + high * 1) (omega arith))
bit_and_low (suc k) low high fits = ground (
  arith,
  pow-suc 2 k,
  double_power k high,
  bit_and_low k (low / 2) high (omega arith),
  bit_and_digit (low + high * 2 ^ suc k) (2 ^ suc k - 1),
)

pub bit_and_mask : (k a : ℕ) → bit_and a (2 ^ k - 1) ≡ a % 2 ^ k
bit_and_mask k a =
    let kept = bit_and_low k (a % 2 ^ k) (a / 2 ^ k) in
    let whole = div-add-mod' a (2 ^ k) in ground (arith, kept, whole, one-le-pow k 2)

-- The low `k` bits of a number of `j + k` bits are cleared by a mask of `j` bits above them.
pub bit_and_net : (j k w : ℕ) → w < 2 ^ j * 2 ^ k → bit_and w ((2 ^ j - 1) * 2 ^ k) ≡ w - w % 2 ^ k
bit_and_net j k w h = ground (
  arith,
  one-le-pow k 2,
  bit_and_high k (w % 2 ^ k) (w / 2 ^ k) (2 ^ j - 1),
  bit_and_mask j (w / 2 ^ k),
  mod-eq_of_lt ((div-lt_iff_lt-mul (one-le-pow k 2 (omega arith))).1 h),
  div-add-mod' w (2 ^ k),
)

pub pred-mul : (a b : ℕ) → (a - 1) * b ≡ a * b - b
pred-mul zero b = omega arith
pred-mul (suc a) b = grind arith
