-- ===== src/Addr/Masks.antt =====
-- Network and host masks as arithmetic on the value of an address.
use native.Mathlib.Nat.{
  zero-add, suc-add, one-le-pow, pow-suc, mod-eq_of_lt, mod-lt, mod-le, mul-sub, mul_comm,
  mul-le-mul_right, div-add-mod', add-mul-mod_self_right,
}
use network_monitoring_emula.Common.{
  ℕ, zero, suc, ◌+◌, ◌-◌, ◌*◌, ◌/◌, ◌%◌, ◌^◌, ◌≤◌, ◌<◌, ◌≡◌, refl, ap, ◌∙◌, List, [], ◌∷◌, length,
  arith, inl, inr, Bool-cases, ltb, ltb→lt,
}
use network_monitoring_emula.Addr.Value.{value}

-- A list of words with all but the first `l` bits cleared, and with those set.
abbrev pub cleared : ℕ → List ℕ → List ℕ
cleared l [] = []
cleared l (w ∷ ws) = (w - w % 2 ^ (32 - l)) ∷ cleared (l - 32) ws

abbrev pub AllWords : List ℕ → Type 0
AllWords [] = Unit {0}
AllWords (w ∷ ws) = (w < 2 ^ 32) × AllWords ws

pow_add : (a b : ℕ) → 2 ^ (a + b) ≡ 2 ^ a * 2 ^ b
pow_add zero b = rw (zero-add) (omega arith)
pow_add (suc a) b = rw (suc-add, pow-suc, pow-suc, pow_add a b) (omega arith)

pow_words : (n : ℕ) → 2 ^ (32 * suc n) ≡ 2 ^ 32 * 2 ^ (32 * n)
pow_words n = let e : 32 * suc n ≡ 32 + 32 * n = omega arith in rw e (pow_add 32 (32 * n))

value-lt : (ws : List ℕ) → AllWords ws → value ws < 2 ^ (32 * length ws)
value-lt [] h = omega arith
value-lt (w ∷ ws) h =
    rw (pow_words (length ws))
      (grind (arith, value-lt ws h.1, mul-le-mul_right (2 ^ (32 * length ws)) h.0))

-- The remainder of a number by a power of two above its lower words, and below them.
mod_part : (w p m v : ℕ) → v < m → 0 < p → (w * m + v) % (p * m) ≡ w % p * m + v
mod_part w p m v hv hp =
    let low : w % p * m + v < p * m = grind (arith, mul-le-mul_right m (mod-lt w hp)) in
    let e : w * m + v ≡ w % p * m + v + w / p * (p * m) =
      omega (arith, ap (λ (t : ℕ). t * m) (div-add-mod' w p)) in
    rw e (add-mul-mod_self_right (w % p * m + v) (w / p) (p * m) ∙ mod-eq_of_lt low)

mod_below : (w t n v : ℕ) → (w * (t * n) + v) % n ≡ v % n
mod_below w t n v =
    let e : w * (t * n) + v ≡ v + w * t * n = omega arith in
    rw e (add-mul-mod_self_right v (w * t) n)

length-cleared : (l : ℕ) (ws : List ℕ) → length (cleared l ws) ≡ length ws
length-cleared l [] = refl
length-cleared l (w ∷ ws) = ap suc (length-cleared (l - 32) ws)

sub_mul : (a b c : ℕ) → (a - b) * c ≡ a * c - b * c
sub_mul a b c = mul_comm (a - b) c ∙ mul-sub c a b ∙ omega arith

cleared-value_none : (ws : List ℕ) → AllWords ws → value (cleared 0 ws) ≡ 0
cleared-value_none [] h = refl
cleared-value_none (w ∷ ws) h =
    let e : w - w % 2 ^ 32 ≡ 0 = omega arith in
    omega (arith, ap (λ (t : ℕ). t * 2 ^ (32 * length (cleared 0 ws))) e, cleared-value_none ws h.1)

-- The mask ends inside the first word, and all below it is cleared.
cleared-value_first :
    (l w v c m : ℕ)
    → l < 32
    → v < m
    → c ≡ 0
    → (w - w % 2 ^ (32 - l)) * m + c ≡ w * m + v - (w * m + v) % (2 ^ (32 - l) * m)
cleared-value_first l w v c m hl hv hc =
    rw (mod_part w (2 ^ (32 - l)) m v hv (one-le-pow (32 - l) 2 (omega arith)), hc)
      (omega (arith, sub_mul w (w % 2 ^ (32 - l)) m))

-- The mask covers the first word.
cleared-value_later :
    (w v c m t n : ℕ)
    → m ≡ t * n
    → c ≡ v - v % n
    → (w - w % 1) * m + c ≡ w * m + v - (w * m + v) % n
cleared-value_later w v c m t n hm hc =
    let e : w - w % 1 ≡ w = omega arith in
    rw (e, hm, mod_below w t n v, hc) (omega (arith, mod-le v n))

-- Clearing all but the first `l` bits of a list of words takes the remainder off its value.
pub cleared-value :
    (l : ℕ) (ws : List ℕ)
    → AllWords ws
    → value (cleared l ws) ≡ value ws - value ws % 2 ^ (32 * length ws - l)
cleared-value l [] h = omega arith
cleared-value l (w ∷ ws) h = elim (Bool-cases (ltb l 32)) [
  | inl short ↦
      let e : 32 * suc (length ws) - l ≡ 32 - l + 32 * length ws =
        omega (arith, ltb→lt l 32 short) in
      let none_left : l - 32 ≡ 0 = omega (arith, ltb→lt l 32 short) in
      rw (e, pow_add (32 - l) (32 * length ws), length-cleared (l - 32) ws)
        (cleared-value_first l w (value ws) _ (2 ^ (32 * length ws)) (ltb→lt l 32 short)
          (value-lt ws h.1) (rw none_left (cleared-value_none ws h.1)))
  | inr long ↦
      let n = 32 * length ws in
      let k = n - (l - 32) in
      let below : 32 ≤ l = ground arith in
      let e : 32 * suc (length ws) - l ≡ k = omega arith in
      let f : n ≡ n - k + k = omega arith in
      let none_left : 32 - l ≡ 0 = omega arith in
      let p : 2 ^ n ≡ 2 ^ (n - k) * 2 ^ k = ap (λ (t : ℕ). 2 ^ t) f ∙ pow_add (n - k) k in
      rw (e, length-cleared (l - 32) ws, none_left)
        (cleared-value_later w (value ws) _ (2 ^ n) (2 ^ (n - k)) (2 ^ k) p
          (cleared-value (l - 32) ws h.1))
]
