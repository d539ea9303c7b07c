-- ===== src/Addr/Words.antt =====
-- The masks of one 32-bit word of an address, as arithmetic.
use network_monitoring_emula.Common.Table.{table_holds, table_at}
use network_monitoring_emula.Common.{
  ℕ, ◌-◌, ◌*◌, ◌%◌, ◌^◌, ◌≤◌, ◌<◌, bit_and, ◌≡◌, refl, ap, ◌∙◌, true, arith, ◌==◌, ==→eq,
}
use native.Mathlib.Nat.{pow-le-pow_right}
use network_monitoring_emula.Common.Bits.{bit_and_net, pred-mul}
use network_monitoring_emula.Addr.{not32, partial_mask}

partial_mask_table : table_holds (λ l. partial_mask l == 2 ^ 32 - 2 ^ (32 - l)) 33 ≡ true
unfolding table_holds partial_mask not32
partial_mask_table = refl

-- The word with `l` leading ones.
pub partial_mask_lem : (l : ℕ) → l ≤ 32 → partial_mask l ≡ 2 ^ 32 - 2 ^ (32 - l)
partial_mask_lem l h = ==→eq _ _ (table_at _ 33 l (omega arith) partial_mask_table)

-- 2 ^ 32 as a product of two powers.
split_table : table_holds (λ k. 2 ^ (32 - k) * 2 ^ k == 2 ^ 32) 33 ≡ true
unfolding table_holds
split_table = refl

split_32 : (k : ℕ) → k ≤ 32 → 2 ^ (32 - k) * 2 ^ k ≡ 2 ^ 32
split_32 k h = ==→eq _ _ (table_at _ 33 k (omega arith) split_table)

pub power-le : (k : ℕ) → k ≤ 32 → 2 ^ k ≤ 2 ^ 32
power-le k h = pow-le-pow_right (omega arith) h

-- What a network mask of 32 - `k` bits keeps of a word, and what a host mask of `k` bits fills.
pub bit_and-netmask : (k w : ℕ) → k ≤ 32 → w < 2 ^ 32 → bit_and w (2 ^ 32 - 2 ^ k) ≡ w - w % 2 ^ k
bit_and-netmask k w hk hw =
    let e : (2 ^ (32 - k) - 1) * 2 ^ k ≡ 2 ^ 32 - 2 ^ k =
      pred-mul (2 ^ (32 - k)) (2 ^ k) ∙ ap (λ (t : ℕ). t - 2 ^ k) (split_32 k hk) in
    rw (← e) (bit_and_net (32 - k) k w (rw (split_32 k hk) hw))
