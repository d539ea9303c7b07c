-- ===== src/Store/Crc32/Reference.antt =====
-- The checksum against the bit-at-a-time definition of the polynomial 0xedb88320.
use network_monitoring_emula.Common.Table.{table_holds, table_at}
use network_monitoring_emula.Common.{
  ℕ, zero, suc, ◌*◌, ◌/◌, ◌%◌, ◌^◌, ◌<◌, bit_xor, ◌≡◌, refl, ap, sym, ◌∙◌, true, List, [], ◌∷◌,
  ◌++◌, ◌==◌, ltb, if◌then◌else◌, ==→eq, ltb→lt, arith,
}
use network_monitoring_emula.Common.Bits.{double_power}
use network_monitoring_emula.Common.Xor.{
  bit_xor_comm, bit_xor_assoc, bit_xor-half, bit_xor-parity, bit_xor_fields, bit_xor-lt,
  bit_xor-zero, bit_xor-shift,
}
use network_monitoring_emula.Store.Crc32.{entry, crc32_byte, flowd_crc32_update}
use network_monitoring_emula.Store.Crc32.Table.{crc32tab}

abbrev pub polynomial : ℕ
polynomial = 0xedb88320

-- One bit of the division: shift, and subtract the polynomial if the bit that leaves is set.
pub divide : ℕ → ℕ
divide x = if x % 2 == 1 then bit_xor (x / 2) polynomial else x / 2

pub divide_bits : ℕ → ℕ → ℕ
divide_bits zero x = x
divide_bits (suc k) x = divide_bits k (divide x)

-- The checksum with no table: each byte is added in and divided bit by bit.
pub bitwise_crc : List ℕ → ℕ → ℕ
bitwise_crc [] crc = crc
bitwise_crc (b ∷ bs) crc = bitwise_crc bs (divide_bits 8 (bit_xor crc b))

abbrev pub AllBytes : List ℕ → Type 0
AllBytes [] = Unit {0}
AllBytes (x ∷ xs) = (x < 256) × AllBytes xs

table_bits : table_holds (λ i. entry crc32tab i == divide_bits 8 i) 256 ≡ true
unfolding table_holds entry crc32tab divide_bits divide
table_bits = refl

table_words : table_holds (λ i. ltb (entry crc32tab i) (2 ^ 32)) 256 ≡ true
unfolding table_holds entry crc32tab
table_words = refl

-- Bits above the one that leaves pass through the division.
divide-xor : (a m : ℕ) → divide (bit_xor a (m * 2)) ≡ bit_xor (divide a) m
unfolding divide
divide-xor a m = ground (
  arith,
  bit_xor-parity a (m * 2),
  bit_xor-half a (m * 2),
  bit_xor_assoc (a / 2) m polynomial,
  bit_xor_comm m polynomial,
  bit_xor_assoc (a / 2) polynomial m,
)

divide_bits-xor : (k a q : ℕ) → divide_bits k (bit_xor a (q * 2 ^ k)) ≡ bit_xor (divide_bits k a) q
unfolding divide_bits
divide_bits-xor zero a q = ap (bit_xor a) (omega arith)
divide_bits-xor (suc k) a q =
    let e : q * 2 ^ suc k ≡ q * 2 ^ k * 2 = omega (arith, double_power k q) in
    rw (e, divide-xor a (q * 2 ^ k)) (divide_bits-xor k (divide a) q)

-- The loop's body is the division of eight bits.
crc32_byte-divide : (crc b : ℕ) → b < 256 → crc32_byte crc b ≡ divide_bits 8 (bit_xor crc b)
unfolding crc32_byte
crc32_byte-divide crc b h =
    let x = bit_xor crc b in
    let high : x / 2 ^ 8 ≡ crc / 2 ^ 8 =
      bit_xor-shift 8 crc b
      ∙ ap (bit_xor (crc / 2 ^ 8)) (omega arith)
      ∙ bit_xor-zero (crc / 2 ^ 8) in
    let split : bit_xor (x % 2 ^ 8) (x / 2 ^ 8 * 2 ^ 8) ≡ x =
      bit_xor_fields 8 (x / 2 ^ 8) (x % 2 ^ 8) (omega arith) ∙ omega arith in
    let low : entry crc32tab (x % 2 ^ 8) ≡ divide_bits 8 (x % 2 ^ 8) =
      ==→eq _ _ (table_at _ 256 (x % 2 ^ 8) (omega arith) table_bits) in
    rw (low, ← high)
      (sym (ap (divide_bits 8) (sym split) ∙ divide_bits-xor 8 (x % 2 ^ 8) (x / 2 ^ 8)))

-- From any start the table gives the same checksum of a buffer as the division bit by bit.
pub crc32_update-bitwise :
    (buf : List ℕ) (crc : ℕ) → AllBytes buf → flowd_crc32_update buf crc ≡ bitwise_crc buf crc
unfolding flowd_crc32_update bitwise_crc
crc32_update-bitwise [] crc h = refl
crc32_update-bitwise (b ∷ bs) crc h =
    ap (flowd_crc32_update bs) (crc32_byte-divide crc b h.0)
    ∙ crc32_update-bitwise bs (divide_bits 8 (bit_xor crc b)) h.1

crc32_byte-lt : (crc b : ℕ) → crc < 2 ^ 32 → crc32_byte crc b < 2 ^ 32
unfolding crc32_byte
crc32_byte-lt crc b h =
    let i = bit_xor crc b % 2 ^ 8 in
    bit_xor-lt 32 _ _ (ltb→lt _ _ (table_at _ 256 i (omega arith) table_words)) (omega arith)

-- From a start that fits 32 bits, the checksum of a buffer fits 32 bits.
pub crc32_update-lt : (buf : List ℕ) (crc : ℕ) → crc < 2 ^ 32 → flowd_crc32_update buf crc < 2 ^ 32
unfolding flowd_crc32_update
crc32_update-lt [] crc h = h
crc32_update-lt (b ∷ bs) crc h = crc32_update-lt bs (crc32_byte crc b) (crc32_byte-lt crc b h)

-- The checksum may be taken piece by piece: over two buffers in a row it is that of the second,
-- started at that of the first.
pub crc32_update-append :
    (xs ys : List ℕ) (crc : ℕ)
    → flowd_crc32_update (xs ++ ys) crc ≡ flowd_crc32_update ys (flowd_crc32_update xs crc)
unfolding flowd_crc32_update
crc32_update-append [] ys crc = refl
crc32_update-append (x ∷ xs) ys crc = crc32_update-append xs ys (crc32_byte crc x)
