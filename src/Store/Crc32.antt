-- ===== src/Store/Crc32.antt =====
-- flowd/crc32.c: the checksum of a stored flow, by a table of 256 words.
pub mod Table
pub mod Reference
use network_monitoring_emula.Common.{ℕ, zero, suc, ◌/◌, ◌%◌, ◌^◌, bit_xor, List, [], ◌∷◌}
use Table.{crc32tab}

-- `table[i]` for an index of the table.
unfoldable pub entry : List ℕ → ℕ → ℕ
entry [] i = 0
entry (x ∷ xs) zero = x
entry (x ∷ xs) (suc i) = entry xs i

abbrev pub flowd_crc32_start : ℕ
flowd_crc32_start = 0

-- The body of the loop: `crc32tab[(crc ^ b) & 0xff] ^ (crc >> 8)`.
unfoldable pub crc32_byte : ℕ → ℕ → ℕ
crc32_byte crc b = bit_xor (entry crc32tab (bit_xor crc b % 2 ^ 8)) (crc / 2 ^ 8)

unfoldable pub flowd_crc32_update : List ℕ → ℕ → ℕ
flowd_crc32_update [] crc = crc
flowd_crc32_update (b ∷ bs) crc = flowd_crc32_update bs (crc32_byte crc b)

unfoldable pub flowd_crc32 : List ℕ → ℕ
flowd_crc32 buf = flowd_crc32_update buf flowd_crc32_start
