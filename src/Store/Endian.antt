-- ===== src/Store/Endian.antt =====
-- Numbers of several bytes in the memory of a little-endian machine, and `store_ntohll` of
-- flowd/store.c, built without HAVE_BETOH64 as flowd/flowd-config.h says.
use network_monitoring_emula.Common.{ℕ, ◌+◌, ◌*◌, ◌/◌, ◌%◌, ◌^◌, ◌<◌, ◌≡◌, List, [], ◌∷◌, arith}
use network_monitoring_emula.Store.Bytes.{be}

-- A number of `n` bytes whose bytes are those of `v`, the highest first.
abbrev from_le : List ℕ → ℕ
from_le [] = 0
from_le (x ∷ xs) = x + 256 * from_le xs

abbrev pub in_network_order : ℕ → ℕ → ℕ
in_network_order n v = from_le (be n v)

-- The masks and shifts give the eight bytes in the other order; they do not overlap, so that their
-- `|` is their sum.
unfoldable pub store_ntohll : ℕ → ℕ
store_ntohll v =
    v % 2 ^ 8 * 2 ^ 56
    + v / 2 ^ 8 % 2 ^ 8 * 2 ^ 48
    + v / 2 ^ 16 % 2 ^ 8 * 2 ^ 40
    + v / 2 ^ 24 % 2 ^ 8 * 2 ^ 32
    + v / 2 ^ 32 % 2 ^ 8 * 2 ^ 24
    + v / 2 ^ 40 % 2 ^ 8 * 2 ^ 16
    + v / 2 ^ 48 % 2 ^ 8 * 2 ^ 8
    + v / 2 ^ 56 % 2 ^ 8

-- The same statements.
unfoldable pub store_htonll : ℕ → ℕ
unfolding store_ntohll
store_htonll v = store_ntohll v

digits :
    (a b c d e f g h v : ℕ)
    → a < 2 ^ 8
    → b < 2 ^ 8
    → c < 2 ^ 8
    → d < 2 ^ 8
    → e < 2 ^ 8
    → f < 2 ^ 8
    → g < 2 ^ 8
    → h < 2 ^ 8
    → v
      ≡ a * 2 ^ 56 + b * 2 ^ 48 + c * 2 ^ 40 + d * 2 ^ 32 + e * 2 ^ 24 + f * 2 ^ 16 + g * 2 ^ 8 + h
    → (v % 2 ^ 8 ≡ h)
      × (v / 2 ^ 8 % 2 ^ 8 ≡ g)
      × (v / 2 ^ 16 % 2 ^ 8 ≡ f)
      × (v / 2 ^ 24 % 2 ^ 8 ≡ e)
      × (v / 2 ^ 32 % 2 ^ 8 ≡ d)
      × (v / 2 ^ 40 % 2 ^ 8 ≡ c)
      × (v / 2 ^ 48 % 2 ^ 8 ≡ b)
      × (v / 2 ^ 56 % 2 ^ 8 ≡ a)
digits a b c d e f g h v ha hb hc hd he hf hg hh q = (
  omega arith,
  omega arith,
  omega arith,
  omega arith,
  omega arith,
  omega arith,
  omega arith,
  omega arith,
)

sum_digits :
    (v : ℕ)
    → v < 2 ^ 64
    → v / 2 ^ 56 % 2 ^ 8 * 2 ^ 56
        + v / 2 ^ 48 % 2 ^ 8 * 2 ^ 48
        + v / 2 ^ 40 % 2 ^ 8 * 2 ^ 40
        + v / 2 ^ 32 % 2 ^ 8 * 2 ^ 32
        + v / 2 ^ 24 % 2 ^ 8 * 2 ^ 24
        + v / 2 ^ 16 % 2 ^ 8 * 2 ^ 16
        + v / 2 ^ 8 % 2 ^ 8 * 2 ^ 8
        + v % 2 ^ 8
      ≡ v
sum_digits v h = omega arith

pub store_htonll_lem : (v : ℕ) → v < 2 ^ 64 → store_htonll v ≡ in_network_order 8 v
unfolding store_htonll store_ntohll
store_htonll_lem v h = omega arith

pub store_ntohll_lem : (v : ℕ) → v < 2 ^ 64 → store_ntohll (in_network_order 8 v) ≡ v
unfolding store_ntohll
store_ntohll_lem v h =
    let (a, b, c, d, e, f, g, i) =
      digits (v % 2 ^ 8) (v / 2 ^ 8 % 2 ^ 8) (v / 2 ^ 16 % 2 ^ 8) (v / 2 ^ 24 % 2 ^ 8)
        (v / 2 ^ 32 % 2 ^ 8) (v / 2 ^ 40 % 2 ^ 8) (v / 2 ^ 48 % 2 ^ 8) (v / 2 ^ 56 % 2 ^ 8)
        (in_network_order 8 v) (omega arith) (omega arith) (omega arith) (omega arith) (omega arith)
        (omega arith) (omega arith) (omega arith) (omega arith) in
    omega (arith, a, b, c, d, e, f, g, i, sum_digits v h)
