-- ===== src/Addr/Value.antt =====
-- An address as one number: the words of its family, the most significant first.
use network_monitoring_emula.Common.{ℕ, ◌+◌, ◌*◌, ◌^◌, ◌<◌, List, [], ◌∷◌, length}
use network_monitoring_emula.Addr.{Family, inet, inet6, other, Quad, Xaddr}

abbrev pub words : Family → Quad → List ℕ
words inet q = q.w0 ∷ []
words inet6 q = q.w0 ∷ q.w1 ∷ q.w2 ∷ q.w3 ∷ []
words (other _) q = []

-- The number of bits of an address, and so the longest mask.
abbrev pub width : Family → ℕ
width inet = 32
width inet6 = 128
width (other _) = 0

abbrev pub value : List ℕ → ℕ
value [] = 0
value (w ∷ ws) = w * 2 ^ (32 * length ws) + value ws

abbrev pub value_of : Xaddr → ℕ
value_of a = value (words a.af a.addr32)

-- A family that the code supports.
abbrev pub IsInternet : Family → Type 0
IsInternet inet = Unit {0}
IsInternet inet6 = Unit {0}
IsInternet (other _) = ⊥

-- Every stored word and the scope fit 32 bits.
abbrev pub IsXaddr : Xaddr → Type 0
IsXaddr a =
    (a.addr32.w0 < 2 ^ 32)
    × (a.addr32.w1 < 2 ^ 32)
    × (a.addr32.w2 < 2 ^ 32)
    × (a.addr32.w3 < 2 ^ 32)
    × (a.scope_id < 2 ^ 32)

-- The scope takes part for IPv6 alone.
abbrev pub scope_of : Family → ℕ → ℕ
scope_of inet6 s = s
scope_of _ s = 0

abbrev rank : Family → ℕ
rank inet6 = 1
rank _ = 0

-- A number that tells the addresses of the two families apart, and orders them.
abbrev pub key : Xaddr → ℕ
key a = rank a.af * 2 ^ 160 + (value_of a * 2 ^ 32 + scope_of a.af a.scope_id)
