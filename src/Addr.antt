-- ===== src/Addr.antt =====
-- flowd/addr.c and flowd/addr.h: network addresses, masks and matching.
--
-- `struct xaddr` keeps an address in network byte order. A 32-bit word `addr32[i]` is modelled by
-- the number that `ntohl` reads from it, so a bitwise operation on the stored word is the same
-- operation on the number, and the bytes `addr8` are its digits, the highest first. The overlay of
-- `v4` is word 0. A function that returns 0 and fills an output returns `some`, one that returns
-- -1 returns `none`. Every caller in flowd passes pointers to live objects; the NULL tests are
-- left out.
pub mod Value
pub mod Words
pub mod Compare
pub mod Masks
pub mod Network
pub mod Match
pub mod HostPart
pub mod Socket
use network_monitoring_emula.Common.{
  ℕ, zero, suc, ◌+◌, ◌-◌, ◌/◌, ◌%◌, ◌^◌, bit_and, bit_or, Bool, true, false, not, ◌&&◌, Option,
  none, some, List, [], ◌∷◌, ◌++◌, ltb, leb, ◌==◌, if◌then◌else◌,
}
use network_monitoring_emula.Common.Int.{ℤ, pos, negsuc, sub_ℕ, is_zero}

-- AF_INET, AF_INET6 and every other address family.
pub data Family : Type 0 where
  inet inet6 : Family
  other : ℕ → Family

abbrev pub family_eq : Family → Family → Bool
family_eq inet inet = true
family_eq inet6 inet6 = true
family_eq (other m) (other n) = m == n
family_eq _ _ = false

pub record Quad : Type 0 where
  pub w0 : ℕ
  pub w1 : ℕ
  pub w2 : ℕ
  pub w3 : ℕ

pub record Xaddr : Type 0 where
  pub af : Family
  pub addr32 : Quad
  pub scope_id : ℕ

abbrev pub zero_quad : Quad
zero_quad = record { w0 = 0; w1 = 0; w2 = 0; w3 = 0 }

abbrev pub ones : ℕ
ones = 0xffffffff

-- `addr32[i] = v`
abbrev pub put_word : ℕ → ℕ → Quad → Quad
put_word zero v q = record q { w0 = v }
put_word (suc zero) v q = record q { w1 = v }
put_word (suc (suc zero)) v q = record q { w2 = v }
put_word (suc (suc (suc _))) v q = record q { w3 = v }

-- `~w` on a 32-bit word.
unfoldable pub not32 : ℕ → ℕ
not32 w = ones - w

-- `for (i = 0; i < 4; i++)` with one statement on word i.
abbrev pub map_words : (ℕ → ℕ) → Quad → Quad
map_words f q = record { w0 = f q.w0; w1 = f q.w1; w2 = f q.w2; w3 = f q.w3 }

abbrev pub zip_words : (ℕ → ℕ → ℕ) → Quad → Quad → Quad
zip_words f p q = record { w0 = f p.w0 q.w0; w1 = f p.w1 q.w1; w2 = f p.w2 q.w2; w3 = f p.w3 q.w3 }

unfoldable pub addr_unicast_masklen : Family → ℤ
addr_unicast_masklen inet = pos 32
addr_unicast_masklen inet6 = pos 128
addr_unicast_masklen (other _) = negsuc 0

unfoldable pub masklen_valid : Family → ℕ → Bool
masklen_valid inet l = leb l 32
masklen_valid inet6 l = leb l 128
masklen_valid (other _) l = false

unfoldable pub addr_invert : Xaddr → Option Xaddr
addr_invert n = elim n.af [
  | inet ↦ some (record n { addr32 = put_word 0 (not32 n.addr32.w0) n.addr32 })
  | inet6 ↦ some (record n { addr32 = map_words not32 n.addr32 })
  | other _ ↦ none
]

-- `~(0xffffffffUL >> l)`, cut to the 32 bits that `htonl` takes.
unfoldable pub partial_mask : ℕ → ℕ
partial_mask l = not32 (ones / 2 ^ l)

-- The loop of the IPv6 case and the statement after it: `rounds` words are left from word `i` on.
unfoldable pub netmask_words : ℕ → ℕ → ℕ → Quad → Quad
netmask_words zero i l q = q
netmask_words (suc rounds) i l q =
    let full = netmask_words rounds (i + 1) (l - 32) (put_word i ones q) in
    if leb 32 l then full else if l == 0 then q else put_word i (partial_mask l) q

unfoldable pub addr_netmask : Family → ℕ → Option Xaddr
addr_netmask af l = if not (masklen_valid af l) then none else elim af [
  | inet ↦ some (record {
    af = inet;
    addr32 = put_word 0 (if l == 32 then ones else partial_mask l) zero_quad;
    scope_id = 0;
  })
  | inet6 ↦ some (record { af = inet6; addr32 = netmask_words 4 0 l zero_quad; scope_id = 0 })
  | other _ ↦ none
]

unfoldable pub addr_hostmask : Family → ℕ → Option Xaddr
addr_hostmask af l = elim (addr_netmask af l) [ none ↦ none | some n ↦ addr_invert n ]

unfoldable pub addr_and : Xaddr → Xaddr → Option Xaddr
addr_and a b = if not (family_eq a.af b.af) then none else elim a.af [
  | inet ↦ some (record a { addr32 = put_word 0 (bit_and a.addr32.w0 b.addr32.w0) a.addr32 })
  | inet6 ↦ some (record a { addr32 = zip_words bit_and a.addr32 b.addr32 })
  | other _ ↦ none
]

unfoldable pub addr_or : Xaddr → Xaddr → Option Xaddr
addr_or a b = if not (family_eq a.af b.af) then none else elim a.af [
  | inet ↦ some (record a { addr32 = put_word 0 (bit_or a.addr32.w0 b.addr32.w0) a.addr32 })
  | inet6 ↦ some (record a { addr32 = zip_words bit_or a.addr32 b.addr32 })
  | other _ ↦ none
]

-- `addr8`: the four bytes of a word, then those of the address.
abbrev pub word_bytes : ℕ → List ℕ
word_bytes w = w / 2 ^ 24 % 256 ∷ w / 2 ^ 16 % 256 ∷ w / 2 ^ 8 % 256 ∷ w % 256 ∷ []

abbrev pub addr8 : Quad → List ℕ
addr8 q = word_bytes q.w0 ++ (word_bytes q.w1 ++ (word_bytes q.w2 ++ word_bytes q.w3))

-- The loop over the sixteen bytes: the first difference, or 0.
unfoldable pub cmp_bytes : List ℕ → List ℕ → ℤ
cmp_bytes (x ∷ xs) (y ∷ ys) = if is_zero (sub_ℕ x y) then cmp_bytes xs ys else sub_ℕ x y
cmp_bytes _ _ = pos 0

unfoldable pub cmp_inet6 : Xaddr → Xaddr → ℤ
cmp_inet6 a b =
    let d = cmp_bytes (addr8 a.addr32) (addr8 b.addr32) in
    if not (is_zero d)
    then d
    else if a.scope_id == b.scope_id
    then pos 0
    else if ltb b.scope_id a.scope_id
    then pos 1
    else negsuc 0

unfoldable pub addr_cmp : Xaddr → Xaddr → ℤ
addr_cmp a b =
    if not (family_eq a.af b.af)
    then (if family_eq a.af inet6 then pos 1 else negsuc 0)
    else elim a.af [
      | inet ↦
          if a.addr32.w0 == b.addr32.w0
          then pos 0
          else if ltb b.addr32.w0 a.addr32.w0
          then pos 1
          else negsuc 0
      | inet6 ↦ cmp_inet6 a b
      | other _ ↦ negsuc 0
    ]

-- `true` is the return value 0.
unfoldable pub addr_is_all0s : Xaddr → Bool
addr_is_all0s a = elim a.af [
  | inet ↦ a.addr32.w0 == 0
  | inet6 ↦ (a.addr32.w0 == 0) && ((a.addr32.w1 == 0) && ((a.addr32.w2 == 0) && (a.addr32.w3 == 0)))
  | other _ ↦ false
]

unfoldable pub addr_host_is_all0s : Xaddr → ℕ → Bool
addr_host_is_all0s a l = elim (addr_hostmask a.af l) [
  | none ↦ false
  | some mask ↦ elim (addr_and a mask) [ none ↦ false | some r ↦ addr_is_all0s r ]
]

-- The address with the network mask, or with the host mask, ored in, then inverted.
or_inverted : Xaddr → Xaddr → Option Xaddr
or_inverted a mask = elim (addr_or a mask) [ none ↦ none | some r ↦ addr_invert r ]

unfoldable pub addr_host_is_all1s : Xaddr → ℕ → Bool
unfolding or_inverted
addr_host_is_all1s a l = elim (addr_netmask a.af l) [
  | none ↦ false
  | some mask ↦ elim (or_inverted a mask) [ none ↦ false | some r ↦ addr_is_all0s r ]
]

unfoldable pub addr_host_to_all0s : Xaddr → ℕ → Option Xaddr
addr_host_to_all0s a l = elim (addr_netmask a.af l) [ none ↦ none | some mask ↦ addr_and a mask ]

unfoldable pub addr_host_to_all1s : Xaddr → ℕ → Option Xaddr
addr_host_to_all1s a l = elim (addr_hostmask a.af l) [ none ↦ none | some mask ↦ addr_or a mask ]

-- The C function's result is 0 on a match; any other number is none.
unfoldable pub addr_netmatch : Xaddr → Xaddr → ℕ → ℤ
addr_netmatch host net l =
    if not (family_eq host.af net.af) then negsuc 0 else elim (addr_netmask host.af l) [
      | none ↦ negsuc 0
      | some mask ↦ elim (addr_and host mask) [ none ↦ negsuc 0 | some r ↦ addr_cmp r net ]
    ]
