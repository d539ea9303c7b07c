-- ===== src/Addr/HostPart.antt =====
-- `addr_host_is_all0s`, and what an impossible mask length does to every function that takes one.
use native.Mathlib.Nat.{mod-le, one-le-pow}
use network_monitoring_emula.Common.{
  ℕ, ◌-◌, ◌%◌, ◌^◌, ◌≤◌, ◌<◌, ◌≡◌, ◌⊎◌, inl, inr, refl, leb, leb→le, Bool-cases, ◌↔◌, ◌&&◌, ◌==◌,
  Bool, true, false, some, none, Option, ap, bit_and, arith,
}
use network_monitoring_emula.Common.Bits.{bit_and_mask}
use network_monitoring_emula.Common.Int.{negsuc}
use network_monitoring_emula.Addr.{
  Family, inet, inet6, other, Quad, Xaddr, zero_quad, map_words, not32, addr_invert, addr_and,
  addr_netmask, masklen_valid, addr_hostmask, addr_netmatch, addr_is_all0s, addr_host_is_all0s,
  addr_host_is_all1s, addr_host_to_all0s, addr_host_to_all1s, addr_or,
}
use network_monitoring_emula.Addr.Value.{IsInternet, IsXaddr, width, value_of}
use network_monitoring_emula.Addr.Words.{power-le}
use network_monitoring_emula.Addr.Network.{xaddr, mask_addr, addr_netmask_lem, net_quad-value}

-- The host mask of a word is the inverted network mask.
not32-mask : (k : ℕ) → k ≤ 32 → not32 (2 ^ 32 - 2 ^ k) ≡ 2 ^ k - 1
unfolding not32
not32-mask k h = omega (arith, power-le k h, one-le-pow k 2 (omega arith))

and_not-mask : (k w : ℕ) → k ≤ 32 → bit_and w (not32 (2 ^ 32 - 2 ^ k)) ≡ w % 2 ^ k
and_not-mask k w h = rw (not32-mask k h) (bit_and_mask k w)

hostmask_inet :
    (l : ℕ)
    → l ≤ 32
    → addr_hostmask inet l
      ≡ some (xaddr inet (record zero_quad { w0 = not32 (2 ^ 32 - 2 ^ (32 - l)) }) 0)
unfolding addr_hostmask addr_invert
hostmask_inet l h = rw (addr_netmask_lem inet l tt h, addr_hostmask) refl

hostmask_inet6 :
    (l : ℕ)
    → l ≤ 128
    → addr_hostmask inet6 l ≡ some (xaddr inet6 (map_words not32 (mask_addr inet6 l).addr32) 0)
unfolding addr_hostmask addr_invert
hostmask_inet6 l h = rw (addr_netmask_lem inet6 l tt h, addr_hostmask) refl

-- The test reads the host bits of each word.
abbrev host_zero : Family → Quad → ℕ → Bool
host_zero inet q l = q.w0 % 2 ^ (32 - l) == 0
host_zero f q l =
    (q.w0 % 2 ^ (32 - l) == 0)
    && ((q.w1 % 2 ^ (32 - (l - 32)) == 0)
        && ((q.w2 % 2 ^ (32 - (l - 32 - 32)) == 0) && (q.w3 % 2 ^ (32 - (l - 32 - 32 - 32)) == 0)))

is_all0s-host_zero :
    (f : Family) (q : Quad) (s l : ℕ)
    → IsInternet f
    → l ≤ width f
    → addr_host_is_all0s (xaddr f q s) l ≡ host_zero f q l
unfolding addr_host_is_all0s addr_is_all0s addr_and
is_all0s-host_zero inet q s l i h =
    rw (hostmask_inet l h, addr_host_is_all0s, and_not-mask (32 - l) q.w0 (omega arith)) refl
is_all0s-host_zero inet6 q s l i h =
    rw
      (
        hostmask_inet6 l h,
        addr_host_is_all0s,
        and_not-mask (32 - l) q.w0 (omega arith),
        and_not-mask (32 - (l - 32)) q.w1 (omega arith),
        and_not-mask (32 - (l - 32 - 32)) q.w2 (omega arith),
        and_not-mask (32 - (l - 32 - 32 - 32)) q.w3 (omega arith),
      )
      refl
is_all0s-host_zero (other n) q s l i h = absurd i

host_zero_iff :
    (f : Family) (q : Quad) (s l : ℕ)
    → IsInternet f
    → IsXaddr (xaddr f q s)
    → (host_zero f q l ≡ true) ↔ (value_of (xaddr f q s) % 2 ^ (width f - l) ≡ 0)
host_zero_iff inet q s l i x = ground (
  arith,
  net_quad-value inet q s l i x,
  mod-le q.w0 (2 ^ (32 - l)),
  mod-le (value_of (xaddr inet q s)) (2 ^ (32 - l)),
)
host_zero_iff inet6 q s l i x = ground (
  arith,
  net_quad-value inet6 q s l i x,
  mod-le q.w0 (2 ^ (32 - l)),
  mod-le q.w1 (2 ^ (32 - (l - 32))),
  mod-le q.w2 (2 ^ (32 - (l - 32 - 32))),
  mod-le q.w3 (2 ^ (32 - (l - 32 - 32 - 32))),
  mod-le (value_of (xaddr inet6 q s)) (2 ^ (128 - l)),
)
host_zero_iff (other n) q s l i x = absurd i

-- For an address of an internet family and a mask length that fits it, `addr_host_is_all0s` holds
-- exactly when the bits below the mask are all 0.
pub host_is_all0s_iff :
    (a : Xaddr) (l : ℕ)
    → IsInternet a.af
    → l ≤ width a.af
    → IsXaddr a
    → (addr_host_is_all0s a l ≡ true) ↔ (value_of a % 2 ^ (width a.af - l) ≡ 0)
host_is_all0s_iff a l i h x =
    rw (is_all0s-host_zero a.af a.addr32 a.scope_id l i h)
      (host_zero_iff a.af a.addr32 a.scope_id l i x)

-- A mask length that does not fit the family, or a family that is not supported.
abbrev pub IsMisfit : Family → ℕ → Type 0
IsMisfit inet l = 32 < l
IsMisfit inet6 l = 128 < l
IsMisfit (other _) l = Unit

abbrev pub IsFit : Family → ℕ → Type 0
IsFit inet l = l ≤ 32
IsFit inet6 l = l ≤ 128
IsFit (other _) l = ⊥

-- The functions that take a mask give an address.
abbrev pub AreGiven : Xaddr → ℕ → Type 0
AreGiven a l =
    ((m : Xaddr) × (addr_netmask a.af l ≡ some m))
    × ((m : Xaddr) × (addr_hostmask a.af l ≡ some m))
    × ((m : Xaddr) × (addr_host_to_all0s a l ≡ some m))
    × ((m : Xaddr) × (addr_host_to_all1s a l ≡ some m))

-- They refuse: no address is written, and no match or test succeeds.
abbrev pub AreRefused : Xaddr → Xaddr → ℕ → Type 0
AreRefused a net l =
    (addr_netmask a.af l ≡ none)
    × (addr_hostmask a.af l ≡ none)
    × (addr_netmatch a net l ≡ negsuc 0)
    × (addr_host_is_all0s a l ≡ false)
    × (addr_host_is_all1s a l ≡ false)
    × (addr_host_to_all0s a l ≡ none)
    × (addr_host_to_all1s a l ≡ none)

bad_masklen : (a net : Xaddr) (l : ℕ) → masklen_valid a.af l ≡ false → AreRefused a net l
unfolding addr_netmask addr_hostmask addr_netmatch addr_host_is_all0s addr_host_is_all1s
    addr_host_to_all0s addr_host_to_all1s
bad_masklen a net l h = ground arith

given_inet : (q : Quad) (s l : ℕ) → l ≤ 32 → AreGiven (xaddr inet q s) l
unfolding addr_host_to_all0s addr_host_to_all1s addr_and addr_or
given_inet q s l h = (
  (_, addr_netmask_lem inet l tt h),
  (_, hostmask_inet l h),
  (
    _,
    ap {B = Option Xaddr} (λ o. elim o [ none ↦ none | some mask ↦ addr_and (xaddr inet q s) mask ])
        (addr_netmask_lem inet l tt h),
  ),
  (
    _,
    ap {B = Option Xaddr} (λ o. elim o [ none ↦ none | some mask ↦ addr_or (xaddr inet q s) mask ])
        (hostmask_inet l h),
  ),
)

given_inet6 : (q : Quad) (s l : ℕ) → l ≤ 128 → AreGiven (xaddr inet6 q s) l
unfolding addr_host_to_all0s addr_host_to_all1s addr_and addr_or
given_inet6 q s l h = (
  (_, addr_netmask_lem inet6 l tt h),
  (_, hostmask_inet6 l h),
  (
    _,
    ap {B = Option Xaddr}
        (λ o. elim o [ none ↦ none | some mask ↦ addr_and (xaddr inet6 q s) mask ])
        (addr_netmask_lem inet6 l tt h),
  ),
  (
    _,
    ap {B = Option Xaddr} (λ o. elim o [ none ↦ none | some mask ↦ addr_or (xaddr inet6 q s) mask ])
        (hostmask_inet6 l h),
  ),
)

masklen-cases :
    (f : Family) (q : Quad) (s l : ℕ) (net : Xaddr)
    → (IsFit f l × AreGiven (xaddr f q s) l) ⊎ (IsMisfit f l × AreRefused (xaddr f q s) net l)
unfolding masklen_valid
masklen-cases inet q s l net = elim (Bool-cases (leb l 32)) [
  | inl fits ↦ inl (leb→le l 32 fits, given_inet q s l (leb→le l 32 fits))
  | inr large ↦ inr (ground arith, bad_masklen (xaddr inet q s) net l large)
]
masklen-cases inet6 q s l net = elim (Bool-cases (leb l 128)) [
  | inl fits ↦ inl (leb→le l 128 fits, given_inet6 q s l (leb→le l 128 fits))
  | inr large ↦ inr (ground arith, bad_masklen (xaddr inet6 q s) net l large)
]
masklen-cases (other n) q s l net = inr (tt, bad_masklen (xaddr (other n) q s) net l refl)

-- A mask length of at most 32 for an IPv4 address, or 128 for an IPv6 address, is taken by the four
-- functions that compute an address from it; any other length, and any other family, is refused by
-- every function that takes a mask: no address is written, and no match or test succeeds.
pub masklen_lem :
    (a net : Xaddr) (l : ℕ) → (IsFit a.af l × AreGiven a l) ⊎ (IsMisfit a.af l × AreRefused a net l)
masklen_lem a net l = masklen-cases a.af a.addr32 a.scope_id l net
