-- ===== src/Addr/Network.antt =====
-- What the masks of `addr_netmask` and `addr_hostmask` do to an address.
use network_monitoring_emula.Common.Table.{table_holds, table_at}
use network_monitoring_emula.Common.{
  ℕ, ◌-◌, ◌%◌, ◌^◌, ◌≤◌, ◌≡◌, refl, Bool, true, ◌&&◌, some, arith, ◌==◌,
}
use network_monitoring_emula.Addr.{
  Family, inet, inet6, other, Quad, Xaddr, masklen_valid, netmask_words, partial_mask, not32,
  zero_quad, addr_netmask, addr_and, addr_host_to_all0s,
}
use network_monitoring_emula.Addr.Value.{IsInternet, IsXaddr, width, words, value_of}
use network_monitoring_emula.Addr.Words.{partial_mask_lem, bit_and-netmask}
use network_monitoring_emula.Addr.Masks.{cleared-value}

abbrev pub xaddr : Family → Quad → ℕ → Xaddr
xaddr f q s = record { af = f; addr32 = q; scope_id = s }

-- The mask words of IPv6.
abbrev mask_quad : ℕ → Quad
mask_quad l = record {
  w0 = 2 ^ 32 - 2 ^ (32 - l);
  w1 = 2 ^ 32 - 2 ^ (32 - (l - 32));
  w2 = 2 ^ 32 - 2 ^ (32 - (l - 32 - 32));
  w3 = 2 ^ 32 - 2 ^ (32 - (l - 32 - 32 - 32));
}

quad_eq : Quad → Quad → Bool
quad_eq p q = (p.w0 == q.w0) && ((p.w1 == q.w1) && ((p.w2 == q.w2) && (p.w3 == q.w3)))

quad_eq_sound : (p q : Quad) → quad_eq p q ≡ true → p ≡ q
unfolding quad_eq
quad_eq_sound p q h = ground arith

netmask_table : table_holds (λ l. quad_eq (netmask_words 4 0 l zero_quad) (mask_quad l)) 129 ≡ true
unfolding table_holds quad_eq netmask_words partial_mask not32
netmask_table = refl

netmask_words_lem : (l : ℕ) → l ≤ 128 → netmask_words 4 0 l zero_quad ≡ mask_quad l
netmask_words_lem l h = quad_eq_sound _ _ (table_at _ 129 l (omega arith) netmask_table)

-- The mask as an address.
abbrev pub mask_addr : Family → ℕ → Xaddr
mask_addr inet l = xaddr inet (record zero_quad { w0 = 2 ^ 32 - 2 ^ (32 - l) }) 0
mask_addr f l = xaddr f (mask_quad l) 0

pub addr_netmask_lem :
    (f : Family) (l : ℕ) → IsInternet f → l ≤ width f → addr_netmask f l ≡ some (mask_addr f l)
unfolding addr_netmask masklen_valid
addr_netmask_lem inet l i h = ground (arith, partial_mask_lem l h)
addr_netmask_lem inet6 l i h = ground (arith, netmask_words_lem l h)
addr_netmask_lem (other n) l i h = absurd i

-- The address with its host part cleared.
abbrev pub net_quad : Family → Quad → ℕ → Quad
net_quad inet q l = record q { w0 = q.w0 - q.w0 % 2 ^ (32 - l) }
net_quad f q l = record {
  w0 = q.w0 - q.w0 % 2 ^ (32 - l);
  w1 = q.w1 - q.w1 % 2 ^ (32 - (l - 32));
  w2 = q.w2 - q.w2 % 2 ^ (32 - (l - 32 - 32));
  w3 = q.w3 - q.w3 % 2 ^ (32 - (l - 32 - 32 - 32));
}

pub addr_and-mask :
    (f : Family) (q : Quad) (s l : ℕ)
    → IsInternet f
    → l ≤ width f
    → IsXaddr (xaddr f q s)
    → addr_and (xaddr f q s) (mask_addr f l) ≡ some (xaddr f (net_quad f q l) s)
unfolding addr_and
addr_and-mask inet q s l i h x = rw (bit_and-netmask (32 - l) q.w0 (omega arith) x.0) refl
addr_and-mask inet6 q s l i h x =
    rw
      (
        bit_and-netmask (32 - l) q.w0 (omega arith) x.0,
        bit_and-netmask (32 - (l - 32)) q.w1 (omega arith) x.1,
        bit_and-netmask (32 - (l - 32 - 32)) q.w2 (omega arith) x.2,
        bit_and-netmask (32 - (l - 32 - 32 - 32)) q.w3 (omega arith) x.3,
      )
      refl
addr_and-mask (other n) q s l i h x = absurd i

pub host_to_all0s_lem :
    (f : Family) (q : Quad) (s l : ℕ)
    → IsInternet f
    → l ≤ width f
    → IsXaddr (xaddr f q s)
    → addr_host_to_all0s (xaddr f q s) l ≡ some (xaddr f (net_quad f q l) s)
unfolding addr_host_to_all0s
host_to_all0s_lem f q s l i h x =
    rw (addr_netmask_lem f l i h, addr_host_to_all0s) (addr_and-mask f q s l i h x)

pub net_quad-value :
    (f : Family) (q : Quad) (s l : ℕ)
    → IsInternet f
    → IsXaddr (xaddr f q s)
    → value_of (xaddr f (net_quad f q l) s)
      ≡ value_of (xaddr f q s) - value_of (xaddr f q s) % 2 ^ (width f - l)
net_quad-value inet q s l i x = cleared-value l (words inet q) (omega arith)
net_quad-value inet6 q s l i x = cleared-value l (words inet6 q) (omega arith)
net_quad-value (other n) q s l i x = absurd i

pub net_quad-IsXaddr :
    (f : Family) (q : Quad) (s l : ℕ) → IsXaddr (xaddr f q s) → IsXaddr (xaddr f (net_quad f q l) s)
net_quad-IsXaddr inet q s l x = omega arith
net_quad-IsXaddr inet6 q s l x = omega arith
net_quad-IsXaddr (other n) q s l x = omega arith
