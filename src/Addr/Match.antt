-- ===== src/Addr/Match.antt =====
-- `addr_netmatch` and the functions on the host part of an address.
use network_monitoring_emula.Common.{
  ℕ, zero, suc, ◌-◌, ◌%◌, ◌^◌, ◌≤◌, ◌<◌, ◌≡◌, refl, ◌↔◌, some, sym, subst, arith,
}
use network_monitoring_emula.Common.Int.{ℤ, pos, negsuc}
use network_monitoring_emula.Addr.{
  Family, inet, inet6, other, Quad, Xaddr, addr_cmp, addr_netmatch, addr_host_to_all0s,
}
use network_monitoring_emula.Addr.Value.{IsInternet, IsXaddr, width, value_of, scope_of, key}
use network_monitoring_emula.Addr.Compare.{Compares, addr_cmp-Compares}
use network_monitoring_emula.Addr.Network.{
  xaddr, addr_netmask_lem, net_quad, addr_and-mask, host_to_all0s_lem, net_quad-value,
  net_quad-IsXaddr,
}

Compares-zero_iff : (z : ℤ) (m n : ℕ) → Compares z m n → (z ≡ pos 0) ↔ (m ≡ n)
Compares-zero_iff (pos zero) m n c = ground arith
Compares-zero_iff (pos (suc d)) m n c = ground arith
Compares-zero_iff (negsuc d) m n c = ground arith

-- `addr_netmatch` compares the address with its host part cleared.
netmatch-cmp :
    (f : Family) (p q : Quad) (s t l : ℕ)
    → IsInternet f
    → l ≤ width f
    → IsXaddr (xaddr f p s)
    → addr_netmatch (xaddr f p s) (xaddr f q t) l
      ≡ addr_cmp (xaddr f (net_quad f p l) s) (xaddr f q t)
unfolding addr_netmatch
netmatch-cmp inet p q s t l i h x =
    rw (addr_netmask_lem inet l i h, addr_and-mask inet p s l i h x) refl
netmatch-cmp inet6 p q s t l i h x =
    rw (addr_netmask_lem inet6 l i h, addr_and-mask inet6 p s l i h x) refl
netmatch-cmp (other n) p q s t l i h x = absurd i

key_iff :
    (f : Family) (p q : Quad) (s t : ℕ)
    → IsInternet f
    → s < 2 ^ 32
    → t < 2 ^ 32
    → (key (xaddr f p s) ≡ key (xaddr f q t))
      ↔ ((value_of (xaddr f p s) ≡ value_of (xaddr f q t)) × (scope_of f s ≡ scope_of f t))
key_iff inet p q s t i hs ht = (λ e. omega arith, λ e. omega arith)
key_iff inet6 p q s t i hs ht = (λ e. omega arith, λ e. omega arith)
key_iff (other n) p q s t i hs ht = absurd i

netmatch_parts :
    (f : Family) (p q : Quad) (s t l : ℕ)
    → IsInternet f
    → l ≤ width f
    → IsXaddr (xaddr f p s)
    → IsXaddr (xaddr f q t)
    → (addr_netmatch (xaddr f p s) (xaddr f q t) l ≡ pos 0) ↔ (
        (value_of (xaddr f p s) - value_of (xaddr f p s) % 2 ^ (width f - l)
          ≡ value_of (xaddr f q t))
        × (scope_of f s ≡ scope_of f t))
netmatch_parts f p q s t l i h hp hq =
    let m = net_quad-IsXaddr f p s l hp in
    let c =
      Compares-zero_iff _ _ _
        (addr_cmp-Compares (xaddr f (net_quad f p l) s) (xaddr f q t) i i m hq) in
    let k = key_iff f (net_quad f p l) q s t i hp.4 hq.4 in
    rw (netmatch-cmp f p q s t l i h hp, ← net_quad-value f p s l i hp)
      ((λ z. k.0 (c.0 z)), λ e. c.1 (k.1 e))

-- For addresses of one internet family and a mask length that fits it, `addr_netmatch` returns 0
-- exactly when the network address is the host address with its low bits, those below the mask,
-- set to 0, and (for IPv6) the scopes are equal.
pub netmatch_iff :
    (host net : Xaddr) (l : ℕ)
    → IsInternet host.af
    → net.af ≡ host.af
    → l ≤ width host.af
    → IsXaddr host
    → IsXaddr net
    → (addr_netmatch host net l ≡ pos 0) ↔ (
        (value_of host - value_of host % 2 ^ (width host.af - l) ≡ value_of net)
        × (scope_of host.af host.scope_id ≡ scope_of host.af net.scope_id))
netmatch_iff host net l i e h hh hn =
    subst
      (λ g. (addr_netmatch host (xaddr g net.addr32 net.scope_id) l ≡ pos 0) ↔ (
        (value_of host - value_of host % 2 ^ (width host.af - l)
          ≡ value_of (xaddr g net.addr32 net.scope_id))
        × (scope_of host.af host.scope_id ≡ scope_of host.af net.scope_id)))
      (sym e) (netmatch_parts host.af host.addr32 net.addr32 host.scope_id net.scope_id l i h hh hn)

-- Under the same conditions `addr_host_to_all0s` succeeds, clears exactly the bits below the mask,
-- and the address matches the network that it computes.
pub host_to_all0s-netmatch :
    (a : Xaddr) (l : ℕ)
    → IsInternet a.af
    → l ≤ width a.af
    → IsXaddr a
    → (n : Xaddr) × (addr_host_to_all0s a l ≡ some n)
      × (value_of n ≡ value_of a - value_of a % 2 ^ (width a.af - l))
      × (n.scope_id ≡ a.scope_id)
      × (addr_netmatch a n l ≡ pos 0)
host_to_all0s-netmatch a l i h x =
    let q = net_quad a.af a.addr32 l in
    let m = net_quad-IsXaddr a.af a.addr32 a.scope_id l x in
    let v = net_quad-value a.af a.addr32 a.scope_id l i x in
    (
      xaddr a.af q a.scope_id,
      host_to_all0s_lem a.af a.addr32 a.scope_id l i h x,
      v,
      refl,
      (netmatch_parts a.af a.addr32 q a.scope_id a.scope_id l i h x m).1 (sym v, refl),
    )
