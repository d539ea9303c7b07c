-- ===== src/Addr/Socket.antt =====
-- flowd/addr.c: addresses to and from the socket addresses of the system, whose sizes are
-- parameters. The fields of a `struct sockaddr_in` and `sockaddr_in6` that the code sets to zero are
-- left out; a failing call returns `none`.
use network_monitoring_emula.Common.{
  ℕ, ◌≤◌, ◌≡◌, refl, false, Option, none, some, ltb, if◌then◌else◌, arith,
}
use network_monitoring_emula.Addr.{Family, inet, inet6, other, Quad, Xaddr, zero_quad}
use network_monitoring_emula.Addr.Value.{IsInternet}

pub data SockAddr : Type 0 where
  in4 : (sin_port sin_addr : ℕ) → SockAddr
  in6 : (sin6_port : ℕ) → (sin6_addr : Quad) → (sin6_scope_id : ℕ) → SockAddr
  other_sa : (sa_family : ℕ) → SockAddr

module _ (size4 size6 : ℕ) where
  -- The socket address, and the length that is left in `*len`.
  unfoldable pub addr_xaddr_to_sa : Xaddr → ℕ → ℕ → Option (SockAddr × ℕ)
  addr_xaddr_to_sa xa len port = elim xa.af [
    | inet ↦ if ltb len size4 then none else some (in4 port xa.addr32.w0, size4)
    | inet6 ↦ if ltb len size6 then none else some (in6 port xa.addr32 xa.scope_id, size6)
    | other _ ↦ none
  ]

  unfoldable pub addr_sa_to_xaddr : SockAddr → ℕ → Option Xaddr
  addr_sa_to_xaddr (in4 port a) slen =
      if ltb slen size4
      then none
      else some (record { af = inet; addr32 = record zero_quad { w0 = a }; scope_id = 0 })
  addr_sa_to_xaddr (in6 port a scope) slen =
      if ltb slen size6 then none else some (record { af = inet6; addr32 = a; scope_id = scope })
  addr_sa_to_xaddr (other_sa f) slen = none

  -- The room that a family needs.
  abbrev pub room : Family → ℕ
  room inet = size4
  room inet6 = size6
  room (other _) = 0

  -- What the family of an address uses of it.
  abbrev pub used_parts : Xaddr → Xaddr
  used_parts xa = elim xa.af [
    | inet6 ↦ xa
    | _ ↦ record xa { addr32 = record zero_quad { w0 = xa.addr32.w0 }; scope_id = 0 }
  ]

  to_sa_parts :
      (f : Family) (q : Quad) (s len port : ℕ)
      → IsInternet f
      → room f ≤ len
      → let xa : Xaddr = record { af = f; addr32 = q; scope_id = s } in
        (sa : SockAddr) × (addr_xaddr_to_sa xa len port ≡ some (sa, room f))
        × (addr_sa_to_xaddr sa (room f) ≡ some (used_parts xa))
  unfolding addr_xaddr_to_sa addr_sa_to_xaddr
  to_sa_parts inet q s len port i h =
      let a : ltb len size4 ≡ false = ground arith in
      let b : ltb size4 size4 ≡ false = ground arith in (in4 port q.w0, rw a refl, rw b refl)
  to_sa_parts inet6 q s len port i h =
      let a : ltb len size6 ≡ false = ground arith in
      let b : ltb size6 size6 ≡ false = ground arith in (in6 port q s, rw a refl, rw b refl)
  to_sa_parts (other n) q s len port i h = absurd i

  -- An address of an internet family goes into a buffer with the room that its family needs, the
  -- length is set to that room, and reading the socket address back gives what the family uses of
  -- the address: its words, and for IPv6 the scope.
  pub sa_round_trip :
      (xa : Xaddr) (len port : ℕ)
      → IsInternet xa.af
      → room xa.af ≤ len
      → (sa : SockAddr) × (addr_xaddr_to_sa xa len port ≡ some (sa, room xa.af))
        × (addr_sa_to_xaddr sa (room xa.af) ≡ some (used_parts xa))
  sa_round_trip xa len port i h = to_sa_parts xa.af xa.addr32 xa.scope_id len port i h
