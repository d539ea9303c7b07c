-- ===== src/Collector/Received.antt =====
-- The receipt of packets in flowd/flowd.c: what it leaves of the table of peers and of the queue.
use network_monitoring_emula.Common.{
  ℕ, ◌^◌, ◌≤◌, ◌<◌, ◌≡◌, ◌⊎◌, refl, inl, inr, Bool, Option, none, some, List, [], ◌∷◌, ◌++◌, ltb,
  length, arith, Bool-cases, Option-cases, subst, sym, ◌∙◌,
}
use network_monitoring_emula.Common.Tailq.{AllOf, AllOf-drop_last}
use network_monitoring_emula.Addr.{Xaddr}
use network_monitoring_emula.Addr.Socket.{in4}
use network_monitoring_emula.Peer.Counts.{IsLimits}
use network_monitoring_emula.Peer.Agree.{IsTable}
use network_monitoring_emula.Peer.Tree.{SplayTree, IsAddress}
use network_monitoring_emula.Peer.Table.{
  AllowedDevice, PeerState, Peers, Timeval, find_peer, new_peer, refused, added, NewPeer,
}
use network_monitoring_emula.Peer.Insert.{
  IsAdded, free, evicted, new_peer-IsAdded, new_peer-IsTable,
}
use network_monitoring_emula.Collector.Checked.{IsKnown}
use network_monitoring_emula.Collector.Fixed.{FlowPacket, add_invalid}
use network_monitoring_emula.Collector.Input.{flow_packet_enqueue}
use network_monitoring_emula.Collector.Ordered.{IsCollector, write_peer-IsCollector}
use network_monitoring_emula.Collector.Receive.{
  Emulator, monitor, unset, unsupported, behind, emulator_of, Allocation, Datagram, ReceiveEnd,
  returned, no_value, over_read, null_pointer, keep_packet, from_new_peer, from_source, by_emulator,
  receive_packet,
}
use network_monitoring_emula.Collector.Monitor.{
  IsByte, IsSockAddr, IsEmulator, sa_to_xaddr-IsAddress, emulator_of-IsEmulator,
}

module _ (splay : SplayTree) where
  abbrev AreKnown : Peers splay → Type 0
  AreKnown peers =
      IsLimits peers.limits
      × (peers.limits.max_template_len < 2 ^ 31)
      × AllOf (λ (p : PeerState). IsKnown peers.limits p.nf9_state) peers.peer_list

  fresh-IsKnown :
      (peers : Peers splay) → IsKnown peers.limits (record { nf9 = []; nf9_num_sources = 0 })
  fresh-IsKnown peers = record {
    tracked = record { counted = refl; within = omega arith; distinct = tt; sources = tt };
    filled = tt;
  }

  added_inj : (p q : Peers splay) → ◌≡◌ {A = NewPeer splay} (added p) (added q) → p ≡ q
  added_inj p q e = cc

  added-AreKnown :
      (addr : Xaddr) (now : Timeval) (va : IsAddress addr) (peers after : Peers splay)
      → AreKnown peers
      → IsAdded splay addr now va peers after
      → AreKnown after
  added-AreKnown addr now va peers after known (free less e) =
      subst AreKnown (sym e) (known.0, known.1, (fresh-IsKnown peers, known.2))
  added-AreKnown addr now va peers after known (evicted oldest full some_last e) =
      subst AreKnown (sym e) (
        known.0,
        known.1,
        (
          fresh-IsKnown peers,
          AllOf-drop_last (λ (p : PeerState). IsKnown peers.limits p.nf9_state) peers.peer_list
              known.2,
        ),
      )

  -- A datagram of bytes, from an address whose numbers fit.
  abbrev pub IsDatagram : Option Datagram → Type 0
  IsDatagram none = Unit {0}
  IsDatagram (some d) = IsSockAddr d.from × AllOf IsByte d.buf

  abbrev AreFrom : List FlowPacket → Type 0
  AreFrom queue = AllOf (λ (fp : FlowPacket). IsAddress fp.flow_source) queue

  module _ (size4 size6 : ℕ) (allocates : Allocation → Bool) (devices : List AllowedDevice) where
    -- The peers and the queue are in order, and the queue is as before, or has the datagram at its
    -- end. A read behind the packet is one of a packet shorter than the header of v.5.
    abbrev pub IsReceived :
        Option Datagram → List FlowPacket → ReceiveEnd splay size4 size6 allocates devices → Type 0
    IsReceived received queue (returned n peers after) =
        IsCollector splay peers
        × AllOf (λ (fp : FlowPacket). IsAddress fp.flow_source) after
        × ((after ≡ queue)
            ⊎ ((fp : FlowPacket) × (d : Datagram) × (received ≡ some d)
                × (after ≡ queue ++ fp ∷ [])
                × (fp.packet ≡ d.buf)
                × (4 ≤ length fp.packet)))
    IsReceived received queue (no_value peers after) = IsCollector splay peers × (after ≡ queue)
    IsReceived received queue over_read = (d : Datagram) × (received ≡ some d) × (length d.buf < 28)
    IsReceived received queue null_pointer = ⊥

    AreFrom-append :
        (queue : List FlowPacket) (fp : FlowPacket)
        → AreFrom queue
        → IsAddress fp.flow_source
        → AreFrom (queue ++ fp ∷ [])
    AreFrom-append [] fp valid va = (va, tt)
    AreFrom-append (q ∷ queue) fp valid va = (valid.0, AreFrom-append queue fp valid.1 va)

    keep_packet-IsReceived :
        (d : Datagram) (source : Xaddr) (peers : Peers splay) (queue : List FlowPacket)
        → IsAddress source
        → IsCollector splay peers
        → AreFrom queue
        → IsReceived
            (some d)
            queue
            (keep_packet splay size4 size6 allocates devices d source peers queue)
    unfolding keep_packet flow_packet_enqueue
    keep_packet-IsReceived d source peers queue va c valid =
        elim (Bool-cases (ltb (length d.buf) 4)) [
          | inl short ↦
              rw (short, keep_packet)
                (
                  write_peer-IsCollector splay peers source (add_invalid splay) c va (λ p. refl)
                      (λ p h. h),
                  valid,
                  inl refl,
                )
          | inr long ↦ elim (Bool-cases (allocates Allocation.packet_bytes)) [
            | inl there ↦
                rw (long, keep_packet)
                  (rw (there, keep_packet)
                    (
                      c,
                      AreFrom-append queue
                          (record { recv_time = d.recv_time; flow_source = source; packet = d.buf })
                          valid va,
                      inr (_, d, refl, refl, refl, ground arith),
                    ))
            | inr missing ↦ rw (long, keep_packet) (rw (missing, keep_packet) (c, valid, inl refl))
          ]
        ]

    new_peer-IsCollector :
        (now : Timeval) (peers : Peers splay) (source : Xaddr)
        → IsAddress source
        → IsCollector splay peers
        → find_peer splay peers source ≡ none
        → (new_peer splay peers devices source now ≡ refused)
          ⊎ ((after : Peers splay) × (new_peer splay peers devices source now ≡ added after)
              × IsCollector splay after)
    new_peer-IsCollector now peers source va c missing =
        elim (new_peer-IsTable splay source now va peers devices c.table missing) [
          | inl (barred, e) ↦ inl e
          | inr (allowed, (after, e, table, found, others)) ↦
              let (same, f, done) =
                new_peer-IsAdded splay source now va peers devices c.table allowed in
              let (limited, small, known) =
                added-AreKnown source now va peers same (c.limited, c.small, c.known) done in
              let agree : after ≡ same = added_inj after same (sym e ∙ f) in
              inr (
                same,
                f,
                record {
                  limited = limited;
                  small = small;
                  table = subst (IsTable splay) agree table;
                  known = known;
                },
              )
        ]

    from_source-IsReceived :
        (now : Timeval) (d : Datagram) (source : Option Xaddr) (peers : Peers splay)
        (queue : List FlowPacket)
        → ((xa : Xaddr) → source ≡ some xa → IsAddress xa)
        → IsCollector splay peers
        → AreFrom queue
        → IsReceived
            (some d)
            queue
            (from_source splay size4 size6 allocates devices now d source peers queue)
    unfolding from_source from_new_peer
    from_source-IsReceived now d none peers queue va c valid = (c, valid, inl refl)
    from_source-IsReceived now d (some source) peers queue va c valid =
        elim (Option-cases (find_peer splay peers source)) [
          | inr (p, found) ↦
              rw (found, from_source)
                (keep_packet-IsReceived d source peers queue (va source refl) c valid)
          | inl missing ↦ elim (new_peer-IsCollector now peers source (va source refl) c missing) [
            | inl barred ↦ rw (missing, from_source) (rw (barred, from_source) (c, valid, inl refl))
            | inr (after, e, c') ↦
                rw (missing, from_source)
                  (rw (e, from_source)
                    (keep_packet-IsReceived d source after queue (va source refl) c' valid))
          ]
        ]

    by_emulator-IsReceived :
        (now : Timeval) (d : Datagram) (peers : Peers splay) (queue : List FlowPacket)
        (e : Emulator)
        → IsDatagram (some d)
        → IsEmulator d.buf e
        → IsCollector splay peers
        → AreFrom queue
        → IsReceived
            (some d)
            queue
            (by_emulator splay size4 size6 allocates devices now d peers queue e)
    unfolding by_emulator
    by_emulator-IsReceived now d peers queue (monitor w) ok fit c valid =
        from_source-IsReceived now d _ peers queue
          (λ xa e. sa_to_xaddr-IsAddress size4 size6 (in4 0 w) d.fromlen xa fit e) c valid
    by_emulator-IsReceived now d peers queue unset ok fit c valid =
        from_source-IsReceived now d _ peers queue
          (λ xa e. sa_to_xaddr-IsAddress size4 size6 d.from d.fromlen xa ok.0 e) c valid
    by_emulator-IsReceived now d peers queue unsupported ok fit c valid = (c, refl)
    by_emulator-IsReceived now d peers queue behind ok fit c valid = (d, refl, fit)

    -- Where the table of peers and their templates are in order, and the packets waiting are from
    -- valid addresses, the receipt of a datagram leaves all this so, without a null pointer: the
    -- queue is as before, or has the datagram's bytes behind the others. It reads behind the
    -- datagram only if that is shorter than 28 bytes.
    pub receive_packet-IsReceived :
        (now : Timeval) (received : Option Datagram) (peers : Peers splay) (queue : List FlowPacket)
        → IsDatagram received
        → IsCollector splay peers
        → AllOf (λ (fp : FlowPacket). IsAddress fp.flow_source) queue
        → IsReceived received queue
            (receive_packet splay size4 size6 allocates devices now received peers queue)
    unfolding receive_packet
    receive_packet-IsReceived now none peers queue ok c valid =
        elim (Bool-cases (allocates Allocation.metadata)) [
          | inl there ↦ rw (there, receive_packet) (c, valid, inl refl)
          | inr missing ↦ rw (missing, receive_packet) (c, valid, inl refl)
        ]
    receive_packet-IsReceived now (some d) peers queue ok c valid =
        elim (Bool-cases (allocates Allocation.metadata)) [
          | inr m0 ↦ rw (m0, receive_packet) (c, valid, inl refl)
          | inl a0 ↦ elim (Bool-cases (allocates Allocation.copy_metadata)) [
            | inr m1 ↦ rw (a0, receive_packet) (rw (m1, receive_packet) (c, valid, inl refl))
            | inl a1 ↦ elim (Bool-cases (allocates Allocation.copy_packet)) [
              | inr m2 ↦
                  rw (a0, receive_packet)
                    (rw (a1, receive_packet) (rw (m2, receive_packet) (c, valid, inl refl)))
              | inl a2 ↦
                  rw (a0, receive_packet)
                    (rw (a1, receive_packet)
                      (rw (a2, receive_packet)
                        (by_emulator-IsReceived now d peers queue (emulator_of d.buf) ok
                          (emulator_of-IsEmulator d.buf ok.1) c valid)))
            ]
          ]
        ]
