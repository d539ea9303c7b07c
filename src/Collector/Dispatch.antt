-- ===== src/Collector/Dispatch.antt =====
-- The packets that flowd/flowd.c takes: which packets of a fixed layout are valid and which bytes
-- their flows are read from, and what the table of peers is after a packet.
use network_monitoring_emula.Common.{
  ℕ, zero, suc, ◌+◌, ◌*◌, ◌≤◌, ◌<◌, ◌≡◌, ◌≢◌, ◌⊎◌, refl, inl, inr, List, [], ◌∷◌, length, drop, ltb,
  ◌==◌, arith, Bool-cases, Option-cases, ==→eq, ==→ne, ltb→lt, sym, ◌∙◌, subst, some,
}
use network_monitoring_emula.Common.Tailq.{AllOf-find_first}
use network_monitoring_emula.Addr.{Xaddr}
use network_monitoring_emula.Store.{FlowComplete}
use network_monitoring_emula.Store.Bytes.{number}
use network_monitoring_emula.Peer.{Limits}
use network_monitoring_emula.Peer.Tree.{SplayTree, IsAddress}
use network_monitoring_emula.Peer.Table.{PeerState, Peers, Timeval, find_peer}
use network_monitoring_emula.Peer.Agree.{find_peer_lem}
use network_monitoring_emula.Collector.Checked.{IsKnown}
use network_monitoring_emula.Collector.Nf9
use network_monitoring_emula.Collector.Arrives.{
  Arrives, ComesToCut, ComesToEmpty, IsSafeEnd, Stalls,
}
use network_monitoring_emula.Collector.Packet.{process_netflow_v9-IsSafeEnd}
use network_monitoring_emula.Collector.Fixed.{
  FixedEnd, invalid, valid, flows_at, process_fixed, FlowPacket, PacketEnd, handled, stuck,
  process_packet, nf1_flow, nf5_flow, nf7_flow, process_netflow_v1, process_netflow_v5,
  process_netflow_v7, after_fixed, after_nf9, by_version, add_invalid, progress,
}
use network_monitoring_emula.Collector.Ordered.{
  IsCollector, write_peer-IsCollector, update_peer-IsCollector, put_progress-IsCollector,
}

module _ (decode : List ℕ → FlowComplete) (header_size flow_size max_flows : ℕ)
    (packet : List ℕ) where
  -- The flows are those that start at `offset`, one after the other, and lie within the packet.
  abbrev pub AreFlows : ℕ → List FlowComplete → Type 0
  AreFlows offset [] = offset ≡ length packet
  AreFlows offset (f ∷ fs) = (f ≡ decode (drop offset packet)) × AreFlows (offset + flow_size) fs

  flows_at-AreFlows :
      (n offset : ℕ)
      → offset + n * flow_size ≡ length packet
      → AreFlows offset (flows_at decode flow_size packet n offset)
        × (length (flows_at decode flow_size packet n offset) ≡ n)
  unfolding flows_at
  flows_at-AreFlows zero offset fit = (omega arith, refl)
  flows_at-AreFlows (suc n) offset fit =
      let (rest, len) = flows_at-AreFlows n (offset + flow_size) (grind arith) in
      ((refl, rest), omega (arith, len))

  -- A packet is valid exactly if its header is whole, its count of flows is in range and its length
  -- is that of the header and so many flows; then its flows are read one after the other from the
  -- header's end to the packet's.
  pub process_fixed_lem :
      ((fs : List FlowComplete) × (process_fixed decode header_size flow_size max_flows packet
          ≡ valid fs)
        × (0 < length fs)
        × (length fs ≤ max_flows)
        × (length fs ≡ number 2 2 packet)
        × (header_size ≤ length packet)
        × AreFlows header_size fs)
      ⊎ ((process_fixed decode header_size flow_size max_flows packet ≡ invalid)
          × ((length packet < header_size)
              ⊎ ((number 2 2 packet ≡ 0)
                  ⊎ ((max_flows < number 2 2 packet)
                      ⊎ (length packet ≢ header_size + number 2 2 packet * flow_size)))))
  unfolding process_fixed
  process_fixed_lem =
      let n = number 2 2 packet in
      elim (Bool-cases (ltb (length packet) header_size)) [
        | inl short ↦
            inr (rw (short, process_fixed) refl, inl (ltb→lt (length packet) header_size short))
        | inr whole ↦ elim (Bool-cases (n == 0)) [
          | inl none_left ↦ inr (
            rw (whole, process_fixed) (rw (none_left, process_fixed) refl),
            inr (inl (==→eq n 0 none_left)),
          )
          | inr some_left ↦ elim (Bool-cases (ltb max_flows n)) [
            | inl many ↦ inr (
              rw (whole, process_fixed)
                  (rw (some_left, process_fixed) (rw (many, process_fixed) refl)),
              inr (inr (inl (ltb→lt max_flows n many))),
            )
            | inr few ↦ elim (Bool-cases (length packet == header_size + n * flow_size)) [
              | inr other ↦ inr (
                rw (whole, process_fixed)
                    (rw (some_left, process_fixed)
                      (rw (few, process_fixed) (rw (other, process_fixed) refl))),
                inr (inr (inr (==→ne (length packet) (header_size + n * flow_size) other))),
              )
              | inl same ↦
                  let fit : header_size + n * flow_size ≡ length packet = sym (==→eq _ _ same) in
                  let (rest, len) = flows_at-AreFlows n header_size fit in
                  inl (
                    flows_at decode flow_size packet n header_size,
                    rw (whole, process_fixed)
                        (rw (some_left, process_fixed)
                          (rw (few, process_fixed) (rw (same, process_fixed) refl))),
                    ground (arith, len, ==→ne n 0 some_left),
                    ground (arith, len),
                    len,
                    ground arith,
                    rest,
                  )
            ]
          ]
        ]
      ]

-- The flows of a packet of a version with a fixed layout: its header's count is in range, and they
-- fill the packet from the header on.
pub record FixedFits (decode : List ℕ → FlowComplete) (version header_size flow_size max_flows : ℕ)
    (packet : List ℕ) (fs : List FlowComplete) : Type 0 where
  pub versioned : number 0 2 packet ≡ version
  pub some_flows : 0 < length fs
  pub few_flows : length fs ≤ max_flows
  pub counted : length fs ≡ number 2 2 packet
  pub read : AreFlows decode header_size flow_size max_flows packet header_size fs

process_fixed-FixedFits :
    (decode : List ℕ → FlowComplete) (version header_size flow_size max_flows : ℕ) (packet : List ℕ)
    → number 0 2 packet ≡ version
    → (fs : List FlowComplete)
    → process_fixed decode header_size flow_size max_flows packet ≡ valid fs
    → FixedFits decode version header_size flow_size max_flows packet fs
process_fixed-FixedFits decode version header_size flow_size max_flows packet v fs e =
    elim (process_fixed_lem decode header_size flow_size max_flows packet) [
      | inr (bad, why) ↦ absurd (let clash : invalid ≡ valid fs = sym bad ∙ e in cc)
      | inl (gs, good, some_flows, few, counted, whole, flows) ↦
          let same : valid gs ≡ valid fs = sym good ∙ e in
          subst (FixedFits decode version header_size flow_size max_flows packet)
            (valid_inj gs fs same)
            (record {
              versioned = v;
              some_flows = some_flows;
              few_flows = few;
              counted = counted;
              read = flows;
            })
    ]
  where
    valid_inj : (gs hs : List FlowComplete) → ◌≡◌ {A = FixedEnd} (valid gs) (valid hs) → gs ≡ hs
    valid_inj gs hs h = cc

-- What a packet hands on: no flows; flows of v.9; or those of a fixed layout, each read from its
-- place.
abbrev pub IsDelivery : ℕ → FlowPacket → List FlowComplete → Type 0
IsDelivery stray_usec fp fs =
    (fs ≡ [])
    ⊎ ((number 0 2 fp.packet ≡ 9)
        ⊎ (FixedFits (nf1_flow stray_usec fp.recv_time fp.flow_source fp.packet) 1 20 52 24
              fp.packet fs
            ⊎ (FixedFits (nf5_flow fp.recv_time fp.flow_source fp.packet) 5 28 56 30 fp.packet fs
                ⊎ FixedFits (nf7_flow fp.recv_time fp.flow_source fp.packet) 7 24 52 30 fp.packet
                    fs)))

module _ (splay : SplayTree) where
  -- The ways in which the handler of a v.9 packet does not return.
  abbrev IsFault : FlowPacket → Xaddr → Limits → Nf9.Progress → Nf9.Nf9End → Type 0
  IsFault fp from limits start Nf9.Nf9End.beyond_packet =
      ComesToCut fp.packet fp.recv_time from limits start
  IsFault fp from limits start Nf9.Nf9End.division_by_zero =
      ComesToEmpty fp.packet fp.recv_time from limits start
  IsFault fp from limits start Nf9.endless =
      (offset : ℕ) × (s : Nf9.Progress) × Arrives fp.packet fp.recv_time from limits start offset s
      × Stalls fp.packet offset
  IsFault fp from limits start e = ⊥

  -- What a packet leads to: a table in order and the flows that the packet holds; or it is a v.9
  -- packet of a known peer, whose handler reads behind it, divides by zero or stays for ever at a
  -- flowset that it comes to.
  abbrev pub IsOutcome : ℕ → Peers splay → FlowPacket → PacketEnd splay → Type 0
  IsOutcome stray_usec before fp (handled peers fs) =
      IsCollector splay peers × IsDelivery stray_usec fp fs
  IsOutcome stray_usec before fp (stuck e) =
      (p : PeerState) × (find_peer splay before fp.flow_source ≡ some p)
      × (number 0 2 fp.packet ≡ 9)
      × (Nf9.process_netflow_v9 fp.packet fp.recv_time p.from before.limits (suc (length fp.packet))
            (progress splay p)
          ≡ e)
      × IsFault fp p.from before.limits (progress splay p) e

  after_fixed-IsOutcome :
      (stray_usec : ℕ) (peers : Peers splay) (fp : FlowPacket) (version : ℕ) (now : Timeval)
      (e : FixedEnd)
      → ((fs : List FlowComplete) → e ≡ valid fs → IsDelivery stray_usec fp fs)
      → IsCollector splay peers
      → IsAddress fp.flow_source
      → IsOutcome stray_usec peers fp (after_fixed splay peers fp.flow_source version now e)
  unfolding after_fixed
  after_fixed-IsOutcome stray_usec peers fp version now invalid read c va = (
    write_peer-IsCollector splay peers fp.flow_source (add_invalid splay) c va (λ p. refl)
        (λ p h. h),
    inl refl,
  )
  after_fixed-IsOutcome stray_usec peers fp version now (valid fs) read c va = (
    update_peer-IsCollector splay peers fp.flow_source (length fs) version now c va,
    read fs refl,
  )

  after_nf9-IsOutcome :
      (stray_usec : ℕ) (peers : Peers splay) (fp : FlowPacket) (now : Timeval) (p : PeerState)
      (e : Nf9.Nf9End)
      → IsCollector splay peers
      → IsAddress fp.flow_source
      → find_peer splay peers fp.flow_source ≡ some p
      → number 0 2 fp.packet ≡ 9
      → Nf9.process_netflow_v9 fp.packet fp.recv_time p.from peers.limits
          (suc (length fp.packet))
          (progress splay p)
        ≡ e
      → IsSafeEnd fp.packet fp.recv_time p.from peers.limits (progress splay p) e
      → IsOutcome stray_usec peers fp (after_nf9 splay peers fp.flow_source now e)
  unfolding after_nf9
  after_nf9-IsOutcome stray_usec peers fp now p (Nf9.finished s) c va found v9 q h =
      let written = put_progress-IsCollector splay peers fp.flow_source s c va h in
      elim (Bool-cases (s.total_flows == 0)) [
        | inl no_flows ↦ rw no_flows (written, inr (inl v9))
        | inr some_flows ↦ rw some_flows (
          update_peer-IsCollector splay _ fp.flow_source s.total_flows 9 now written va,
          inr (inl v9),
        )
      ]
  after_nf9-IsOutcome stray_usec peers fp now p (Nf9.gave_up s) c va found v9 q h =
      (put_progress-IsCollector splay peers fp.flow_source s c va h, inr (inl v9))
  after_nf9-IsOutcome stray_usec peers fp now p Nf9.Nf9End.beyond_packet c va found v9 q h =
      (p, found, v9, q, h)
  after_nf9-IsOutcome stray_usec peers fp now p Nf9.Nf9End.beside_member c va found v9 q h =
      absurd h
  after_nf9-IsOutcome stray_usec peers fp now p Nf9.dangling c va found v9 q h = absurd h
  after_nf9-IsOutcome stray_usec peers fp now p Nf9.exits c va found v9 q h = absurd h
  after_nf9-IsOutcome stray_usec peers fp now p Nf9.Nf9End.division_by_zero c va found v9 q h =
      (p, found, v9, q, h)
  after_nf9-IsOutcome stray_usec peers fp now p Nf9.endless c va found v9 q h = (p, found, v9, q, h)

  by_version-IsOutcome :
      (stray_usec version : ℕ) (now : Timeval) (peers : Peers splay) (fp : FlowPacket)
      (p : PeerState)
      → number 0 2 fp.packet ≡ version
      → IsCollector splay peers
      → IsAddress fp.flow_source
      → find_peer splay peers fp.flow_source ≡ some p
      → IsKnown peers.limits p.nf9_state
      → IsOutcome stray_usec peers fp (by_version splay stray_usec now peers fp version p)
  unfolding by_version process_netflow_v1 process_netflow_v5 process_netflow_v7
  by_version-IsOutcome stray_usec version now peers fp p v c va found known =
      elim (Bool-cases (version == 1)) [
        | inl v1 ↦
            rw (v1, by_version)
              (after_fixed-IsOutcome stray_usec peers fp 1 now _
                (λ fs e. inr (
                  inr (
                    inl (
                      process_fixed-FixedFits _ 1 20 52 24 fp.packet (v ∙ ==→eq version 1 v1) fs
                        e))))
                c va)
        | inr n1 ↦ elim (Bool-cases (version == 5)) [
          | inl v5 ↦
              rw (n1, by_version)
                (rw (v5, by_version)
                  (after_fixed-IsOutcome stray_usec peers fp 5 now _
                    (λ fs e. inr (
                      inr (
                        inr (
                          inl (
                            process_fixed-FixedFits _ 5 28 56 30 fp.packet (v ∙ ==→eq version 5 v5)
                              fs e)))))
                    c va))
          | inr n5 ↦ elim (Bool-cases (version == 7)) [
            | inl v7 ↦
                rw (n1, by_version)
                  (rw (n5, by_version)
                    (rw (v7, by_version)
                      (after_fixed-IsOutcome stray_usec peers fp 7 now _
                        (λ fs e. inr (
                          inr (
                            inr (
                              inr (
                                process_fixed-FixedFits _ 7 24 52 30 fp.packet
                                  (v ∙ ==→eq version 7 v7) fs e)))))
                        c va)))
            | inr n7 ↦ elim (Bool-cases (version == 9)) [
              | inl v9 ↦
                  rw (n1, by_version)
                    (rw (n5, by_version)
                      (rw (n7, by_version)
                        (rw (v9, by_version)
                          (after_nf9-IsOutcome stray_usec peers fp now p _ c va found
                            (v ∙ ==→eq version 9 v9) refl
                            (process_netflow_v9-IsSafeEnd fp.packet fp.recv_time p.from peers.limits
                              c.limited c.small (progress splay p) (suc (length fp.packet))
                              (omega arith) known)))))
              | inr n9 ↦
                  rw (n1, by_version)
                    (rw (n5, by_version) (rw (n7, by_version) (rw (n9, by_version) (c, inl refl))))
            ]
          ]
        ]
      ]

  -- Any packet from a valid address leaves the table of peers and the templates of every peer in
  -- order, and the flows handed on are none, those of a v.9 packet, or those of a packet of v.1, 5
  -- or 7 whose count is in range and whose length is that of its header and so many flows, each read
  -- from its place; unless it is a v.9 packet of a known peer whose handler reads behind the packet,
  -- divides by zero, or comes to a flowset that stalls it.
  pub process_packet-IsOutcome :
      (stray_usec : ℕ) (now : Timeval) (peers : Peers splay) (fp : FlowPacket)
      → IsCollector splay peers
      → IsAddress fp.flow_source
      → IsOutcome stray_usec peers fp (process_packet splay stray_usec now peers fp)
  unfolding process_packet
  process_packet-IsOutcome stray_usec now peers fp c va =
      elim (Option-cases (find_peer splay peers fp.flow_source)) [
        | inl missing ↦ rw (missing, process_packet) (c, inl refl)
        | inr (p, found) ↦
            rw (found, process_packet)
              (by_version-IsOutcome stray_usec (number 0 2 fp.packet) now peers fp p refl c va found
                (AllOf-find_first (λ (q : PeerState). IsKnown peers.limits q.nf9_state) _
                  peers.peer_list p c.known
                  (sym (find_peer_lem splay peers fp.flow_source c.table va) ∙ found)))
      ]
