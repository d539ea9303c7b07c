-- ===== src/Collector/Fixed.antt =====
-- flowd/flowd.c and flowd/netflow.h: packets of NetFlow v.1, v.5 and v.7, whose layout is fixed, and
-- the choice of the handler by the packet's version.
--
-- The structs are packed, so a member is read at its offset. The host is little-endian: a byte that
-- is stored in a `u_int16_t` of network byte order, without `htons`, counts 256 times as much.
use network_monitoring_emula.Common.{
  ℕ, zero, suc, ◌+◌, ◌-◌, ◌*◌, ◌^◌, not, ◌||◌, none, some, List, [], ◌∷◌, length, drop, ltb, ◌==◌,
  if◌then◌else◌,
}
use network_monitoring_emula.Addr.{Xaddr, inet, put_word}
use network_monitoring_emula.Store.{FlowComplete, zero_flow, zero_xaddr, without_bit}
use network_monitoring_emula.Store.Field.{Field, bit}
use network_monitoring_emula.Store.Bytes.{number}
use network_monitoring_emula.Peer.Tree.{SplayTree}
use network_monitoring_emula.Peer.Table.{
  PeerState, Peers, Timeval, find_peer, write_peer, update_peer, add64,
}
use network_monitoring_emula.Collector.Nf9

-- STORE_FIELD_ALL
abbrev pub every_field : ℕ
every_field = (2 ^ 19 - 1) + 2 ^ 30

without_fields : List Field → ℕ → ℕ
without_fields [] fields = fields
without_fields (x ∷ xs) fields = without_fields xs (without_bit fields (bit x))

-- The flags of a flow of IPv4 that has no tag.
unfoldable pub ipv4_fields : ℕ
unfolding without_fields
ipv4_fields =
    without_fields (Field.tag ∷ Field.src_addr6 ∷ Field.dst_addr6 ∷ Field.gateway_addr6 ∷ [])
      every_field

unfoldable pub v1_fields : ℕ
unfolding without_fields ipv4_fields
v1_fields = without_fields (Field.as_info ∷ Field.flow_engine_info ∷ []) ipv4_fields

-- An address of which `v4.s_addr` and `af` have been assigned.
abbrev pub v4_addr : ℕ → Xaddr
v4_addr w = record zero_xaddr { af = inet; addr32 = put_word 0 w zero_xaddr.addr32 }

-- `struct NF1_FLOW` at the start of the bytes, with the packet's header.
unfoldable pub nf1_flow : ℕ → Timeval → Xaddr → List ℕ → List ℕ → FlowComplete
unfolding v1_fields
nf1_flow stray_usec tv flow_source hdr f = record zero_flow {
  hdr = record zero_flow.hdr { fields = v1_fields };
  recv_time = record { recv_sec = tv.tv_sec; recv_usec = stray_usec };
  pft = record {
    tcp_flags = number 40 1 f;
    protocol = number 38 1 f;
    tos = number 39 1 f;
    pad = 0;
  };
  agent_addr = flow_source;
  src_addr = v4_addr (number 0 4 f);
  dst_addr = v4_addr (number 4 4 f);
  gateway_addr = v4_addr (number 8 4 f);
  ports = record { src_port = number 32 2 f; dst_port = number 34 2 f };
  octets = number 20 4 f;
  packets = number 16 4 f;
  ifndx = record { if_index_in = number 12 2 f; if_index_out = number 14 2 f };
  ainfo = record zero_flow.ainfo {
    sys_uptime_ms = number 4 4 hdr;
    time_sec = number 8 4 hdr;
    time_nanosec = number 12 4 hdr;
    netflow_version = number 0 2 hdr;
  };
  ftimes = record { flow_start = number 24 4 f; flow_finish = number 28 4 f };
}

-- `struct NF5_FLOW`
unfoldable pub nf5_flow : Timeval → Xaddr → List ℕ → List ℕ → FlowComplete
unfolding ipv4_fields
nf5_flow tv flow_source hdr f = record zero_flow {
  hdr = record zero_flow.hdr { fields = ipv4_fields };
  recv_time = record { recv_sec = tv.tv_sec; recv_usec = tv.tv_usec };
  pft = record {
    tcp_flags = number 37 1 f;
    protocol = number 38 1 f;
    tos = number 39 1 f;
    pad = 0;
  };
  agent_addr = flow_source;
  src_addr = v4_addr (number 0 4 f);
  dst_addr = v4_addr (number 4 4 f);
  gateway_addr = v4_addr (number 8 4 f);
  ports = record { src_port = number 32 2 f; dst_port = number 34 2 f };
  octets = number 20 4 f;
  packets = number 16 4 f;
  ifndx = record { if_index_in = number 12 2 f; if_index_out = number 14 2 f };
  ainfo = record zero_flow.ainfo {
    sys_uptime_ms = number 4 4 hdr;
    time_sec = number 8 4 hdr;
    time_nanosec = number 12 4 hdr;
    netflow_version = number 0 2 hdr;
  };
  ftimes = record { flow_start = number 24 4 f; flow_finish = number 28 4 f };
  asinf = record zero_flow.asinf {
    src_as = number 40 4 f;
    dst_as = number 44 4 f;
    src_mask = number 48 1 f;
    dst_mask = number 49 1 f;
  };
  finf = record zero_flow.finf {
    engine_type = number 20 1 hdr * 256;
    engine_id = number 21 1 hdr * 256;
    flow_sequence = number 16 4 hdr;
  };
}

-- `struct NF7_FLOW`
unfoldable pub nf7_flow : Timeval → Xaddr → List ℕ → List ℕ → FlowComplete
unfolding ipv4_fields
nf7_flow tv flow_source hdr f = record zero_flow {
  hdr = record zero_flow.hdr { fields = ipv4_fields };
  recv_time = record { recv_sec = tv.tv_sec; recv_usec = tv.tv_usec };
  pft = record {
    tcp_flags = number 37 1 f;
    protocol = number 38 1 f;
    tos = number 39 1 f;
    pad = 0;
  };
  agent_addr = flow_source;
  src_addr = v4_addr (number 0 4 f);
  dst_addr = v4_addr (number 4 4 f);
  gateway_addr = v4_addr (number 8 4 f);
  ports = record { src_port = number 32 2 f; dst_port = number 34 2 f };
  octets = number 20 4 f;
  packets = number 16 4 f;
  ifndx = record { if_index_in = number 12 2 f; if_index_out = number 14 2 f };
  ainfo = record zero_flow.ainfo {
    sys_uptime_ms = number 4 4 hdr;
    time_sec = number 8 4 hdr;
    time_nanosec = number 12 4 hdr;
    netflow_version = number 0 2 hdr;
  };
  ftimes = record { flow_start = number 24 4 f; flow_finish = number 28 4 f };
  asinf = record zero_flow.asinf {
    src_as = number 40 2 f;
    dst_as = number 42 2 f;
    src_mask = number 44 1 f;
    dst_mask = number 45 1 f;
  };
  finf = record zero_flow.finf { flow_sequence = number 16 4 hdr };
}

-- The loop over the flows: `rounds` are left, and the next flow starts at `offset`.
unfoldable pub flows_at : (List ℕ → FlowComplete) → ℕ → List ℕ → ℕ → ℕ → List FlowComplete
flows_at decode flow_size packet zero offset = []
flows_at decode flow_size packet (suc rounds) offset =
    decode (drop offset packet) ∷ flows_at decode flow_size packet rounds (offset + flow_size)

-- What the handler of a fixed layout does: it counts an invalid packet, or it counts the flows of a
-- valid one and hands them to `process_flow`.
pub data FixedEnd : Type 0 where
  invalid : FixedEnd
  valid : List FlowComplete → FixedEnd

-- The tests and the loop that the three handlers share.
unfoldable pub process_fixed : (List ℕ → FlowComplete) → ℕ → ℕ → ℕ → List ℕ → FixedEnd
unfolding flows_at
process_fixed decode header_size flow_size max_flows packet =
    let nflows = number 2 2 packet in
    if ltb (length packet) header_size
    then invalid
    else if (nflows == 0) || ltb max_flows nflows
    then invalid
    else if not (length packet == header_size + nflows * flow_size)
    then invalid
    else valid (flows_at decode flow_size packet nflows header_size)

unfoldable pub process_netflow_v1 : ℕ → Timeval → Xaddr → List ℕ → FixedEnd
unfolding process_fixed nf1_flow
process_netflow_v1 stray_usec tv flow_source packet =
    process_fixed (nf1_flow stray_usec tv flow_source packet) 20 52 24 packet

unfoldable pub process_netflow_v5 : Timeval → Xaddr → List ℕ → FixedEnd
unfolding process_fixed nf5_flow
process_netflow_v5 tv flow_source packet =
    process_fixed (nf5_flow tv flow_source packet) 28 56 30 packet

unfoldable pub process_netflow_v7 : Timeval → Xaddr → List ℕ → FixedEnd
unfolding process_fixed nf7_flow
process_netflow_v7 tv flow_source packet =
    process_fixed (nf7_flow tv flow_source packet) 24 52 30 packet

-- `struct flow_packet`
pub record FlowPacket : Type 0 where
  pub recv_time : Timeval
  pub flow_source : Xaddr
  pub packet : List ℕ

module _ (splay : SplayTree) where
  -- The table of peers after a packet, and the flows handed to `process_flow`; `stuck` is a v.9
  -- packet whose handler does not return.
  pub data PacketEnd : Type 0 where
    handled : Peers splay → List FlowComplete → PacketEnd
    stuck : Nf9.Nf9End → PacketEnd

  abbrev pub add_invalid : PeerState → PeerState
  add_invalid p = record p { ninvalid = add64 p.ninvalid 1 }

  -- `now` is the time that `update_peer` reads.
  unfoldable pub after_fixed : Peers splay → Xaddr → ℕ → Timeval → FixedEnd → PacketEnd
  after_fixed peers source version now invalid =
      handled (write_peer splay source add_invalid peers) []
  after_fixed peers source version now (valid fs) =
      handled (update_peer splay peers source (length fs) version now) fs

  abbrev pub progress : PeerState → Nf9.Progress
  progress p = record {
    peer = p.nf9_state;
    ninvalid = p.ninvalid;
    no_template = p.no_template;
    total_flows = 0;
    flows = [];
  }

  abbrev pub put_progress : Nf9.Progress → PeerState → PeerState
  put_progress s p = record p {
    nf9_state = s.peer;
    ninvalid = s.ninvalid;
    no_template = s.no_template;
  }

  unfoldable pub after_nf9 : Peers splay → Xaddr → Timeval → Nf9.Nf9End → PacketEnd
  after_nf9 peers source now (Nf9.finished s) =
      let peers' = write_peer splay source (put_progress s) peers in
      handled
        (if s.total_flows == 0 then peers' else update_peer splay peers' source s.total_flows 9 now)
        s.flows
  after_nf9 peers source now (Nf9.gave_up s) =
      handled (write_peer splay source (put_progress s) peers) s.flows
  after_nf9 peers source now e = stuck e

  unfoldable pub by_version : ℕ → Timeval → Peers splay → FlowPacket → ℕ → PeerState → PacketEnd
  unfolding after_fixed after_nf9
  by_version stray_usec now peers fp version p =
      if version == 1
      then after_fixed peers fp.flow_source 1 now
          (process_netflow_v1 stray_usec fp.recv_time fp.flow_source fp.packet)
      else if version == 5
      then after_fixed peers fp.flow_source 5 now
          (process_netflow_v5 fp.recv_time fp.flow_source fp.packet)
      else if version == 7
      then after_fixed peers fp.flow_source 7 now
          (process_netflow_v7 fp.recv_time fp.flow_source fp.packet)
      else if version == 9
      then after_nf9 peers fp.flow_source now (
          Nf9.process_netflow_v9 fp.packet fp.recv_time p.from peers.limits (suc (length fp.packet))
            (progress p))
      else handled peers []

  -- A packet of a peer that has gone in the meantime is left.
  unfoldable pub process_packet : ℕ → Timeval → Peers splay → FlowPacket → PacketEnd
  unfolding by_version
  process_packet stray_usec now peers fp = elim (find_peer splay peers fp.flow_source) [
    | none ↦ handled peers []
    | some p ↦ by_version stray_usec now peers fp (number 0 2 fp.packet) p
  ]
