-- ===== src/Collector/Record.antt =====
-- flowd/flowd.c: a NetFlow v.9 record of known type, copied into a flow.
use network_monitoring_emula.Common.{
  ℕ, ◌+◌, ◌*◌, ◌/◌, ◌^◌, Option, none, some, List, ◌++◌, take, drop, leb, if◌then◌else◌,
}
use network_monitoring_emula.Addr.{Xaddr, Family, inet, inet6}
use network_monitoring_emula.Store.{FlowComplete, with_bit}
use network_monitoring_emula.Store.Field.{Field, bit}
use network_monitoring_emula.Store.Bytes.{from_be, quad_bytes, quad_from}
use network_monitoring_emula.Collector.Template.{Nf9Field, nf9_field}

-- BE_COPY of `len` bytes to the end of a member of `size` bytes; `none` is a copy that starts before
-- the member.
unfoldable pub be_copy : ℕ → ℕ → ℕ → List ℕ → Option ℕ
be_copy size len old bytes =
    if leb len size then some (old / 256 ^ len * 256 ^ len + from_be (take len bytes)) else none

-- `memcpy` of `len` bytes to the start of an address; `none` is a copy beyond its member.
unfoldable pub addr_copy : ℕ → Family → ℕ → Xaddr → List ℕ → Option Xaddr
addr_copy size af len a bytes =
    if leb len size
    then some (record a {
      af = af;
      addr32 = quad_from (take len bytes ++ drop len (quad_bytes a.addr32));
    })
    else none

abbrev pub flagged : Field → FlowComplete → FlowComplete
flagged x f = record f { hdr = record f.hdr { fields = with_bit f.hdr.fields (bit x) } }

abbrev pub put_in {ℓ} : {A : Type ℓ} → (A → FlowComplete) → Option A → Option FlowComplete
put_in set none = none
put_in set (some v) = some (set v)

-- The cases of the switch, each with its flag.
unfoldable pub copy_field : Nf9Field → ℕ → List ℕ → FlowComplete → Option FlowComplete
unfolding be_copy addr_copy
copy_field Nf9Field.in_bytes len d f =
    put_in (λ v. record (flagged Field.octets f) { octets = v }) (be_copy 8 len f.octets d)
copy_field Nf9Field.in_packets len d f =
    put_in (λ v. record (flagged Field.packets f) { packets = v }) (be_copy 8 len f.packets d)
copy_field Nf9Field.in_protocol len d f =
    put_in (λ v. record (flagged Field.proto_flags_tos f) { pft = record f.pft { protocol = v } })
      (be_copy 1 len f.pft.protocol d)
copy_field Nf9Field.src_tos len d f =
    put_in (λ v. record (flagged Field.proto_flags_tos f) { pft = record f.pft { tos = v } })
      (be_copy 1 len f.pft.tos d)
copy_field Nf9Field.tcp_flags len d f =
    put_in (λ v. record (flagged Field.proto_flags_tos f) { pft = record f.pft { tcp_flags = v } })
      (be_copy 1 len f.pft.tcp_flags d)
copy_field Nf9Field.l4_src_port len d f =
    put_in (λ v. record (flagged Field.srcdst_port f) { ports = record f.ports { src_port = v } })
      (be_copy 2 len f.ports.src_port d)
copy_field Nf9Field.l4_dst_port len d f =
    put_in (λ v. record (flagged Field.srcdst_port f) { ports = record f.ports { dst_port = v } })
      (be_copy 2 len f.ports.dst_port d)
copy_field Nf9Field.src_mask len d f =
    put_in (λ v. record (flagged Field.as_info f) { asinf = record f.asinf { src_mask = v } })
      (be_copy 1 len f.asinf.src_mask d)
copy_field Nf9Field.dst_mask len d f =
    put_in (λ v. record (flagged Field.as_info f) { asinf = record f.asinf { dst_mask = v } })
      (be_copy 1 len f.asinf.dst_mask d)
copy_field Nf9Field.ipv6_src_mask len d f =
    put_in (λ v. record (flagged Field.as_info f) { asinf = record f.asinf { src_mask = v } })
      (be_copy 1 len f.asinf.src_mask d)
copy_field Nf9Field.ipv6_dst_mask len d f =
    put_in (λ v. record (flagged Field.as_info f) { asinf = record f.asinf { dst_mask = v } })
      (be_copy 1 len f.asinf.dst_mask d)
copy_field Nf9Field.src_as len d f =
    put_in (λ v. record (flagged Field.as_info f) { asinf = record f.asinf { src_as = v } })
      (be_copy 4 len f.asinf.src_as d)
copy_field Nf9Field.dst_as len d f =
    put_in (λ v. record (flagged Field.as_info f) { asinf = record f.asinf { dst_as = v } })
      (be_copy 4 len f.asinf.dst_as d)
copy_field Nf9Field.input_snmp len d f =
    put_in (λ v. record (flagged Field.if_indices f) { ifndx = record f.ifndx { if_index_in = v } })
      (be_copy 4 len f.ifndx.if_index_in d)
copy_field Nf9Field.output_snmp len d f =
    put_in
      (λ v. record (flagged Field.if_indices f) { ifndx = record f.ifndx { if_index_out = v } })
      (be_copy 4 len f.ifndx.if_index_out d)
copy_field Nf9Field.last_switched len d f =
    put_in
      (λ v. record (flagged Field.flow_times f) { ftimes = record f.ftimes { flow_finish = v } })
      (be_copy 4 len f.ftimes.flow_finish d)
copy_field Nf9Field.first_switched len d f =
    put_in
      (λ v. record (flagged Field.flow_times f) { ftimes = record f.ftimes { flow_start = v } })
      (be_copy 4 len f.ftimes.flow_start d)
copy_field Nf9Field.engine_type len d f =
    put_in
      (λ v. record (flagged Field.flow_engine_info f) { finf = record f.finf { engine_type = v } })
      (be_copy 2 len f.finf.engine_type d)
copy_field Nf9Field.engine_id len d f =
    put_in
      (λ v. record (flagged Field.flow_engine_info f) { finf = record f.finf { engine_id = v } })
      (be_copy 2 len f.finf.engine_id d)
copy_field Nf9Field.ipv4_src_addr len d f =
    put_in (λ a. record (flagged Field.src_addr4 f) { src_addr = a })
      (addr_copy 4 inet len f.src_addr d)
copy_field Nf9Field.ipv4_dst_addr len d f =
    put_in (λ a. record (flagged Field.dst_addr4 f) { dst_addr = a })
      (addr_copy 4 inet len f.dst_addr d)
copy_field Nf9Field.ipv4_next_hop len d f =
    put_in (λ a. record (flagged Field.gateway_addr4 f) { gateway_addr = a })
      (addr_copy 4 inet len f.gateway_addr d)
copy_field Nf9Field.ipv6_src_addr len d f =
    put_in (λ a. record (flagged Field.src_addr6 f) { src_addr = a })
      (addr_copy 16 inet6 len f.src_addr d)
copy_field Nf9Field.ipv6_dst_addr len d f =
    put_in (λ a. record (flagged Field.dst_addr6 f) { dst_addr = a })
      (addr_copy 16 inet6 len f.dst_addr d)
copy_field Nf9Field.ipv6_next_hop len d f =
    put_in (λ a. record (flagged Field.gateway_addr6 f) { gateway_addr = a })
      (addr_copy 16 inet6 len f.gateway_addr d)

unfoldable pub copy_known : Option Nf9Field → ℕ → List ℕ → FlowComplete → Option FlowComplete
unfolding copy_field
copy_known none len d f = some f
copy_known (some field) len d f = copy_field field len d f

unfoldable pub nf9_rec_to_flow : ℕ → ℕ → List ℕ → FlowComplete → Option FlowComplete
unfolding copy_known
nf9_rec_to_flow type len d f = copy_known (nf9_field type) len d f
