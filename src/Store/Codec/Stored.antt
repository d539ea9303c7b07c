-- ===== src/Store/Codec/Stored.antt =====
-- What a flow record keeps when it goes through the store format.
use network_monitoring_emula.Common.{ℕ, ◌^◌, ◌<◌, ◌≡◌, refl, inl, inr, Bool, if◌then◌else◌, arith}
use network_monitoring_emula.Common.Flags.{has_bit}
use network_monitoring_emula.Addr.{Xaddr, Quad, Family, inet, inet6, other, zero_quad}
use network_monitoring_emula.Addr.Network.{xaddr}
use network_monitoring_emula.Store.{FlowComplete, StoreFlow, zero_flow, zero_xaddr}
use network_monitoring_emula.Store.Field.{Field, bit, has_field}
use network_monitoring_emula.Store.Bytes.{Locals}
use network_monitoring_emula.Store.Codec.{copy_addr, copy_addrs, no_locals}
use network_monitoring_emula.Store.Codec.Copy.{IsFlow, copy_all}
use network_monitoring_emula.Store.Codec.Known.{all_fields}
use network_monitoring_emula.Store.Codec.Addrs.{IsFixed, IsKept}
use network_monitoring_emula.Store.Codec.Switches.{AllFixed, AllKept}

-- An address is kept when the flag of its family is set; its scope is not stored.
abbrev pub kept_addr : Bool → Bool → Xaddr → Xaddr
kept_addr has4 has6 a = elim a.af [
  | inet ↦ if has4 then xaddr inet (record zero_quad { w0 = a.addr32.w0 }) 0 else zero_xaddr
  | inet6 ↦ if has6 then xaddr inet6 a.addr32 0 else zero_xaddr
  | other _ ↦ zero_xaddr
]

-- The fields whose flag is set, and zeros in the place of the others, under a given header and
-- checksum.
unfoldable pub stored : FlowComplete → StoreFlow → ℕ → FlowComplete
stored f h c = record {
  hdr = h;
  tag = if has_field f.hdr.fields Field.tag then f.tag else 0;
  recv_time = if has_field f.hdr.fields Field.recv_time then f.recv_time else zero_flow.recv_time;
  pft = if has_field f.hdr.fields Field.proto_flags_tos then f.pft else zero_flow.pft;
  ports = if has_field f.hdr.fields Field.srcdst_port then f.ports else zero_flow.ports;
  packets = if has_field f.hdr.fields Field.packets then f.packets else 0;
  octets = if has_field f.hdr.fields Field.octets then f.octets else 0;
  ifndx = if has_field f.hdr.fields Field.if_indices then f.ifndx else zero_flow.ifndx;
  ainfo = if has_field f.hdr.fields Field.agent_info then f.ainfo else zero_flow.ainfo;
  ftimes = if has_field f.hdr.fields Field.flow_times then f.ftimes else zero_flow.ftimes;
  asinf = if has_field f.hdr.fields Field.as_info then f.asinf else zero_flow.asinf;
  finf = if has_field f.hdr.fields Field.flow_engine_info then f.finf else zero_flow.finf;
  agent_addr =
      kept_addr (has_field f.hdr.fields Field.agent_addr4)
        (has_field f.hdr.fields Field.agent_addr6) f.agent_addr;
  src_addr =
      kept_addr (has_field f.hdr.fields Field.src_addr4) (has_field f.hdr.fields Field.src_addr6)
        f.src_addr;
  dst_addr =
      kept_addr (has_field f.hdr.fields Field.dst_addr4) (has_field f.hdr.fields Field.dst_addr6)
        f.dst_addr;
  gateway_addr =
      kept_addr (has_field f.hdr.fields Field.gateway_addr4)
        (has_field f.hdr.fields Field.gateway_addr6) f.gateway_addr;
  crc32 = c;
}

-- A flow that fits keeps fitting under another header and a checksum that fits.
pub IsFlow-checksum :
    (f : FlowComplete) (d : StoreFlow) (c : ℕ)
    → IsFlow f
    → c < 2 ^ 32
    → IsFlow (record f { hdr = d; crc32 = c })
IsFlow-checksum f d c h l = record {
  tag_fits = h.tag_fits;
  packets_fits = h.packets_fits;
  octets_fits = h.octets_fits;
  crc32_fits = l;
  recv_time_recv_sec_fits = h.recv_time_recv_sec_fits;
  recv_time_recv_usec_fits = h.recv_time_recv_usec_fits;
  pft_tcp_flags_fits = h.pft_tcp_flags_fits;
  pft_protocol_fits = h.pft_protocol_fits;
  pft_tos_fits = h.pft_tos_fits;
  pft_pad_fits = h.pft_pad_fits;
  ports_src_port_fits = h.ports_src_port_fits;
  ports_dst_port_fits = h.ports_dst_port_fits;
  ifndx_if_index_in_fits = h.ifndx_if_index_in_fits;
  ifndx_if_index_out_fits = h.ifndx_if_index_out_fits;
  ainfo_sys_uptime_ms_fits = h.ainfo_sys_uptime_ms_fits;
  ainfo_time_sec_fits = h.ainfo_time_sec_fits;
  ainfo_time_nanosec_fits = h.ainfo_time_nanosec_fits;
  ainfo_netflow_version_fits = h.ainfo_netflow_version_fits;
  ainfo_pad_fits = h.ainfo_pad_fits;
  ftimes_flow_start_fits = h.ftimes_flow_start_fits;
  ftimes_flow_finish_fits = h.ftimes_flow_finish_fits;
  asinf_src_as_fits = h.asinf_src_as_fits;
  asinf_dst_as_fits = h.asinf_dst_as_fits;
  asinf_src_mask_fits = h.asinf_src_mask_fits;
  asinf_dst_mask_fits = h.asinf_dst_mask_fits;
  asinf_pad_fits = h.asinf_pad_fits;
  finf_engine_type_fits = h.finf_engine_type_fits;
  finf_engine_id_fits = h.finf_engine_id_fits;
  finf_flow_sequence_fits = h.finf_flow_sequence_fits;
  finf_source_id_fits = h.finf_source_id_fits;
}

copied_parts :
    (g : Family) (q : Quad) (s : ℕ) (x4 x6 : Field) (m m' v4 : ℕ) (v6 : Quad)
    → IsFixed (xaddr g q s) x4 x6 m' v4 v6
    → IsKept g x4 x6 m m'
    → copy_addr
        (has_field m' x4)
        (has_field m' x6)
        (if has_field m' x4 then v4 else 0)
        (if has_field m' x6 then v6 else zero_quad)
        zero_xaddr
      ≡ kept_addr (has_field m x4) (has_field m x6) (xaddr g q s)
copied_parts inet q s x4 x6 m m' v4 v6 (inl (a, b)) k = rw (← k, a, b) refl
copied_parts inet6 q s x4 x6 m m' v4 v6 (inl (a, b)) k = rw (← k, a, b) refl
copied_parts (other n) q s x4 x6 m m' v4 v6 (inl (a, b)) k = rw (a, b) refl
copied_parts inet q s x4 x6 m m' v4 v6 (inr (inl (e, a, b, c))) k = rw (← k, a, b, c) refl
copied_parts inet6 q s x4 x6 m m' v4 v6 (inr (inl (e, a, b, c))) k = cc
copied_parts (other n) q s x4 x6 m m' v4 v6 (inr (inl (e, a, b, c))) k = cc
copied_parts inet q s x4 x6 m m' v4 v6 (inr (inr (e, a, b, c))) k = cc
copied_parts inet6 q s x4 x6 m m' v4 v6 (inr (inr (e, a, b, c))) k = rw (← k, a, b, c) refl
copied_parts (other n) q s x4 x6 m m' v4 v6 (inr (inr (e, a, b, c))) k = cc

-- An address that went through the switch, the bytes and the copy.
copied_addr :
    (a : Xaddr) (x4 x6 : Field) (m m' v4 : ℕ) (v6 : Quad)
    → IsFixed a x4 x6 m' v4 v6
    → IsKept a.af x4 x6 m m'
    → copy_addr
        (has_field m' x4)
        (has_field m' x6)
        (if has_field m' x4 then v4 else 0)
        (if has_field m' x6 then v6 else zero_quad)
        zero_xaddr
      ≡ kept_addr (has_field m x4) (has_field m x6) a
copied_addr a x4 x6 m m' v4 v6 = copied_parts a.af a.addr32 a.scope_id x4 x6 m m' v4 v6

-- The record that the copies of all fields make.
pub copied_stored :
    (f : FlowComplete) (v : Locals) (m : ℕ) (h : StoreFlow) (c : ℕ)
    → AllFixed f m v
    → AllKept f f.hdr.fields m
    → ((j : ℕ) → j < 3 → has_bit m j ≡ has_bit f.hdr.fields j)
    → ((j : ℕ) → 10 < j → has_bit m j ≡ has_bit f.hdr.fields j)
    → copy_addrs m (
        copy_all
          (record f { hdr = h; crc32 = c })
          v
          m
          all_fields
          (record zero_flow { hdr = h }, no_locals))
      ≡ stored f h (if has_field f.hdr.fields Field.crc32 then c else 0)
unfolding copy_addrs stored
copied_stored f v m h c x k low high = λ i. record {
  hdr = h;
  tag = if low (bit Field.tag) (omega arith) i then f.tag else 0;
  recv_time =
      if low (bit Field.recv_time) (omega arith) i then f.recv_time else zero_flow.recv_time;
  pft = if low (bit Field.proto_flags_tos) (omega arith) i then f.pft else zero_flow.pft;
  ports = if high (bit Field.srcdst_port) (omega arith) i then f.ports else zero_flow.ports;
  packets = if high (bit Field.packets) (omega arith) i then f.packets else 0;
  octets = if high (bit Field.octets) (omega arith) i then f.octets else 0;
  ifndx = if high (bit Field.if_indices) (omega arith) i then f.ifndx else zero_flow.ifndx;
  ainfo = if high (bit Field.agent_info) (omega arith) i then f.ainfo else zero_flow.ainfo;
  ftimes = if high (bit Field.flow_times) (omega arith) i then f.ftimes else zero_flow.ftimes;
  asinf = if high (bit Field.as_info) (omega arith) i then f.asinf else zero_flow.asinf;
  finf = if high (bit Field.flow_engine_info) (omega arith) i then f.finf else zero_flow.finf;
  agent_addr =
      copied_addr f.agent_addr Field.agent_addr4 Field.agent_addr6 f.hdr.fields m v.aa4 v.aa6
        x.agent k.agent i;
  src_addr =
      copied_addr f.src_addr Field.src_addr4 Field.src_addr6 f.hdr.fields m v.sa4 v.sa6 x.src k.src
        i;
  dst_addr =
      copied_addr f.dst_addr Field.dst_addr4 Field.dst_addr6 f.hdr.fields m v.da4 v.da6 x.dst k.dst
        i;
  gateway_addr =
      copied_addr f.gateway_addr Field.gateway_addr4 Field.gateway_addr6 f.hdr.fields m v.ga4 v.ga6
        x.gateway k.gateway i;
  crc32 = if high 30 (omega arith) i then c else 0;
}
