-- ===== src/Store/Swab.antt =====
-- flowd/store.c: a flow record from network to host byte order and back, on a little-endian machine.
--
-- Here a field is the number that its bytes make in memory. `ntohs`, `ntohl`, `htons` and `htonl` are
-- functions of the system and parameters; those on 64 bits are in Store/Endian. The last but one
-- line swaps `source_id`, of 32 bits, by a function on 16 bits, which cuts its argument.
use network_monitoring_emula.Common.{
  ℕ, ◌*◌, ◌/◌, ◌%◌, ◌^◌, ◌<◌, ◌≡◌, ap, ◌∙◌, Bool, true, false, if◌then◌else◌, arith,
}
use network_monitoring_emula.Store.{FlowComplete}
use network_monitoring_emula.Store.Codec.Copy.{IsFlow}
use network_monitoring_emula.Store.Endian.{
  in_network_order, store_ntohll, store_htonll, store_ntohll_lem, store_htonll_lem,
}

pub record Swaps : Type 0 where
  pub ntohs : ℕ → ℕ
  pub ntohl : ℕ → ℕ
  pub htons : ℕ → ℕ
  pub htonl : ℕ → ℕ

-- What the system documents: from the number that the bytes of `v` in network order make to `v`, and
-- back.
pub record IsSwaps (s : Swaps) : Type 0 where
  pub host16 : (v : ℕ) → v < 2 ^ 16 → s.ntohs (in_network_order 2 v) ≡ v
  pub host32 : (v : ℕ) → v < 2 ^ 32 → s.ntohl (in_network_order 4 v) ≡ v
  pub net16 : (v : ℕ) → v < 2 ^ 16 → s.htons v ≡ in_network_order 2 v
  pub net32 : (v : ℕ) → v < 2 ^ 32 → s.htonl v ≡ in_network_order 4 v

-- The numbers in the memory of a record whose numbers have been stored in network order.
abbrev pub network_flow : FlowComplete → FlowComplete
network_flow f = record f {
  hdr = record (f.hdr) { fields = in_network_order 4 f.hdr.fields };
  tag = in_network_order 4 f.tag;
  recv_time = record (f.recv_time) {
    recv_sec = in_network_order 4 f.recv_time.recv_sec;
    recv_usec = in_network_order 4 f.recv_time.recv_usec;
  };
  ports = record (f.ports) {
    src_port = in_network_order 2 f.ports.src_port;
    dst_port = in_network_order 2 f.ports.dst_port;
  };
  packets = in_network_order 8 f.packets;
  octets = in_network_order 8 f.octets;
  ifndx = record (f.ifndx) {
    if_index_in = in_network_order 4 f.ifndx.if_index_in;
    if_index_out = in_network_order 4 f.ifndx.if_index_out;
  };
  ainfo = record (f.ainfo) {
    sys_uptime_ms = in_network_order 4 f.ainfo.sys_uptime_ms;
    time_sec = in_network_order 4 f.ainfo.time_sec;
    time_nanosec = in_network_order 4 f.ainfo.time_nanosec;
    netflow_version = in_network_order 2 f.ainfo.netflow_version;
  };
  ftimes = record (f.ftimes) {
    flow_start = in_network_order 4 f.ftimes.flow_start;
    flow_finish = in_network_order 4 f.ftimes.flow_finish;
  };
  asinf = record (f.asinf) {
    src_as = in_network_order 4 f.asinf.src_as;
    dst_as = in_network_order 4 f.asinf.dst_as;
  };
  finf = record (f.finf) {
    engine_type = in_network_order 2 f.finf.engine_type;
    engine_id = in_network_order 2 f.finf.engine_id;
    flow_sequence = in_network_order 4 f.finf.flow_sequence;
    source_id = in_network_order 4 f.finf.source_id;
  };
  crc32 = in_network_order 4 f.crc32;
}

module _ (s : Swaps) where
  unfoldable pub store_swab_flow : FlowComplete → Bool → FlowComplete
  store_swab_flow f to_net =
      let sw16 : ℕ → ℕ = if to_net then s.htons else s.ntohs in
      let sw32 : ℕ → ℕ = if to_net then s.htonl else s.ntohl in
      let sw64 : ℕ → ℕ = if to_net then store_htonll else store_ntohll in
      record f {
        hdr = record (f.hdr) { fields = sw32 f.hdr.fields };
        tag = sw32 f.tag;
        recv_time = record (f.recv_time) {
          recv_sec = sw32 f.recv_time.recv_sec;
          recv_usec = sw32 f.recv_time.recv_usec;
        };
        ports = record (f.ports) {
          src_port = sw16 f.ports.src_port;
          dst_port = sw16 f.ports.dst_port;
        };
        packets = sw64 f.packets;
        octets = sw64 f.octets;
        ifndx = record (f.ifndx) {
          if_index_in = sw32 f.ifndx.if_index_in;
          if_index_out = sw32 f.ifndx.if_index_out;
        };
        ainfo = record (f.ainfo) {
          sys_uptime_ms = sw32 f.ainfo.sys_uptime_ms;
          time_sec = sw32 f.ainfo.time_sec;
          time_nanosec = sw32 f.ainfo.time_nanosec;
          netflow_version = sw16 f.ainfo.netflow_version;
        };
        ftimes = record (f.ftimes) {
          flow_start = sw32 f.ftimes.flow_start;
          flow_finish = sw32 f.ftimes.flow_finish;
        };
        asinf = record (f.asinf) { src_as = sw32 f.asinf.src_as; dst_as = sw32 f.asinf.dst_as };
        finf = record (f.finf) {
          engine_type = sw16 f.finf.engine_type;
          engine_id = sw16 f.finf.engine_id;
          flow_sequence = sw32 f.finf.flow_sequence;
          source_id = sw16 (f.finf.source_id % 2 ^ 16);
        };
        crc32 = sw32 f.crc32;
      }

  module _ (f : FlowComplete) (laws : IsSwaps s) (h : IsFlow f)
      (hdr_fits : f.hdr.fields < 2 ^ 32) where
    to_host :
        store_swab_flow (network_flow f) false
        ≡ record f { finf = record (f.finf) { source_id = f.finf.source_id / 2 ^ 16 } }
    unfolding store_swab_flow
    to_host = λ i. record f {
      hdr = record (f.hdr) { fields = laws.host32 f.hdr.fields hdr_fits i };
      tag = laws.host32 f.tag h.tag_fits i;
      recv_time = record (f.recv_time) {
        recv_sec = laws.host32 f.recv_time.recv_sec h.recv_time_recv_sec_fits i;
        recv_usec = laws.host32 f.recv_time.recv_usec h.recv_time_recv_usec_fits i;
      };
      ports = record (f.ports) {
        src_port = laws.host16 f.ports.src_port h.ports_src_port_fits i;
        dst_port = laws.host16 f.ports.dst_port h.ports_dst_port_fits i;
      };
      packets = store_ntohll_lem f.packets h.packets_fits i;
      octets = store_ntohll_lem f.octets h.octets_fits i;
      ifndx = record (f.ifndx) {
        if_index_in = laws.host32 f.ifndx.if_index_in h.ifndx_if_index_in_fits i;
        if_index_out = laws.host32 f.ifndx.if_index_out h.ifndx_if_index_out_fits i;
      };
      ainfo = record (f.ainfo) {
        sys_uptime_ms = laws.host32 f.ainfo.sys_uptime_ms h.ainfo_sys_uptime_ms_fits i;
        time_sec = laws.host32 f.ainfo.time_sec h.ainfo_time_sec_fits i;
        time_nanosec = laws.host32 f.ainfo.time_nanosec h.ainfo_time_nanosec_fits i;
        netflow_version = laws.host16 f.ainfo.netflow_version h.ainfo_netflow_version_fits i;
      };
      ftimes = record (f.ftimes) {
        flow_start = laws.host32 f.ftimes.flow_start h.ftimes_flow_start_fits i;
        flow_finish = laws.host32 f.ftimes.flow_finish h.ftimes_flow_finish_fits i;
      };
      asinf = record (f.asinf) {
        src_as = laws.host32 f.asinf.src_as h.asinf_src_as_fits i;
        dst_as = laws.host32 f.asinf.dst_as h.asinf_dst_as_fits i;
      };
      finf = record (f.finf) {
        engine_type = laws.host16 f.finf.engine_type h.finf_engine_type_fits i;
        engine_id = laws.host16 f.finf.engine_id h.finf_engine_id_fits i;
        flow_sequence = laws.host32 f.finf.flow_sequence h.finf_flow_sequence_fits i;
        source_id = source_id_host i;
      };
      crc32 = laws.host32 f.crc32 h.crc32_fits i;
    }
      where
        source_id_host :
            s.ntohs (in_network_order 4 f.finf.source_id % 2 ^ 16) ≡ f.finf.source_id / 2 ^ 16
        source_id_host =
            let fits = h.finf_source_id_fits in
            let same : in_network_order 4 f.finf.source_id % 2 ^ 16
                ≡ in_network_order 2 (f.finf.source_id / 2 ^ 16) =
              omega arith in
            ap s.ntohs same ∙ laws.host16 (f.finf.source_id / 2 ^ 16) (omega arith)

    to_network :
        store_swab_flow f true
        ≡ network_flow
            (record f { finf = record (f.finf) { source_id = f.finf.source_id % 2 ^ 16 * 2 ^ 16 } })
    unfolding store_swab_flow
    to_network = λ i. record f {
      hdr = record (f.hdr) { fields = laws.net32 f.hdr.fields hdr_fits i };
      tag = laws.net32 f.tag h.tag_fits i;
      recv_time = record (f.recv_time) {
        recv_sec = laws.net32 f.recv_time.recv_sec h.recv_time_recv_sec_fits i;
        recv_usec = laws.net32 f.recv_time.recv_usec h.recv_time_recv_usec_fits i;
      };
      ports = record (f.ports) {
        src_port = laws.net16 f.ports.src_port h.ports_src_port_fits i;
        dst_port = laws.net16 f.ports.dst_port h.ports_dst_port_fits i;
      };
      packets = store_htonll_lem f.packets h.packets_fits i;
      octets = store_htonll_lem f.octets h.octets_fits i;
      ifndx = record (f.ifndx) {
        if_index_in = laws.net32 f.ifndx.if_index_in h.ifndx_if_index_in_fits i;
        if_index_out = laws.net32 f.ifndx.if_index_out h.ifndx_if_index_out_fits i;
      };
      ainfo = record (f.ainfo) {
        sys_uptime_ms = laws.net32 f.ainfo.sys_uptime_ms h.ainfo_sys_uptime_ms_fits i;
        time_sec = laws.net32 f.ainfo.time_sec h.ainfo_time_sec_fits i;
        time_nanosec = laws.net32 f.ainfo.time_nanosec h.ainfo_time_nanosec_fits i;
        netflow_version = laws.net16 f.ainfo.netflow_version h.ainfo_netflow_version_fits i;
      };
      ftimes = record (f.ftimes) {
        flow_start = laws.net32 f.ftimes.flow_start h.ftimes_flow_start_fits i;
        flow_finish = laws.net32 f.ftimes.flow_finish h.ftimes_flow_finish_fits i;
      };
      asinf = record (f.asinf) {
        src_as = laws.net32 f.asinf.src_as h.asinf_src_as_fits i;
        dst_as = laws.net32 f.asinf.dst_as h.asinf_dst_as_fits i;
      };
      finf = record (f.finf) {
        engine_type = laws.net16 f.finf.engine_type h.finf_engine_type_fits i;
        engine_id = laws.net16 f.finf.engine_id h.finf_engine_id_fits i;
        flow_sequence = laws.net32 f.finf.flow_sequence h.finf_flow_sequence_fits i;
        source_id = source_id_net i;
      };
      crc32 = laws.net32 f.crc32 h.crc32_fits i;
    }
      where
        source_id_net :
            s.htons (f.finf.source_id % 2 ^ 16)
            ≡ in_network_order 4 (f.finf.source_id % 2 ^ 16 * 2 ^ 16)
        source_id_net =
            let same : in_network_order 2 (f.finf.source_id % 2 ^ 16)
                ≡ in_network_order 4 (f.finf.source_id % 2 ^ 16 * 2 ^ 16) =
              omega arith in
            laws.net16 (f.finf.source_id % 2 ^ 16) (omega arith) ∙ same

    -- On a little-endian machine, for a record whose numbers fit: a record of numbers in network
    -- order is swapped to the same numbers, but for the source id, of which the high 16 bits are
    -- left; and a record is swapped to its numbers in network order, but for the source id, whose
    -- low 16 bits come to stand in the high ones, above zeros.
    pub store_swab_flow_lem :
        (store_swab_flow (network_flow f) false
          ≡ record f { finf = record (f.finf) { source_id = f.finf.source_id / 2 ^ 16 } })
        × (store_swab_flow f true
            ≡ network_flow (record f {
              finf = record (f.finf) { source_id = f.finf.source_id % 2 ^ 16 * 2 ^ 16 };
            }))
    store_swab_flow_lem = (to_host, to_network)
