-- ===== src/Store/Codec/Copy.antt =====
-- A field that is written and read back is copied.
use network_monitoring_emula.Common.{
  ℕ, ◌^◌, ◌<◌, ◌≡◌, refl, ◌∙◌, ap, Bool, true, false, List, [], ◌∷◌, if◌then◌else◌, arith,
}
use network_monitoring_emula.Addr.{Quad}
use network_monitoring_emula.Store.{FlowComplete}
use network_monitoring_emula.Store.Field.{Field, has_field}
use network_monitoring_emula.Store.Bytes.{Locals, be, from_be, field_bytes, put_field}
use network_monitoring_emula.Store.Codec.Chunks.{put_all}

-- Every field fits its type.
pub record IsFlow (f : FlowComplete) : Type 0 where
  pub tag_fits : f.tag < 2 ^ 32
  pub packets_fits : f.packets < 2 ^ 64
  pub octets_fits : f.octets < 2 ^ 64
  pub crc32_fits : f.crc32 < 2 ^ 32
  pub recv_time_recv_sec_fits : f.recv_time.recv_sec < 2 ^ 32
  pub recv_time_recv_usec_fits : f.recv_time.recv_usec < 2 ^ 32
  pub pft_tcp_flags_fits : f.pft.tcp_flags < 2 ^ 8
  pub pft_protocol_fits : f.pft.protocol < 2 ^ 8
  pub pft_tos_fits : f.pft.tos < 2 ^ 8
  pub pft_pad_fits : f.pft.pad < 2 ^ 8
  pub ports_src_port_fits : f.ports.src_port < 2 ^ 16
  pub ports_dst_port_fits : f.ports.dst_port < 2 ^ 16
  pub ifndx_if_index_in_fits : f.ifndx.if_index_in < 2 ^ 32
  pub ifndx_if_index_out_fits : f.ifndx.if_index_out < 2 ^ 32
  pub ainfo_sys_uptime_ms_fits : f.ainfo.sys_uptime_ms < 2 ^ 32
  pub ainfo_time_sec_fits : f.ainfo.time_sec < 2 ^ 32
  pub ainfo_time_nanosec_fits : f.ainfo.time_nanosec < 2 ^ 32
  pub ainfo_netflow_version_fits : f.ainfo.netflow_version < 2 ^ 16
  pub ainfo_pad_fits : f.ainfo.pad < 2 ^ 16
  pub ftimes_flow_start_fits : f.ftimes.flow_start < 2 ^ 32
  pub ftimes_flow_finish_fits : f.ftimes.flow_finish < 2 ^ 32
  pub asinf_src_as_fits : f.asinf.src_as < 2 ^ 32
  pub asinf_dst_as_fits : f.asinf.dst_as < 2 ^ 32
  pub asinf_src_mask_fits : f.asinf.src_mask < 2 ^ 8
  pub asinf_dst_mask_fits : f.asinf.dst_mask < 2 ^ 8
  pub asinf_pad_fits : f.asinf.pad < 2 ^ 16
  pub finf_engine_type_fits : f.finf.engine_type < 2 ^ 16
  pub finf_engine_id_fits : f.finf.engine_id < 2 ^ 16
  pub finf_flow_sequence_fits : f.finf.flow_sequence < 2 ^ 32
  pub finf_source_id_fits : f.finf.source_id < 2 ^ 32

abbrev pub IsQuad : Quad → Type 0
IsQuad q = (q.w0 < 2 ^ 32) × (q.w1 < 2 ^ 32) × (q.w2 < 2 ^ 32) × (q.w3 < 2 ^ 32)

pub record IsLocals (v : Locals) : Type 0 where
  pub aa4_fits : v.aa4 < 2 ^ 32
  pub aa6_fits : IsQuad v.aa6
  pub sa4_fits : v.sa4 < 2 ^ 32
  pub sa6_fits : IsQuad v.sa6
  pub da4_fits : v.da4 < 2 ^ 32
  pub da6_fits : IsQuad v.da6
  pub ga4_fits : v.ga4 < 2 ^ 32
  pub ga6_fits : IsQuad v.ga6

-- The bytes of a number give it back.
pub from_be1 : (n : ℕ) → n < 2 ^ 8 → from_be (be 1 n) ≡ n
from_be1 n h = omega arith

pub from_be2 : (n : ℕ) → n < 2 ^ 16 → from_be (be 2 n) ≡ n
from_be2 n h = omega arith

pub from_be4 : (n : ℕ) → n < 2 ^ 32 → from_be (be 4 n) ≡ n
from_be4 n h = omega arith

from_be8 : (n : ℕ) → n < 2 ^ 64 → from_be (be 8 n) ≡ n
from_be8 n h = omega arith

module _ (f : FlowComplete) (v : Locals) where
  -- One field of the record or one local, taken over under a condition.
  abbrev pub copy_if : Bool → Field → FlowComplete × Locals → FlowComplete × Locals
  copy_if b Field.tag (g, u) = (record g { tag = if b then f.tag else g.tag }, u)
  copy_if b Field.recv_time (g, u) =
      (record g { recv_time = if b then f.recv_time else g.recv_time }, u)
  copy_if b Field.proto_flags_tos (g, u) = (record g { pft = if b then f.pft else g.pft }, u)
  copy_if b Field.agent_addr4 (g, u) = (g, record u { aa4 = if b then v.aa4 else u.aa4 })
  copy_if b Field.agent_addr6 (g, u) = (g, record u { aa6 = if b then v.aa6 else u.aa6 })
  copy_if b Field.src_addr4 (g, u) = (g, record u { sa4 = if b then v.sa4 else u.sa4 })
  copy_if b Field.src_addr6 (g, u) = (g, record u { sa6 = if b then v.sa6 else u.sa6 })
  copy_if b Field.dst_addr4 (g, u) = (g, record u { da4 = if b then v.da4 else u.da4 })
  copy_if b Field.dst_addr6 (g, u) = (g, record u { da6 = if b then v.da6 else u.da6 })
  copy_if b Field.gateway_addr4 (g, u) = (g, record u { ga4 = if b then v.ga4 else u.ga4 })
  copy_if b Field.gateway_addr6 (g, u) = (g, record u { ga6 = if b then v.ga6 else u.ga6 })
  copy_if b Field.srcdst_port (g, u) = (record g { ports = if b then f.ports else g.ports }, u)
  copy_if b Field.packets (g, u) = (record g { packets = if b then f.packets else g.packets }, u)
  copy_if b Field.octets (g, u) = (record g { octets = if b then f.octets else g.octets }, u)
  copy_if b Field.if_indices (g, u) = (record g { ifndx = if b then f.ifndx else g.ifndx }, u)
  copy_if b Field.agent_info (g, u) = (record g { ainfo = if b then f.ainfo else g.ainfo }, u)
  copy_if b Field.flow_times (g, u) = (record g { ftimes = if b then f.ftimes else g.ftimes }, u)
  copy_if b Field.as_info (g, u) = (record g { asinf = if b then f.asinf else g.asinf }, u)
  copy_if b Field.flow_engine_info (g, u) = (record g { finf = if b then f.finf else g.finf }, u)
  copy_if b Field.crc32 (g, u) = (record g { crc32 = if b then f.crc32 else g.crc32 }, u)

  copied :
      (x : Field) (w : FlowComplete × Locals)
      → IsFlow f
      → IsLocals v
      → put_field x (field_bytes f v x) w ≡ copy_if true x w
  unfolding put_field field_bytes
  copied Field.tag (g, u) h k = λ i. (record g { tag = from_be4 f.tag h.tag_fits i }, u)
  copied Field.recv_time (g, u) h k = λ i. (
    record g {
      recv_time = record {
        recv_sec = from_be4 f.recv_time.recv_sec h.recv_time_recv_sec_fits i;
        recv_usec = from_be4 f.recv_time.recv_usec h.recv_time_recv_usec_fits i;
      };
    },
    u,
  )
  copied Field.proto_flags_tos (g, u) h k = λ i. (
    record g {
      pft = record {
        tcp_flags = from_be1 f.pft.tcp_flags h.pft_tcp_flags_fits i;
        protocol = from_be1 f.pft.protocol h.pft_protocol_fits i;
        tos = from_be1 f.pft.tos h.pft_tos_fits i;
        pad = from_be1 f.pft.pad h.pft_pad_fits i;
      };
    },
    u,
  )
  copied Field.agent_addr4 (g, u) h k = λ i. (g, record u { aa4 = from_be4 v.aa4 k.aa4_fits i })
  copied Field.agent_addr6 (g, u) h k = λ i. (
    g,
    record u {
      aa6 = record {
        w0 = from_be4 v.aa6.w0 k.aa6_fits.0 i;
        w1 = from_be4 v.aa6.w1 k.aa6_fits.1 i;
        w2 = from_be4 v.aa6.w2 k.aa6_fits.2 i;
        w3 = from_be4 v.aa6.w3 k.aa6_fits.3 i;
      };
    },
  )
  copied Field.src_addr4 (g, u) h k = λ i. (g, record u { sa4 = from_be4 v.sa4 k.sa4_fits i })
  copied Field.src_addr6 (g, u) h k = λ i. (
    g,
    record u {
      sa6 = record {
        w0 = from_be4 v.sa6.w0 k.sa6_fits.0 i;
        w1 = from_be4 v.sa6.w1 k.sa6_fits.1 i;
        w2 = from_be4 v.sa6.w2 k.sa6_fits.2 i;
        w3 = from_be4 v.sa6.w3 k.sa6_fits.3 i;
      };
    },
  )
  copied Field.dst_addr4 (g, u) h k = λ i. (g, record u { da4 = from_be4 v.da4 k.da4_fits i })
  copied Field.dst_addr6 (g, u) h k = λ i. (
    g,
    record u {
      da6 = record {
        w0 = from_be4 v.da6.w0 k.da6_fits.0 i;
        w1 = from_be4 v.da6.w1 k.da6_fits.1 i;
        w2 = from_be4 v.da6.w2 k.da6_fits.2 i;
        w3 = from_be4 v.da6.w3 k.da6_fits.3 i;
      };
    },
  )
  copied Field.gateway_addr4 (g, u) h k = λ i. (g, record u { ga4 = from_be4 v.ga4 k.ga4_fits i })
  copied Field.gateway_addr6 (g, u) h k = λ i. (
    g,
    record u {
      ga6 = record {
        w0 = from_be4 v.ga6.w0 k.ga6_fits.0 i;
        w1 = from_be4 v.ga6.w1 k.ga6_fits.1 i;
        w2 = from_be4 v.ga6.w2 k.ga6_fits.2 i;
        w3 = from_be4 v.ga6.w3 k.ga6_fits.3 i;
      };
    },
  )
  copied Field.srcdst_port (g, u) h k = λ i. (
    record g {
      ports = record {
        src_port = from_be2 f.ports.src_port h.ports_src_port_fits i;
        dst_port = from_be2 f.ports.dst_port h.ports_dst_port_fits i;
      };
    },
    u,
  )
  copied Field.packets (g, u) h k =
      λ i. (record g { packets = from_be8 f.packets h.packets_fits i }, u)
  copied Field.octets (g, u) h k = λ i. (record g { octets = from_be8 f.octets h.octets_fits i }, u)
  copied Field.if_indices (g, u) h k = λ i. (
    record g {
      ifndx = record {
        if_index_in = from_be4 f.ifndx.if_index_in h.ifndx_if_index_in_fits i;
        if_index_out = from_be4 f.ifndx.if_index_out h.ifndx_if_index_out_fits i;
      };
    },
    u,
  )
  copied Field.agent_info (g, u) h k = λ i. (
    record g {
      ainfo = record {
        sys_uptime_ms = from_be4 f.ainfo.sys_uptime_ms h.ainfo_sys_uptime_ms_fits i;
        time_sec = from_be4 f.ainfo.time_sec h.ainfo_time_sec_fits i;
        time_nanosec = from_be4 f.ainfo.time_nanosec h.ainfo_time_nanosec_fits i;
        netflow_version = from_be2 f.ainfo.netflow_version h.ainfo_netflow_version_fits i;
        pad = from_be2 f.ainfo.pad h.ainfo_pad_fits i;
      };
    },
    u,
  )
  copied Field.flow_times (g, u) h k = λ i. (
    record g {
      ftimes = record {
        flow_start = from_be4 f.ftimes.flow_start h.ftimes_flow_start_fits i;
        flow_finish = from_be4 f.ftimes.flow_finish h.ftimes_flow_finish_fits i;
      };
    },
    u,
  )
  copied Field.as_info (g, u) h k = λ i. (
    record g {
      asinf = record {
        src_as = from_be4 f.asinf.src_as h.asinf_src_as_fits i;
        dst_as = from_be4 f.asinf.dst_as h.asinf_dst_as_fits i;
        src_mask = from_be1 f.asinf.src_mask h.asinf_src_mask_fits i;
        dst_mask = from_be1 f.asinf.dst_mask h.asinf_dst_mask_fits i;
        pad = from_be2 f.asinf.pad h.asinf_pad_fits i;
      };
    },
    u,
  )
  copied Field.flow_engine_info (g, u) h k = λ i. (
    record g {
      finf = record {
        engine_type = from_be2 f.finf.engine_type h.finf_engine_type_fits i;
        engine_id = from_be2 f.finf.engine_id h.finf_engine_id_fits i;
        flow_sequence = from_be4 f.finf.flow_sequence h.finf_flow_sequence_fits i;
        source_id = from_be4 f.finf.source_id h.finf_source_id_fits i;
      };
    },
    u,
  )
  copied Field.crc32 (g, u) h k = λ i. (record g { crc32 = from_be4 f.crc32 h.crc32_fits i }, u)

  not_copied : (x : Field) (w : FlowComplete × Locals) → w ≡ copy_if false x w
  not_copied Field.tag (g, u) = refl
  not_copied Field.recv_time (g, u) = refl
  not_copied Field.proto_flags_tos (g, u) = refl
  not_copied Field.agent_addr4 (g, u) = refl
  not_copied Field.agent_addr6 (g, u) = refl
  not_copied Field.src_addr4 (g, u) = refl
  not_copied Field.src_addr6 (g, u) = refl
  not_copied Field.dst_addr4 (g, u) = refl
  not_copied Field.dst_addr6 (g, u) = refl
  not_copied Field.gateway_addr4 (g, u) = refl
  not_copied Field.gateway_addr6 (g, u) = refl
  not_copied Field.srcdst_port (g, u) = refl
  not_copied Field.packets (g, u) = refl
  not_copied Field.octets (g, u) = refl
  not_copied Field.if_indices (g, u) = refl
  not_copied Field.agent_info (g, u) = refl
  not_copied Field.flow_times (g, u) = refl
  not_copied Field.as_info (g, u) = refl
  not_copied Field.flow_engine_info (g, u) = refl
  not_copied Field.crc32 (g, u) = refl

  abbrev pub copy_all : ℕ → List Field → FlowComplete × Locals → FlowComplete × Locals
  copy_all fields [] w = w
  copy_all fields (x ∷ xs) w = copy_all fields xs (copy_if (has_field fields x) x w)

  copy_step :
      (b : Bool) (x : Field) (w : FlowComplete × Locals)
      → IsFlow f
      → IsLocals v
      → (if b then put_field x (field_bytes f v x) w else w) ≡ copy_if b x w
  copy_step true x w h k = copied x w h k
  copy_step false x w h k = not_copied x w

  pub put_all-copy :
      (fields : ℕ) (xs : List Field) (w : FlowComplete × Locals)
      → IsFlow f
      → IsLocals v
      → put_all fields f v xs w ≡ copy_all fields xs w
  put_all-copy fields [] w h k = refl
  put_all-copy fields (x ∷ xs) w h k =
      ap (put_all fields f v xs) (copy_step (has_field fields x) x w h k)
      ∙ put_all-copy fields xs (copy_if (has_field fields x) x w) h k
