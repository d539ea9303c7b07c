-- ===== src/Store/Bytes.antt =====
-- The packed structs of flowd/store.h as bytes: what `memcpy` copies out of a flow record, and into it.
use network_monitoring_emula.Common.{
  ℕ, zero, suc, ◌+◌, ◌*◌, ◌/◌, ◌%◌, ◌^◌, List, [], ◌∷◌, ◌++◌, length, take, drop,
}
use network_monitoring_emula.Addr.{Quad}
use network_monitoring_emula.Store.{FlowComplete, StoreFlow}
use network_monitoring_emula.Store.Field

-- `n` bytes of a number, the highest first, and the number that bytes stand for.
abbrev pub be : ℕ → ℕ → List ℕ
be zero v = []
be (suc n) v = v / 256 ^ n % 256 ∷ be n v

abbrev pub from_be : List ℕ → ℕ
from_be [] = 0
from_be (x ∷ xs) = x * 256 ^ length xs + from_be xs

-- The number in the `n` bytes from `i` on.
abbrev pub number : ℕ → ℕ → List ℕ → ℕ
number i n bs = from_be (take n (drop i bs))

abbrev pub quad_bytes : Quad → List ℕ
quad_bytes q = be 4 q.w0 ++ (be 4 q.w1 ++ (be 4 q.w2 ++ be 4 q.w3))

abbrev pub quad_from : List ℕ → Quad
quad_from bs = record {
  w0 = number 0 4 bs;
  w1 = number 4 4 bs;
  w2 = number 8 4 bs;
  w3 = number 12 4 bs;
}

-- The local variables aa4, aa6, sa4, sa6, da4, da6 and ga4, ga6 (gwa4, gwa6 in the serialiser).
pub record Locals : Type 0 where
  pub aa4 : ℕ
  pub aa6 : Quad
  pub sa4 : ℕ
  pub sa6 : Quad
  pub da4 : ℕ
  pub da6 : Quad
  pub ga4 : ℕ
  pub ga6 : Quad

-- `struct store_flow`
unfoldable pub hdr_bytes : StoreFlow → List ℕ
hdr_bytes h = be 1 h.version ++ (be 1 h.len_words ++ (be 2 h.reserved ++ be 4 h.fields))

unfoldable pub hdr_from : List ℕ → StoreFlow
hdr_from bs = record {
  version = number 0 1 bs;
  len_words = number 1 1 bs;
  reserved = number 2 2 bs;
  fields = number 4 4 bs;
}

-- The bytes that WFIELD copies for a field.
unfoldable pub field_bytes : FlowComplete → Locals → Field.Field → List ℕ
field_bytes f v Field.tag = be 4 f.tag
field_bytes f v Field.recv_time = be 4 f.recv_time.recv_sec ++ be 4 f.recv_time.recv_usec
field_bytes f v Field.proto_flags_tos =
    be 1 f.pft.tcp_flags ++ (be 1 f.pft.protocol ++ (be 1 f.pft.tos ++ be 1 f.pft.pad))
field_bytes f v Field.agent_addr4 = be 4 v.aa4
field_bytes f v Field.agent_addr6 = quad_bytes v.aa6
field_bytes f v Field.src_addr4 = be 4 v.sa4
field_bytes f v Field.src_addr6 = quad_bytes v.sa6
field_bytes f v Field.dst_addr4 = be 4 v.da4
field_bytes f v Field.dst_addr6 = quad_bytes v.da6
field_bytes f v Field.gateway_addr4 = be 4 v.ga4
field_bytes f v Field.gateway_addr6 = quad_bytes v.ga6
field_bytes f v Field.srcdst_port = be 2 f.ports.src_port ++ be 2 f.ports.dst_port
field_bytes f v Field.packets = be 8 f.packets
field_bytes f v Field.octets = be 8 f.octets
field_bytes f v Field.if_indices = be 4 f.ifndx.if_index_in ++ be 4 f.ifndx.if_index_out
field_bytes f v Field.agent_info =
    be 4 f.ainfo.sys_uptime_ms
    ++ (be 4 f.ainfo.time_sec
        ++ (be 4 f.ainfo.time_nanosec ++ (be 2 f.ainfo.netflow_version ++ be 2 f.ainfo.pad)))
field_bytes f v Field.flow_times = be 4 f.ftimes.flow_start ++ be 4 f.ftimes.flow_finish
field_bytes f v Field.as_info =
    be 4 f.asinf.src_as
    ++ (be 4 f.asinf.dst_as
        ++ (be 1 f.asinf.src_mask ++ (be 1 f.asinf.dst_mask ++ be 2 f.asinf.pad)))
field_bytes f v Field.flow_engine_info =
    be 2 f.finf.engine_type
    ++ (be 2 f.finf.engine_id ++ (be 4 f.finf.flow_sequence ++ be 4 f.finf.source_id))
field_bytes f v Field.crc32 = be 4 f.crc32

-- What RFIELD does with the bytes of a field.
unfoldable pub put_field : Field.Field → List ℕ → FlowComplete × Locals → FlowComplete × Locals
put_field Field.tag bs (f, v) = (record f { tag = number 0 4 bs }, v)
put_field Field.recv_time bs (f, v) =
    (record f { recv_time = record { recv_sec = number 0 4 bs; recv_usec = number 4 4 bs } }, v)
put_field Field.proto_flags_tos bs (f, v) = (
  record f {
    pft = record {
      tcp_flags = number 0 1 bs;
      protocol = number 1 1 bs;
      tos = number 2 1 bs;
      pad = number 3 1 bs;
    };
  },
  v,
)
put_field Field.agent_addr4 bs (f, v) = (f, record v { aa4 = number 0 4 bs })
put_field Field.agent_addr6 bs (f, v) = (f, record v { aa6 = quad_from bs })
put_field Field.src_addr4 bs (f, v) = (f, record v { sa4 = number 0 4 bs })
put_field Field.src_addr6 bs (f, v) = (f, record v { sa6 = quad_from bs })
put_field Field.dst_addr4 bs (f, v) = (f, record v { da4 = number 0 4 bs })
put_field Field.dst_addr6 bs (f, v) = (f, record v { da6 = quad_from bs })
put_field Field.gateway_addr4 bs (f, v) = (f, record v { ga4 = number 0 4 bs })
put_field Field.gateway_addr6 bs (f, v) = (f, record v { ga6 = quad_from bs })
put_field Field.srcdst_port bs (f, v) =
    (record f { ports = record { src_port = number 0 2 bs; dst_port = number 2 2 bs } }, v)
put_field Field.packets bs (f, v) = (record f { packets = number 0 8 bs }, v)
put_field Field.octets bs (f, v) = (record f { octets = number 0 8 bs }, v)
put_field Field.if_indices bs (f, v) =
    (record f { ifndx = record { if_index_in = number 0 4 bs; if_index_out = number 4 4 bs } }, v)
put_field Field.agent_info bs (f, v) = (
  record f {
    ainfo = record {
      sys_uptime_ms = number 0 4 bs;
      time_sec = number 4 4 bs;
      time_nanosec = number 8 4 bs;
      netflow_version = number 12 2 bs;
      pad = number 14 2 bs;
    };
  },
  v,
)
put_field Field.flow_times bs (f, v) =
    (record f { ftimes = record { flow_start = number 0 4 bs; flow_finish = number 4 4 bs } }, v)
put_field Field.as_info bs (f, v) = (
  record f {
    asinf = record {
      src_as = number 0 4 bs;
      dst_as = number 4 4 bs;
      src_mask = number 8 1 bs;
      dst_mask = number 9 1 bs;
      pad = number 10 2 bs;
    };
  },
  v,
)
put_field Field.flow_engine_info bs (f, v) = (
  record f {
    finf = record {
      engine_type = number 0 2 bs;
      engine_id = number 2 2 bs;
      flow_sequence = number 4 4 bs;
      source_id = number 8 4 bs;
    };
  },
  v,
)
put_field Field.crc32 bs (f, v) = (record f { crc32 = number 0 4 bs }, v)
