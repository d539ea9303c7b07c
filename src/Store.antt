-- ===== src/Store.antt =====
-- flowd/store.h: the flow record and the flags that say which of its fields a stored flow has.
--
-- A multi-byte field that the code keeps in network byte order is modelled by the number that
-- `ntohl`, `ntohs` or `store_ntohll` reads from it; what `memcpy` puts into a buffer are its digits
-- to base 256, the highest first.
pub mod Field
pub mod Bytes
pub mod Crc32
pub mod Codec
pub mod Endian
pub mod Swab
use network_monitoring_emula.Common.{ℕ}
pub use network_monitoring_emula.Common.Flags.{has_bit, with_bit, without_bit}
use network_monitoring_emula.Addr.{Xaddr, other, zero_quad}

pub record StoreFlow : Type 0 where
  pub version : ℕ
  pub len_words : ℕ
  pub reserved : ℕ
  pub fields : ℕ

pub record RecvTime : Type 0 where
  pub recv_sec : ℕ
  pub recv_usec : ℕ

pub record ProtoFlagsTos : Type 0 where
  pub tcp_flags : ℕ
  pub protocol : ℕ
  pub tos : ℕ
  pub pad : ℕ

pub record SrcdstPort : Type 0 where
  pub src_port : ℕ
  pub dst_port : ℕ

pub record IfIndices : Type 0 where
  pub if_index_in : ℕ
  pub if_index_out : ℕ

pub record AgentInfo : Type 0 where
  pub sys_uptime_ms : ℕ
  pub time_sec : ℕ
  pub time_nanosec : ℕ
  pub netflow_version : ℕ
  pub pad : ℕ

pub record FlowTimes : Type 0 where
  pub flow_start : ℕ
  pub flow_finish : ℕ

pub record AsInfo : Type 0 where
  pub src_as : ℕ
  pub dst_as : ℕ
  pub src_mask : ℕ
  pub dst_mask : ℕ
  pub pad : ℕ

pub record FlowEngineInfo : Type 0 where
  pub engine_type : ℕ
  pub engine_id : ℕ
  pub flow_sequence : ℕ
  pub source_id : ℕ

-- `struct store_flow_complete`; a struct of one number is that number.
pub record FlowComplete : Type 0 where
  pub hdr : StoreFlow
  pub tag : ℕ
  pub recv_time : RecvTime
  pub pft : ProtoFlagsTos
  pub agent_addr : Xaddr
  pub src_addr : Xaddr
  pub dst_addr : Xaddr
  pub gateway_addr : Xaddr
  pub ports : SrcdstPort
  pub packets : ℕ
  pub octets : ℕ
  pub ifndx : IfIndices
  pub ainfo : AgentInfo
  pub ftimes : FlowTimes
  pub asinf : AsInfo
  pub finf : FlowEngineInfo
  pub crc32 : ℕ

-- A struct xaddr after `bzero`: AF_UNSPEC is 0.
abbrev pub zero_xaddr : Xaddr
zero_xaddr = record { af = other 0; addr32 = zero_quad; scope_id = 0 }

-- A flow record after `bzero`.
abbrev pub zero_flow : FlowComplete
zero_flow = record {
  hdr = record { version = 0; len_words = 0; reserved = 0; fields = 0 };
  tag = 0;
  recv_time = record { recv_sec = 0; recv_usec = 0 };
  pft = record { tcp_flags = 0; protocol = 0; tos = 0; pad = 0 };
  agent_addr = zero_xaddr;
  src_addr = zero_xaddr;
  dst_addr = zero_xaddr;
  gateway_addr = zero_xaddr;
  ports = record { src_port = 0; dst_port = 0 };
  packets = 0;
  octets = 0;
  ifndx = record { if_index_in = 0; if_index_out = 0 };
  ainfo = record {
    sys_uptime_ms = 0;
    time_sec = 0;
    time_nanosec = 0;
    netflow_version = 0;
    pad = 0;
  };
  ftimes = record { flow_start = 0; flow_finish = 0 };
  asinf = record { src_as = 0; dst_as = 0; src_mask = 0; dst_mask = 0; pad = 0 };
  finf = record { engine_type = 0; engine_id = 0; flow_sequence = 0; source_id = 0 };
  crc32 = 0;
}
