-- ===== src/Store/Field.antt =====
-- The STORE_FIELD_ flags of flowd/store.h.
use network_monitoring_emula.Common.{ℕ, Bool, List, [], ◌∷◌}
use network_monitoring_emula.Store.{has_bit}

pub data Field : Type 0 where
  tag recv_time proto_flags_tos agent_addr4 agent_addr6 src_addr4 src_addr6 dst_addr4 : Field
  dst_addr6 gateway_addr4 gateway_addr6 srcdst_port packets octets if_indices : Field
  agent_info flow_times as_info flow_engine_info crc32 : Field

-- The position of the flag's bit.
abbrev pub bit : Field → ℕ
bit tag = 0
bit recv_time = 1
bit proto_flags_tos = 2
bit agent_addr4 = 3
bit agent_addr6 = 4
bit src_addr4 = 5
bit src_addr6 = 6
bit dst_addr4 = 7
bit dst_addr6 = 8
bit gateway_addr4 = 9
bit gateway_addr6 = 10
bit srcdst_port = 11
bit packets = 12
bit octets = 13
bit if_indices = 14
bit agent_info = 15
bit flow_times = 16
bit as_info = 17
bit flow_engine_info = 18
bit crc32 = 30

-- The size of the packed struct.
abbrev pub size : Field → ℕ
size tag = 4
size recv_time = 8
size proto_flags_tos = 4
size agent_addr4 = 4
size agent_addr6 = 16
size src_addr4 = 4
size src_addr6 = 16
size dst_addr4 = 4
size dst_addr6 = 16
size gateway_addr4 = 4
size gateway_addr6 = 16
size srcdst_port = 4
size packets = 8
size octets = 8
size if_indices = 8
size agent_info = 16
size flow_times = 8
size as_info = 12
size flow_engine_info = 12
size crc32 = 4

-- The order of the fields on disk, the checksum aside.
abbrev pub body_fields : List Field
body_fields =
    tag ∷ recv_time ∷ proto_flags_tos ∷ agent_addr4 ∷ agent_addr6 ∷ src_addr4 ∷ src_addr6
    ∷ dst_addr4 ∷ dst_addr6 ∷ gateway_addr4 ∷ gateway_addr6 ∷ srcdst_port ∷ packets ∷ octets
    ∷ if_indices ∷ agent_info ∷ flow_times ∷ as_info ∷ flow_engine_info ∷ []

-- SHASFIELD
abbrev pub has_field : ℕ → Field → Bool
has_field fields f = has_bit fields (bit f)
