-- ===== src/Tests.antt =====
-- Concrete addresses, rules and buffers, and the theorems at them.
mod Store
mod Peers
mod Collector
mod Input
use network_monitoring_emula.Common.{
  ℕ, ◌-◌, ◌%◌, ◌^◌, ◌<◌, ◌≡◌, refl, ◌⊎◌, ◌↔◌, true, false, Option, none, some, List, [], ◌∷◌, ◌++◌,
  arith,
}
use network_monitoring_emula.Common.Int.{pos, negsuc}
use network_monitoring_emula.Addr.{
  Xaddr, inet, inet6, zero_quad, addr_cmp, addr_netmatch, addr_netmask, addr_hostmask,
  masklen_valid, addr_host_is_all0s, addr_host_is_all1s, addr_host_to_all0s, addr_host_to_all1s,
}
use network_monitoring_emula.Addr.Value.{width, value_of, scope_of, key}
use network_monitoring_emula.Addr.Compare.{Compares, addr_cmp-Compares}
use network_monitoring_emula.Addr.Network.{mask_addr, addr_netmask_lem}
use network_monitoring_emula.Addr.Match.{netmatch_iff, host_to_all0s-netmatch}
use network_monitoring_emula.Addr.Socket.{
  SockAddr, addr_xaddr_to_sa, addr_sa_to_xaddr, room, used_parts, sa_round_trip,
}
use network_monitoring_emula.Addr.HostPart.{
  host_is_all0s_iff, masklen_lem, IsFit, AreGiven, AreRefused, IsMisfit,
}
use network_monitoring_emula.Store.{FlowComplete, zero_flow}
use network_monitoring_emula.Filter.{
  tag, discard, FilterRule, FilterMatch, Criterion, Tm, flow_match, filter_flow,
}
use network_monitoring_emula.Filter.Criteria.{IsMet, flow_match_iff}
use network_monitoring_emula.Filter.Winner.{Decides, Outcome, chosen, filter_flow-Decides}
use network_monitoring_emula.Filter.Counters.{AllCounted, filter_flow-AllCounted}
use network_monitoring_emula.Store.Crc32.{flowd_crc32_update}
use network_monitoring_emula.Store.Crc32.Reference.{bitwise_crc, crc32_update-bitwise}

-- 192.168.1.77, its network 192.168.1.0/24, and an IPv6 address with a scope.
abbrev host : Xaddr
host = record { af = inet; addr32 = record zero_quad { w0 = 0xc0a8014d }; scope_id = 0 }

abbrev net : Xaddr
net = record { af = inet; addr32 = record zero_quad { w0 = 0xc0a80100 }; scope_id = 0 }

abbrev link_local : Xaddr
link_local = record {
  af = inet6;
  addr32 = record { w0 = 0xfe800000; w1 = 0; w2 = 0x02a1b2ff; w3 = 0xfe112233 };
  scope_id = 3;
}

netmatch_example : (addr_netmatch host net 24 ≡ pos 0) ↔ (
    (value_of host - value_of host % 2 ^ (width host.af - 24) ≡ value_of net)
    × (scope_of host.af host.scope_id ≡ scope_of host.af net.scope_id))
netmatch_example =
    netmatch_iff host net 24 tt refl (omega arith)
      (omega arith, omega arith, omega arith, omega arith, omega arith)
      (omega arith, omega arith, omega arith, omega arith, omega arith)

host_to_all0s_example :
    (n : Xaddr) × (addr_host_to_all0s link_local 70 ≡ some n)
    × (value_of n ≡ value_of link_local - value_of link_local % 2 ^ (width link_local.af - 70))
    × (n.scope_id ≡ link_local.scope_id)
    × (addr_netmatch link_local n 70 ≡ pos 0)
host_to_all0s_example =
    host_to_all0s-netmatch link_local 70 tt (omega arith)
      (omega arith, omega arith, omega arith, omega arith, omega arith)

host_is_all0s_example :
    (addr_host_is_all0s net 24 ≡ true) ↔ (value_of net % 2 ^ (width net.af - 24) ≡ 0)
host_is_all0s_example =
    host_is_all0s_iff net 24 tt (omega arith)
      (omega arith, omega arith, omega arith, omega arith, omega arith)

masklen_example :
    (IsFit host.af 33 × AreGiven host 33) ⊎ (IsMisfit host.af 33 × AreRefused host net 33)
masklen_example = masklen_lem host net 33

sa_example :
    (sa : SockAddr) × (addr_xaddr_to_sa 16 28 link_local 128 53
      ≡ some (sa, room 16 28 link_local.af))
    × (addr_sa_to_xaddr 16 28 sa (room 16 28 link_local.af) ≡ some (used_parts 16 28 link_local))
sa_example = sa_round_trip 16 28 link_local 128 53 tt (omega arith)

addr_cmp_example : Compares (addr_cmp host link_local) (key host) (key link_local)
addr_cmp_example =
    addr_cmp-Compares host link_local tt tt
      (omega arith, omega arith, omega arith, omega arith, omega arith)
      (omega arith, omega arith, omega arith, omega arith, omega arith)

-- A flow from 192.168.1.77, and two rules: tag the flows of the network, quickly discard the rest.
abbrev clock : ℕ → Tm
clock t = record { tm_sec = t % 60; tm_min = 0; tm_hour = 0; tm_wday = 0 }

abbrev flow : FlowComplete
flow = record zero_flow { src_addr = host; dst_addr = link_local }

abbrev no_criteria : FilterMatch
no_criteria = record {
  match_what = 0;
  match_negate = 0;
  agent_masklen = 0;
  agent_addr = net;
  af = inet;
  src_masklen = 0;
  src_addr = net;
  dst_masklen = 0;
  dst_addr = net;
  ifndx_in = 0;
  ifndx_out = 0;
  src_port = 0;
  dst_port = 0;
  proto = 0;
  tos = 0;
  tcp_flags_mask = 0;
  tcp_flags_equals = 0;
  day_mask = 0;
  dayafter = negsuc 0;
  daybefore = negsuc 0;
  absafter = pos 0;
  absbefore = pos 0;
}

abbrev tag_net : FilterRule
tag_net = record {
  action = record { action_what = tag; tag_value = 7 };
  quick = false;
  criteria = record no_criteria { match_what = 1; src_masklen = 24 };
  evaluations = 5;
  matches = 3;
  wins = 2;
}

abbrev discard_rest : FilterRule
discard_rest = record {
  action = record { action_what = discard; tag_value = 0 };
  quick = true;
  criteria = record no_criteria { match_what = 1; match_negate = 1; src_masklen = 24 };
  evaluations = 5;
  matches = 2;
  wins = 2;
}

abbrev rules : List FilterRule
rules = tag_net ∷ discard_rest ∷ []

flow_match_example :
    (flow_match clock tag_net flow ≡ true) ↔ ((c : Criterion) → IsMet clock tag_net flow c)
flow_match_example = flow_match_iff clock tag_net flow

filter_flow_example :
    (d : Option ℕ) × Decides clock flow rules d
    × (let f = filter_flow clock flow rules in
        Outcome clock flow (chosen clock flow rules d) f.flow f.action)
filter_flow_example = filter_flow-Decides clock flow rules

counters_example : AllCounted (filter_flow clock flow rules).rules
counters_example =
    filter_flow-AllCounted clock flow rules
      ((omega arith, omega arith), ((omega arith, omega arith), tt))
      (omega arith, (omega arith, tt))

-- The four bytes "flow".
abbrev message : List ℕ
message = 0x66 ∷ 0x6c ∷ 0x6f ∷ 0x77 ∷ []

bitwise_example : flowd_crc32_update message 0 ≡ bitwise_crc message 0
bitwise_example =
    crc32_update-bitwise message 0 (omega arith, (omega arith, (omega arith, (omega arith, tt))))
