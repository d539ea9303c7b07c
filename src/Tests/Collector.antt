-- ===== src/Tests/Collector.antt =====
-- Packets and a queue of output, and the theorems on the collector at them.
use network_monitoring_emula.Common.{
  ℕ, ◌+◌, ◌*◌, ◌≤◌, ◌<◌, ◌≡◌, ◌≢◌, ◌⊎◌, inl, refl, Bool, true, false, some, List, [], ◌∷◌, ◌++◌,
  length, take, replicate, map, arith,
}
use network_monitoring_emula.Addr.{Xaddr}
use network_monitoring_emula.Store.{FlowComplete}
use network_monitoring_emula.Store.Bytes.{number}
use network_monitoring_emula.Peer.{
  Nf9Record, Template, Nf9State, find_template, new_template, write_template,
}
use network_monitoring_emula.Peer.Table.{Timeval}
use network_monitoring_emula.Collector.Output.{Logged, put_flow, put}
use network_monitoring_emula.Collector.Enqueue.{IsQueue, put_flow_lem}
use network_monitoring_emula.Collector.Template.{
  read16, process_template, accepted, store_template, template_loop, template_round, store_records,
  read_records, nf9_check_rec_len, nf9_field,
}
use network_monitoring_emula.Collector.Record.{nf9_rec_to_flow, copy_field}
use network_monitoring_emula.Collector.Checked.{IsKnown}
use network_monitoring_emula.Collector.Flowset.{EndsWell, process_template-EndsWell}
use network_monitoring_emula.Collector.Nf9.{
  nf9_header, process_data, Progress, flowset_loop, process_netflow_v9, endless, DataEnd, Nf9End,
  finished, flowset_step, with_template, copy_all, copy_flows, copy_records,
}
use network_monitoring_emula.Collector.Safe.{IsSafeData, process_data-IsSafeData}
use network_monitoring_emula.Collector.Arrives.{Stalls, IsSafeEnd}
use network_monitoring_emula.Collector.Packet.{flowset_loop-endless, process_netflow_v9-IsSafeEnd}
use network_monitoring_emula.Collector.Stored.{
  find_template-store_template, no_records-division_by_zero,
}
use network_monitoring_emula.Collector.Fixed.{
  nf5_flow, process_fixed, valid, invalid, FlowPacket, process_packet,
}
use network_monitoring_emula.Collector.Ordered.{IsCollector}
use network_monitoring_emula.Collector.Dispatch.{
  AreFlows, process_fixed_lem, IsOutcome, process_packet-IsOutcome,
}
use network_monitoring_emula.Tests.Peers.{
  default_limits, default-IsLimits, no_templates, no_templates-IsTracked, exporter, clock, listed,
  one_peer, one_peer-IsTable, exporter-IsAddress,
}

-- An empty queue, with `realloc` always at its best.
abbrev always : ℕ → Bool
always n = true

abbrev nothing_queued : Logged
nothing_queued = record {
  log = [];
  queue = record { allocated = false; alloc = 0; offset = 0; bytes = [] };
}

put_flow_example :
    (after : Logged) × (put_flow always nothing_queued (1 ∷ 2 ∷ 3 ∷ []) ≡ put after)
    × IsQueue after.queue
    × (after.log ++ take after.queue.offset after.queue.bytes
        ≡ (nothing_queued.log ++ take nothing_queued.queue.offset nothing_queued.queue.bytes)
          ++ (1 ∷ 2 ∷ 3 ∷ []))
put_flow_example =
    put_flow_lem always (λ n. refl) nothing_queued (1 ∷ 2 ∷ 3 ∷ [])
      (record { sized = inl (refl, refl, refl); holds = omega arith; stored = omega arith })
      (omega arith)

no_templates-IsKnown : IsKnown default_limits no_templates
no_templates-IsKnown = record { tracked = no_templates-IsTracked; filled = tt }

-- The header of a v.9 packet of the source 7.
abbrev header : List ℕ
header = 0 ∷ 9 ∷ 0 ∷ 1 ∷ 0 ∷ 0 ∷ 0 ∷ 1 ∷ 0 ∷ 0 ∷ 0 ∷ 2 ∷ 0 ∷ 0 ∷ 0 ∷ 3 ∷ 0 ∷ 0 ∷ 0 ∷ 7 ∷ []

-- A template flowset: 256 is bytes in four bytes.
abbrev template_flowset : List ℕ
template_flowset = 0 ∷ 0 ∷ 0 ∷ 12 ∷ 1 ∷ 0 ∷ 0 ∷ 1 ∷ 0 ∷ 1 ∷ 0 ∷ 4 ∷ []

-- A data flowset of the template 256, with two flows.
abbrev data_flowset : List ℕ
data_flowset = 1 ∷ 0 ∷ 0 ∷ 12 ∷ 0 ∷ 0 ∷ 3 ∷ 9 ∷ 0 ∷ 0 ∷ 0 ∷ 5 ∷ []

-- A template flowset whose template has no records, and an options flowset of no length.
abbrev empty_template : List ℕ
empty_template = 0 ∷ 0 ∷ 0 ∷ 8 ∷ 1 ∷ 0 ∷ 0 ∷ 0 ∷ []

abbrev stalling : List ℕ
stalling = 0 ∷ 1 ∷ 0 ∷ 0 ∷ []

template_example :
    EndsWell default_limits
      (header ++ template_flowset)
      32
      (process_template (header ++ template_flowset) 20 12 no_templates default_limits 7)
unfolding read16
template_example =
    process_template-EndsWell default_limits default-IsLimits (omega arith)
      (header ++ template_flowset) 20 12 7 no_templates no_templates-IsKnown (λ id e. ground arith)

data_example :
    IsSafeData default_limits
      (find_template no_templates 7 256)
      (process_data (header ++ data_flowset) clock exporter 20 12 256 no_templates)
data_example =
    process_data-IsSafeData default_limits (header ++ data_flowset) clock exporter 20 12 256
      no_templates no_templates-IsKnown (omega arith)

store_example :
    (after : Nf9State) × (t : Template) × (store_template no_templates default_limits 7 256
        (record { type = 1; len = 4 } ∷ [])
        4
      ≡ some after)
    × (find_template after 7 256 ≡ some t)
    × (t.records ≡ some (record { type = 1; len = 4 } ∷ []))
    × (t.num_records ≡ length {A = Nf9Record} (record { type = 1; len = 4 } ∷ []))
    × (t.total_len ≡ 4)
store_example =
    find_template-store_template default_limits default-IsLimits no_templates 7 256
      no_templates-IsKnown (record { type = 1; len = 4 } ∷ []) 4

division_example :
    (after : Nf9State) × (process_template
        (header ++ empty_template)
        20
        8
        no_templates
        default_limits
        7
      ≡ accepted after)
    × ((flows : List ℕ) (tv : Timeval) (from : Xaddr) (at len : ℕ)
        → (nf9_header flows).source_id ≡ 7
        → 4 ≤ len
        → process_data flows tv from at len 256 after ≡ DataEnd.division_by_zero)
unfolding read16
division_example =
    no_records-division_by_zero default_limits default-IsLimits no_templates 7 256
      no_templates-IsKnown (header ++ empty_template) 20 refl refl refl

abbrev at_start : Progress
at_start = record {
  peer = no_templates;
  ninvalid = 0;
  no_template = 0;
  total_flows = 0;
  flows = [];
}

stall_20 : Stalls (header ++ stalling) 20
unfolding read16
stall_20 = record {
  id = 1;
  id_read = refl;
  some_id = omega arith;
  no_handler = omega arith;
  no_length = refl;
}

endless_example :
    flowset_loop (header ++ stalling) clock exporter default_limits 1000 at_start 20 ≡ endless
endless_example =
    flowset_loop-endless (header ++ stalling) clock exporter default_limits 1000 at_start 20
      stall_20

packet_example :
    IsSafeEnd (header ++ template_flowset ++ data_flowset) clock exporter default_limits at_start (
      process_netflow_v9
        (header ++ template_flowset ++ data_flowset)
        clock
        exporter
        default_limits
        50
        at_start)
packet_example =
    process_netflow_v9-IsSafeEnd (header ++ template_flowset ++ data_flowset) clock exporter
      default_limits default-IsLimits (omega arith) at_start 50 (omega arith) no_templates-IsKnown

-- The packet leads to two flows, of 777 and of 5 bytes.
abbrev octets_of : Nf9End → List ℕ
octets_of (finished s) = map (λ (f : FlowComplete). f.octets) s.flows
octets_of _ = []

two_flows :
    octets_of (
      process_netflow_v9
        (header ++ template_flowset ++ data_flowset)
        clock
        exporter
        default_limits
        50
        at_start)
    ≡ 777 ∷ 5 ∷ []
unfolding process_netflow_v9 flowset_loop flowset_step process_template template_loop template_round
    store_records read_records read16 nf9_check_rec_len nf9_field store_template find_template
    new_template write_template process_data with_template copy_all copy_flows copy_records
    nf9_rec_to_flow copy_field
two_flows = refl

-- A packet of v.5 with one flow.
abbrev v5_packet : List ℕ
v5_packet = 0 ∷ 5 ∷ 0 ∷ 1 ∷ replicate 24 0 ++ replicate 56 1

abbrev v5_flow : List ℕ → FlowComplete
v5_flow = nf5_flow clock exporter v5_packet

fixed_example :
    ((fs : List FlowComplete) × (process_fixed v5_flow 28 56 30 v5_packet ≡ valid fs)
      × (0 < length fs)
      × (length fs ≤ 30)
      × (length fs ≡ number 2 2 v5_packet)
      × (28 ≤ length v5_packet)
      × AreFlows v5_flow 28 56 30 v5_packet 28 fs)
    ⊎ ((process_fixed v5_flow 28 56 30 v5_packet ≡ invalid)
        × ((length v5_packet < 28)
            ⊎ ((number 2 2 v5_packet ≡ 0)
                ⊎ ((30 < number 2 2 v5_packet)
                    ⊎ (length v5_packet ≢ 28 + number 2 2 v5_packet * 56)))))
fixed_example = process_fixed_lem v5_flow 28 56 30 v5_packet

pub one_peer-IsCollector : IsCollector listed one_peer
one_peer-IsCollector = record {
  limited = default-IsLimits;
  small = omega arith;
  table = one_peer-IsTable;
  known = (no_templates-IsKnown, tt);
}

abbrev pub received : FlowPacket
received = record {
  recv_time = clock;
  flow_source = exporter;
  packet = header ++ template_flowset ++ data_flowset;
}

dispatch_example :
    IsOutcome listed 0 one_peer received (process_packet listed 0 clock one_peer received)
dispatch_example =
    process_packet-IsOutcome listed 0 clock one_peer received one_peer-IsCollector
      exporter-IsAddress
