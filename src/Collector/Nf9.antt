-- ===== src/Collector/Nf9.antt =====
-- flowd/flowd.c: data flowsets of NetFlow v.9, and the loop over the flowsets of a packet.
--
-- A flow is handed to `process_flow` by being appended to `flows`. A peer's state is its templates
-- and the counters `ninvalid` and `no_template`.
use network_monitoring_emula.Common.{
  ℕ, zero, suc, ◌+◌, ◌-◌, ◌/◌, ◌%◌, ◌^◌, Bool, true, false, ◌||◌, Option, none, some, List, [], ◌∷◌,
  ◌++◌, length, drop, ltb, leb, ◌==◌, if◌then◌else◌,
}
use network_monitoring_emula.Addr.{Xaddr}
use network_monitoring_emula.Store.{FlowComplete, zero_flow}
use network_monitoring_emula.Store.Bytes.{number}
use network_monitoring_emula.Peer.{Nf9Record, Template, Nf9State, Limits, find_template}
use network_monitoring_emula.Peer.Table.{Timeval, add64}
use network_monitoring_emula.Collector.Template.{
  read16, TemplateEnd, accepted, rejected, out_of_packet, null_pointer, confused, unfinished,
  process_template,
}
use network_monitoring_emula.Collector.Record.{nf9_rec_to_flow}

-- `struct NF9_HEADER` with `ntohs` and `ntohl`.
pub record Nf9Header : Type 0 where
  pub version : ℕ
  pub flows : ℕ
  pub uptime_ms : ℕ
  pub time_sec : ℕ
  pub package_sequence : ℕ
  pub source_id : ℕ

abbrev pub nf9_header : List ℕ → Nf9Header
nf9_header packet = record {
  version = number 0 2 packet;
  flows = number 2 2 packet;
  uptime_ms = number 4 4 packet;
  time_sec = number 8 4 packet;
  package_sequence = number 12 4 packet;
  source_id = number 16 4 packet;
}

-- A result of the code that handles records: `over_read` reads behind the packet, `smashed` writes
-- beside the member of the flow that a record goes to.
pub data Copied {ℓ} (A : Type ℓ) : Type ℓ where
  copied : A → Copied A
  over_read : Copied A
  smashed : Copied A

-- `for (i = 0; i < template->num_records; i++)`; the records are as many.
unfoldable pub copy_records : List ℕ → List Nf9Record → ℕ → FlowComplete → Copied FlowComplete
copy_records packet [] offset f = copied f
copy_records packet (r ∷ rs) offset f =
    if ltb (length packet) (offset + r.len)
    then over_read
    else elim (nf9_rec_to_flow r.type r.len (drop offset packet) f) [
      | none ↦ smashed
      | some f' ↦ copy_records packet rs (offset + r.len) f'
    ]

-- STORE_FIELD_RECV_TIME | STORE_FIELD_AGENT_INFO | STORE_FIELD_AGENT_ADDR
abbrev pub start_fields : ℕ
start_fields = 2 ^ 1 + (2 ^ 15 + (2 ^ 3 + 2 ^ 4))

-- The flow before its records are copied.
abbrev pub start_flow : Timeval → Xaddr → Nf9Header → FlowComplete
start_flow tv flow_source hdr = record zero_flow {
  hdr = record zero_flow.hdr { fields = start_fields };
  ainfo = record zero_flow.ainfo {
    sys_uptime_ms = hdr.uptime_ms;
    time_sec = hdr.time_sec;
    netflow_version = hdr.version;
  };
  finf = record zero_flow.finf { flow_sequence = hdr.package_sequence; source_id = hdr.source_id };
  recv_time = record { recv_sec = tv.tv_sec; recv_usec = tv.tv_usec };
  agent_addr = flow_source;
}

unfoldable pub flow_cons : FlowComplete → Copied (List FlowComplete) → Copied (List FlowComplete)
flow_cons f (copied fs) = copied (f ∷ fs)
flow_cons f over_read = over_read
flow_cons f smashed = smashed

unfoldable pub with_rest :
    Copied FlowComplete → Copied (List FlowComplete) → Copied (List FlowComplete)
unfolding flow_cons
with_rest (copied f) rest = flow_cons f rest
with_rest over_read rest = over_read
with_rest smashed rest = smashed

-- The end of the data flowset's handler: `refused` is -1, with whether `ninvalid` was counted.
pub data DataEnd : Type 0 where
  delivered : List FlowComplete → DataEnd
  unknown : DataEnd
  refused : Bool → DataEnd
  no_records : DataEnd
  division_by_zero : DataEnd
  beyond_packet : DataEnd
  beside_member : DataEnd

unfoldable pub data_end : Copied (List FlowComplete) → DataEnd
data_end (copied fs) = delivered fs
data_end over_read = beyond_packet
data_end smashed = beside_member

module _ (packet : List ℕ) (tv : Timeval) (flow_source : Xaddr) where
  -- `nf9_flowset_to_store` for each of so many flows of `size` bytes from `offset` on. Its test of
  -- the template's length is one of that length with itself.
  unfoldable pub copy_flows : List Nf9Record → ℕ → ℕ → ℕ → Copied (List FlowComplete)
  unfolding with_rest copy_records
  copy_flows rs size zero offset = copied []
  copy_flows rs size (suc n) offset =
      with_rest (copy_records packet rs offset (start_flow tv flow_source (nf9_header packet)))
        (copy_flows rs size n (offset + size))

  unfoldable pub copy_all : List Nf9Record → ℕ → ℕ → ℕ → DataEnd
  unfolding copy_flows data_end
  copy_all rs size num_flowsets offset =
      if (num_flowsets == 0) || ltb 0x4000 num_flowsets
      then refused false
      else data_end (copy_flows rs size num_flowsets offset)

  unfoldable pub with_template : ℕ → ℕ → Option Template → DataEnd
  unfolding copy_all
  with_template start len none = unknown
  with_template start len (some template) = elim template.records [
    | none ↦ no_records
    | some rs ↦
        if template.total_len == 0
        then division_by_zero
        else copy_all rs template.total_len ((len - 4) / template.total_len) (start + 4)
  ]

  unfoldable pub process_data : ℕ → ℕ → ℕ → Nf9State → DataEnd
  unfolding with_template
  process_data start len flowset_id peer =
      if ltb len 4
      then refused true
      else with_template start len (find_template peer (nf9_header packet).source_id flowset_id)

-- What `process_netflow_v9` keeps: the peer's templates and counters, and the flows so far.
pub record Progress : Type 0 where
  pub peer : Nf9State
  pub ninvalid : ℕ
  pub no_template : ℕ
  pub total_flows : ℕ
  pub flows : List FlowComplete

-- How it ends: at the packet's end, where `update_peer` follows if there were flows, by a `return`
-- before that, or not at all.
pub data Nf9End : Type 0 where
  finished : Progress → Nf9End
  gave_up : Progress → Nf9End
  beyond_packet : Nf9End
  beside_member : Nf9End
  dangling : Nf9End
  exits : Nf9End
  division_by_zero : Nf9End
  endless : Nf9End

-- One flowset: the loop goes on after it, or it ends the handler.
pub data Step : Type 0 where
  next : Progress → Step
  stop : Nf9End → Step

abbrev pub count_invalid : Progress → Progress
count_invalid s = record s { ninvalid = add64 s.ninvalid 1 }

unfoldable pub after_template : Progress → TemplateEnd → Step
after_template s (accepted peer) = next (record s { peer = peer })
after_template s (rejected peer) = stop (gave_up (count_invalid (record s { peer = peer })))
after_template s out_of_packet = stop beyond_packet
after_template s null_pointer = stop dangling
after_template s confused = stop exits
after_template s unfinished = stop endless

unfoldable pub after_data : Progress → DataEnd → Step
after_data s (delivered fs) =
    next (record s { flows = s.flows ++ fs; total_flows = (s.total_flows + length fs) % 2 ^ 32 })
after_data s unknown = next (record s { no_template = add64 s.no_template 1 })
after_data s (refused true) = stop (gave_up (count_invalid s))
after_data s (refused false) = stop (gave_up s)
after_data s no_records = stop exits
after_data s DataEnd.division_by_zero = stop division_by_zero
after_data s DataEnd.beyond_packet = stop beyond_packet
after_data s DataEnd.beside_member = stop beside_member

module _ (packet : List ℕ) (tv : Timeval) (flow_source : Xaddr) (limits : Limits) where
  -- `switch (flowset_id)`
  unfoldable pub flowset_step : ℕ → ℕ → ℕ → Progress → Step
  unfolding after_template after_data
  flowset_step offset flowset_id flowset_len s =
      if flowset_id == 0
      then after_template s
          (process_template packet offset flowset_len s.peer limits (nf9_header packet).source_id)
      else if ltb flowset_id 256
      then next s
      else after_data s (process_data packet tv flow_source offset flowset_len flowset_id s.peer)

  unfoldable pub then_at : (Progress → ℕ → Nf9End) → ℕ → Step → Nf9End
  then_at loop offset (next s) =
      let rest = loop s offset in if offset == length packet then finished s else rest
  then_at loop offset (stop e) = e

  -- A flowset whose header has been read, and what follows it.
  unfoldable pub at_flowset : (Progress → ℕ → Nf9End) → ℕ → ℕ → ℕ → Progress → Nf9End
  unfolding then_at flowset_step
  at_flowset loop offset flowset_id flowset_len s =
      if ltb (length packet) (offset + flowset_len)
      then gave_up (count_invalid s)
      else then_at loop (offset + flowset_len) (flowset_step offset flowset_id flowset_len s)

  -- `for (i = 0;; i++)`, with fuel.
  unfoldable pub flowset_loop : ℕ → Progress → ℕ → Nf9End
  unfolding at_flowset
  flowset_loop zero s offset = endless
  flowset_loop (suc fuel) s offset =
      let again = λ (s' : Progress) (o : ℕ). flowset_loop fuel s' o in
      if leb (length packet) offset
      then gave_up (count_invalid s)
      else elim (read16 packet offset) [
        | none ↦ beyond_packet
        | some flowset_id ↦ elim (read16 packet (offset + 2)) [
          | none ↦ beyond_packet
          | some flowset_len ↦ at_flowset again offset flowset_id flowset_len s
        ]
      ]

  unfoldable pub process_netflow_v9 : ℕ → Progress → Nf9End
  unfolding flowset_loop
  process_netflow_v9 fuel s =
      if ltb (length packet) 20 then gave_up (count_invalid s) else flowset_loop fuel s 20
