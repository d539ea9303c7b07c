-- ===== src/Collector/Arrives.antt =====
-- NetFlow v.9 packets: the flowsets that the loop over a packet comes to, and the ends of the handler.
use network_monitoring_emula.Common.{ℕ, ◌+◌, ◌≤◌, ◌<◌, ◌≡◌, ◌≢◌, ◌⊎◌, List, [], length, arith, some}
use network_monitoring_emula.Addr.{Xaddr}
use network_monitoring_emula.Peer.{Template, Limits, find_template}
use network_monitoring_emula.Peer.Table.{Timeval}
use network_monitoring_emula.Collector.Template.{read16}
use network_monitoring_emula.Collector.Checked.{IsKnown}
use network_monitoring_emula.Collector.Nf9

module _ (packet : List ℕ) where
  -- A flowset of the options or of a reserved kind that says it has no length.
  pub record Stalls (offset : ℕ) : Type 0 where
    pub id : ℕ
    pub id_read : read16 packet offset ≡ some id
    pub some_id : 0 < id
    pub no_handler : id < 256
    pub no_length : read16 packet (offset + 2) ≡ some 0

  pub read16-inside : (i v : ℕ) → read16 packet i ≡ some v → i + 2 ≤ length packet
  unfolding read16
  read16-inside i v e = ground arith

module _ (packet : List ℕ) (tv : Timeval) (flow_source : Xaddr) (limits : Limits)
    (start : Nf9.Progress) where
  -- The loop, started behind the header, comes to an offset with what it has done until then: every
  -- flowset before was within the packet, its handler went on, and it was not the last.
  pub data Arrives : ℕ → Nf9.Progress → Type 0 where
    first : Arrives 20 start
    further :
        (offset id len : ℕ) (s s' : Nf9.Progress)
        → Arrives offset s
        → read16 packet offset ≡ some id
        → read16 packet (offset + 2) ≡ some len
        → offset + len ≤ length packet
        → Nf9.flowset_step packet tv flow_source limits offset id len s ≡ Nf9.next s'
        → offset + len ≢ length packet
        → Arrives (offset + len) s'

  -- The loop comes to a flowset header that is cut off, or to a template flowset behind which less
  -- than three bytes follow.
  abbrev pub ComesToCut : Type 0
  ComesToCut =
      (offset : ℕ) × (s : Nf9.Progress) × Arrives offset s
      × ((length packet < offset + 4)
          ⊎ ((len : ℕ) × (read16 packet offset ≡ some 0)
              × (read16 packet (offset + 2) ≡ some len)
              × (length packet < offset + len + 3)))

  -- The loop comes to a flowset whose template has no records.
  abbrev pub ComesToEmpty : Type 0
  ComesToEmpty =
      (offset : ℕ) × (s : Nf9.Progress) × (id : ℕ) × (t : Template) × Arrives offset s
      × (read16 packet offset ≡ some id)
      × (find_template s.peer (Nf9.nf9_header packet).source_id id ≡ some t)
      × (t.records ≡ some [])

  -- The ends of the handler. Only a flowset that the loop comes to and that stalls it makes it run
  -- on for ever.
  abbrev pub IsSafeEnd : Nf9.Nf9End → Type 0
  IsSafeEnd (Nf9.finished s) = IsKnown limits s.peer
  IsSafeEnd (Nf9.gave_up s) = IsKnown limits s.peer
  IsSafeEnd Nf9.Nf9End.beyond_packet = ComesToCut
  IsSafeEnd Nf9.Nf9End.beside_member = ⊥
  IsSafeEnd Nf9.dangling = ⊥
  IsSafeEnd Nf9.exits = ⊥
  IsSafeEnd Nf9.Nf9End.division_by_zero = ComesToEmpty
  IsSafeEnd Nf9.endless =
      (offset : ℕ) × (s : Nf9.Progress) × Arrives offset s × Stalls packet offset
