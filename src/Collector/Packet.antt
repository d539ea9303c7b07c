-- ===== src/Collector/Packet.antt =====
-- NetFlow v.9 packets: how the loop over the flowsets of a packet ends, and when it does not.
use network_monitoring_emula.Common.{
  ℕ, zero, suc, ◌+◌, ◌^◌, ◌≤◌, ◌<◌, ◌≡◌, ◌≢◌, ◌⊎◌, refl, inl, inr, false, List, ltb, leb, ◌==◌,
  length, arith, Bool-cases, Option-cases, some, sym, ap, ◌∙◌, subst, ==→eq, ==→ne,
}
use network_monitoring_emula.Addr.{Xaddr}
use network_monitoring_emula.Peer.{Limits}
use network_monitoring_emula.Peer.Table.{Timeval}
use network_monitoring_emula.Peer.Counts.{IsLimits}
use network_monitoring_emula.Collector.Template.{read16}
use network_monitoring_emula.Collector.Checked.{IsKnown, read16-outside}
use network_monitoring_emula.Collector.Nf9
use network_monitoring_emula.Collector.Arrives.{
  Stalls, Arrives, first, further, IsSafeEnd, read16-inside,
}
use network_monitoring_emula.Collector.Step.{IsSafeStep, step-IsSafeStep}

module _ (packet : List ℕ) (tv : Timeval) (flow_source : Xaddr) (limits : Limits) where
  stalled :
      (loop : Nf9.Progress → ℕ → Nf9.Nf9End) (offset id : ℕ) (s : Nf9.Progress)
      → 0 < id
      → id < 256
      → offset + 2 ≤ length packet
      → Nf9.at_flowset packet tv flow_source limits loop offset id 0 s ≡ loop s offset
  unfolding Nf9.at_flowset
  stalled loop offset id s some_id no_handler inside =
      let same : offset + 0 ≡ offset = omega arith in rw same (ground arith)

  -- A flowset of the options or of a reserved kind, with the length 0, keeps the loop where it is:
  -- the loop does not end, however long it may run.
  pub flowset_loop-endless :
      (fuel : ℕ) (s : Nf9.Progress) (offset : ℕ)
      → Stalls packet offset
      → Nf9.flowset_loop packet tv flow_source limits fuel s offset ≡ Nf9.endless
  unfolding Nf9.flowset_loop
  flowset_loop-endless zero s offset stall = refl
  flowset_loop-endless (suc fuel) s offset stall =
      let loop =
        λ (s' : Nf9.Progress) (o : ℕ). Nf9.flowset_loop packet tv flow_source limits fuel s' o in
      let inside : offset + 2 ≤ length packet =
        read16-inside packet offset stall.id stall.id_read in
      let before : leb (length packet) offset ≡ false = ground arith in
      rw (before, Nf9.flowset_loop)
        (rw (stall.id_read, Nf9.flowset_loop)
          (rw (stall.no_length, Nf9.flowset_loop)
            (stalled loop offset stall.id s stall.some_id stall.no_handler inside
              ∙ flowset_loop-endless fuel s offset stall)))

  module _ (ok : IsLimits limits) (small : limits.max_template_len < 2 ^ 31)
      (start : Nf9.Progress) where
    then-IsSafeEnd :
        (loop : Nf9.Progress → ℕ → Nf9.Nf9End) (id len next_offset : ℕ) (step : Nf9.Step)
        → IsSafeStep packet tv flow_source limits ok small start id len step
        → ((s : Nf9.Progress)
            → step ≡ Nf9.next s
            → next_offset ≢ length packet
            → IsKnown limits s.peer
            → (0 < len) ⊎ ((0 < id) × (id < 256))
            → IsSafeEnd packet tv flow_source limits start (loop s next_offset))
        → IsSafeEnd packet tv flow_source limits start
            (Nf9.then_at packet tv flow_source limits loop next_offset step)
    unfolding Nf9.then_at
    then-IsSafeEnd loop id len next_offset (Nf9.next s) h after =
        elim (Bool-cases (next_offset == length packet)) [
          | inl done ↦ rw (done, Nf9.then_at) h.0
          | inr more ↦
              rw (more, Nf9.then_at) (after s refl (==→ne next_offset (length packet) more) h.0 h.1)
        ]
    then-IsSafeEnd loop id len next_offset (Nf9.stop e) h after = h

    stays_safe :
        (fuel : ℕ) (s s' : Nf9.Progress) (offset id len : ℕ)
        → Arrives packet tv flow_source limits start offset s
        → read16 packet offset ≡ some id
        → read16 packet (offset + 2) ≡ some len
        → len ≡ 0
        → (0 < len) ⊎ ((0 < id) × (id < 256))
        → IsSafeEnd packet tv flow_source limits start
            (Nf9.flowset_loop packet tv flow_source limits fuel s' (offset + len))
    stays_safe fuel s s' offset id len here e d no_len (inl some_len) = absurd (omega arith)
    stays_safe fuel s s' offset id len here e d no_len (inr (some_id, no_handler)) =
        let stall : Stalls packet offset = record {
          id = id;
          id_read = e;
          some_id = some_id;
          no_handler = no_handler;
          no_length = d ∙ ap some no_len;
        } in
        let same : offset ≡ offset + len = omega arith in
        subst
          (λ o.
            IsSafeEnd packet tv flow_source limits start
              (Nf9.flowset_loop packet tv flow_source limits fuel s' o))
          same
          (subst (IsSafeEnd packet tv flow_source limits start)
            (sym (flowset_loop-endless fuel s' offset stall)) (offset, s, here, stall))

    flowset_loop-IsSafeEnd :
        (fuel : ℕ) (s : Nf9.Progress) (offset : ℕ)
        → 0 < fuel
        → length packet < offset + fuel
        → Arrives packet tv flow_source limits start offset s
        → IsKnown limits s.peer
        → IsSafeEnd packet tv flow_source limits start
            (Nf9.flowset_loop packet tv flow_source limits fuel s offset)
    unfolding Nf9.flowset_loop Nf9.at_flowset
    flowset_loop-IsSafeEnd zero s offset some_fuel enough here known = absurd (omega arith)
    flowset_loop-IsSafeEnd (suc fuel) s offset some_fuel enough here known =
        elim (Bool-cases (leb (length packet) offset)) [
          | inl past ↦ rw (past, Nf9.flowset_loop) known
          | inr before ↦ elim (Option-cases (read16 packet offset)) [
            | inl e ↦
                rw (before, Nf9.flowset_loop)
                  (rw (e, Nf9.flowset_loop)
                    (let out = read16-outside packet offset e in
                      (offset, s, here, inl (omega arith))))
            | inr (id, e) ↦ elim (Option-cases (read16 packet (offset + 2))) [
              | inl d ↦
                  rw (before, Nf9.flowset_loop)
                    (rw (e, Nf9.flowset_loop)
                      (rw (d, Nf9.flowset_loop)
                        (let out = read16-outside packet (offset + 2) d in
                          (offset, s, here, inl (omega arith)))))
              | inr (len, d) ↦ elim (Bool-cases (ltb (length packet) (offset + len))) [
                | inl long ↦
                    rw (before, Nf9.flowset_loop)
                      (rw (e, Nf9.flowset_loop)
                        (rw (d, Nf9.flowset_loop) (rw (long, Nf9.at_flowset) known)))
                | inr inside ↦
                    rw (before, Nf9.flowset_loop)
                      (rw (e, Nf9.flowset_loop)
                        (rw (d, Nf9.flowset_loop)
                          (rw (inside, Nf9.at_flowset)
                            (then-IsSafeEnd
                              (λ s' o. Nf9.flowset_loop packet tv flow_source limits fuel s' o) id
                              len (offset + len)
                              (Nf9.flowset_step packet tv flow_source limits offset id len s)
                              (step-IsSafeStep packet tv flow_source limits ok small start offset id
                                len s here known (ground arith) e d)
                              (λ s' stepped on known' goes. elim (Bool-cases (len == 0)) [
                                | inr some_len ↦
                                    flowset_loop-IsSafeEnd fuel s' (offset + len) (ground arith)
                                      (ground arith)
                                      (further offset id len s s' here e d (ground arith) stepped
                                        on)
                                      known'
                                | inl no_len ↦
                                    stays_safe fuel s s' offset id len here e d (==→eq len 0 no_len)
                                      goes
                              ])))))
              ]
            ]
          ]
        ]

    -- However a packet is made up, where the peer's templates are in order and the limits in range,
    -- the handler ends, unless its loop comes to a flowset that stalls it. It reads behind the packet
    -- only if the loop comes to a flowset header that is cut off, or to a template flowset behind
    -- which less than three bytes follow, and divides by zero only if it comes to a flowset whose
    -- template has no records. It never writes beside the member of a flow that a record goes to,
    -- goes through a null pointer or exits on a template without records, and when it returns it
    -- leaves the peer's templates in order.
    pub process_netflow_v9-IsSafeEnd :
        (fuel : ℕ)
        → length packet < fuel
        → IsKnown limits start.peer
        → IsSafeEnd packet tv flow_source limits start
            (Nf9.process_netflow_v9 packet tv flow_source limits fuel start)
    unfolding Nf9.process_netflow_v9
    process_netflow_v9-IsSafeEnd fuel enough known = elim (Bool-cases (ltb (length packet) 20)) [
      | inl short ↦ rw (short, Nf9.process_netflow_v9) known
      | inr long ↦
          rw (long, Nf9.process_netflow_v9)
            (flowset_loop-IsSafeEnd fuel start 20 (omega arith) (omega arith) first known)
    ]
