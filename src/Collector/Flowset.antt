-- ===== src/Collector/Flowset.antt =====
-- Template flowsets of NetFlow v.9: the loop over the templates of a flowset ends, and leaves the
-- peer's templates in order.
use network_monitoring_emula.Common.{
  ℕ, zero, suc, ◌+◌, ◌^◌, ◌≤◌, ◌<◌, ◌≡◌, refl, inl, inr, List, ltb, ◌==◌, arith, Bool-cases,
  Option-cases, ==→ne, some, length, ltb→lt,
}
use network_monitoring_emula.Peer.{Nf9State, Limits}
use network_monitoring_emula.Peer.Counts.{IsLimits}
use network_monitoring_emula.Collector.Template.{
  read16, ReadRecords, records, invalid, over_read, read_records, TemplateEnd, accepted, rejected,
  out_of_packet, null_pointer, confused, unfinished, Round, goes_on, ends, store_records,
  after_round, template_round, template_loop, process_template,
}
use network_monitoring_emula.Collector.Checked.{
  IsRead, read16-outside, read_records-IsRead, IsKnown, store_template-IsKnown,
}

module _ (limits : Limits) (packet : List ℕ) (end : ℕ) where
  -- The handler comes to an end, never by a null pointer or a confusion of flowsets, and the peer's
  -- templates are in order. It reads behind the packet only if less than three bytes follow on the
  -- flowset, which ends at `end`.
  abbrev pub EndsWell : TemplateEnd → Type 0
  EndsWell (accepted peer) = IsKnown limits peer
  EndsWell (rejected peer) = IsKnown limits peer
  EndsWell out_of_packet = length packet < end + 3
  EndsWell null_pointer = ⊥
  EndsWell confused = ⊥
  EndsWell unfinished = ⊥

module _ (limits : Limits) (ok : IsLimits limits) (small : limits.max_template_len < 2 ^ 31) where
  module _ (packet : List ℕ) (end : ℕ) where
    abbrev RoundWell : ℕ → Round → Type 0
    RoundWell offset (goes_on peer next) = IsKnown limits peer × (offset + 4 ≤ next)
    RoundWell offset (ends e) = EndsWell limits packet end e

    store_records-RoundWell :
        (peer : Nf9State) (source_id template_id count offset : ℕ) (read : ReadRecords)
        → IsKnown limits peer
        → IsRead (length packet < end + 3) limits.max_template_len count (offset + 4) 0 read
        → RoundWell offset (store_records peer limits source_id template_id read)
    unfolding store_records
    store_records-RoundWell peer source_id template_id count offset (records rs o t) known h =
        let (after, e, known') =
          store_template-IsKnown limits ok source_id template_id rs t
            (λ u. record {
              held = rs;
              given = refl;
              checked = h.0;
              counted = refl;
              totalled = omega arith;
              within = h.2;
            })
            peer known in
        rw (e, store_records) (known', omega arith)
    store_records-RoundWell peer source_id template_id count offset invalid known h = known
    store_records-RoundWell peer source_id template_id count offset over_read known h = h

    template_round-RoundWell :
        (source_id : ℕ) (peer : Nf9State) (offset : ℕ)
        → offset < end
        → IsKnown limits peer
        → RoundWell offset (template_round packet end limits source_id peer offset)
    unfolding template_round
    template_round-RoundWell source_id peer offset starts known =
        elim (Option-cases (read16 packet offset)) [
          | inl e ↦
              rw (e, template_round)
                (let out = read16-outside packet offset e in omega (arith, starts))
          | inr (template_id, e) ↦ elim (Option-cases (read16 packet (offset + 2))) [
            | inl d ↦
                rw (e, template_round)
                  (rw (d, template_round)
                    (let out = read16-outside packet (offset + 2) d in omega (arith, starts)))
            | inr (count, d) ↦
                rw (e, template_round)
                  (rw (d, template_round)
                    (store_records-RoundWell peer source_id template_id count offset
                      (read_records packet end limits.max_template_len count (offset + 4) 0) known
                      (read_records-IsRead packet end limits.max_template_len count (offset + 4) 0
                        small (omega arith))))
          ]
        ]

    after_round-EndsWell :
        (loop : Nf9State → ℕ → TemplateEnd) (offset : ℕ) (round : Round)
        → RoundWell offset round
        → ((peer : Nf9State) (next : ℕ)
            → IsKnown limits peer
            → offset + 4 ≤ next
            → EndsWell limits packet end (loop peer next))
        → EndsWell limits packet end (after_round loop round)
    unfolding after_round
    after_round-EndsWell loop offset (goes_on peer next) h after = after peer next h.0 h.1
    after_round-EndsWell loop offset (ends e) h after = h

    template_loop-EndsWell :
        (source_id fuel : ℕ) (peer : Nf9State) (offset : ℕ)
        → 0 < fuel
        → end < offset + fuel
        → IsKnown limits peer
        → EndsWell limits packet end (template_loop packet end limits source_id fuel peer offset)
    unfolding template_loop
    template_loop-EndsWell source_id zero peer offset some_fuel enough known = absurd (omega arith)
    template_loop-EndsWell source_id (suc fuel) peer offset some_fuel enough known =
        elim (Bool-cases (ltb offset end)) [
          | inr done ↦ rw (done, template_loop) known
          | inl more ↦
              rw (more, template_loop)
                (after_round-EndsWell (λ p o. template_loop packet end limits source_id fuel p o)
                  offset (template_round packet end limits source_id peer offset)
                  (template_round-RoundWell source_id peer offset (ltb→lt offset end more) known)
                  (λ p o known' further.
                    template_loop-EndsWell source_id fuel p o (ground arith) (omega arith) known'))
        ]

  -- Whatever a template flowset holds, its handler ends: not for want of rounds, not by a null
  -- pointer, and not by taking the flowset for another kind. It reads behind the packet only if less
  -- than three bytes of the packet follow on the flowset; otherwise, it accepts or rejects the
  -- flowset.
  -- The counts of sources and templates then agree with the lists and keep to the limits, no id is
  -- there twice, and each template has its records, whose lengths are those of `total_len`, of
  -- `num_records` and within the members that they go to.
  pub process_template-EndsWell :
      (packet : List ℕ) (start len source_id : ℕ) (peer : Nf9State)
      → IsKnown limits peer
      → ((id : ℕ) → read16 packet start ≡ some id → id ≡ 0)
      → EndsWell limits packet
          (start + len)
          (process_template packet start len peer limits source_id)
  unfolding process_template
  process_template-EndsWell packet start len source_id peer known is_template =
      elim (Bool-cases (ltb len 4)) [
        | inl short ↦ rw (short, process_template) known
        | inr long ↦ elim (Option-cases (read16 packet start)) [
          | inl e ↦
              rw (long, process_template)
                (rw (e, process_template) (let out = read16-outside packet start e in ground arith))
          | inr (id, e) ↦ elim (Bool-cases (id == 0)) [
            | inr other ↦ absurd (==→ne id 0 other (is_template id e))
            | inl same ↦
                rw (long, process_template)
                  (rw (e, process_template)
                    (rw (same, process_template)
                      (template_loop-EndsWell packet (start + len) source_id (suc len) peer
                        (start + 4) (omega arith) (omega arith) known)))
          ]
        ]
      ]

  pub process_template-short :
      (packet : List ℕ) (start len source_id : ℕ) (peer : Nf9State)
      → len < 4
      → process_template packet start len peer limits source_id ≡ rejected peer
  unfolding process_template
  process_template-short packet start len source_id peer short = ground arith
