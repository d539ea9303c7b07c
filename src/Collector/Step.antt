-- ===== src/Collector/Step.antt =====
-- NetFlow v.9 packets: what the handler of one flowset leads to.
use network_monitoring_emula.Common.{
  ℕ, ◌+◌, ◌^◌, ◌≤◌, ◌<◌, ◌≡◌, ◌⊎◌, inl, inr, true, false, List, [], ltb, ◌==◌, length, arith,
  Bool-cases, Option, some, sym, ap, ◌∙◌, ltb→lt, ==→eq,
}
use network_monitoring_emula.Addr.{Xaddr}
use network_monitoring_emula.Peer.{Template, Nf9State, Limits}
use network_monitoring_emula.Peer.Table.{Timeval}
use network_monitoring_emula.Peer.Counts.{IsLimits}
use network_monitoring_emula.Collector.Template.{
  read16, TemplateEnd, accepted, rejected, out_of_packet, null_pointer, confused, unfinished,
}
use network_monitoring_emula.Collector.Checked.{IsKnown}
use network_monitoring_emula.Collector.Flowset.{
  EndsWell, process_template-EndsWell, process_template-short,
}
use network_monitoring_emula.Collector.Safe.{IsSafeData, process_data-IsSafeData}
use network_monitoring_emula.Collector.Nf9
use network_monitoring_emula.Collector.Arrives.{Arrives, ComesToCut, ComesToEmpty, IsSafeEnd}

module _ (packet : List ℕ) (tv : Timeval) (flow_source : Xaddr) (limits : Limits) where
  module _ (ok : IsLimits limits) (small : limits.max_template_len < 2 ^ 31)
      (start : Nf9.Progress) where
    abbrev pub IsSafeStep : ℕ → ℕ → Nf9.Step → Type 0
    IsSafeStep id len (Nf9.next s) = IsKnown limits s.peer × ((0 < len) ⊎ ((0 < id) × (id < 256)))
    IsSafeStep id len (Nf9.stop e) = IsSafeEnd packet tv flow_source limits start e

    after_template-IsSafeStep :
        (end id len : ℕ) (s : Nf9.Progress) (e : TemplateEnd)
        → 0 < len
        → (length packet < end + 3 → ComesToCut packet tv flow_source limits start)
        → EndsWell limits packet end e
        → IsSafeStep id len (Nf9.after_template s e)
    unfolding Nf9.after_template
    after_template-IsSafeStep end id len s (accepted peer) some_len cut h = (h, inl some_len)
    after_template-IsSafeStep end id len s (rejected peer) some_len cut h = h
    after_template-IsSafeStep end id len s out_of_packet some_len cut h = cut h
    after_template-IsSafeStep end id len s null_pointer some_len cut h = absurd h
    after_template-IsSafeStep end id len s confused some_len cut h = absurd h
    after_template-IsSafeStep end id len s unfinished some_len cut h = absurd h

    after_data-IsSafeStep :
        (id len : ℕ) (s : Nf9.Progress) (t : Option Template) (e : Nf9.DataEnd)
        → 0 < len
        → IsKnown limits s.peer
        → ((u : Template)
            → t ≡ some u
            → u.records ≡ some []
            → ComesToEmpty packet tv flow_source limits start)
        → IsSafeData limits t e
        → IsSafeStep id len (Nf9.after_data s e)
    unfolding Nf9.after_data
    after_data-IsSafeStep id len s t (Nf9.delivered fs) some_len known empty h =
        (known, inl some_len)
    after_data-IsSafeStep id len s t Nf9.unknown some_len known empty h = (known, inl some_len)
    after_data-IsSafeStep id len s t (Nf9.refused true) some_len known empty h = known
    after_data-IsSafeStep id len s t (Nf9.refused false) some_len known empty h = known
    after_data-IsSafeStep id len s t Nf9.no_records some_len known empty h = absurd h
    after_data-IsSafeStep id len s t Nf9.DataEnd.division_by_zero some_len known empty
          (u, found, bare) =
        empty u found bare
    after_data-IsSafeStep id len s t Nf9.DataEnd.beyond_packet some_len known empty h = absurd h
    after_data-IsSafeStep id len s t Nf9.DataEnd.beside_member some_len known empty h = absurd h

    short_data :
        (offset len id : ℕ) (peer : Nf9State)
        → len < 4
        → Nf9.process_data packet tv flow_source offset len id peer ≡ Nf9.refused true
    unfolding Nf9.process_data
    short_data offset len id peer short = ground arith

    pub step-IsSafeStep :
        (offset id len : ℕ) (s : Nf9.Progress)
        → Arrives packet tv flow_source limits start offset s
        → IsKnown limits s.peer
        → offset + len ≤ length packet
        → read16 packet offset ≡ some id
        → read16 packet (offset + 2) ≡ some len
        → IsSafeStep id len (Nf9.flowset_step packet tv flow_source limits offset id len s)
    unfolding Nf9.flowset_step Nf9.after_template Nf9.after_data
    step-IsSafeStep offset id len s here known inside is_id is_len = elim (Bool-cases (id == 0)) [
      | inl template ↦
          rw (template, Nf9.flowset_step)
            (elim (Bool-cases (ltb len 4)) [
              | inl short ↦
                  rw
                    (process_template-short limits ok small packet offset len _ s.peer
                      (ltb→lt len 4 short))
                    known
              | inr long ↦
                  after_template-IsSafeStep (offset + len) id len s _ (ground arith)
                    (λ cut. (
                      offset,
                      s,
                      here,
                      inr (len, is_id ∙ ap some (==→eq id 0 template), is_len, cut),
                    ))
                    (process_template-EndsWell limits ok small packet offset len _ s.peer known
                      (λ j e. let same : some id ≡ some j = sym is_id ∙ e in ground (arith, same)))
            ])
      | inr other ↦
          rw (other, Nf9.flowset_step)
            (elim (Bool-cases (ltb id 256)) [
              | inl reserved ↦
                  rw (reserved, Nf9.flowset_step)
                    (known, inr (ground arith, ltb→lt id 256 reserved))
              | inr flows ↦
                  rw (flows, Nf9.flowset_step)
                    (elim (Bool-cases (ltb len 4)) [
                      | inl short ↦ rw (short_data offset len id s.peer (ltb→lt len 4 short)) known
                      | inr long ↦
                          after_data-IsSafeStep id len s _ _ (ground arith) known
                            (λ u found bare. (offset, s, id, u, here, is_id, found, bare))
                            (process_data-IsSafeData limits packet tv flow_source offset len id
                              s.peer known inside)
                    ])
            ])
    ]
