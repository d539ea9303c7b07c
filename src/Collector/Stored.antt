-- ===== src/Collector/Stored.antt =====
-- What a data flowset finds after a template flowset, and what a template of no records does.
use network_monitoring_emula.Common.{
  ℕ, suc, ◌+◌, ◌≤◌, ◌<◌, ◌≡◌, refl, inl, inr, false, List, [], ltb, length, arith, Option-cases,
  some, ◌∙◌, ==-self,
}
use network_monitoring_emula.Addr.{Xaddr}
use network_monitoring_emula.Peer.{
  Nf9Record, Template, Nf9State, Limits, find_template, write_template, fresh_template,
}
use network_monitoring_emula.Peer.Counts.{IsLimits, new_template-IsTracked}
use network_monitoring_emula.Peer.Lookup.{find_template-write, find_template-new_template}
use network_monitoring_emula.Peer.Table.{Timeval}
use network_monitoring_emula.Collector.Template.{
  read16, accepted, fill, store_template, read_records, store_records, template_round,
  template_loop, process_template, goes_on,
}
use network_monitoring_emula.Collector.Checked.{IsKnown}
use network_monitoring_emula.Collector.Nf9.{
  division_by_zero, process_data, with_template, nf9_header,
}

module _ (limits : Limits) (ok : IsLimits limits) (peer : Nf9State) (source_id template_id : ℕ)
    (known : IsKnown limits peer) where
  write_found :
      (p : Nf9State) (t : Template) (rs : List Nf9Record) (total : ℕ)
      → find_template p source_id template_id ≡ some t
      → find_template (write_template p source_id template_id (fill rs total)) source_id template_id
        ≡ some (fill rs total t)
  write_found p t rs total e =
      find_template-write p source_id template_id (fill rs total) (λ u. refl) source_id template_id
      ∙ rw (==-self source_id) (rw (==-self template_id) (rw e refl))

  -- Where the peer's templates are in order, storing records for a source and an id succeeds, and
  -- the template that is found under them then has those records, their number and the total.
  pub find_template-store_template :
      (rs : List Nf9Record) (total : ℕ)
      → (after : Nf9State) × (t : Template) × (store_template peer limits source_id template_id rs
            total
          ≡ some after)
        × (find_template after source_id template_id ≡ some t)
        × (t.records ≡ some rs)
        × (t.num_records ≡ length rs)
        × (t.total_len ≡ total)
  unfolding store_template
  find_template-store_template rs total =
      elim (Option-cases (find_template peer source_id template_id)) [
        | inr (t, e) ↦ (
          write_template peer source_id template_id (fill rs total),
          fill rs total t,
          rw (e, store_template) refl,
          write_found peer t rs total e,
          refl,
          refl,
          refl,
        )
        | inl e ↦
            let (made, d, tracked) =
              new_template-IsTracked limits ok peer source_id template_id known.tracked e in
            (
              write_template made source_id template_id (fill rs total),
              fill rs total (fresh_template template_id),
              rw (e, store_template) (rw d refl),
              write_found made (fresh_template template_id) rs total (
                  find_template-new_template limits ok peer source_id template_id known.tracked made
                    d),
              refl,
              refl,
              refl,
            )
      ]

  empty_round :
      (packet : List ℕ) (start : ℕ) (after : Nf9State)
      → read16 packet (start + 4) ≡ some template_id
      → read16 packet (start + 4 + 2) ≡ some 0
      → store_template peer limits source_id template_id [] 0 ≡ some after
      → template_round packet (start + 8) limits source_id peer (start + 4)
        ≡ goes_on after (start + 4 + 4)
  unfolding template_round store_records read_records
  empty_round packet start after is_id no_count stored =
      rw (is_id, template_round) (rw (no_count, template_round) (rw (stored, store_records) refl))

  ended :
      (packet : List ℕ) (end offset next : ℕ) (after : Nf9State) (fuel : ℕ)
      → offset < end
      → template_round packet end limits source_id peer offset ≡ goes_on after next
      → end ≤ next
      → template_loop packet end limits source_id (suc (suc fuel)) peer offset ≡ accepted after
  unfolding template_loop
  ended packet end offset next after fuel before round done = ground (arith, round)

  empty_flowset :
      (packet : List ℕ) (start : ℕ) (after : Nf9State)
      → read16 packet start ≡ some 0
      → template_round packet (start + 8) limits source_id peer (start + 4)
        ≡ goes_on after (start + 4 + 4)
      → process_template packet start 8 peer limits source_id ≡ accepted after
  unfolding process_template
  empty_flowset packet start after is_template round =
      rw (is_template, process_template)
        (ended packet (start + 8) (start + 4) (start + 4 + 4) after 7 (omega arith) round
          (omega arith))

  empty_data :
      (after : Nf9State) (t : Template) (flows : List ℕ) (tv : Timeval) (from : Xaddr) (at len : ℕ)
      → find_template after source_id template_id ≡ some t
      → t.records ≡ some []
      → t.total_len ≡ 0
      → (nf9_header flows).source_id ≡ source_id
      → 4 ≤ len
      → process_data flows tv from at len template_id after ≡ division_by_zero
  unfolding process_data with_template
  empty_data after t flows tv from at len found held total same long =
      let whole : ltb len 4 ≡ false = ground arith in
      rw (whole, process_data)
        (rw same
          (rw (found, process_data) (rw (held, with_template) (rw (total, with_template) refl))))

  -- Where the peer's templates are in order, a template flowset of one template with no records is
  -- accepted, and any data flowset for it that has a header divides by zero.
  pub no_records-division_by_zero :
      (packet : List ℕ) (start : ℕ)
      → read16 packet start ≡ some 0
      → read16 packet (start + 4) ≡ some template_id
      → read16 packet (start + 4 + 2) ≡ some 0
      → (after : Nf9State) × (process_template packet start 8 peer limits source_id
          ≡ accepted after)
        × ((flows : List ℕ) (tv : Timeval) (from : Xaddr) (at len : ℕ)
            → (nf9_header flows).source_id ≡ source_id
            → 4 ≤ len
            → process_data flows tv from at len template_id after ≡ division_by_zero)
  no_records-division_by_zero packet start is_template is_id no_count =
      let (after, t, stored, found, held, count, total) = find_template-store_template [] 0 in
      (
        after,
        empty_flowset packet start after is_template
            (empty_round packet start after is_id no_count stored),
        λ flows tv from at len same long.
            empty_data after t flows tv from at len found held total same long,
      )
