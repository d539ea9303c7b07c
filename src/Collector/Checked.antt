-- ===== src/Collector/Checked.antt =====
-- Template flowsets of NetFlow v.9: what the templates that a peer has are like after any flowset.
use network_monitoring_emula.Common.{
  ℕ, zero, suc, ◌+◌, ◌*◌, ◌%◌, ◌^◌, ◌≤◌, ◌<◌, ◌≡◌, refl, inl, inr, true, List, [], ◌∷◌, ltb, leb,
  length, arith, Bool-cases, Option-cases, subst, Option, none, some, ==-self,
}
use network_monitoring_emula.Common.Tailq.{
  AllOf, AllOf-drop_last, AllOf-remove_first, AllOf-update_first, AllOf-find_first, room_inv,
  update_first,
}
use network_monitoring_emula.Peer.{
  Nf9Record, Template, Source, Nf9State, Limits, is_source, is_template, fresh_source,
  lookup_source, fresh_template, find_template, write_template,
}
use network_monitoring_emula.Peer.Counts.{
  IsLimits, IsTracked, grown_peer, grown_source, new_template_lem, new_template-IsTracked,
  write_template-IsTracked, lookup_source-source_id,
}
use network_monitoring_emula.Collector.Template.{
  nf9_check_rec_len, read16, ReadRecords, records, invalid, over_read, read_records, check_record,
  cons_record, fill, store_template,
}

abbrev pub total_of : List Nf9Record → ℕ
total_of [] = 0
total_of (r ∷ rs) = r.len + total_of rs

abbrev pub IsRecord : Nf9Record → Type 0
IsRecord r = nf9_check_rec_len r.type r.len ≡ true

pub IsRecord-len : (r : Nf9Record) → IsRecord r → (0 < r.len) × (r.len ≤ 0x4000)
unfolding nf9_check_rec_len
IsRecord-len r h = ground arith

-- What the loop over a template's records gives where it ends well; it reads behind the packet only
-- if the packet is cut.
abbrev pub IsRead : Type 0 → ℕ → ℕ → ℕ → ℕ → ReadRecords → Type 0
IsRead cut limit count offset total (records rs o t) =
    AllOf IsRecord rs
    × (t ≡ total + total_of rs)
    × (t ≤ limit)
    × (length rs ≡ count)
    × (o ≡ offset + 4 * count)
IsRead cut limit count offset total invalid = Unit {0}
IsRead cut limit count offset total over_read = cut

cons-IsRead :
    (cut : Type 0) (limit count offset total : ℕ) (r : Nf9Record) (next : ReadRecords)
    → IsRecord r
    → IsRead cut limit count (offset + 4) (total + r.len) next
    → IsRead cut limit (suc count) offset total (cons_record r next)
unfolding cons_record
cons-IsRead cut limit count offset total r (records rs o t) known h =
    ((known, h.0), omega arith, h.2, omega arith, omega arith)
cons-IsRead cut limit count offset total r invalid known h = tt
cons-IsRead cut limit count offset total r over_read known h = h

check-IsRead :
    (cut : Type 0) (limit count offset total : ℕ) (r : Nf9Record) (next : ℕ → ReadRecords)
    → limit < 2 ^ 31
    → total ≤ limit
    → ((t : ℕ) → t ≤ limit → IsRead cut limit count (offset + 4) t (next t))
    → IsRead cut limit
        (suc count)
        offset
        total
        (check_record limit r ((total + r.len) % 2 ^ 32) (next ((total + r.len) % 2 ^ 32)))
unfolding check_record
check-IsRead cut limit count offset total r next small fits after =
    elim (Bool-cases (ltb limit ((total + r.len) % 2 ^ 32))) [
      | inl large ↦ rw (large, check_record) tt
      | inr fine ↦ elim (Bool-cases (nf9_check_rec_len r.type r.len)) [
        | inr bad ↦ rw (fine, check_record) (rw (bad, check_record) tt)
        | inl known ↦
            let bounds : (0 < r.len) × (r.len ≤ 0x4000) = IsRecord-len r known in
            let whole : (total + r.len) % 2 ^ 32 ≡ total + r.len = omega arith in
            rw (fine, check_record)
              (rw (known, check_record)
                (rw whole (
                  cons-IsRead cut limit count offset total r (next (total + r.len)) known
                    (after (total + r.len) (ground arith)))))
      ]
    ]

pub read16-outside : (packet : List ℕ) (i : ℕ) → read16 packet i ≡ none → length packet < i + 2
unfolding read16
read16-outside packet i e = ground arith

pub read_records-IsRead :
    (packet : List ℕ) (end limit count offset total : ℕ)
    → limit < 2 ^ 31
    → total ≤ limit
    → IsRead
        (length packet < end + 3)
        limit
        count
        offset
        total
        (read_records packet end limit count offset total)
unfolding read_records
read_records-IsRead packet end limit zero offset total small fits =
    (tt, omega arith, fits, refl, omega arith)
read_records-IsRead packet end limit (suc count) offset total small fits =
    elim (Bool-cases (leb end offset)) [
      | inl past ↦ rw (past, read_records) tt
      | inr before ↦ elim (Option-cases (read16 packet offset)) [
        | inl e ↦
            rw (before, read_records)
              (rw (e, read_records) (let out = read16-outside packet offset e in ground arith))
        | inr (type, e) ↦ elim (Option-cases (read16 packet (offset + 2))) [
          | inl d ↦
              rw (before, read_records)
                (rw (e, read_records)
                  (rw (d, read_records)
                    (let out = read16-outside packet (offset + 2) d in ground arith)))
          | inr (len, d) ↦
              rw (before, read_records)
                (rw (e, read_records)
                  (rw (d, read_records)
                    (check-IsRead (length packet < end + 3) limit count offset total
                      (record { type = type; len = len })
                      (λ t. read_records packet end limit count (offset + 4) t) small fits
                      (λ t le.
                        read_records-IsRead packet end limit count (offset + 4) t small le))))
        ]
      ]
    ]

module _ (limits : Limits) where
  -- A template that has been filled in: its records are there and within the members that they go
  -- to, and its counts are theirs.
  pub record IsFilled (t : Template) : Type 0 where
    pub held : List Nf9Record
    pub given : t.records ≡ some held
    pub checked : AllOf IsRecord held
    pub counted : t.num_records ≡ length held
    pub totalled : t.total_len ≡ total_of held
    pub within : t.total_len ≤ limits.max_template_len

  abbrev pub AreFilled : Source → Type 0
  AreFilled s = AllOf IsFilled s.templates

  pub record IsKnown (peer : Nf9State) : Type 0 where
    pub tracked : IsTracked limits peer
    pub filled : AllOf AreFilled peer.nf9

  module _ (ok : IsLimits limits) (source_id template_id : ℕ) (rs : List Nf9Record) (total : ℕ)
      (filled : (t : Template) → IsFilled (fill rs total t)) where
    grown-IsFilled :
        (source : Source)
        → AreFilled source
        → AllOf IsFilled (
            update_first
              (is_template template_id)
              (fill rs total)
              (grown_source limits ok template_id source).templates)
    grown-IsFilled source all = rw (==-self template_id) (
      filled (fresh_template template_id),
      room_inv (AllOf IsFilled) limits.max_templates source.templates all
          (AllOf-drop_last IsFilled source.templates all),
    )

    write_filled :
        (peer : Nf9State)
        → AllOf AreFilled peer.nf9
        → AllOf AreFilled (write_template peer source_id template_id (fill rs total)).nf9
    unfolding write_template
    write_filled peer all =
        AllOf-update_first AreFilled (is_source source_id) _ peer.nf9
          (λ s h.
            AllOf-update_first IsFilled (is_template template_id) (fill rs total) s.templates
              (λ t _. filled t) h)
          all

    new_filled :
        (peer : Nf9State) (found : Option Source)
        → lookup_source peer source_id ≡ found
        → AllOf AreFilled peer.nf9
        → AllOf AreFilled
            (write_template
              (grown_peer limits ok source_id template_id peer found)
              source_id
              template_id
              (fill rs total)).nf9
    unfolding write_template lookup_source
    new_filled peer none h all = rw (==-self source_id) (
      grown-IsFilled (fresh_source source_id) tt,
      room_inv (AllOf AreFilled) limits.max_sources peer.nf9 all
          (AllOf-drop_last AreFilled peer.nf9 all),
    )
    new_filled peer (some source) h all =
        rw (lookup_source-source_id limits ok peer source_id source h) (
          rw (==-self source_id) (
            grown-IsFilled source
                (AllOf-find_first AreFilled (is_source source_id) peer.nf9 source all h),
            AllOf-remove_first AreFilled (is_source source_id) peer.nf9 all,
          ))

    -- A template that is stored is filled in, and the others stay so.
    pub store_template-IsKnown :
        (peer : Nf9State)
        → IsKnown peer
        → (after : Nf9State) × (store_template peer limits source_id template_id rs total
            ≡ some after)
          × IsKnown after
    unfolding store_template
    store_template-IsKnown peer known =
        elim (Option-cases (find_template peer source_id template_id)) [
          | inr (t, e) ↦ (
            write_template peer source_id template_id (fill rs total),
            rw (e, store_template) refl,
            record {
              tracked =
                  write_template-IsTracked limits peer source_id template_id (fill rs total)
                    (λ t. refl) known.tracked;
              filled = write_filled peer known.filled;
            },
          )
          | inl e ↦
              let (made, d, tracked) =
                new_template-IsTracked limits ok peer source_id template_id known.tracked e in
              let same : grown_peer limits ok source_id template_id peer
                    (lookup_source peer source_id)
                  ≡ made =
                cc (d, new_template_lem limits ok peer source_id template_id known.tracked) in
              (
                write_template made source_id template_id (fill rs total),
                rw (e, store_template) (rw d refl),
                record {
                  tracked =
                      write_template-IsTracked limits made source_id template_id (fill rs total)
                        (λ t. refl) tracked;
                  filled =
                      subst
                        (λ p.
                          AllOf AreFilled
                            (write_template p source_id template_id (fill rs total)).nf9)
                        same (new_filled peer (lookup_source peer source_id) refl known.filled);
                },
              )
        ]
