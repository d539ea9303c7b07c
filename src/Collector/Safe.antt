-- ===== src/Collector/Safe.antt =====
-- NetFlow v.9 packets: copies stay within the packet and within the members of a flow.
use network_monitoring_emula.Common.{
  ℕ, zero, suc, ◌+◌, ◌-◌, ◌*◌, ◌/◌, ◌≤◌, ◌≡◌, ◌≢◌, refl, inl, inr, true, List, [], ◌∷◌, ltb, ◌==◌,
  length, drop, arith, Bool-cases, Option-cases, Option, none, some, sym, ap, ◌∙◌, leb→le, ==→eq,
}
use network_monitoring_emula.Common.Tailq.{AllOf, AllOf-find_first, find_first}
use mathlib.Core.Bool.{◌||◌}
use native.Mathlib.Nat.{div-mul-le_self}
use network_monitoring_emula.Common.{subst}
use network_monitoring_emula.Addr.{Xaddr}
use network_monitoring_emula.Store.{FlowComplete}
use network_monitoring_emula.Peer.{
  Nf9Record, Template, Nf9State, Limits, find_template, lookup_source, lookup_template, is_source,
  is_template,
}
use network_monitoring_emula.Peer.Table.{Timeval}
use network_monitoring_emula.Collector.Template.{
  Nf9Field, member_size, nf9_field, nf9_check_rec_len, within_member,
}
use network_monitoring_emula.Collector.Record.{copy_field, nf9_rec_to_flow, copy_known}
use network_monitoring_emula.Collector.Checked.{
  total_of, IsRecord, IsRecord-len, IsFilled, IsKnown, AreFilled,
}
use network_monitoring_emula.Collector.Nf9.{
  copied, copy_records, copy_flows, DataEnd, delivered, unknown, refused, process_data, start_flow,
  flow_cons, data_end, copy_all, with_template, nf9_header, no_records, division_by_zero,
  beyond_packet, beside_member,
}

copy_field-ne-none :
    (field : Nf9Field) (len : ℕ) (d : List ℕ) (f : FlowComplete)
    → len ≤ member_size field
    → copy_field field len d f ≢ none
unfolding copy_field
copy_field-ne-none Nf9Field.in_bytes len d f h = ground arith
copy_field-ne-none field len d f h = ground arith

known_field :
    (known : Option Nf9Field) (len : ℕ) (d : List ℕ) (f : FlowComplete)
    → within_member known len ≡ true
    → (f' : FlowComplete) × (copy_known known len d f ≡ some f')
unfolding copy_known within_member
known_field none len d f h = (f, refl)
known_field (some field) len d f h = elim (Option-cases (copy_field field len d f)) [
  | inl e ↦ absurd (copy_field-ne-none field len d f (leb→le len (member_size field) h) e)
  | inr found ↦ found
]

nf9_rec_to_flow-some :
    (r : Nf9Record) (d : List ℕ) (f : FlowComplete)
    → IsRecord r
    → (f' : FlowComplete) × (nf9_rec_to_flow r.type r.len d f ≡ some f')
unfolding nf9_rec_to_flow nf9_check_rec_len
nf9_rec_to_flow-some r d f h = known_field (nf9_field r.type) r.len d f (ground arith)

module _ (packet : List ℕ) where
  copy_records-copied :
      (rs : List Nf9Record) (offset : ℕ) (f : FlowComplete)
      → AllOf IsRecord rs
      → offset + total_of rs ≤ length packet
      → (f' : FlowComplete) × (copy_records packet rs offset f ≡ copied f')
  unfolding copy_records
  copy_records-copied [] offset f all fits = (f, refl)
  copy_records-copied (r ∷ rs) offset f all fits =
      let (g, e) = nf9_rec_to_flow-some r (drop offset packet) f all.0 in
      let (f', d) = copy_records-copied rs (offset + r.len) g all.1 (omega arith) in
      (f', ground (arith, e, d))

  module _ (tv : Timeval) (flow_source : Xaddr) where
    copy_flows-copied :
        (rs : List Nf9Record) (n offset : ℕ)
        → AllOf IsRecord rs
        → offset + n * total_of rs ≤ length packet
        → (fs : List FlowComplete) × (copy_flows packet tv flow_source rs (total_of rs) n offset
            ≡ copied fs)
          × (length fs ≡ n)
    unfolding copy_flows flow_cons
    copy_flows-copied rs zero offset all fits = ([], refl, refl)
    copy_flows-copied rs (suc n) offset all fits =
        let (f, e) =
          copy_records-copied rs offset (start_flow tv flow_source (nf9_header packet)) all
            (grind arith) in
        let (fs, d, same) = copy_flows-copied rs n (offset + total_of rs) all (grind arith) in
        (f ∷ fs, rw (e, copy_flows) (rw (d, copy_flows) refl), ap suc same)

module _ (limits : Limits) where
  find_template-IsFilled :
      (peer : Nf9State) (source_id template_id : ℕ) (t : Template)
      → IsKnown limits peer
      → find_template peer source_id template_id ≡ some t
      → IsFilled limits t
  unfolding find_template lookup_source lookup_template
  find_template-IsFilled peer source_id template_id t known e =
      elim (Option-cases (find_first (is_source source_id) peer.nf9)) [
        | inl missing ↦ cc (rw (missing, find_template) at e)
        | inr (source, found) ↦
            AllOf-find_first (IsFilled limits) (is_template template_id) source.templates t
              (AllOf-find_first (AreFilled limits) (is_source source_id) peer.nf9 source
                known.filled found)
              (rw (found, find_template) at e)
      ]

  -- The ends of a data flowset's handler that are safe, for the template that it has found.
  abbrev pub IsSafeData : Option Template → DataEnd → Type 0
  IsSafeData t (delivered fs) = length fs ≤ 0x4000
  IsSafeData t unknown = t ≡ none
  IsSafeData t (refused counted) = Unit {0}
  IsSafeData t no_records = ⊥
  IsSafeData t division_by_zero = (u : Template) × (t ≡ some u) × (u.records ≡ some [])
  IsSafeData t beyond_packet = ⊥
  IsSafeData t beside_member = ⊥

  no_records_of : (rs : List Nf9Record) → AllOf IsRecord rs → total_of rs ≡ 0 → rs ≡ []
  no_records_of [] all e = refl
  no_records_of (r ∷ rs) all e = absurd (omega (arith, IsRecord-len r all.0))

  module _ (packet : List ℕ) (tv : Timeval) (flow_source : Xaddr) where
    copy_all-IsSafeData :
        (t : Option Template) (rs : List Nf9Record) (n offset : ℕ)
        → AllOf IsRecord rs
        → offset + n * total_of rs ≤ length packet
        → IsSafeData t (copy_all packet tv flow_source rs (total_of rs) n offset)
    unfolding copy_all data_end
    copy_all-IsSafeData t rs n offset all fits =
        let (fs, e, same) = copy_flows-copied packet tv flow_source rs n offset all fits in
        elim (Bool-cases ((n == 0) || ltb 0x4000 n)) [
          | inl strange ↦ rw (strange, copy_all) tt
          | inr fine ↦ rw (fine, copy_all) (rw (e, copy_all) (ground (arith)))
        ]

    with_template-IsSafeData :
        (o : Option Template) (start len : ℕ) (t : Template)
        → o ≡ some t
        → IsFilled limits t
        → 4 ≤ len
        → start + len ≤ length packet
        → IsSafeData o (with_template packet tv flow_source start len (some t))
    unfolding with_template
    with_template-IsSafeData o start len t e filled long inside =
        rw (filled.given, with_template)
          (elim (Bool-cases (t.total_len == 0)) [
            | inl empty ↦
                rw (empty, with_template)
                  (
                    t,
                    e,
                    filled.given
                        ∙ ap some (
                            no_records_of filled.held filled.checked
                              (sym filled.totalled ∙ ==→eq t.total_len 0 empty)),
                  )
            | inr some_records ↦
                rw (some_records, with_template)
                  (rw filled.totalled (
                    copy_all-IsSafeData o filled.held ((len - 4) / total_of filled.held) (start + 4)
                      filled.checked
                      (omega (arith, div-mul-le_self (len - 4) (total_of filled.held)))))
          ])

    -- Where the peer's templates are in order and the flowset lies within the packet, its handler
    -- neither reads behind the packet nor writes beside the member of a flow, meets no template
    -- whose records are not there, delivers at most 16384 flows, and divides by zero only for a
    -- template of no records.
    pub process_data-IsSafeData :
        (start len flowset_id : ℕ) (peer : Nf9State)
        → IsKnown limits peer
        → start + len ≤ length packet
        → IsSafeData
            (find_template peer (nf9_header packet).source_id flowset_id)
            (process_data packet tv flow_source start len flowset_id peer)
    unfolding process_data with_template
    process_data-IsSafeData start len flowset_id peer known inside = elim (Bool-cases (ltb len 4)) [
      | inl short ↦ rw (short, process_data) tt
      | inr long ↦
          elim (Option-cases (find_template peer (nf9_header packet).source_id flowset_id)) [
            | inl missing ↦ rw (long, process_data) (rw (missing, process_data) refl)
            | inr (t, found) ↦
                rw (long, process_data)
                  (subst
                    (λ o.
                      IsSafeData (find_template peer (nf9_header packet).source_id flowset_id)
                        (with_template packet tv flow_source start len o))
                    (sym found)
                    (with_template-IsSafeData
                      (find_template peer (nf9_header packet).source_id flowset_id) start len t
                      found
                      (find_template-IsFilled peer (nf9_header packet).source_id flowset_id t known
                        found)
                      (ground arith) inside))
          ]
    ]
