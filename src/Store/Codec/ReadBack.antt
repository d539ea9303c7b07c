-- ===== src/Store/Codec/ReadBack.antt =====
-- What the deserialiser makes of a header and the bytes of the fields that it names.
use network_monitoring_emula.Common.{
  ℕ, ◌+◌, ◌-◌, ◌*◌, ◌^◌, ◌≤◌, ◌<◌, ◌≡◌, refl, ap, sym, ◌∙◌, Bool, true, false, not, ◌&&◌, List, [],
  ◌∷◌, ◌++◌, length, length-append, take, take-append, if◌then◌else◌, ◌==◌, arith,
}
use network_monitoring_emula.Store.{FlowComplete, StoreFlow, zero_flow}
use network_monitoring_emula.Store.Field.{Field, has_field, body_fields}
use mathlib.Core.List.{append_assoc}
use network_monitoring_emula.Store.Bytes.{Locals, hdr_bytes, hdr_from}
use network_monitoring_emula.Store.Crc32.{flowd_crc32_start, flowd_crc32_update}
use network_monitoring_emula.Store.Codec.{
  ok, Reading, no_locals, copy_addrs, both, rfields, store_flow_deserialise, major,
}
use network_monitoring_emula.Store.Codec.Layout.{sum_sizes, length-emit, emit}
use network_monitoring_emula.Store.Codec.Chunks.{after_fields}
use network_monitoring_emula.Store.Codec.Copy.{IsFlow, IsLocals, copy_all, put_all-copy}
use network_monitoring_emula.Store.Codec.Known.{all_fields, IsKnown, clear_all-known}
use network_monitoring_emula.Store.Codec.Writing.{NoChecksum-body, length-hdr_bytes}
use network_monitoring_emula.Store.Codec.Steps.{
  hdr_from-bytes, Ascending-body, deserialise-body, finish-known, rfields_at, crc_read,
  put_all-append, clear_all-append, not-same,
}

-- A header that the reader accepts.
pub record IsHeader (h : StoreFlow) : Type 0 where
  pub version_fits : h.version < 2 ^ 8
  pub len_words_fits : h.len_words < 2 ^ 8
  pub reserved_fits : h.reserved < 2 ^ 16
  pub fields_fits : h.fields < 2 ^ 32
  pub supported : major h.version ≡ 3
  pub known : IsKnown h.fields

-- No address has both of its flags.
pub record OneEach (m : ℕ) : Type 0 where
  pub agent : both m Field.agent_addr4 Field.agent_addr6 ≡ false
  pub src : both m Field.src_addr4 Field.src_addr6 ≡ false
  pub dst : both m Field.dst_addr4 Field.dst_addr6 ≡ false
  pub gateway : both m Field.gateway_addr4 Field.gateway_addr6 ≡ false

copied_crc32 :
    (m : ℕ) (g : FlowComplete) (v : Locals) (w : FlowComplete × Locals)
    → (copy_addrs m (copy_all g v m all_fields w)).crc32
      ≡ (if has_field m Field.crc32 then g.crc32 else w.0.crc32)
unfolding copy_addrs
copied_crc32 m g v w = refl

-- The comparison of the checksums passes.
same_checksum :
    (b : Bool) (read sum start stored none_stored : ℕ)
    → read ≡ (if b then sum else start)
    → stored ≡ (if b then sum else none_stored)
    → (b && not (read == stored)) ≡ false
same_checksum true read sum start stored none_stored e d = not-same read stored (e ∙ sym d)
same_checksum false read sum start stored none_stored e d = refl

body_offset :
    (m : ℕ) (g : FlowComplete) (v : Locals) (xs : List Field) (h : StoreFlow)
    → 8 + sum_sizes m xs ≡ length (hdr_bytes h ++ emit m g v xs)
body_offset m g v xs h =
    omega
      (arith, length-append (hdr_bytes h) (emit m g v xs), length-hdr_bytes h, length-emit m g v xs)

module _ (h : StoreFlow) (g : FlowComplete) (v : Locals) (buf : List ℕ) where
  abbrev crc_start : ℕ
  crc_start = flowd_crc32_update (hdr_bytes h) flowd_crc32_start

  abbrev crc_body : ℕ
  crc_body = flowd_crc32_update (emit h.fields g v body_fields) crc_start

  abbrev pub first_values : FlowComplete × Locals
  first_values = (record zero_flow { hdr = h }, no_locals)

  abbrev body_bytes : List ℕ
  body_bytes = emit h.fields g v body_fields

  abbrev after_body : Reading
  after_body = after_fields h.fields g v body_fields 8 crc_start h.fields first_values

  pub read_back :
      IsHeader h
      → OneEach h.fields
      → IsFlow g
      → IsLocals v
      → buf ≡ hdr_bytes h ++ (body_bytes ++ emit h.fields g v (Field.crc32 ∷ []))
      → h.len_words * 4 ≤ length buf - 8
      → (if has_field h.fields Field.crc32 then g.crc32 else 0)
        ≡ (if has_field h.fields Field.crc32 then crc_body else 0)
      → store_flow_deserialise buf
        ≡ ok (copy_addrs h.fields (copy_all g v h.fields all_fields first_values))
  read_back i o wf wl e l c =
      let tail = emit h.fields g v (Field.crc32 ∷ []) in
      let long : 8 ≤ length buf = omega (
        arith,
        ap length e,
        length-append (hdr_bytes h) (body_bytes ++ tail),
        length-hdr_bytes h,
      ) in
      let first : take 8 buf ≡ hdr_bytes h =
        ap (take 8) e
        ∙ ap (λ (n : ℕ). take n (hdr_bytes h ++ (body_bytes ++ tail))) (sym (length-hdr_bytes h))
        ∙ take-append (hdr_bytes h) (body_bytes ++ tail) in
      let header_read =
        ap hdr_from first
        ∙ hdr_from-bytes h i.version_fits i.len_words_fits i.reserved_fits i.fields_fits in
      let body_read =
        rfields_at h.fields g v body_fields buf (hdr_bytes h) tail 8 0 crc_start h.fields
          first_values (length-hdr_bytes h) e Ascending-body NoChecksum-body (λ j p. refl) in
      let (r, read, crc_same, values_same) =
        crc_read h.fields g v buf (hdr_bytes h ++ body_bytes) after_body
          (e ∙ sym (append_assoc (hdr_bytes h) body_bytes tail))
          (body_offset h.fields g v body_fields h) in
      let values =
        values_same
        ∙ sym (put_all-append h.fields g v body_fields (Field.crc32 ∷ []) first_values)
        ∙ put_all-copy g v h.fields all_fields first_values wf wl in
      let cleared =
        sym (clear_all-append body_fields (Field.crc32 ∷ []) h.fields)
        ∙ clear_all-known h.fields i.known in
      let sums =
        same_checksum (has_field h.fields Field.crc32) r.crc crc_body crc_start
          (copy_addrs h.fields r.values).crc32 0 crc_same
          (ap (λ (w : FlowComplete × Locals). (copy_addrs h.fields w).crc32) values
            ∙ copied_crc32 h.fields g v first_values
            ∙ c) in
      deserialise-body buf h after_body long header_read i.supported l (
        ap
          (λ (t : ℕ).
            rfields buf h.fields body_fields
              (record { offset = 8; crc = t; donefields = h.fields; values = first_values }))
          (ap (λ (t : List ℕ). flowd_crc32_update t flowd_crc32_start) first)
        ∙ body_read)
      ∙ finish-known buf h after_body r cleared read o.agent o.src o.dst o.gateway sums
      ∙ ap (λ (w : FlowComplete × Locals). ok (copy_addrs h.fields w)) values
