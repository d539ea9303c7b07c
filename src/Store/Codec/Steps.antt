-- ===== src/Store/Codec/Steps.antt =====
-- The steps of the deserialiser over the bytes of fields.
use network_monitoring_emula.Common.{
  ℕ, ◌+◌, ◌-◌, ◌*◌, ◌^◌, ◌≤◌, ◌<◌, ◌≡◌, refl, ap, sym, ◌∙◌, Bool, false, not, ◌&&◌, List, [], ◌∷◌,
  ◌++◌, length, take, if◌then◌else◌, ◌==◌, ltb, Bool-cases, if_true, if_false, subst, inl, inr,
  arith,
}
use network_monitoring_emula.Common.Flags.{without_bit}
use network_monitoring_emula.Store.{FlowComplete, StoreFlow, zero_flow}
use network_monitoring_emula.Store.Field.{Field, bit, has_field, body_fields}
use network_monitoring_emula.Store.Bytes.{Locals, hdr_bytes, hdr_from, field_bytes, put_field}
use network_monitoring_emula.Store.Crc32.{flowd_crc32_start, flowd_crc32_update}
use network_monitoring_emula.Store.Codec.{
  StoreError, internal, known_fields, Result, ok, ◌>>=◌, ◌>>◌, fail_if, Reading, no_locals,
  copy_addrs, both, rfield, rfields, finish_reading, store_flow_deserialise, major, minor,
  unsup_version, buffer_size, other_error, crc_mismatch,
}
use network_monitoring_emula.Store.Codec.Layout.{NoChecksum, AgreeFrom, clear_all, Ascending, emit}
use network_monitoring_emula.Store.Codec.Chunks.{
  put_all, after_fields, rfields-emit, rfield-chunk, rfield_absent,
}
use network_monitoring_emula.Store.Codec.Copy.{from_be1, from_be2, from_be4}

-- A header whose numbers fit is read back.
pub hdr_from-bytes :
    (h : StoreFlow)
    → h.version < 2 ^ 8
    → h.len_words < 2 ^ 8
    → h.reserved < 2 ^ 16
    → h.fields < 2 ^ 32
    → hdr_from (hdr_bytes h) ≡ h
unfolding hdr_from hdr_bytes
hdr_from-bytes h a b c d = λ i. record {
  version = from_be1 h.version a i;
  len_words = from_be1 h.len_words b i;
  reserved = from_be2 h.reserved c i;
  fields = from_be4 h.fields d i;
}

pub Ascending-body : Ascending 0 body_fields
Ascending-body = omega arith

ltb-false : (m n : ℕ) → n ≤ m → ltb m n ≡ false
ltb-false m n h = ground arith

pub not-same : (m n : ℕ) → m ≡ n → not (m == n) ≡ false
not-same m n h = ground arith

passes3 :
    {B : Type 0} (a b c : Bool) (d e f : StoreError) (r : Result B)
    → a ≡ false
    → b ≡ false
    → c ≡ false
    → (fail_if a d >> (fail_if b e >> (fail_if c f >> r))) ≡ r
passes3 a b c d e f r h k l = rw (h, k, l) refl

-- The steps of `store_flow_deserialise` up to the unknown fields.
pub deserialise-body :
    (buf : List ℕ) (hdr : StoreFlow) (r : Reading)
    → 8 ≤ length buf
    → hdr_from (take 8 buf) ≡ hdr
    → major hdr.version ≡ 3
    → hdr.len_words * 4 ≤ length buf - 8
    → rfields buf hdr.fields body_fields (record {
      offset = 8;
      crc = flowd_crc32_update (take 8 buf) flowd_crc32_start;
      donefields = hdr.fields;
      values = (record zero_flow { hdr = hdr }, no_locals);
    })
      ≡ ok r
    → store_flow_deserialise buf ≡ finish_reading buf hdr r
unfolding store_flow_deserialise
deserialise-body buf hdr r h e d l b =
    ap (form (ltb (length buf) 8)) e
    ∙ passes3 _ _ _ buffer_size unsup_version buffer_size (reading hdr) (ltb-false _ _ h)
        (not-same _ _ d) (ltb-false _ _ l)
    ∙ ap (λ (t : Result Reading). t >>= (λ (q : Reading). finish_reading buf hdr q)) b
  where
    reading : StoreFlow → Result FlowComplete
    reading k =
        rfields buf k.fields body_fields (record {
          offset = 8;
          crc = flowd_crc32_update (take 8 buf) flowd_crc32_start;
          donefields = k.fields;
          values = (record zero_flow { hdr = k }, no_locals);
        })
        >>= (λ (q : Reading). finish_reading buf k q)

    form : Bool → StoreFlow → Result FlowComplete
    form short k =
        fail_if short buffer_size
        >> (fail_if (not (major k.version == 3)) unsup_version
            >> (fail_if (ltb (length buf - 8) (k.len_words * 4)) buffer_size >> reading k))

-- The steps from the unknown fields on, when there are none.
pub finish-known :
    (buf : List ℕ) (hdr : StoreFlow) (r r' : Reading)
    → without_bit r.donefields 30 ≡ 0
    → rfield buf hdr.fields Field.crc32 r ≡ ok r'
    → both hdr.fields Field.agent_addr4 Field.agent_addr6 ≡ false
    → both hdr.fields Field.src_addr4 Field.src_addr6 ≡ false
    → both hdr.fields Field.dst_addr4 Field.dst_addr6 ≡ false
    → both hdr.fields Field.gateway_addr4 Field.gateway_addr6 ≡ false
    → (has_field hdr.fields Field.crc32 && not (r'.crc == (copy_addrs hdr.fields r'.values).crc32))
      ≡ false
    → finish_reading buf hdr r ≡ ok (copy_addrs hdr.fields r'.values)
unfolding finish_reading
finish-known buf hdr r r' z e a s d g c =
    ap form (not-same (without_bit r.donefields 30) 0 z)
    ∙ ap (λ (t : Result Reading). t >>= tests hdr.fields) e
    ∙ passes3 _ _ _ other_error other_error other_error _ a s d
    ∙ passes3 _ _ false other_error crc_mismatch internal _ g c refl
  where
    tests : ℕ → Reading → Result FlowComplete
    tests fields q =
        fail_if (both fields Field.agent_addr4 Field.agent_addr6) other_error
        >> (fail_if (both fields Field.src_addr4 Field.src_addr6) other_error
            >> (fail_if (both fields Field.dst_addr4 Field.dst_addr6) other_error
                >> (fail_if (both fields Field.gateway_addr4 Field.gateway_addr6) other_error
                    >> (fail_if
                          (has_field fields Field.crc32
                            && not (q.crc == (copy_addrs fields q.values).crc32))
                          crc_mismatch
                        >> ok (copy_addrs fields q.values)))))

    form : Bool → Result FlowComplete
    form unknown =
        fail_if (unknown && not (ltb 0 (minor hdr.version))) other_error
        >> (rfield buf (if unknown then known_fields hdr.fields else hdr.fields) Field.crc32
              (record r { offset = if unknown then hdr.len_words * 4 + 8 - 4 else r.offset })
            >>= tests (if unknown then known_fields hdr.fields else hdr.fields))

-- The RFIELD lines of a list, from a given offset.
pub rfields_at :
    (m : ℕ) (g : FlowComplete) (v : Locals) (xs : List Field) (buf pre post : List ℕ)
    (o n crc d : ℕ) (w : FlowComplete × Locals)
    → length pre ≡ o
    → buf ≡ pre ++ (emit m g v xs ++ post)
    → Ascending n xs
    → NoChecksum xs
    → AgreeFrom n d m
    → rfields buf m xs (record { offset = o; crc = crc; donefields = d; values = w })
      ≡ ok (after_fields m g v xs o crc d w)
rfields_at m g v xs buf pre post o n crc d w l e a c h =
    subst
      (λ (t : ℕ).
        rfields buf m xs (record { offset = t; crc = crc; donefields = d; values = w })
        ≡ ok (after_fields m g v xs t crc d w))
      l (rfields-emit m g v xs buf pre post n crc d w e a c h)

-- The RFIELD line of the checksum.
pub crc_read :
    (m : ℕ) (g : FlowComplete) (v : Locals) (buf pre : List ℕ) (r : Reading)
    → buf ≡ pre ++ emit m g v (Field.crc32 ∷ [])
    → r.offset ≡ length pre
    → (r' : Reading) × (rfield buf m Field.crc32 r ≡ ok r')
      × (r'.crc ≡ r.crc)
      × (r'.values ≡ put_all m g v (Field.crc32 ∷ []) r.values)
crc_read m g v buf pre r e o = elim (Bool-cases (has_field m Field.crc32)) [
  | inl set ↦ (
    record {
      offset = r.offset + 4;
      crc = r.crc;
      donefields = without_bit r.donefields 30;
      values = put_field Field.crc32 (field_bytes g v Field.crc32) r.values;
    },
    ap (λ (t : List ℕ). rfield t m Field.crc32 r)
          (e
            ∙ ap (λ (t : List ℕ). pre ++ (t ++ []))
                (if_true _ (field_bytes g v Field.crc32) [] set))
        ∙ rfield-chunk m g v Field.crc32 pre [] r set o
        ∙ rw set refl,
    refl,
    sym (if_true _ _ r.values set),
  )
  | inr unset ↦ (
    r,
    rfield_absent m g v buf Field.crc32 r unset,
    refl,
    sym (if_false _ (put_field Field.crc32 (field_bytes g v Field.crc32) r.values) _ unset),
  )
]

pub put_all-append :
    (m : ℕ) (g : FlowComplete) (v : Locals) (xs ys : List Field) (w : FlowComplete × Locals)
    → put_all m g v (xs ++ ys) w ≡ put_all m g v ys (put_all m g v xs w)
put_all-append m g v [] ys w = refl
put_all-append m g v (x ∷ xs) ys w =
    put_all-append m g v xs ys (if has_field m x then put_field x (field_bytes g v x) w else w)

pub clear_all-append :
    (xs ys : List Field) (m : ℕ) → clear_all (xs ++ ys) m ≡ clear_all ys (clear_all xs m)
clear_all-append [] ys m = refl
clear_all-append (x ∷ xs) ys m = clear_all-append xs ys (without_bit m (bit x))
