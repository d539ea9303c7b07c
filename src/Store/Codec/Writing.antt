-- ===== src/Store/Codec/Writing.antt =====
-- What the serialiser leaves behind: the record and the bytes.
use mathlib.Core.List.{append-nil, append_assoc}
use network_monitoring_emula.Common.{
  ℕ, ◌+◌, ◌/◌, ◌%◌, ◌≤◌, ◌≡◌, refl, ap, sym, ◌∙◌, true, false, not, List, [], ◌∷◌, ◌++◌, length,
  length-append, if◌then◌else◌, ◌==◌, ltb, Bool-cases, inl, inr, arith,
}
use network_monitoring_emula.Common.Int.{ℤ, pos}
use network_monitoring_emula.Store.{FlowComplete, StoreFlow}
use network_monitoring_emula.Store.Field.{Field, has_field, body_fields}
use network_monitoring_emula.Store.Bytes.{Locals, hdr_bytes, field_bytes}
use network_monitoring_emula.Store.Crc32.{flowd_crc32_start, flowd_crc32_update}
use network_monitoring_emula.Store.Codec.{
  Result, ok, ◌>>=◌, ◌>>◌, fail_if, internal, buffer_size, flow_invalid, low_two_bits, exceeds,
  is_negative, magnitude, store_version, wfield, write_flow, store_calc_flow_len,
  store_flow_serialise,
}
use network_monitoring_emula.Store.Codec.Layout.{
  NoChecksum, sum_sizes, emit, wfields-emit, length-emit,
}
use network_monitoring_emula.Store.Codec.Known.{
  all_fields, IsKnown, sum_sizes-mod, sum_sizes-le, calc_flow_len-known,
}
use network_monitoring_emula.Store.Codec.Switches.{Switches}

pub emit-append :
    (m : ℕ) (f : FlowComplete) (v : Locals) (xs ys : List Field)
    → emit m f v (xs ++ ys) ≡ emit m f v xs ++ emit m f v ys
emit-append m f v [] ys = refl
emit-append m f v (x ∷ xs) ys =
    ap (◌++◌ (if has_field m x then field_bytes f v x else [])) (emit-append m f v xs ys)
    ∙ sym (
        append_assoc (if has_field m x then field_bytes f v x else []) (emit m f v xs)
          (emit m f v ys))

-- The fields before the checksum show neither the header nor the checksum.
pub emit_same :
    (m : ℕ) (f : FlowComplete) (v : Locals) (h : StoreFlow) (c : ℕ)
    → emit m (record f { hdr = h; crc32 = c }) v body_fields ≡ emit m f v body_fields
unfolding field_bytes
emit_same m f v h c = refl

wfield_lem :
    (m : ℕ) (f : FlowComplete) (v : Locals) (x : Field) (out : List ℕ) (crc : ℕ)
    → (wfield m f v x (out, crc)).0 ≡ out ++ emit m f v (x ∷ [])
unfolding wfield
wfield_lem m f v x out crc = elim (Bool-cases (has_field m x)) [
  | inl set ↦ rw set (ap (◌++◌ out) (sym (append-nil (field_bytes f v x))))
  | inr unset ↦ rw unset (sym (append-nil out))
]

pub length-hdr_bytes : (h : StoreFlow) → length (hdr_bytes h) ≡ 8
unfolding hdr_bytes
length-hdr_bytes h = refl

pub NoChecksum-body : NoChecksum body_fields
NoChecksum-body = (
  refl,
  (
    refl,
    (
      refl,
      (
        refl,
        (
          refl,
          (
            refl,
            (
              refl,
              (
                refl,
                (
                  refl,
                  (
                    refl,
                    (refl, (refl, (refl, (refl, (refl, (refl, (refl, (refl, (refl, tt))))))))),
                  ),
                ),
              ),
            ),
          ),
        ),
      ),
    ),
  ),
)

module _ (f : FlowComplete) (v : Locals) (m : ℕ) where
  abbrev pub header : StoreFlow
  header = record {
    version = store_version;
    len_words = sum_sizes m all_fields / 4 % 256;
    reserved = 0;
    fields = m;
  }

  abbrev pub checksum : ℕ
  checksum =
      flowd_crc32_update (emit m f v body_fields)
        (flowd_crc32_update (hdr_bytes header) flowd_crc32_start)

  abbrev pub written : FlowComplete
  written = record f { hdr = header; crc32 = if has_field m Field.crc32 then checksum else f.crc32 }

  abbrev pub written_bytes : List ℕ
  written_bytes = hdr_bytes header ++ emit m written v all_fields

  -- The code after the WFIELD lines of the body.
  abbrev finish : ℕ → List ℕ × ℕ → Result (FlowComplete × List ℕ)
  finish len body =
      let g = record f {
        hdr = header;
        crc32 = if has_field m Field.crc32 then body.1 else f.crc32;
      } in
      let all = wfield m g v Field.crc32 body in
      fail_if (not (len + 8 == length all.0)) internal >> ok (g, all.0)

  pub length-written_bytes : length written_bytes ≡ sum_sizes m all_fields + 8
  length-written_bytes = omega (
    arith,
    length-append (hdr_bytes header) (emit m written v all_fields),
    length-hdr_bytes header,
    length-emit m written v all_fields,
  )

  -- The bytes of the body, then the checksum.
  pub written_bytes-split :
      written_bytes
      ≡ (hdr_bytes header ++ emit m f v body_fields) ++ emit m written v (Field.crc32 ∷ [])
  written_bytes-split =
      ap (◌++◌ (hdr_bytes header)) (
        emit-append m written v body_fields (Field.crc32 ∷ [])
        ∙ ap (λ (t : List ℕ). t ++ emit m written v (Field.crc32 ∷ []))
            (emit_same m f v header (if has_field m Field.crc32 then checksum else f.crc32)))
      ∙ sym (
          append_assoc (hdr_bytes header) (emit m f v body_fields)
            (emit m written v (Field.crc32 ∷ [])))

  finish_lem :
      finish (sum_sizes m all_fields) (hdr_bytes header ++ emit m f v body_fields, checksum)
      ≡ ok (written, written_bytes)
  finish_lem =
      ap
        (λ (t : List ℕ).
          fail_if (not (sum_sizes m all_fields + 8 == length t)) internal >> ok (written, t))
        (wfield_lem m written v Field.crc32 (hdr_bytes header ++ emit m f v body_fields) checksum
          ∙ sym written_bytes-split)
      ∙ passed (sum_sizes m all_fields + 8) (length written_bytes) (ok (written, written_bytes))
          (sym length-written_bytes)
    where
      passed :
          (a b : ℕ) (r : Result (FlowComplete × List ℕ))
          → a ≡ b
          → (fail_if (not (a == b)) internal >> r) ≡ r
      passed a b r e = let t : (a == b) ≡ true = ground arith in rw t refl

  write_flow_lem :
      (a b : ℕ)
      → write_flow
          (record f {
            hdr = record { version = store_version; len_words = a; reserved = b; fields = m };
          })
          v
          (sum_sizes m all_fields)
        ≡ ok (written, written_bytes)
  unfolding write_flow
  write_flow_lem a b =
      let h : StoreFlow = record {
        version = store_version;
        len_words = a;
        reserved = b;
        fields = m;
      } in
      let start = flowd_crc32_update (hdr_bytes header) flowd_crc32_start in
      ap (finish (sum_sizes m all_fields)) (
        wfields-emit m (record f { hdr = h }) v body_fields (hdr_bytes header) start no_checksum
        ∙ ap (λ (t : List ℕ). (hdr_bytes header ++ t, flowd_crc32_update t start))
            (emit_same m f v h f.crc32))
      ∙ finish_lem
    where
      no_checksum : NoChecksum body_fields
      no_checksum = NoChecksum-body

-- The three tests on the length pass.
length_passes :
    {B : Type 0} (n buflen : ℕ) (r : Result B)
    → n % 4 ≡ 0
    → n ≤ buflen
    → (fail_if (not (low_two_bits (pos n) == 0)) internal
        >> (fail_if (exceeds (pos n) buflen) buffer_size
            >> (fail_if (is_negative (pos n)) flow_invalid >> r)))
      ≡ r
length_passes n buflen r e h = let t : ltb buflen n ≡ false = ground arith in rw (e, t) refl

-- With known flags and a buffer of 176 bytes or more the serialiser succeeds.
pub serialise_written :
    (f : FlowComplete) (stack : Locals) (buflen : ℕ) (s : Switches f stack)
    → IsKnown s.mask
    → 176 ≤ buflen
    → store_flow_serialise f stack buflen
      ≡ ok (written f s.locals s.mask, written_bytes f s.locals s.mask)
unfolding store_flow_serialise
serialise_written f stack buflen s k h =
    ap
      (λ (t : Result (ℕ × Locals)).
        t >>= (λ (w : ℕ × Locals). tests w (store_calc_flow_len (hdr_of w))))
      s.returns
    ∙ ap (tests (s.mask, s.locals)) (calc_flow_len-known (hdr_of (s.mask, s.locals)) k)
    ∙ length_passes (sum_sizes s.mask all_fields) buflen _ (sum_sizes-mod s.mask all_fields)
        (let b = sum_sizes-le s.mask in omega (arith, b))
    ∙ write_flow_lem f s.locals s.mask f.hdr.len_words f.hdr.reserved
  where
    hdr_of : ℕ × Locals → StoreFlow
    hdr_of w = record (f.hdr) { version = store_version; fields = w.0 }

    tests : ℕ × Locals → ℤ → Result (FlowComplete × List ℕ)
    tests w len =
        fail_if (not (low_two_bits len == 0)) internal
        >> (fail_if (exceeds len buflen) buffer_size
            >> (fail_if (is_negative len) flow_invalid
                >> write_flow (record f { hdr = hdr_of w }) w.1 (magnitude len)))
