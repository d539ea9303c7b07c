-- ===== src/Store/Codec.antt =====
-- flowd/store.c: a flow record to bytes and back.
--
-- A failing branch is `fail` with the STORE_ERR_ code; the message for the caller is not modelled.
-- `over_read` is a copy from behind the bytes that the caller has supplied, which the code does not
-- test for. The locals that the serialiser has not assigned hold what the stack held: a parameter.
pub mod Layout
pub mod Chunks
pub mod Copy
pub mod Known
pub mod Addrs
pub mod Switches
pub mod Writing
pub mod Steps
pub mod Stored
pub mod ReadBack
pub mod RoundTrip
pub mod Masked
use network_monitoring_emula.Common.{
  ℕ, zero, suc, ◌+◌, ◌-◌, ◌*◌, ◌/◌, ◌%◌, ◌^◌, bit_and, Bool, true, false, not, ◌&&◌, ◌||◌, List, [],
  ◌∷◌, ◌++◌, length, take, drop, ltb, leb, ◌==◌, if◌then◌else◌,
}
use network_monitoring_emula.Common.Int.{ℤ, pos, negsuc}
use network_monitoring_emula.Addr.{Xaddr, Family, inet, inet6, other, Quad, zero_quad}
use network_monitoring_emula.Store.{
  FlowComplete, StoreFlow, zero_flow, has_bit, with_bit, without_bit, zero_xaddr,
}
use network_monitoring_emula.Store.Field
use network_monitoring_emula.Store.Field.{Field, bit, size, body_fields, has_field}
use network_monitoring_emula.Store.Bytes.{Locals, hdr_bytes, hdr_from, field_bytes, put_field}
use network_monitoring_emula.Store.Crc32.{flowd_crc32_start, flowd_crc32_update}

-- The error codes that these functions return; `other_error` is -1.
pub data StoreError : Type 0 where
  eof unsup_version buffer_size flow_invalid crc_mismatch internal io other_error : StoreError

pub data Result {ℓ} (A : Type ℓ) : Type ℓ where
  ok : A → Result A
  fail : StoreError → Result A
  over_read : Result A

infixl 5 ◌>>=◌ ◌>>◌
abbrev pub ◌>>=◌ {ℓ κ} : {A : Type ℓ} {B : Type κ} → Result A → (A → Result B) → Result B
ok a >>= f = f a
fail e >>= f = fail e
over_read >>= f = over_read

abbrev pub ◌>>◌ {ℓ} : {B : Type ℓ} → Result (Unit {0}) → Result B → Result B
m >> k = m >>= λ _. k

-- SFAILX under a test.
abbrev pub fail_if : Bool → StoreError → Result (Unit {0})
fail_if true e = fail e
fail_if false e = ok tt

-- STORE_VER_GET_MAJ, STORE_VER_GET_MIN and STORE_VERSION
abbrev pub major : ℕ → ℕ
major version = version / 2 ^ 5 % 2 ^ 3

abbrev pub minor : ℕ → ℕ
minor version = version % 2 ^ 5

abbrev pub store_version : ℕ
store_version = 3 * 2 ^ 5

-- The ADDFIELD lines of `store_calc_flow_len`: the length so far and the flags left.
unfoldable pub add_fields : List Field → ℕ × ℕ → ℕ × ℕ
add_fields [] acc = acc
add_fields (x ∷ xs) (len, fields) =
    add_fields xs
      (if has_field fields x then (len + size x, without_bit fields (bit x)) else (len, fields))

unfoldable pub store_calc_flow_len : StoreFlow → ℤ
unfolding add_fields
store_calc_flow_len hdr =
    let r = add_fields (body_fields ++ Field.crc32 ∷ []) (0, hdr.fields) in
    if not (r.1 == 0) then negsuc 0 else pos r.0

-- The state of the RFIELD lines.
pub record Reading : Type 0 where
  pub offset : ℕ
  pub crc : ℕ
  pub donefields : ℕ
  pub values : FlowComplete × Locals

-- RFIELD. The checksum covers every field but itself.
unfoldable pub rfield : List ℕ → ℕ → Field → Reading → Result Reading
rfield buf fields x r =
    if not (has_field fields x)
    then ok r
    else if ltb (length buf) (r.offset + size x)
    then over_read
    else let bs = take (size x) (drop r.offset buf) in
      ok (record {
        offset = r.offset + size x;
        crc =
            if has_field fields Field.crc32 && not (bit x == 30)
            then flowd_crc32_update bs r.crc
            else r.crc;
        donefields = without_bit r.donefields (bit x);
        values = put_field x bs r.values;
      })

unfoldable pub rfields : List ℕ → ℕ → List Field → Reading → Result Reading
unfolding rfield
rfields buf fields [] r = ok r
rfields buf fields (x ∷ xs) r = do r' ← rfield buf fields x r; rfields buf fields xs r'

-- The locals of the deserialiser are read only after they are assigned; they start as zero here.
abbrev pub no_locals : Locals
no_locals = record {
  aa4 = 0;
  aa6 = zero_quad;
  sa4 = 0;
  sa6 = zero_quad;
  da4 = 0;
  da6 = zero_quad;
  ga4 = 0;
  ga6 = zero_quad;
}

-- S_CPYADDR for the IPv4 and the IPv6 field of one address; the scope is left as it is.
abbrev pub copy_addr : Bool → Bool → ℕ → Quad → Xaddr → Xaddr
copy_addr has4 has6 v4 v6 a =
    if has6
    then record { af = inet6; addr32 = v6; scope_id = a.scope_id }
    else if has4
    then record { af = inet; addr32 = record (a.addr32) { w0 = v4 }; scope_id = a.scope_id }
    else a

-- The two tests and copies of the four addresses.
unfoldable pub both : ℕ → Field → Field → Bool
both fields x y = has_field fields x && has_field fields y

unfoldable pub copy_addrs : ℕ → FlowComplete × Locals → FlowComplete
copy_addrs fields (f, v) = record f {
  agent_addr =
      copy_addr (has_field fields Field.agent_addr4) (has_field fields Field.agent_addr6) v.aa4
        v.aa6 f.agent_addr;
  src_addr =
      copy_addr (has_field fields Field.src_addr4) (has_field fields Field.src_addr6) v.sa4 v.sa6
        f.src_addr;
  dst_addr =
      copy_addr (has_field fields Field.dst_addr4) (has_field fields Field.dst_addr6) v.da4 v.da6
        f.dst_addr;
  gateway_addr =
      copy_addr (has_field fields Field.gateway_addr4) (has_field fields Field.gateway_addr6) v.ga4
        v.ga6 f.gateway_addr;
}

-- STORE_FIELD_ALL: the 19 low flags and the checksum's.
abbrev pub known_fields : ℕ → ℕ
known_fields fields = fields % 2 ^ 19 + (if has_bit fields 30 then 2 ^ 30 else 0)

-- From the unknown fields on, where `offset` and `fields` may change.
unfoldable pub finish_reading : List ℕ → StoreFlow → Reading → Result FlowComplete
unfolding rfield copy_addrs both
finish_reading buf hdr r = do
  let unknown = not (without_bit r.donefields 30 == 0)
  fail_if (unknown && not (ltb 0 (minor hdr.version))) other_error
  let fields = if unknown then known_fields hdr.fields else hdr.fields
  let offset = if unknown then hdr.len_words * 4 + 8 - 4 else r.offset
  r' ← rfield buf fields Field.crc32 (record r { offset = offset })
  fail_if (both fields Field.agent_addr4 Field.agent_addr6) other_error
  fail_if (both fields Field.src_addr4 Field.src_addr6) other_error
  fail_if (both fields Field.dst_addr4 Field.dst_addr6) other_error
  fail_if (both fields Field.gateway_addr4 Field.gateway_addr6) other_error
  let f = copy_addrs fields r'.values
  fail_if (has_field fields Field.crc32 && not (r'.crc == f.crc32)) crc_mismatch
  ok f

-- `len` is the length of `buf`.
unfoldable pub store_flow_deserialise : List ℕ → Result FlowComplete
unfolding hdr_from rfields finish_reading
store_flow_deserialise buf = do
  fail_if (ltb (length buf) 8) buffer_size
  let hdr = hdr_from (take 8 buf)
  fail_if (not (major hdr.version == 3)) unsup_version
  fail_if (ltb (length buf - 8) (hdr.len_words * 4)) buffer_size
  r ← rfields buf hdr.fields body_fields (record {
    offset = 8;
    crc = flowd_crc32_update (take 8 buf) flowd_crc32_start;
    donefields = hdr.fields;
    values = (record zero_flow { hdr = hdr }, no_locals);
  })
  finish_reading buf hdr r

-- The switch on one address: the flags that stay, and the two locals, `v4` and `v6` before.
unfoldable pub fix_addr : Xaddr → Field → Field → ℕ → ℕ → Quad → Result (ℕ × ℕ × Quad)
fix_addr a x4 x6 fields v4 v6 = elim a.af [
  | inet ↦
      if has_field fields x4
      then ok (without_bit fields (bit x6), a.addr32.w0, v6)
      else ok (fields, v4, v6)
  | inet6 ↦
      if has_field fields x6
      then ok (without_bit fields (bit x4), v4, a.addr32)
      else ok (fields, v4, v6)
  | other _ ↦
      if has_field fields x4 || has_field fields x6 then fail flow_invalid else ok (fields, v4, v6)
]

unfoldable pub fix_addrs : FlowComplete → Locals → Result (ℕ × Locals)
unfolding fix_addr
fix_addrs f v = do
  (fields_a, aa4, aa6) ←
      fix_addr f.agent_addr Field.agent_addr4 Field.agent_addr6 f.hdr.fields v.aa4 v.aa6
  (fields_s, sa4, sa6) ← fix_addr f.src_addr Field.src_addr4 Field.src_addr6 fields_a v.sa4 v.sa6
  (fields_d, da4, da6) ← fix_addr f.dst_addr Field.dst_addr4 Field.dst_addr6 fields_s v.da4 v.da6
  (fields_g, ga4, ga6) ←
      fix_addr f.gateway_addr Field.gateway_addr4 Field.gateway_addr6 fields_d v.ga4 v.ga6
  ok (
    fields_g,
    record {
      aa4 = aa4;
      aa6 = aa6;
      sa4 = sa4;
      sa6 = sa6;
      da4 = da4;
      da6 = da6;
      ga4 = ga4;
      ga6 = ga6;
    },
  )

-- `len & 3`, `len > buflen` and `len == -1` for the result of `store_calc_flow_len`.
abbrev pub low_two_bits : ℤ → ℕ
low_two_bits (pos n) = n % 4
low_two_bits (negsuc n) = 3 - n % 4

abbrev pub exceeds : ℤ → ℕ → Bool
exceeds (pos n) m = ltb m n
exceeds (negsuc n) m = false

abbrev pub is_negative : ℤ → Bool
is_negative (pos n) = false
is_negative (negsuc n) = true

abbrev pub magnitude : ℤ → ℕ
magnitude (pos n) = n
magnitude (negsuc n) = 0

-- WFIELD: the bytes written and the checksum so far.
unfoldable pub wfield : ℕ → FlowComplete → Locals → Field → List ℕ × ℕ → List ℕ × ℕ
wfield fields f v x (out, crc) =
    if has_field fields x
    then (
      out ++ field_bytes f v x,
      if bit x == 30 then crc else flowd_crc32_update (field_bytes f v x) crc,
    )
    else (out, crc)

unfoldable pub wfields : ℕ → FlowComplete → Locals → List Field → List ℕ × ℕ → List ℕ × ℕ
unfolding wfield
wfields fields f v [] acc = acc
wfields fields f v (x ∷ xs) acc = wfields fields f v xs (wfield fields f v x acc)

-- From the header on: `len` is the length that was computed and found to fit.
unfoldable pub write_flow : FlowComplete → Locals → ℕ → Result (FlowComplete × List ℕ)
unfolding wfields
write_flow f v len = do
  let hdr = record (f.hdr) { len_words = len / 4 % 256; reserved = 0 }
  let body =
      wfields hdr.fields f v body_fields
        (hdr_bytes hdr, flowd_crc32_update (hdr_bytes hdr) flowd_crc32_start)
  let f' = record f {
    hdr = hdr;
    crc32 = if has_field hdr.fields Field.crc32 then body.1 else f.crc32;
  }
  let all = wfield hdr.fields f' v Field.crc32 body
  fail_if (not (len + 8 == length all.0)) internal
  ok (f', all.0)

-- The record that is left, and the bytes written from `buf` on, on success.
unfoldable pub store_flow_serialise : FlowComplete → Locals → ℕ → Result (FlowComplete × List ℕ)
unfolding fix_addrs write_flow
store_flow_serialise f stack buflen = do
  (fields, v) ← fix_addrs f stack
  let hdr = record (f.hdr) { version = store_version; fields = fields }
  let len = store_calc_flow_len hdr
  fail_if (not (low_two_bits len == 0)) internal
  fail_if (exceeds len buflen) buffer_size
  fail_if (is_negative len) flow_invalid
  write_flow (record f { hdr = hdr }) v (magnitude len)

-- The flags outside the mask are put back after the call.
unfoldable pub store_flow_serialise_masked :
    FlowComplete → ℕ → Locals → ℕ → Result (FlowComplete × List ℕ)
unfolding store_flow_serialise
store_flow_serialise_masked f mask stack buflen = do
  let origfields = f.hdr.fields
  (f', out) ←
      store_flow_serialise (record f { hdr = record (f.hdr) { fields = bit_and origfields mask } })
        stack buflen
  ok (record f' { hdr = record (f'.hdr) { fields = origfields } }, out)
