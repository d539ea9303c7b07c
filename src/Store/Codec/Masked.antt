-- ===== src/Store/Codec/Masked.antt =====
-- `store_flow_serialise_masked`, and flags that belong to no field.
use network_monitoring_emula.Common.{
  ℕ, ◌^◌, ◌≤◌, ◌<◌, ◌≡◌, ◌≢◌, refl, ap, ◌∙◌, true, false, not, bit_and, List, [], ◌∷◌,
  if◌then◌else◌, ◌==◌, arith,
}
use network_monitoring_emula.Common.Int.{ℤ, negsuc}
use network_monitoring_emula.Common.Flags.{has_bit, without_bit, has_bit-without}
use network_monitoring_emula.Store.{FlowComplete, StoreFlow}
use network_monitoring_emula.Store.Field.{Field, bit, has_field}
use network_monitoring_emula.Store.Bytes.{Locals}
use network_monitoring_emula.Store.Codec.{
  Result, ok, fail, internal, ◌>>=◌, ◌>>◌, fail_if, buffer_size, flow_invalid, low_two_bits,
  exceeds, is_negative, magnitude, write_flow, store_version, store_calc_flow_len,
  store_flow_serialise, store_flow_serialise_masked, store_flow_deserialise,
}
use network_monitoring_emula.Store.Codec.Layout.{clear_all, add_fields-sum}
use network_monitoring_emula.Store.Codec.Copy.{IsFlow, IsLocals}
use network_monitoring_emula.Store.Codec.Known.{all_fields, IsKnown}
use network_monitoring_emula.Store.Codec.Switches.{AllXaddr, AllCoherent, switches}
use network_monitoring_emula.Store.Codec.Stored.{stored, IsFlow-checksum}
use network_monitoring_emula.Store.Codec.RoundTrip.{round_trip}

-- The flow that the call under the mask sees.
abbrev pub masked : FlowComplete → ℕ → FlowComplete
masked f mask = record f { hdr = record (f.hdr) { fields = bit_and f.hdr.fields mask } }

-- Under the conditions of the round trip for the masked flow, the masked call writes exactly the
-- fields that the mask leaves: they are read back, the others as zeros, and the record that the
-- caller keeps has its flags again.
pub masked_round_trip :
    (f : FlowComplete) (mask : ℕ) (stack : Locals) (buflen : ℕ)
    → IsFlow f
    → AllXaddr f
    → IsLocals stack
    → AllCoherent (masked f mask) (bit_and f.hdr.fields mask)
    → IsKnown (bit_and f.hdr.fields mask)
    → bit_and f.hdr.fields mask < 2 ^ 32
    → 176 ≤ buflen
    → (g : FlowComplete) × (out : List ℕ) × (h : StoreFlow) × (store_flow_serialise_masked f mask
          stack buflen
        ≡ ok (g, out))
      × (g.hdr.fields ≡ f.hdr.fields)
      × (store_flow_deserialise out
          ≡ ok (
              stored
                (masked f mask)
                h
                (if has_field (bit_and f.hdr.fields mask) Field.crc32 then g.crc32 else 0)))
unfolding store_flow_serialise_masked
masked_round_trip f mask stack buflen w x l c k b r =
    let (g, out, written, read) =
      round_trip (masked f mask) stack buflen (masked_fits w) x l c k b r in
    (
      record g { hdr = record (g.hdr) { fields = f.hdr.fields } },
      out,
      g.hdr,
      ap
          (λ (t : Result (FlowComplete × List ℕ)). t >>= (λ (q : FlowComplete × List ℕ).
            ok (record (q.0) { hdr = record (q.0.hdr) { fields = f.hdr.fields } }, q.1)))
          written,
      refl,
      read,
    )
  where
    masked_fits : IsFlow f → IsFlow (masked f mask)
    masked_fits h = IsFlow-checksum f _ f.crc32 h h.crc32_fits

-- Clearing the flags of fields leaves every other flag.
clear_all-other :
    (xs : List Field) (m j : ℕ)
    → ((x : Field) → bit x ≢ j)
    → has_bit (clear_all xs m) j ≡ has_bit m j
clear_all-other [] m j d = refl
clear_all-other (x ∷ xs) m j d =
    clear_all-other xs (without_bit m (bit x)) j d ∙ has_bit-without (bit x) j m (d x)

no_bit_of_zero : (j : ℕ) → has_bit 0 j ≡ false
no_bit_of_zero j = ground arith

length-unknown :
    (hdr : StoreFlow) (j : ℕ)
    → ((x : Field) → bit x ≢ j)
    → has_bit hdr.fields j ≡ true
    → store_calc_flow_len hdr ≡ negsuc 0
unfolding store_calc_flow_len
length-unknown hdr j d set =
    let e = add_fields-sum hdr.fields 0 all_fields 0 hdr.fields (omega arith) (λ i k. refl) in
    let left : (clear_all all_fields hdr.fields == 0) ≡ false =
      differ (clear_all all_fields hdr.fields) (clear_all-other all_fields hdr.fields j d ∙ set) in
    rw (e, left) refl
  where
    differ : (n : ℕ) → has_bit n j ≡ true → (n == 0) ≡ false
    differ n h = let z = no_bit_of_zero j in ground (arith, z)

-- The error of the first test.
negative_fails :
    {B : Type 0} (buflen : ℕ) (r : Result B)
    → (fail_if (not (low_two_bits (negsuc 0) == 0)) internal
        >> (fail_if (exceeds (negsuc 0) buflen) buffer_size
            >> (fail_if (is_negative (negsuc 0)) flow_invalid >> r)))
      ≡ fail internal
negative_fails buflen r = refl

-- A flag that belongs to no field makes the serialiser fail with STORE_ERR_INTERNAL, when the flags
-- of the addresses fit them: STORE_ERR_FLOW_INVALID is not reached.
pub serialise_unknown :
    (f : FlowComplete) (stack : Locals) (buflen j : ℕ)
    → AllXaddr f
    → IsLocals stack
    → AllCoherent f f.hdr.fields
    → ((x : Field) → bit x ≢ j)
    → has_bit f.hdr.fields j ≡ true
    → store_flow_serialise f stack buflen ≡ fail internal
unfolding store_flow_serialise
serialise_unknown f stack buflen j x l c d set =
    let s = switches f stack x l c in
    let above : 10 < j = beyond d in
    ap
      (λ (t : Result (ℕ × Locals)).
        t >>= (λ (w : ℕ × Locals). tests w (store_calc_flow_len (hdr_of w))))
      s.returns
    ∙ ap (tests (s.mask, s.locals))
        (length-unknown (hdr_of (s.mask, s.locals)) j d (s.same_high j above ∙ set))
    ∙ negative_fails buflen (write_flow (record f { hdr = hdr_of (s.mask, s.locals) }) s.locals 0)
  where
    hdr_of : ℕ × Locals → StoreFlow
    hdr_of w = record (f.hdr) { version = store_version; fields = w.0 }

    tests : ℕ × Locals → ℤ → Result (FlowComplete × List ℕ)
    tests w len =
        fail_if (not (low_two_bits len == 0)) internal
        >> (fail_if (exceeds len buflen) buffer_size
            >> (fail_if (is_negative len) flow_invalid
                >> write_flow (record f { hdr = hdr_of w }) w.1 (magnitude len)))

    beyond : ((x : Field) → bit x ≢ j) → 10 < j
    beyond d = omega (
      arith,
      d Field.tag,
      d Field.recv_time,
      d Field.proto_flags_tos,
      d Field.agent_addr4,
      d Field.agent_addr6,
      d Field.src_addr4,
      d Field.src_addr6,
      d Field.dst_addr4,
      d Field.dst_addr6,
      d Field.gateway_addr4,
      d Field.gateway_addr6,
    )
