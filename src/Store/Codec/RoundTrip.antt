-- ===== src/Store/Codec/RoundTrip.antt =====
-- A flow that is written by the serialiser and read by the deserialiser.
use network_monitoring_emula.Common.{
  ℕ, ◌+◌, ◌-◌, ◌*◌, ◌/◌, ◌%◌, ◌^◌, ◌≤◌, ◌<◌, ◌≡◌, refl, ap, ap₂, sym, ◌∙◌, Bool, true, false, ◌&&◌,
  List, [], ◌∷◌, ◌++◌, if◌then◌else◌, Bool-cases, inl, inr, arith,
}
use mathlib.Core.Bool.{false≢true}
use network_monitoring_emula.Common.Flags.{has_bit}
use network_monitoring_emula.Addr.{Xaddr, Quad}
use network_monitoring_emula.Store.{FlowComplete, StoreFlow}
use network_monitoring_emula.Store.Field.{Field, has_field, body_fields}
use network_monitoring_emula.Store.Bytes.{Locals, hdr_bytes}
use network_monitoring_emula.Store.Crc32.{flowd_crc32_start, flowd_crc32_update}
use network_monitoring_emula.Store.Crc32.Reference.{crc32_update-lt}
use network_monitoring_emula.Store.Codec.{ok, both, store_flow_serialise, store_flow_deserialise}
use network_monitoring_emula.Store.Codec.Layout.{sum_sizes, emit}
use network_monitoring_emula.Store.Codec.Copy.{IsFlow, IsLocals}
use network_monitoring_emula.Store.Codec.Known.{all_fields, IsKnown, sum_sizes-le}
use network_monitoring_emula.Store.Codec.Addrs.{IsFixed}
use network_monitoring_emula.Store.Codec.Switches.{AllXaddr, AllCoherent, Switches, switches}
use network_monitoring_emula.Store.Codec.Writing.{
  emit-append, emit_same, header, checksum, written, written_bytes, length-written_bytes,
  serialise_written,
}
use network_monitoring_emula.Store.Codec.ReadBack.{IsHeader, OneEach, read_back}
use network_monitoring_emula.Store.Codec.Stored.{stored, IsFlow-checksum, copied_stored}

not_both :
    (a : Xaddr) (x4 x6 : Field) (m v4 : ℕ) (v6 : Quad)
    → IsFixed a x4 x6 m v4 v6
    → both m x4 x6 ≡ false
unfolding both
not_both a x4 x6 m v4 v6 (inl (p, q)) = ap₂ (λ (b c : Bool). b && c) p q
not_both a x4 x6 m v4 v6 (inr (inl (e, p, q, l))) = ap₂ (λ (b c : Bool). b && c) p q
not_both a x4 x6 m v4 v6 (inr (inr (e, p, q, l))) = ap₂ (λ (b c : Bool). b && c) p q

-- Fewer flags are known flags.
fewer-IsKnown :
    (m m' : ℕ) → ((j : ℕ) → has_bit m j ≡ false → has_bit m' j ≡ false) → IsKnown m → IsKnown m'
fewer-IsKnown m m' fewer k j set = elim (Bool-cases (has_bit m j)) [
  | inl had ↦ k j had
  | inr unset ↦ absurd (false≢true (sym (fewer j unset) ∙ set))
]

-- The length in words of the header is that of the bytes behind it.
words_fit : (s n : ℕ) → n ≡ s + 8 → s ≤ 176 → s / 4 % 256 * 4 ≤ n - 8
words_fit s n e h = omega arith

choose-lt : (b : Bool) (x y n : ℕ) → x < n → y < n → (if b then x else y) < n
choose-lt true x y n h k = h
choose-lt false x y n h k = k

choose_twice :
    (b : Bool) (x y z w : ℕ)
    → x ≡ w
    → (if b then (if b then x else y) else z) ≡ (if b then w else z)
choose_twice true x y z w e = e
choose_twice false x y z w e = refl

module _ (f : FlowComplete) (stack : Locals) (s : Switches f stack) (flow_fits : IsFlow f)
    (known : IsKnown f.hdr.fields) (small : f.hdr.fields < 2 ^ 32) where
  abbrev h : StoreFlow
  h = header f s.locals s.mask

  abbrev g : FlowComplete
  g = written f s.locals s.mask

  IsHeader-accepted : IsHeader h
  IsHeader-accepted = record {
    version_fits = omega arith;
    len_words_fits = fits (sum_sizes s.mask all_fields);
    reserved_fits = omega arith;
    fields_fits = below s.no_larger;
    supported = refl;
    known = fewer-IsKnown f.hdr.fields s.mask s.fewer known;
  }
    where
      fits : (n : ℕ) → n / 4 % 256 < 2 ^ 8
      fits n = omega arith

      below : {n : ℕ} → n ≤ f.hdr.fields → n < 2 ^ 32
      below l = omega arith

  one_each : OneEach s.mask
  one_each = record {
    agent =
        not_both f.agent_addr Field.agent_addr4 Field.agent_addr6 s.mask s.locals.aa4 s.locals.aa6
          s.fixed.agent;
    src =
        not_both f.src_addr Field.src_addr4 Field.src_addr6 s.mask s.locals.sa4 s.locals.sa6
          s.fixed.src;
    dst =
        not_both f.dst_addr Field.dst_addr4 Field.dst_addr6 s.mask s.locals.da4 s.locals.da6
          s.fixed.dst;
    gateway =
        not_both f.gateway_addr Field.gateway_addr4 Field.gateway_addr6 s.mask s.locals.ga4
          s.locals.ga6 s.fixed.gateway;
  }

  written_fits : IsFlow g
  written_fits =
      IsFlow-checksum f h
        (if has_field s.mask Field.crc32 then checksum f s.locals s.mask else f.crc32) flow_fits
        (choose-lt (has_field s.mask Field.crc32) (checksum f s.locals s.mask) f.crc32 (2 ^ 32)
          (crc32_update-lt (emit s.mask f s.locals body_fields) _
            (crc32_update-lt (hdr_bytes h) flowd_crc32_start (omega arith)))
          flow_fits.crc32_fits)

  -- Reading the written bytes.
  deserialise_written :
      store_flow_deserialise (written_bytes f s.locals s.mask)
      ≡ ok (stored f h (if has_field f.hdr.fields Field.crc32 then g.crc32 else 0))
  deserialise_written =
      read_back h g s.locals (written_bytes f s.locals s.mask) IsHeader-accepted one_each
        written_fits s.locals_fit
        (ap (◌++◌ (hdr_bytes h)) (emit-append s.mask g s.locals body_fields (Field.crc32 ∷ [])))
        (words_fit (sum_sizes s.mask all_fields) _ (length-written_bytes f s.locals s.mask)
          (sum_sizes-le s.mask))
        (choose_twice (has_field s.mask Field.crc32) (checksum f s.locals s.mask) f.crc32 0 _ (
          ap
            (λ (t : List ℕ).
              flowd_crc32_update t (flowd_crc32_update (hdr_bytes h) flowd_crc32_start))
            (sym (emit_same s.mask f s.locals h g.crc32))))
      ∙ ap ok (copied_stored f s.locals s.mask h g.crc32 s.fixed s.kept s.same_low s.same_high)

-- A flow whose numbers fit their types, whose flags are all those of known fields, and whose set
-- address flags include that of the address's family, is written whole to any buffer of 176 bytes
-- or more, whatever the stack held. Reading the bytes back succeeds, with the header of the record
-- that the serialiser left, every field whose flag was set, its checksum if there is one, and zeros
-- for the rest.
pub round_trip :
    (f : FlowComplete) (stack : Locals) (buflen : ℕ)
    → IsFlow f
    → AllXaddr f
    → IsLocals stack
    → AllCoherent f f.hdr.fields
    → IsKnown f.hdr.fields
    → f.hdr.fields < 2 ^ 32
    → 176 ≤ buflen
    → (g : FlowComplete) × (out : List ℕ) × (store_flow_serialise f stack buflen ≡ ok (g, out))
      × (store_flow_deserialise out
          ≡ ok (stored f g.hdr (if has_field f.hdr.fields Field.crc32 then g.crc32 else 0)))
round_trip f stack buflen flow_fits x stack_fits c known small room =
    let s = switches f stack x stack_fits c in
    (
      written f s.locals s.mask,
      written_bytes f s.locals s.mask,
      serialise_written f stack buflen s (fewer-IsKnown f.hdr.fields s.mask s.fewer known) room,
      deserialise_written f stack s flow_fits known small,
    )
