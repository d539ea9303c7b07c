-- ===== src/Tests/Store.antt =====
-- A flow record of a NetFlow packet, and the theorems on the store format at it.
use network_monitoring_emula.Common.{
  ℕ, zero, suc, ◌+◌, ◌*◌, ◌-◌, ◌/◌, ◌%◌, ◌^◌, ◌≡◌, ◌≢◌, refl, sym, ◌∙◌, ap, subst, Bool, true,
  false, ◌&&◌, Option, none, some, List, [], ◌∷◌, bit_and, if◌then◌else◌, ◌==◌, ==→eq, Bool-cases,
  Option-cases, if_true, if_false, inl, inr, arith,
}
use mathlib.Core.Bool.{false≢true}
use network_monitoring_emula.Common.Flags.{has_bit, has_bit-half}
use network_monitoring_emula.Common.Int.{pos}
use network_monitoring_emula.Addr.{inet, inet6, zero_quad}
use network_monitoring_emula.Store.{FlowComplete, StoreFlow, zero_flow}
use network_monitoring_emula.Store.Field.{Field, bit, has_field}
use network_monitoring_emula.Store.Codec.{
  ok, fail, internal, no_locals, store_calc_flow_len, store_flow_serialise,
  store_flow_serialise_masked, store_flow_deserialise,
}
use network_monitoring_emula.Store.Swab.{
  Swaps, IsSwaps, network_flow, store_swab_flow, store_swab_flow_lem,
}
use network_monitoring_emula.Store.Codec.Layout.{sum_sizes}
use network_monitoring_emula.Store.Codec.Copy.{IsFlow, IsLocals}
use network_monitoring_emula.Store.Codec.Known.{all_fields, IsKnown, calc_flow_len-known}
use network_monitoring_emula.Store.Codec.Switches.{AllXaddr, AllCoherent}
use network_monitoring_emula.Store.Codec.Stored.{stored}
use network_monitoring_emula.Store.Codec.RoundTrip.{round_trip}
use network_monitoring_emula.Store.Codec.Masked.{masked, masked_round_trip, serialise_unknown}

-- The field of a flag, if there is one.
abbrev find : List Field → ℕ → Option Field
find [] j = none
find (x ∷ xs) j = if bit x == j then some x else find xs j

either : Field → Option Field → Field
either y none = y
either y (some z) = z

find_sound : (xs : List Field) (j : ℕ) (x : Field) → find xs j ≡ some x → bit x ≡ j
unfolding either
find_sound [] j x e = cc
find_sound (y ∷ ys) j x e = elim (Bool-cases (bit y == j)) [
  | inl same ↦
      subst (λ z. bit z ≡ j) (ap (either y) (sym (if_true _ (some y) (find ys j) same) ∙ e))
        (==→eq (bit y) j same)
  | inr other ↦ find_sound ys j x (sym (if_false _ (some y) (find ys j) other) ∙ e)
]

abbrev is_found : Option Field → Bool
is_found none = false
is_found (some x) = true

-- Every flag of a mask from bit `i` on is a field's.
abbrev known_from : ℕ → ℕ → ℕ → Bool
known_from zero m i = m == 0
known_from (suc k) m i =
    (if m % 2 == 1 then is_found (find all_fields i) else true) && known_from k (m / 2) (suc i)

no_bit_of_zero : (j : ℕ) → has_bit 0 j ≡ false
no_bit_of_zero j = ground arith

both_true : (a b : Bool) → (a && b) ≡ true → (a ≡ true) × (b ≡ true)
both_true true b h = (refl, h)
both_true false b h = absurd (false≢true h)

known_from_sound :
    (k m i j : ℕ) → known_from k m i ≡ true → has_bit m j ≡ true → (x : Field) × (bit x ≡ i + j)
known_from_sound zero m i j h set =
    absurd
      (false≢true (sym (no_bit_of_zero j) ∙ ap (λ (t : ℕ). has_bit t j) (sym (==→eq m 0 h)) ∙ set))
known_from_sound (suc k) m i zero h set = elim (Option-cases (find all_fields i)) [
  | inl missing ↦
      let odd : (m % 2 == 1) ≡ true = ground arith in
      absurd (
        false≢true (
          sym (
            sym (both_true _ _ h).0
            ∙ if_true (m % 2 == 1) (is_found (find all_fields i)) true odd
            ∙ ap is_found missing)))
  | inr (x, found) ↦ (x, find_sound all_fields i x found ∙ omega arith)
]
known_from_sound (suc k) m i (suc j) h set =
    let (x, e) =
      known_from_sound k (m / 2) (suc i) j (both_true _ _ h).1 (has_bit-half m j ∙ set) in
    (x, e ∙ omega arith)

-- A flow of 40 packets from 192.168.1.77 to an IPv6 address, with its checksum.
abbrev flow : FlowComplete
flow = record zero_flow {
  hdr = record {
    version = 0;
    len_words = 0;
    reserved = 0;
    fields = 2 ^ 30 + 4096 + 256 + 128 + 32 + 4 + 1;
  };
  tag = 7;
  pft = record { tcp_flags = 18; protocol = 6; tos = 0; pad = 0 };
  src_addr = record { af = inet; addr32 = record zero_quad { w0 = 0xc0a8014d }; scope_id = 0 };
  dst_addr = record {
    af = inet6;
    addr32 = record { w0 = 0xfe800000; w1 = 0; w2 = 0x02a1b2ff; w3 = 0xfe112233 };
    scope_id = 3;
  };
  packets = 40;
}

flow-IsFlow : IsFlow flow
flow-IsFlow = record {
  tag_fits = omega arith;
  packets_fits = omega arith;
  octets_fits = omega arith;
  crc32_fits = omega arith;
  recv_time_recv_sec_fits = omega arith;
  recv_time_recv_usec_fits = omega arith;
  pft_tcp_flags_fits = omega arith;
  pft_protocol_fits = omega arith;
  pft_tos_fits = omega arith;
  pft_pad_fits = omega arith;
  ports_src_port_fits = omega arith;
  ports_dst_port_fits = omega arith;
  ifndx_if_index_in_fits = omega arith;
  ifndx_if_index_out_fits = omega arith;
  ainfo_sys_uptime_ms_fits = omega arith;
  ainfo_time_sec_fits = omega arith;
  ainfo_time_nanosec_fits = omega arith;
  ainfo_netflow_version_fits = omega arith;
  ainfo_pad_fits = omega arith;
  ftimes_flow_start_fits = omega arith;
  ftimes_flow_finish_fits = omega arith;
  asinf_src_as_fits = omega arith;
  asinf_dst_as_fits = omega arith;
  asinf_src_mask_fits = omega arith;
  asinf_dst_mask_fits = omega arith;
  asinf_pad_fits = omega arith;
  finf_engine_type_fits = omega arith;
  finf_engine_id_fits = omega arith;
  finf_flow_sequence_fits = omega arith;
  finf_source_id_fits = omega arith;
}

stack-IsLocals : IsLocals no_locals
stack-IsLocals = record {
  aa4_fits = omega arith;
  aa6_fits = (omega arith, omega arith, omega arith, omega arith);
  sa4_fits = omega arith;
  sa6_fits = (omega arith, omega arith, omega arith, omega arith);
  da4_fits = omega arith;
  da6_fits = (omega arith, omega arith, omega arith, omega arith);
  ga4_fits = omega arith;
  ga6_fits = (omega arith, omega arith, omega arith, omega arith);
}

flow-AllXaddr : AllXaddr flow
flow-AllXaddr = (
  (omega arith, omega arith, omega arith, omega arith, omega arith),
  (omega arith, omega arith, omega arith, omega arith, omega arith),
  (omega arith, omega arith, omega arith, omega arith, omega arith),
  (omega arith, omega arith, omega arith, omega arith, omega arith),
)

flow-AllCoherent : AllCoherent flow flow.hdr.fields
flow-AllCoherent = record {
  agent = inl (refl, refl);
  src = inr (inl (refl, refl));
  dst = inr (inr (refl, refl));
  gateway = inl (refl, refl);
}

flow-IsKnown : IsKnown flow.hdr.fields
flow-IsKnown j set =
    let (x, e) = known_from_sound 31 flow.hdr.fields 0 j refl set in (x, e ∙ omega arith)

round_trip_example :
    (g : FlowComplete) × (out : List ℕ) × (store_flow_serialise flow no_locals 176 ≡ ok (g, out))
    × (store_flow_deserialise out
        ≡ ok (stored flow g.hdr (if has_field flow.hdr.fields Field.crc32 then g.crc32 else 0)))
round_trip_example =
    round_trip flow no_locals 176 flow-IsFlow flow-AllXaddr stack-IsLocals flow-AllCoherent
      flow-IsKnown (omega arith) (omega arith)

calc_flow_len_example : store_calc_flow_len flow.hdr ≡ pos (sum_sizes flow.hdr.fields all_fields)
calc_flow_len_example = calc_flow_len-known flow.hdr flow-IsKnown

-- Without the tag and the checksum.
abbrev mask : ℕ
mask = 2 ^ 19 - 2

masked-AllCoherent : AllCoherent (masked flow mask) (bit_and flow.hdr.fields mask)
masked-AllCoherent = record {
  agent = inl (refl, refl);
  src = inr (inl (refl, refl));
  dst = inr (inr (refl, refl));
  gateway = inl (refl, refl);
}

masked-IsKnown : IsKnown (bit_and flow.hdr.fields mask)
masked-IsKnown j set =
    let (x, e) = known_from_sound 31 (bit_and flow.hdr.fields mask) 0 j refl set in
    (x, e ∙ omega arith)

masked_example :
    (g : FlowComplete) × (out : List ℕ) × (h : StoreFlow) × (store_flow_serialise_masked flow mask
        no_locals 200
      ≡ ok (g, out))
    × (g.hdr.fields ≡ flow.hdr.fields)
    × (store_flow_deserialise out
        ≡ ok (
            stored
              (masked flow mask)
              h
              (if has_field (bit_and flow.hdr.fields mask) Field.crc32 then g.crc32 else 0)))
masked_example =
    masked_round_trip flow mask no_locals 200 flow-IsFlow flow-AllXaddr stack-IsLocals
      masked-AllCoherent masked-IsKnown (omega arith) (omega arith)

-- Bit 20 belongs to no field.
abbrev strange : FlowComplete
strange = record flow { hdr = record (flow.hdr) { fields = 2 ^ 20 + 32 } }

strange-AllCoherent : AllCoherent strange strange.hdr.fields
strange-AllCoherent = record {
  agent = inl (refl, refl);
  src = inr (inl (refl, refl));
  dst = inl (refl, refl);
  gateway = inl (refl, refl);
}

not_twenty : (x : Field) → bit x ≢ 20
not_twenty Field.tag e = omega arith
not_twenty Field.recv_time e = omega arith
not_twenty Field.proto_flags_tos e = omega arith
not_twenty Field.agent_addr4 e = omega arith
not_twenty Field.agent_addr6 e = omega arith
not_twenty Field.src_addr4 e = omega arith
not_twenty Field.src_addr6 e = omega arith
not_twenty Field.dst_addr4 e = omega arith
not_twenty Field.dst_addr6 e = omega arith
not_twenty Field.gateway_addr4 e = omega arith
not_twenty Field.gateway_addr6 e = omega arith
not_twenty Field.srcdst_port e = omega arith
not_twenty Field.packets e = omega arith
not_twenty Field.octets e = omega arith
not_twenty Field.if_indices e = omega arith
not_twenty Field.agent_info e = omega arith
not_twenty Field.flow_times e = omega arith
not_twenty Field.as_info e = omega arith
not_twenty Field.flow_engine_info e = omega arith
not_twenty Field.crc32 e = omega arith

serialise_unknown_example : store_flow_serialise strange no_locals 176 ≡ fail internal
serialise_unknown_example =
    serialise_unknown strange no_locals 176 20 flow-AllXaddr stack-IsLocals strange-AllCoherent
      not_twenty refl

-- The functions of a machine with the low byte first.
abbrev swap16 : ℕ → ℕ
swap16 v = v % 2 ^ 8 * 2 ^ 8 + v / 2 ^ 8 % 2 ^ 8

abbrev swap32 : ℕ → ℕ
swap32 v = swap16 (v % 2 ^ 16) * 2 ^ 16 + swap16 (v / 2 ^ 16 % 2 ^ 16)

abbrev low_first : Swaps
low_first = record { ntohs = swap16; ntohl = swap32; htons = swap16; htonl = swap32 }

low_first-IsSwaps : IsSwaps low_first
low_first-IsSwaps = record {
  host16 = λ v h. omega arith;
  host32 = λ v h. omega arith;
  net16 = λ v h. omega arith;
  net32 = λ v h. omega arith;
}

swab_example :
    (store_swab_flow low_first (network_flow flow) false
      ≡ record flow { finf = record (flow.finf) { source_id = flow.finf.source_id / 2 ^ 16 } })
    × (store_swab_flow low_first flow true
        ≡ network_flow (record flow {
          finf = record (flow.finf) { source_id = flow.finf.source_id % 2 ^ 16 * 2 ^ 16 };
        }))
swab_example = store_swab_flow_lem low_first flow low_first-IsSwaps flow-IsFlow (omega arith)
