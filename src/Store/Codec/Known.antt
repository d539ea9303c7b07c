-- ===== src/Store/Codec/Known.antt =====
-- The length of a flow whose flags are all known.
use network_monitoring_emula.Common.{
  ℕ, zero, suc, ◌+◌, ◌/◌, ◌%◌, ◌≤◌, ◌<◌, ◌≡◌, refl, ap, sym, subst, ◌∙◌, ◌⊎◌, inl, inr, true, false,
  List, [], ◌∷◌, ◌++◌, ◌==◌, ==→eq, ==→ne, Bool-cases, arith,
}
use network_monitoring_emula.Common.Flags.{
  has_bit, without_bit, has_bit-without, has_bit-half, has_bit-without_self,
}
use network_monitoring_emula.Common.Int.{pos}
use network_monitoring_emula.Store.{StoreFlow}
use network_monitoring_emula.Store.Field.{Field, bit, size, body_fields}
use network_monitoring_emula.Store.Codec.{store_calc_flow_len}
use network_monitoring_emula.Store.Codec.Layout.{sum_sizes, clear_all, add_fields-sum}

abbrev pub all_fields : List Field
all_fields = body_fields ++ Field.crc32 ∷ []

-- Every flag of the mask is the flag of a field.
abbrev pub IsKnown : ℕ → Type 0
IsKnown m = (j : ℕ) → has_bit m j ≡ true → (x : Field) × (bit x ≡ j)

-- A number with no bit set is 0.
no_bits : (n m : ℕ) → m < n → ((j : ℕ) → has_bit m j ≡ false) → m ≡ 0
no_bits zero m h b = absurd (omega arith)
no_bits (suc n) zero h b = refl
no_bits (suc n) (suc m) h b =
    let half = no_bits n (suc m / 2) (omega arith) (λ j. has_bit-half (suc m) j ∙ b (suc j)) in
    let low = b 0 in ground arith

abbrev AmongBits : ℕ → List Field → Type 0
AmongBits j [] = ⊥
AmongBits j (x ∷ xs) = (j ≡ bit x) ⊎ AmongBits j xs

pub without_keeps : (i j m : ℕ) → has_bit m j ≡ false → has_bit (without_bit m i) j ≡ false
without_keeps i j m h = elim (Bool-cases (i == j)) [
  | inl same ↦
      subst (λ t. has_bit (without_bit m i) t ≡ false) (==→eq i j same) (has_bit-without_self i m)
  | inr other ↦ has_bit-without i j m (==→ne i j other) ∙ h
]

clear_all-keeps :
    (xs : List Field) (m j : ℕ) → has_bit m j ≡ false → has_bit (clear_all xs m) j ≡ false
clear_all-keeps [] m j h = h
clear_all-keeps (x ∷ xs) m j h =
    clear_all-keeps xs (without_bit m (bit x)) j (without_keeps (bit x) j m h)

clear_all-clears : (xs : List Field) (m j : ℕ) → AmongBits j xs → has_bit (clear_all xs m) j ≡ false
clear_all-clears [] m j h = absurd h
clear_all-clears (x ∷ xs) m j (inl e) = clear_all-keeps xs (without_bit m (bit x)) j (
    subst (λ t. has_bit (without_bit m (bit x)) t ≡ false) (sym e) (has_bit-without_self (bit x) m))
clear_all-clears (x ∷ xs) m j (inr h) = clear_all-clears xs (without_bit m (bit x)) j h

among_all : (x : Field) → AmongBits (bit x) all_fields
among_all Field.tag = inl refl
among_all Field.recv_time = inr (inl refl)
among_all Field.proto_flags_tos = inr (inr (inl refl))
among_all Field.agent_addr4 = inr (inr (inr (inl refl)))
among_all Field.agent_addr6 = inr (inr (inr (inr (inl refl))))
among_all Field.src_addr4 = inr (inr (inr (inr (inr (inl refl)))))
among_all Field.src_addr6 = inr (inr (inr (inr (inr (inr (inl refl))))))
among_all Field.dst_addr4 = inr (inr (inr (inr (inr (inr (inr (inl refl)))))))
among_all Field.dst_addr6 = inr (inr (inr (inr (inr (inr (inr (inr (inl refl))))))))
among_all Field.gateway_addr4 = inr (inr (inr (inr (inr (inr (inr (inr (inr (inl refl)))))))))
among_all Field.gateway_addr6 = inr (inr (inr (inr (inr (inr (inr (inr (inr (inr (inl refl))))))))))
among_all Field.srcdst_port =
    inr (inr (inr (inr (inr (inr (inr (inr (inr (inr (inr (inl refl)))))))))))
among_all Field.packets =
    inr (inr (inr (inr (inr (inr (inr (inr (inr (inr (inr (inr (inl refl))))))))))))
among_all Field.octets =
    inr (inr (inr (inr (inr (inr (inr (inr (inr (inr (inr (inr (inr (inl refl)))))))))))))
among_all Field.if_indices =
    inr (inr (inr (inr (inr (inr (inr (inr (inr (inr (inr (inr (inr (inr (inl refl))))))))))))))
among_all Field.agent_info =
    inr
      (inr (inr (inr (inr (inr (inr (inr (inr (inr (inr (inr (inr (inr (inr (inl refl)))))))))))))))
among_all Field.flow_times = inr (
    inr (
      inr (inr (inr (inr (inr (inr (inr (inr (inr (inr (inr (inr (inr (inr (inl refl))))))))))))))))
among_all Field.as_info = inr (
    inr (
      inr (
        inr (
          inr (inr (inr (inr (inr (inr (inr (inr (inr (inr (inr (inr (inr (inl refl)))))))))))))))))
among_all Field.flow_engine_info = inr (
    inr (
      inr (
        inr (
          inr (
            inr (
              inr (inr (inr (inr (inr (inr (inr (inr (inr (inr (inr (inr (inl refl))))))))))))))))))
among_all Field.crc32 = inr (
    inr (
      inr (
        inr (
          inr (
            inr (
              inr (
                inr (
                  inr (inr (inr (inr (inr (inr (inr (inr (inr (inr (inr (inl refl)))))))))))))))))))

-- Clearing every field's flag leaves nothing of a known mask.
pub clear_all-known : (m : ℕ) → IsKnown m → clear_all all_fields m ≡ 0
clear_all-known m h = no_bits (suc (clear_all all_fields m)) _ (omega arith) gone
  where
    gone : (j : ℕ) → has_bit (clear_all all_fields m) j ≡ false
    gone j = elim (Bool-cases (has_bit m j)) [
      | inl set ↦
          let (x, e) = h j set in
          clear_all-clears all_fields m j (subst (λ t. AmongBits t all_fields) e (among_all x))
      | inr unset ↦ clear_all-keeps all_fields m j unset
    ]

size-mod : (x : Field) → size x % 4 ≡ 0
size-mod Field.tag = refl
size-mod Field.recv_time = refl
size-mod Field.proto_flags_tos = refl
size-mod Field.agent_addr4 = refl
size-mod Field.agent_addr6 = refl
size-mod Field.src_addr4 = refl
size-mod Field.src_addr6 = refl
size-mod Field.dst_addr4 = refl
size-mod Field.dst_addr6 = refl
size-mod Field.gateway_addr4 = refl
size-mod Field.gateway_addr6 = refl
size-mod Field.srcdst_port = refl
size-mod Field.packets = refl
size-mod Field.octets = refl
size-mod Field.if_indices = refl
size-mod Field.agent_info = refl
size-mod Field.flow_times = refl
size-mod Field.as_info = refl
size-mod Field.flow_engine_info = refl
size-mod Field.crc32 = refl

pub sum_sizes-mod : (fields : ℕ) (xs : List Field) → sum_sizes fields xs % 4 ≡ 0
sum_sizes-mod fields [] = refl
sum_sizes-mod fields (x ∷ xs) = ground (arith, size-mod x, sum_sizes-mod fields xs)

abbrev total : List Field → ℕ
total [] = 0
total (x ∷ xs) = size x + total xs

sum_sizes-le_total : (fields : ℕ) (xs : List Field) → sum_sizes fields xs ≤ total xs
sum_sizes-le_total fields [] = omega arith
sum_sizes-le_total fields (x ∷ xs) = ground (arith, sum_sizes-le_total fields xs)

-- No flow is longer than 176 bytes behind its header.
pub sum_sizes-le : (fields : ℕ) → sum_sizes fields all_fields ≤ 176
sum_sizes-le fields = sum_sizes-le_total fields all_fields

-- With known flags `store_calc_flow_len` is the sum of the sizes of the fields present.
pub calc_flow_len-known :
    (hdr : StoreFlow)
    → IsKnown hdr.fields
    → store_calc_flow_len hdr ≡ pos (sum_sizes hdr.fields all_fields)
unfolding store_calc_flow_len
calc_flow_len-known hdr h =
    let e = add_fields-sum hdr.fields 0 all_fields 0 hdr.fields (omega arith) (λ j k. refl) in
    rw (e, clear_all-known hdr.fields h) (ap pos (omega arith))
