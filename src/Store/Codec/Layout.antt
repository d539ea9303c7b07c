-- ===== src/Store/Codec/Layout.antt =====
-- Where the fields of a stored flow lie: the bytes that are written, their number, and the flags
-- that are left after every field.
use mathlib.Core.List.{append-nil, append_assoc}
use network_monitoring_emula.Common.{
  ℕ, suc, ◌+◌, ◌-◌, ◌^◌, ◌≤◌, ◌≡◌, refl, ap, ap₂, sym, subst, ◌∙◌, true, false, List, [], ◌∷◌, ◌++◌,
  length, length-append, if◌then◌else◌, ◌==◌, Bool-cases, inl, inr, arith,
}
use network_monitoring_emula.Common.Flags.{has_bit, without_bit, has_bit-without}
use network_monitoring_emula.Store.{FlowComplete}
use network_monitoring_emula.Store.Field.{Field, bit, size, has_field}
use network_monitoring_emula.Store.Bytes.{Locals, field_bytes}
use network_monitoring_emula.Store.Crc32.{flowd_crc32_update}
use network_monitoring_emula.Store.Crc32.Reference.{crc32_update-append}
use network_monitoring_emula.Store.Codec.{add_fields, wfields}

-- The size of the fields that a mask names.
abbrev pub sum_sizes : ℕ → List Field → ℕ
sum_sizes fields [] = 0
sum_sizes fields (x ∷ xs) = (if has_field fields x then size x else 0) + sum_sizes fields xs

abbrev pub clear_all : List Field → ℕ → ℕ
clear_all [] m = m
clear_all (x ∷ xs) m = clear_all xs (without_bit m (bit x))

-- The flags of a list rise from `n` on.
abbrev pub Ascending : ℕ → List Field → Type 0
Ascending n [] = Unit {0}
Ascending n (x ∷ xs) = (n ≤ bit x) × Ascending (suc (bit x)) xs

-- Two masks agree from bit `n` on.
abbrev pub AgreeFrom : ℕ → ℕ → ℕ → Type 0
AgreeFrom n m m' = (j : ℕ) → n ≤ j → has_bit m j ≡ has_bit m' j

pub AgreeFrom-without :
    (n i m m' : ℕ) → n ≤ i → AgreeFrom n m m' → AgreeFrom (suc i) (without_bit m i) m'
AgreeFrom-without n i m m' h a j k =
    has_bit-without i j m (λ (e : i ≡ j). omega arith) ∙ a j (omega arith)

pub without_set : (m i : ℕ) → has_bit m i ≡ true → without_bit m i ≡ m - 2 ^ i
without_set m i h = rw h

pub without_unset : (m i : ℕ) → has_bit m i ≡ false → without_bit m i ≡ m
without_unset m i h = rw h

-- The ADDFIELD lines add up the sizes and clear the flags.
pub add_fields-sum :
    (fields n : ℕ) (xs : List Field) (len m : ℕ)
    → Ascending n xs
    → AgreeFrom n m fields
    → add_fields xs (len, m) ≡ (len + sum_sizes fields xs, clear_all xs m)
unfolding add_fields
add_fields-sum fields n [] len m h a = ap (λ (t : ℕ). (t, m)) (omega arith)
add_fields-sum fields n (x ∷ xs) len m h a =
    let rest = AgreeFrom-without n (bit x) m fields h.0 a in
    let same = a (bit x) h.0 in
    elim (Bool-cases (has_field fields x)) [
      | inl set ↦
          rw (same ∙ set, set)
            (add_fields-sum fields (suc (bit x)) xs (len + size x) (m - 2 ^ bit x) h.1 (
                subst (λ t. AgreeFrom (suc (bit x)) t fields) (without_set m (bit x) (same ∙ set))
                  rest)
              ∙ ap (λ (t : ℕ). (t, clear_all xs (m - 2 ^ bit x))) (omega arith))
      | inr unset ↦
          rw (same ∙ unset, unset)
            (add_fields-sum fields (suc (bit x)) xs len m h.1 (
                subst (λ t. AgreeFrom (suc (bit x)) t fields)
                  (without_unset m (bit x) (same ∙ unset)) rest)
              ∙ ap (λ (t : ℕ). (t, clear_all xs m)) (omega arith))
    ]

-- No field of the list is the checksum.
abbrev pub NoChecksum : List Field → Type 0
NoChecksum [] = Unit {0}
NoChecksum (x ∷ xs) = ((bit x == 30) ≡ false) × NoChecksum xs

pub crc32_update-nil : (crc : ℕ) → crc ≡ flowd_crc32_update [] crc
unfolding flowd_crc32_update
crc32_update-nil crc = refl

module _ (fields : ℕ) (f : FlowComplete) (v : Locals) where
  -- The bytes of the fields of a list.
  abbrev pub emit : List Field → List ℕ
  emit [] = []
  emit (x ∷ xs) = (if has_field fields x then field_bytes f v x else []) ++ emit xs

  -- The WFIELD lines append these bytes and add them to the checksum.
  pub wfields-emit :
      (xs : List Field) (out : List ℕ) (crc : ℕ)
      → NoChecksum xs
      → wfields fields f v xs (out, crc) ≡ (out ++ emit xs, flowd_crc32_update (emit xs) crc)
  unfolding wfields
  wfields-emit [] out crc h =
      ap₂ (λ (o : List ℕ) (c : ℕ). (o, c)) (sym (append-nil out)) (crc32_update-nil crc)
  wfields-emit (x ∷ xs) out crc h = elim (Bool-cases (has_field fields x)) [
    | inl set ↦
        rw (set, h.0)
          (wfields-emit xs (out ++ field_bytes f v x) (flowd_crc32_update (field_bytes f v x) crc)
              h.1
            ∙ ap₂ (λ (o : List ℕ) (c : ℕ). (o, c)) (append_assoc out (field_bytes f v x) (emit xs))
                (sym (crc32_update-append (field_bytes f v x) (emit xs) crc)))
    | inr unset ↦ rw unset (wfields-emit xs out crc h.1)
  ]

  pub length-field_bytes : (x : Field) → length (field_bytes f v x) ≡ size x
  unfolding field_bytes
  length-field_bytes Field.tag = refl
  length-field_bytes Field.recv_time = refl
  length-field_bytes Field.proto_flags_tos = refl
  length-field_bytes Field.agent_addr4 = refl
  length-field_bytes Field.agent_addr6 = refl
  length-field_bytes Field.src_addr4 = refl
  length-field_bytes Field.src_addr6 = refl
  length-field_bytes Field.dst_addr4 = refl
  length-field_bytes Field.dst_addr6 = refl
  length-field_bytes Field.gateway_addr4 = refl
  length-field_bytes Field.gateway_addr6 = refl
  length-field_bytes Field.srcdst_port = refl
  length-field_bytes Field.packets = refl
  length-field_bytes Field.octets = refl
  length-field_bytes Field.if_indices = refl
  length-field_bytes Field.agent_info = refl
  length-field_bytes Field.flow_times = refl
  length-field_bytes Field.as_info = refl
  length-field_bytes Field.flow_engine_info = refl
  length-field_bytes Field.crc32 = refl

  pub length-emit : (xs : List Field) → length (emit xs) ≡ sum_sizes fields xs
  length-emit [] = refl
  length-emit (x ∷ xs) = elim (Bool-cases (has_field fields x)) [
    | inl set ↦ rw set (
        length-append (field_bytes f v x) (emit xs)
        ∙ ap₂ (λ (a b : ℕ). a + b) (length-field_bytes x) (length-emit xs))
    | inr unset ↦ rw unset (length-emit xs ∙ omega arith)
  ]
