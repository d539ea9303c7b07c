-- ===== src/Store/Codec/Chunks.antt =====
-- Reading back what was written, field by field.
use mathlib.Core.List.{append_assoc}
use network_monitoring_emula.Common.{
  ℕ, suc, ◌+◌, ◌≡◌, refl, ap, sym, subst, ◌∙◌, Bool, true, false, not, ◌&&◌, List, [], ◌∷◌, ◌++◌,
  length, length-append, take, drop, take-append, drop-append, ltb, ◌==◌, if◌then◌else◌, Bool-cases,
  if_true, if_false, inl, inr, arith,
}
use network_monitoring_emula.Common.Flags.{without_bit}
use network_monitoring_emula.Store.{FlowComplete}
use network_monitoring_emula.Store.Field.{Field, bit, size, has_field}
use network_monitoring_emula.Store.Bytes.{Locals, field_bytes, put_field}
use network_monitoring_emula.Store.Crc32.{flowd_crc32_update}
use network_monitoring_emula.Store.Crc32.Reference.{crc32_update-append}
use network_monitoring_emula.Store.Codec.{Result, ok, ◌>>=◌, Reading, rfield, rfields}
use network_monitoring_emula.Store.Codec.Layout.{
  sum_sizes, clear_all, Ascending, AgreeFrom, AgreeFrom-without, without_unset, NoChecksum,
  crc32_update-nil, emit, length-field_bytes,
}

-- The bytes at the end of a prefix.
slice_lem :
    (pre mid post : List ℕ) → take (length mid) (drop (length pre) (pre ++ (mid ++ post))) ≡ mid
slice_lem pre mid post = rw (drop-append pre (mid ++ post)) (take-append mid post)

module _ (fields : ℕ) (f : FlowComplete) (v : Locals) where
  -- What the RFIELD lines of a list put into the record and the locals.
  abbrev pub put_all : List Field → FlowComplete × Locals → FlowComplete × Locals
  put_all [] w = w
  put_all (x ∷ xs) w =
      put_all xs (if has_field fields x then put_field x (field_bytes f v x) w else w)

  -- One RFIELD line over the bytes of its field.
  pub rfield-chunk :
      (x : Field) (pre post : List ℕ) (r : Reading)
      → has_field fields x ≡ true
      → r.offset ≡ length pre
      → rfield (pre ++ (field_bytes f v x ++ post)) fields x r
        ≡ ok (record {
          offset = r.offset + size x;
          crc =
              if has_field fields Field.crc32 && not (bit x == 30)
              then flowd_crc32_update (field_bytes f v x) r.crc
              else r.crc;
          donefields = without_bit r.donefields (bit x);
          values = put_field x (field_bytes f v x) r.values;
        })
  unfolding rfield
  rfield-chunk x pre post r set at =
      let len : length (pre ++ (field_bytes f v x ++ post)) ≡ length pre + (size x + length post) =
        length-append pre (field_bytes f v x ++ post)
        ∙ ap (λ (t : ℕ). length pre + t)
            (length-append (field_bytes f v x) post
              ∙ ap (λ (t : ℕ). t + length post) (length-field_bytes fields f v x)) in
      let fits : ltb (length (pre ++ (field_bytes f v x ++ post))) (length pre + size x) ≡ false =
        rw len (ground arith) in
      let bs : take (size x) (drop (length pre) (pre ++ (field_bytes f v x ++ post)))
          ≡ field_bytes f v x =
        rw (← length-field_bytes fields f v x) (slice_lem pre (field_bytes f v x) post) in
      rw (set, at, fits, bs) refl

  -- What the RFIELD lines leave.
  abbrev pub after_fields : List Field → ℕ → ℕ → ℕ → FlowComplete × Locals → Reading
  after_fields xs offset crc m w = record {
    offset = offset + sum_sizes fields xs;
    crc = if has_field fields Field.crc32 then flowd_crc32_update (emit fields f v xs) crc else crc;
    donefields = clear_all xs m;
    values = put_all xs w;
  }

  rfields-cons :
      (buf : List ℕ) (x : Field) (xs : List Field) (r r' : Reading)
      → rfield buf fields x r ≡ ok r'
      → rfields buf fields (x ∷ xs) r ≡ rfields buf fields xs r'
  unfolding rfields
  rfields-cons buf x xs r r' e = ap (λ (t : Result Reading). t >>= (λ q. rfields buf fields xs q)) e

  pub rfield_absent :
      (buf : List ℕ) (x : Field) (r : Reading)
      → has_field fields x ≡ false
      → rfield buf fields x r ≡ ok r
  unfolding rfield
  rfield_absent buf x r unset = rw unset refl

  -- A checksum taken over a field and then over the rest.
  crc-step :
      (b q : Bool) (xs ys : List ℕ) (crc : ℕ)
      → q ≡ false
      → (if b
          then flowd_crc32_update ys (if b && not q then flowd_crc32_update xs crc else crc)
          else (if b && not q then flowd_crc32_update xs crc else crc))
        ≡ (if b then flowd_crc32_update (xs ++ ys) crc else crc)
  crc-step true true xs ys crc h = cc
  crc-step true false xs ys crc h = sym (crc32_update-append xs ys crc)
  crc-step false q xs ys crc h = refl

  emit_set :
      (x : Field) (xs : List Field)
      → has_field fields x ≡ true
      → emit fields f v (x ∷ xs) ≡ field_bytes f v x ++ emit fields f v xs
  emit_set x xs set = ap (λ (t : List ℕ). t ++ emit fields f v xs) (if_true _ _ _ set)

  emit_unset :
      (x : Field) (xs : List Field)
      → has_field fields x ≡ false
      → emit fields f v (x ∷ xs) ≡ emit fields f v xs
  emit_unset x xs unset = ap (λ (t : List ℕ). t ++ emit fields f v xs) (if_false _ _ _ unset)

  after_set :
      (x : Field) (xs : List Field) (pre : List ℕ) (crc m : ℕ) (w : FlowComplete × Locals)
      → has_field fields x ≡ true
      → (bit x == 30) ≡ false
      → after_fields xs
          (length (pre ++ field_bytes f v x))
          (if has_field fields Field.crc32 && not (bit x == 30)
            then flowd_crc32_update (field_bytes f v x) crc
            else crc)
          (without_bit m (bit x))
          (put_field x (field_bytes f v x) w)
        ≡ after_fields (x ∷ xs) (length pre) crc m w
  after_set x xs pre crc m w set other = λ i. record {
    offset = offsets i;
    crc = sums i;
    donefields = clear_all xs (without_bit m (bit x));
    values = put_all xs (sym (if_true _ (put_field x (field_bytes f v x) w) w set) i);
  }
    where
      offsets :
          length (pre ++ field_bytes f v x) + sum_sizes fields xs
          ≡ length pre + sum_sizes fields (x ∷ xs)
      offsets = omega (
        arith,
        length-append pre (field_bytes f v x),
        length-field_bytes fields f v x,
        if_true (has_field fields x) (size x) 0 set,
      )

      sums :
          (if has_field fields Field.crc32
            then flowd_crc32_update (emit fields f v xs) (
                if has_field fields Field.crc32 && not (bit x == 30)
                then flowd_crc32_update (field_bytes f v x) crc
                else crc)
            else (if has_field fields Field.crc32 && not (bit x == 30)
                then flowd_crc32_update (field_bytes f v x) crc
                else crc))
          ≡ (if has_field fields Field.crc32
              then flowd_crc32_update (emit fields f v (x ∷ xs)) crc
              else crc)
      sums =
          crc-step (has_field fields Field.crc32) (bit x == 30) (field_bytes f v x)
            (emit fields f v xs) crc other
          ∙ ap
              (λ (t : List ℕ).
                if has_field fields Field.crc32 then flowd_crc32_update t crc else crc)
              (sym (emit_set x xs set))

  after_unset :
      (x : Field) (xs : List Field) (pre : List ℕ) (crc m : ℕ) (w : FlowComplete × Locals)
      → has_field fields x ≡ false
      → without_bit m (bit x) ≡ m
      → after_fields xs (length pre) crc m w ≡ after_fields (x ∷ xs) (length pre) crc m w
  after_unset x xs pre crc m w unset same = λ i. record {
    offset = offsets i;
    crc =
        if has_field fields Field.crc32
        then flowd_crc32_update (sym (emit_unset x xs unset) i) crc
        else crc;
    donefields = clear_all xs (sym same i);
    values = put_all xs (sym (if_false _ (put_field x (field_bytes f v x) w) w unset) i);
  }
    where
      offsets : length pre + sum_sizes fields xs ≡ length pre + sum_sizes fields (x ∷ xs)
      offsets = omega (arith, if_false (has_field fields x) (size x) 0 unset)

  -- The RFIELD lines over the bytes of their fields.
  pub rfields-emit :
      (xs : List Field) (buf pre post : List ℕ) (n crc m : ℕ) (w : FlowComplete × Locals)
      → buf ≡ pre ++ (emit fields f v xs ++ post)
      → Ascending n xs
      → NoChecksum xs
      → AgreeFrom n m fields
      → rfields buf fields xs
          (record { offset = length pre; crc = crc; donefields = m; values = w })
        ≡ ok (after_fields xs (length pre) crc m w)
  rfields-emit [] buf pre post n crc m w e h c a =
      unfold rfields in ground (arith, crc32_update-nil crc)
  rfields-emit (x ∷ xs) buf pre post n crc m w e h c a = elim (Bool-cases (has_field fields x)) [
    | inl set ↦
        let chunk = field_bytes f v x in
        let rest = AgreeFrom-without n (bit x) m fields h.0 a in
        let tail : List ℕ = emit fields f v xs ++ post in
        let whole : buf ≡ pre ++ (chunk ++ tail) =
          e
          ∙ ap (λ (t : List ℕ). pre ++ (t ++ post)) (emit_set x xs set)
          ∙ ap (◌++◌ pre) (append_assoc chunk (emit fields f v xs) post) in
        let start : Reading = record {
          offset = length pre;
          crc = crc;
          donefields = m;
          values = w;
        } in
        let crc' =
          if has_field fields Field.crc32 && not (bit x == 30)
          then flowd_crc32_update chunk crc
          else crc in
        let at : length pre + size x ≡ length (pre ++ chunk) =
          omega (arith, length-append pre chunk, length-field_bytes fields f v x) in
        rfields-cons buf x xs start _ (
          ap (λ (t : List ℕ). rfield t fields x start) whole
          ∙ rfield-chunk x pre tail start set refl)
        ∙ ap
            (λ (o : ℕ). rfields buf fields xs (record {
              offset = o;
              crc = crc';
              donefields = without_bit m (bit x);
              values = put_field x chunk w;
            }))
            at
        ∙ rfields-emit xs buf (pre ++ chunk) post (suc (bit x)) crc' (without_bit m (bit x))
            (put_field x chunk w) (whole ∙ sym (append_assoc pre chunk tail)) h.1 c.1 rest
        ∙ ap ok (after_set x xs pre crc m w set c.0)
    | inr unset ↦
        let rest = AgreeFrom-without n (bit x) m fields h.0 a in
        let same = without_unset m (bit x) (a (bit x) h.0 ∙ unset) in
        rfields-cons buf x xs _ _ (rfield_absent buf x _ unset)
        ∙ rfields-emit xs buf pre post (suc (bit x)) crc m w
            (e ∙ ap (λ (t : List ℕ). pre ++ (t ++ post)) (emit_unset x xs unset)) h.1 c.1
            (subst (λ t. AgreeFrom (suc (bit x)) t fields) same rest)
        ∙ ap ok (after_unset x xs pre crc m w unset same)
  ]
