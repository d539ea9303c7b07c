-- ===== src/Store/Codec/Addrs.antt =====
-- The four addresses of a flow on their way to the buffer: which flags stay, which locals are set.
use network_monitoring_emula.Common.{
  ℕ, ◌^◌, ◌<◌, ◌≤◌, ◌≡◌, ◌≢◌, refl, sym, subst, ◌∙◌, ◌⊎◌, inl, inr, true, false, arith,
}
use network_monitoring_emula.Common.Flags.{
  has_bit, without_bit, has_bit-without, has_bit-without_self,
}
use network_monitoring_emula.Addr.{Xaddr, Quad, Family, inet, inet6, other}
use network_monitoring_emula.Addr.Value.{IsXaddr}
use network_monitoring_emula.Addr.Network.{xaddr}
use network_monitoring_emula.Store.Field.{Field, bit, has_field}
use network_monitoring_emula.Store.Codec.{ok, fix_addr}
use network_monitoring_emula.Store.Codec.Copy.{IsQuad}
use network_monitoring_emula.Store.Codec.Known.{without_keeps}

-- The flags of an address fit it: none is set, or that of its family is (the other may be too).
abbrev pub IsCoherent : Xaddr → Field → Field → ℕ → Type 0
IsCoherent a x4 x6 m =
    ((has_field m x4 ≡ false) × (has_field m x6 ≡ false))
    ⊎ (((a.af ≡ inet) × (has_field m x4 ≡ true)) ⊎ ((a.af ≡ inet6) × (has_field m x6 ≡ true)))

-- After the switch: no flag, or the one of the family with its local holding the address.
abbrev pub IsFixed : Xaddr → Field → Field → ℕ → ℕ → Quad → Type 0
IsFixed a x4 x6 m v4 v6 =
    ((has_field m x4 ≡ false) × (has_field m x6 ≡ false))
    ⊎ (((a.af ≡ inet) × (has_field m x4 ≡ true) × (has_field m x6 ≡ false) × (v4 ≡ a.addr32.w0))
        ⊎ ((a.af ≡ inet6) × (has_field m x4 ≡ false) × (has_field m x6 ≡ true) × (v6 ≡ a.addr32)))

-- The flag of the address's own family is left as it is.
abbrev pub IsKept : Family → Field → Field → ℕ → ℕ → Type 0
IsKept inet x4 x6 m m' = has_field m' x4 ≡ has_field m x4
IsKept inet6 x4 x6 m m' = has_field m' x6 ≡ has_field m x6
IsKept (other _) x4 x6 m m' = Unit {0}

IsKept-self : (g : Family) (x4 x6 : Field) (m : ℕ) → IsKept g x4 x6 m m
IsKept-self inet x4 x6 m = refl
IsKept-self inet6 x4 x6 m = refl
IsKept-self (other n) x4 x6 m = tt

-- It is kept along masks that agree on the two flags.
pub IsKept-along :
    (g : Family) (x4 x6 : Field) (m m1 m2 m3 : ℕ)
    → has_field m1 x4 ≡ has_field m x4
    → has_field m1 x6 ≡ has_field m x6
    → IsKept g x4 x6 m1 m2
    → has_field m3 x4 ≡ has_field m2 x4
    → has_field m3 x6 ≡ has_field m2 x6
    → IsKept g x4 x6 m m3
IsKept-along inet x4 x6 m m1 m2 m3 a b k c d = c ∙ k ∙ a
IsKept-along inet6 x4 x6 m m1 m2 m3 a b k c d = d ∙ k ∙ b
IsKept-along (other n) x4 x6 m m1 m2 m3 a b k c d = tt

-- The result of the switch, with what it leaves alone.
pub record Switched (a : Xaddr) (x4 x6 : Field) (m v4 : ℕ) (v6 : Quad) : Type 0 where
  pub mask : ℕ
  pub local4 : ℕ
  pub local6 : Quad
  pub returns : fix_addr a x4 x6 m v4 v6 ≡ ok (mask, local4, local6)
  pub fixed : IsFixed a x4 x6 mask local4 local6
  pub same : (j : ℕ) → bit x4 ≢ j → bit x6 ≢ j → has_bit mask j ≡ has_bit m j
  pub kept : IsKept a.af x4 x6 m mask
  pub fewer : (j : ℕ) → has_bit m j ≡ false → has_bit mask j ≡ false
  pub no_larger : mask ≤ m
  pub local4_fits : local4 < 2 ^ 32
  pub local6_fits : IsQuad local6

without_bit-le : (m i : ℕ) → without_bit m i ≤ m
without_bit-le m i = ground arith

switch_none :
    (g : Family) (q : Quad) (s : ℕ) (x4 x6 : Field) (m v4 : ℕ) (v6 : Quad)
    → has_field m x4 ≡ false
    → has_field m x6 ≡ false
    → fix_addr (xaddr g q s) x4 x6 m v4 v6 ≡ ok (m, v4, v6)
unfolding fix_addr
switch_none inet q s x4 x6 m v4 v6 h4 h6 = rw h4 refl
switch_none inet6 q s x4 x6 m v4 v6 h4 h6 = rw h6 refl
switch_none (other n) q s x4 x6 m v4 v6 h4 h6 = rw (h4, h6) refl

switch_inet :
    (g : Family) (q : Quad) (s : ℕ) (x4 x6 : Field) (m v4 : ℕ) (v6 : Quad)
    → g ≡ inet
    → has_field m x4 ≡ true
    → fix_addr (xaddr g q s) x4 x6 m v4 v6 ≡ ok (without_bit m (bit x6), q.w0, v6)
unfolding fix_addr
switch_inet g q s x4 x6 m v4 v6 e h4 = rw (e, h4) refl

switch_inet6 :
    (g : Family) (q : Quad) (s : ℕ) (x4 x6 : Field) (m v4 : ℕ) (v6 : Quad)
    → g ≡ inet6
    → has_field m x6 ≡ true
    → fix_addr (xaddr g q s) x4 x6 m v4 v6 ≡ ok (without_bit m (bit x4), v4, q)
unfolding fix_addr
switch_inet6 g q s x4 x6 m v4 v6 e h6 = rw (e, h6) refl

pub switched :
    (a : Xaddr) (x4 x6 : Field) (m v4 : ℕ) (v6 : Quad)
    → bit x4 ≢ bit x6
    → IsXaddr a
    → v4 < 2 ^ 32
    → IsQuad v6
    → IsCoherent a x4 x6 m
    → Switched a x4 x6 m v4 v6
switched a x4 x6 m v4 v6 d x h4 h6 (inl (n4, n6)) = record {
  mask = m;
  local4 = v4;
  local6 = v6;
  returns = switch_none a.af a.addr32 a.scope_id x4 x6 m v4 v6 n4 n6;
  fixed = inl (n4, n6);
  same = λ j p q. refl;
  kept = IsKept-self a.af x4 x6 m;
  fewer = λ j p. p;
  no_larger = omega arith;
  local4_fits = h4;
  local6_fits = h6;
}
switched a x4 x6 m v4 v6 d x h4 h6 (inr (inl (e, set))) = record {
  mask = without_bit m (bit x6);
  local4 = a.addr32.w0;
  local6 = v6;
  returns = switch_inet a.af a.addr32 a.scope_id x4 x6 m v4 v6 e set;
  fixed = inr (
      inl (
        e,
        has_bit-without (bit x6) (bit x4) m (λ p. d (sym p)) ∙ set,
        has_bit-without_self (bit x6) m,
        refl,
      ));
  same = λ j p q. has_bit-without (bit x6) j m q;
  kept =
      subst (λ t. IsKept t x4 x6 m (without_bit m (bit x6))) (sym e)
        (has_bit-without (bit x6) (bit x4) m (λ p. d (sym p)));
  fewer = λ j p. without_keeps (bit x6) j m p;
  no_larger = without_bit-le m (bit x6);
  local4_fits = x.0;
  local6_fits = h6;
}
switched a x4 x6 m v4 v6 d x h4 h6 (inr (inr (e, set))) = record {
  mask = without_bit m (bit x4);
  local4 = v4;
  local6 = a.addr32;
  returns = switch_inet6 a.af a.addr32 a.scope_id x4 x6 m v4 v6 e set;
  fixed =
      inr (
        inr
          (e, has_bit-without_self (bit x4) m, has_bit-without (bit x4) (bit x6) m d ∙ set, refl));
  same = λ j p q. has_bit-without (bit x4) j m p;
  kept =
      subst (λ t. IsKept t x4 x6 m (without_bit m (bit x4))) (sym e)
        (has_bit-without (bit x4) (bit x6) m d);
  fewer = λ j p. without_keeps (bit x4) j m p;
  no_larger = without_bit-le m (bit x4);
  local4_fits = h4;
  local6_fits = (x.0, x.1, x.2, x.3);
}

-- Masks that agree on the two flags serve alike.
pub IsCoherent-same :
    (a : Xaddr) (x4 x6 : Field) (m m' : ℕ)
    → has_field m' x4 ≡ has_field m x4
    → has_field m' x6 ≡ has_field m x6
    → IsCoherent a x4 x6 m
    → IsCoherent a x4 x6 m'
IsCoherent-same a x4 x6 m m' p q (inl (h, k)) = inl (p ∙ h, q ∙ k)
IsCoherent-same a x4 x6 m m' p q (inr (inl (e, h))) = inr (inl (e, p ∙ h))
IsCoherent-same a x4 x6 m m' p q (inr (inr (e, h))) = inr (inr (e, q ∙ h))

pub IsFixed-same :
    (a : Xaddr) (x4 x6 : Field) (m m' v4 : ℕ) (v6 : Quad)
    → has_field m' x4 ≡ has_field m x4
    → has_field m' x6 ≡ has_field m x6
    → IsFixed a x4 x6 m v4 v6
    → IsFixed a x4 x6 m' v4 v6
IsFixed-same a x4 x6 m m' v4 v6 p q (inl (h, k)) = inl (p ∙ h, q ∙ k)
IsFixed-same a x4 x6 m m' v4 v6 p q (inr (inl (e, h, k, l))) = inr (inl (e, p ∙ h, q ∙ k, l))
IsFixed-same a x4 x6 m m' v4 v6 p q (inr (inr (e, h, k, l))) = inr (inr (e, p ∙ h, q ∙ k, l))
