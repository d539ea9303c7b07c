-- ===== src/Addr/Compare.antt =====
-- `addr_cmp` is a total order on the addresses of the two families: that of `key`.
use native.Mathlib.Nat.{pow-suc, mul-le-mul_right}
use network_monitoring_emula.Common.{
  ℕ, zero, suc, ◌+◌, ◌-◌, ◌*◌, ◌^◌, ◌<◌, ◌≡◌, refl, ◌⊎◌, inl, inr, List, [], ◌∷◌, length, arith,
  if◌then◌else◌, ◌==◌, ltb, not,
}
use network_monitoring_emula.Common.Int.{ℤ, pos, negsuc, sub_ℕ, is_zero}
use network_monitoring_emula.Addr.{
  Family, inet, inet6, other, Quad, Xaddr, addr8, cmp_bytes, cmp_inet6, addr_cmp,
}
use network_monitoring_emula.Addr.Value.{IsInternet, IsXaddr, key, value_of}

-- The sign of `z` tells how `m` and `n` compare, as with `strcmp`.
abbrev pub Compares : ℤ → ℕ → ℕ → Type 0
Compares (pos zero) m n = m ≡ n
Compares (pos (suc _)) m n = n < m
Compares (negsuc _) m n = m < n

abbrev bytes_value : List ℕ → ℕ
bytes_value [] = 0
bytes_value (x ∷ xs) = x * 256 ^ length xs + bytes_value xs

abbrev AllBytes : List ℕ → Type 0
AllBytes [] = Unit {0}
AllBytes (x ∷ xs) = (x < 256) × AllBytes xs

bytes_value-lt : (xs : List ℕ) → AllBytes xs → bytes_value xs < 256 ^ length xs
bytes_value-lt [] h = omega arith
bytes_value-lt (x ∷ xs) h =
    grind (
      arith,
      bytes_value-lt xs h.1,
      pow-suc 256 (length xs),
      mul-le-mul_right (256 ^ length xs) h.0,
    )

trichotomy : (x y : ℕ) → (x < y) ⊎ ((x ≡ y) ⊎ (y < x))
trichotomy x y = grind arith

sub_lt : (x y : ℕ) → x < y → sub_ℕ x y ≡ negsuc (y - x - 1)
sub_lt x y h = ground arith

sub_gt : (x y : ℕ) → y < x → sub_ℕ x y ≡ pos (suc (x - y - 1))
sub_gt x y h = ground arith

sub_self : (x : ℕ) → sub_ℕ x x ≡ pos 0
sub_self x = ground arith

product_lt : (x y m n p : ℕ) → m < p → x < y → x * p + m < y * p + n
product_lt x y m n p hm h = grind (arith, mul-le-mul_right p h)

-- Equal heads leave the order to the rest.
Compares-add : (z : ℤ) (k m n : ℕ) → Compares z m n → Compares z (k + m) (k + n)
Compares-add (pos zero) k m n c = omega arith
Compares-add (pos (suc d)) k m n c = omega arith
Compares-add (negsuc d) k m n c = omega arith

-- The highest byte decides; equal ones leave it to the rest.
cmp_step :
    (x y m n p : ℕ) (z : ℤ)
    → m < p
    → n < p
    → Compares z m n
    → Compares (if is_zero (sub_ℕ x y) then z else sub_ℕ x y) (x * p + m) (y * p + n)
cmp_step x y m n p z hm hn c = elim (trichotomy x y) [
  | inl lt ↦ rw (sub_lt x y lt) (product_lt x y m n p hm lt)
  | inr (inl e) ↦ rw (e, sub_self y) (Compares-add z (y * p) m n c)
  | inr (inr gt) ↦ rw (sub_gt x y gt) (product_lt y x n m p hn gt)
]

cmp_bytes-Compares :
    (xs ys : List ℕ)
    → length xs ≡ length ys
    → AllBytes xs
    → AllBytes ys
    → Compares (cmp_bytes xs ys) (bytes_value xs) (bytes_value ys)
unfolding cmp_bytes
cmp_bytes-Compares [] [] e hx hy = refl
cmp_bytes-Compares [] (y ∷ ys) e hx hy = absurd (omega arith)
cmp_bytes-Compares (x ∷ xs) [] e hx hy = absurd (omega arith)
cmp_bytes-Compares (x ∷ xs) (y ∷ ys) e hx hy =
    let e' : length xs ≡ length ys = omega arith in
    rw (e') (
      cmp_step x y (bytes_value xs) (bytes_value ys) (256 ^ length ys) (cmp_bytes xs ys)
        (rw (← e') (bytes_value-lt xs hx.1)) (bytes_value-lt ys hy.1)
        (cmp_bytes-Compares xs ys e' hx.1 hy.1))

addr8-AllBytes : (q : Quad) → AllBytes (addr8 q)
addr8-AllBytes q = omega arith

addr8-value : (a : Xaddr) → a.af ≡ inet6 → IsXaddr a → bytes_value (addr8 a.addr32) ≡ value_of a
addr8-value a e h = rw (e) (omega arith)

abbrev xaddr : Family → Quad → ℕ → Xaddr
xaddr f q s = record { af = f; addr32 = q; scope_id = s }

-- Two numbers compared by `==` and `>`, as the code compares IPv4 words and scopes.
Compares-tests :
    (m n : ℕ) → Compares (if m == n then pos 0 else if ltb n m then pos 1 else negsuc 0) m n
Compares-tests m n = ground arith

-- The scope decides between equal addresses.
Compares-then :
    (d e : ℤ) (m n s t p : ℕ)
    → Compares d m n
    → Compares e s t
    → s < p
    → t < p
    → Compares (if not (is_zero d) then d else e) (m * p + s) (n * p + t)
Compares-then (pos zero) e m n s t p c c' hs ht = rw (c) (Compares-add e (n * p) s t c')
Compares-then (pos (suc d)) e m n s t p c c' hs ht = product_lt n m t s p ht c
Compares-then (negsuc d) e m n s t p c c' hs ht = product_lt m n s t p hs c

cmp_inet6-Compares :
    (p q : Quad) (s t : ℕ)
    → IsXaddr (xaddr inet6 p s)
    → IsXaddr (xaddr inet6 q t)
    → Compares
        (cmp_inet6 (xaddr inet6 p s) (xaddr inet6 q t))
        (value_of (xaddr inet6 p s) * 2 ^ 32 + s)
        (value_of (xaddr inet6 q t) * 2 ^ 32 + t)
unfolding cmp_inet6
cmp_inet6-Compares p q s t hp hq =
    Compares-then (cmp_bytes (addr8 p) (addr8 q)) _ (value_of (xaddr inet6 p s))
      (value_of (xaddr inet6 q t)) s t (2 ^ 32)
      (rw (← addr8-value (xaddr inet6 p s) refl hp, ← addr8-value (xaddr inet6 q t) refl hq)
        (cmp_bytes-Compares (addr8 p) (addr8 q) refl (addr8-AllBytes p) (addr8-AllBytes q)))
      (Compares-tests s t) hp.4 hq.4

cmp_parts :
    (f g : Family) (p q : Quad) (s t : ℕ)
    → IsInternet f
    → IsInternet g
    → IsXaddr (xaddr f p s)
    → IsXaddr (xaddr g q t)
    → Compares (addr_cmp (xaddr f p s) (xaddr g q t)) (key (xaddr f p s)) (key (xaddr g q t))
unfolding addr_cmp
cmp_parts inet inet p q s t hf hg hp hq = ground arith
cmp_parts inet inet6 p q s t hf hg hp hq = omega arith
cmp_parts inet6 inet p q s t hf hg hp hq = omega arith
cmp_parts inet6 inet6 p q s t hf hg hp hq =
    Compares-add (cmp_inet6 (xaddr inet6 p s) (xaddr inet6 q t)) _ _ _
      (cmp_inet6-Compares p q s t hp hq)
cmp_parts (other m) g p q s t hf hg hp hq = absurd hf
cmp_parts inet (other n) p q s t hf hg hp hq = absurd hg
cmp_parts inet6 (other n) p q s t hf hg hp hq = absurd hg

-- On addresses of the two internet families with words of 32 bits the sign of `addr_cmp` is that of
-- the comparison of two numbers, `key`: it is a total order, 0 exactly on equal keys. IPv4 comes
-- before IPv6, and among IPv6 addresses the scope decides last.
pub addr_cmp-Compares :
    (a b : Xaddr)
    → IsInternet a.af
    → IsInternet b.af
    → IsXaddr a
    → IsXaddr b
    → Compares (addr_cmp a b) (key a) (key b)
addr_cmp-Compares a b fa fb ha hb =
    cmp_parts a.af b.af a.addr32 b.addr32 a.scope_id b.scope_id fa fb ha hb
