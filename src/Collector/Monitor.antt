-- ===== src/Collector/Monitor.antt =====
-- The source of a datagram in flowd/flowd.c: the address that its header or its socket gives.
use network_monitoring_emula.Common.{
  ℕ, zero, suc, ◌+◌, ◌^◌, ◌≤◌, ◌<◌, ◌≡◌, inl, inr, Bool, true, false, Option, none, some, List, [],
  ◌∷◌, ltb, ◌==◌, if◌then◌else◌, length, length-take-of_le, take, drop, arith, Bool-cases, subst,
}
use native.Mathlib.Nat.{pow-suc, mul-le-mul_right}
use network_monitoring_emula.Common.Tailq.{AllOf}
use network_monitoring_emula.Addr.{Xaddr}
use network_monitoring_emula.Addr.Socket.{SockAddr, in4, in6, other_sa, addr_sa_to_xaddr}
use network_monitoring_emula.Store.Bytes.{number, from_be}
use network_monitoring_emula.Peer.Tree.{IsAddress}
use network_monitoring_emula.Collector.Receive.{Emulator, monitor, behind, monitor_at, emulator_of}

module _ (P : ℕ → Type 0) where
  AllOf-take : (n : ℕ) (xs : List ℕ) → AllOf P xs → AllOf P (take n xs)
  AllOf-take zero xs a = tt
  AllOf-take (suc n) [] a = tt
  AllOf-take (suc n) (x ∷ xs) a = (a.0, AllOf-take n xs a.1)

  AllOf-drop : (n : ℕ) (xs : List ℕ) → AllOf P xs → AllOf P (drop n xs)
  AllOf-drop zero xs a = a
  AllOf-drop (suc n) [] a = tt
  AllOf-drop (suc n) (x ∷ xs) a = AllOf-drop n xs a.1

abbrev pub IsByte : ℕ → Type 0
IsByte x = x < 256

-- A socket address whose numbers fit.
abbrev pub IsSockAddr : SockAddr → Type 0
IsSockAddr (in4 port a) = a < 2 ^ 32
IsSockAddr (in6 port a scope) =
    (a.w0 < 2 ^ 32) × (a.w1 < 2 ^ 32) × (a.w2 < 2 ^ 32) × (a.w3 < 2 ^ 32) × (scope < 2 ^ 32)
IsSockAddr (other_sa f) = Unit

guarded_some :
    (P : Xaddr → Type 0) (b : Bool) (x y : Xaddr)
    → ◌≡◌ {A = Option Xaddr} (if b then none else some x) (some y)
    → P x
    → P y
guarded_some P true x y e h = cc
guarded_some P false x y e h = subst P (cc) h

pub sa_to_xaddr-IsAddress :
    (size4 size6 : ℕ) (sa : SockAddr) (len : ℕ) (xa : Xaddr)
    → IsSockAddr sa
    → addr_sa_to_xaddr size4 size6 sa len ≡ some xa
    → IsAddress xa
unfolding addr_sa_to_xaddr
sa_to_xaddr-IsAddress size4 size6 (in4 port a) len xa h e =
    guarded_some IsAddress (ltb len size4) _ xa e
      (tt, (h, omega arith, omega arith, omega arith, omega arith))
sa_to_xaddr-IsAddress size4 size6 (in6 port a scope) len xa h e =
    guarded_some IsAddress (ltb len size6) _ xa e (tt, h)
sa_to_xaddr-IsAddress size4 size6 (other_sa f) len xa h e = cc

from_be-lt : (bs : List ℕ) → AllOf IsByte bs → from_be bs < 256 ^ length bs
from_be-lt [] h = omega arith
from_be-lt (x ∷ xs) h =
    grind
      (arith, from_be-lt xs h.1, pow-suc 256 (length xs), mul-le-mul_right (256 ^ length xs) h.0)

drop-room : (i n : ℕ) (xs : List ℕ) → i + n ≤ length xs → n ≤ length (drop i xs)
drop-room zero n xs fit = omega arith
drop-room (suc i) n [] fit = absurd (omega arith)
drop-room (suc i) n (x ∷ xs) fit = drop-room i n xs (omega arith)

number-lt : (i : ℕ) (bs : List ℕ) → AllOf IsByte bs → i + 4 ≤ length bs → number i 4 bs < 2 ^ 32
number-lt i bs h fit =
    subst (λ n. number i 4 bs < 256 ^ n) (length-take-of_le 4 (drop i bs) (drop-room i 4 bs fit))
      (from_be-lt (take 4 (drop i bs)) (AllOf-take IsByte 4 (drop i bs) (AllOf-drop IsByte i bs h)))

abbrev pub IsEmulator : List ℕ → Emulator → Type 0
IsEmulator bs (monitor w) = w < 2 ^ 32
IsEmulator bs behind = length bs < 28
IsEmulator bs _ = Unit {0}

monitor_at-IsEmulator :
    (offset : ℕ) (bs : List ℕ)
    → AllOf IsByte bs
    → offset + 4 ≤ 28
    → IsEmulator bs (monitor_at offset bs)
unfolding monitor_at
monitor_at-IsEmulator offset bs h fit = elim (Bool-cases (ltb (length bs) (offset + 4))) [
  | inl short ↦ rw (short, monitor_at) (ground arith)
  | inr long ↦ elim (Bool-cases (ltb 0 (number offset 4 bs))) [
    | inl address ↦
        rw (long, monitor_at) (rw (address, monitor_at) (number-lt offset bs h (ground arith)))
    | inr no_address ↦ rw (long, monitor_at) (rw (no_address, monitor_at) tt)
  ]
]

pub emulator_of-IsEmulator : (bs : List ℕ) → AllOf IsByte bs → IsEmulator bs (emulator_of bs)
unfolding emulator_of
emulator_of-IsEmulator bs h = elim (Bool-cases (ltb (length bs) 2)) [
  | inl short ↦ rw (short, emulator_of) (ground arith)
  | inr long ↦ elim (Bool-cases (number 0 2 bs == 1)) [
    | inl v1 ↦
        rw (long, emulator_of) (rw (v1, emulator_of) (monitor_at-IsEmulator 16 bs h (omega arith)))
    | inr n1 ↦ elim (Bool-cases (number 0 2 bs == 5)) [
      | inl v5 ↦
          rw (long, emulator_of)
            (rw (n1, emulator_of)
              (rw (v5, emulator_of) (monitor_at-IsEmulator 24 bs h (omega arith))))
      | inr n5 ↦ rw (long, emulator_of) (rw (n1, emulator_of) (rw (n5, emulator_of) tt))
    ]
  ]
]
