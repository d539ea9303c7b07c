-- ===== src/Filter/Criteria.antt =====
-- `flow_match` is a conjunction: the order of its tests and its early returns do not matter.
use mathlib.Core.Bool.{false≢true}
use network_monitoring_emula.Common.{
  ◌⊎◌, inl, inr, sym, ℕ, ◌≡◌, refl, sym, ◌↔◌, Bool, true, false, not, ◌&&◌, ◌||◌, List, [], ◌∷◌,
  if◌then◌else◌,
}
use network_monitoring_emula.Store.{FlowComplete, has_bit}
use network_monitoring_emula.Filter.{
  FilterRule, Criterion, agent_addr, ifndx_in, ifndx_out, af, src_addr, dst_addr, src_port,
  dst_port, protocol, tos, tcp_flags, daytime, abstime, flag, Tm, criterion_test, check, flow_match,
}

-- A criterion is met when the rule does not name it, or its test holds, or, if the rule negates it,
-- fails.
abbrev pub IsMet : (ℕ → Tm) → FilterRule → FlowComplete → Criterion → Type 0
IsMet localtime rule flow c =
    (has_bit rule.criteria.match_what (flag c) ≡ false)
    ⊎ (criterion_test localtime rule.criteria flow c
        ≡ not (has_bit rule.criteria.match_negate (flag c)))

gate_iff :
    (what neg m rest : Bool)
    → ((if what && ((neg && m) || (not neg && not m)) then false else rest) ≡ true)
      ↔ (((what ≡ false) ⊎ (m ≡ not neg)) × (rest ≡ true))
gate_iff false neg m rest = (λ e. (inl refl, e), λ e. e.1)
gate_iff true true true rest = (
  λ e. absurd (false≢true e),
  λ e. elim e.0 [ inl p ↦ absurd (false≢true (sym p)) | inr p ↦ absurd (false≢true (sym p)) ],
)
gate_iff true true false rest = (λ e. (inr refl, e), λ e. e.1)
gate_iff true false true rest = (λ e. (inr refl, e), λ e. e.1)
gate_iff true false false rest = (
  λ e. absurd (false≢true e),
  λ e. elim e.0 [ inl p ↦ absurd (false≢true (sym p)) | inr p ↦ absurd (false≢true p) ],
)

module _ (localtime : ℕ → Tm) (rule : FilterRule) (flow : FlowComplete) where
  check_iff :
      (c : Criterion) (rest : Bool)
      → (check localtime rule.criteria flow c rest ≡ true)
        ↔ (IsMet localtime rule flow c × (rest ≡ true))
  unfolding check
  check_iff c rest =
      gate_iff (has_bit rule.criteria.match_what (flag c))
        (has_bit rule.criteria.match_negate (flag c))
        (criterion_test localtime rule.criteria flow c) rest

  -- The blocks from a criterion on, as a list.
  blocks : List Criterion → Bool
  blocks [] = true
  blocks (c ∷ cs) = check localtime rule.criteria flow c (blocks cs)

  abbrev AllMet : List Criterion → Type 0
  AllMet [] = Unit {0}
  AllMet (c ∷ cs) = IsMet localtime rule flow c × AllMet cs

  blocks_iff : (cs : List Criterion) → (blocks cs ≡ true) ↔ AllMet cs
  unfolding blocks
  blocks_iff [] = (λ e. tt, λ e. refl)
  blocks_iff (c ∷ cs) = (
    λ e. (((check_iff c (blocks cs)).0 e).0, (blocks_iff cs).0 (((check_iff c (blocks cs)).0 e).1)),
    λ a. (check_iff c (blocks cs)).1 (a.0, (blocks_iff cs).1 a.1),
  )

  abbrev in_order : List Criterion
  in_order =
      agent_addr ∷ ifndx_in ∷ ifndx_out ∷ af ∷ src_addr ∷ dst_addr ∷ src_port ∷ dst_port ∷ protocol
      ∷ tos ∷ tcp_flags ∷ daytime ∷ abstime ∷ []

  all_of : AllMet in_order → (c : Criterion) → IsMet localtime rule flow c
  all_of a agent_addr = a.0
  all_of a ifndx_in = a.1.0
  all_of a ifndx_out = a.1.1.0
  all_of a af = a.1.1.1.0
  all_of a src_addr = a.1.1.1.1.0
  all_of a dst_addr = a.1.1.1.1.1.0
  all_of a src_port = a.1.1.1.1.1.1.0
  all_of a dst_port = a.1.1.1.1.1.1.1.0
  all_of a protocol = a.1.1.1.1.1.1.1.1.0
  all_of a tos = a.1.1.1.1.1.1.1.1.1.0
  all_of a tcp_flags = a.1.1.1.1.1.1.1.1.1.1.0
  all_of a daytime = a.1.1.1.1.1.1.1.1.1.1.1.0
  all_of a abstime = a.1.1.1.1.1.1.1.1.1.1.1.1.0

  AllMet-intro : ((c : Criterion) → IsMet localtime rule flow c) → (cs : List Criterion) → AllMet cs
  AllMet-intro h [] = tt
  AllMet-intro h (c ∷ cs) = (h c, AllMet-intro h cs)

  -- A rule matches a flow exactly when every criterion is met: the rule does not name it, or its test
  -- holds, or, if the rule negates it, fails.
  pub flow_match_iff :
      (flow_match localtime rule flow ≡ true) ↔ ((c : Criterion) → IsMet localtime rule flow c)
  unfolding flow_match blocks
  flow_match_iff = (
    λ e. all_of ((blocks_iff in_order).0 e),
    λ h. (blocks_iff in_order).1 (AllMet-intro h in_order),
  )
