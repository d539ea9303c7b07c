-- ===== src/Filter/Winner.antt =====
-- Which rule decides in `filter_flow`: the first quick match, or else the last match.
use network_monitoring_emula.Common.{
  ℕ, zero, suc, ◌+◌, ◌≡◌, refl, ◌⊎◌, inl, inr, Bool, true, false, Option, none, some, List, [], ◌∷◌,
  ◌≢◌, ap, ◌∙◌, subst, Option-cases, if◌then◌else◌, arith,
}
use network_monitoring_emula.Store.{FlowComplete, with_bit}
use network_monitoring_emula.Filter.{
  Action, accept, discard, tag, FilterAction, FilterRule, Tm, flow_match, evaluated, matched, scan,
  add_win, action_at, apply_action, deliver, filter_flow,
}

module _ (localtime : ℕ → Tm) (flow : FlowComplete) where
  abbrev pub matches_flow : FilterRule → Bool
  matches_flow r = flow_match localtime r flow

  abbrev pub NoMatch : List FilterRule → Type 0
  NoMatch [] = Unit {0}
  NoMatch (r ∷ rs) = (matches_flow r ≡ false) × NoMatch rs

  -- Rule `i` of the list decides: it matches, no earlier rule is a quick match, and it is quick or
  -- no later rule matches. With `none`, no rule matches.
  abbrev pub Decides : List FilterRule → Option ℕ → Type 0
  Decides rs none = NoMatch rs
  Decides [] (some i) = ⊥
  Decides (r ∷ rs) (some zero) = (matches_flow r ≡ true) × ((r.quick ≡ true) ⊎ NoMatch rs)
  Decides (r ∷ rs) (some (suc i)) =
      ((matches_flow r ≡ false) ⊎ (r.quick ≡ false)) × Decides rs (some i)

  -- The same rule, computed.
  unfoldable pub decision : List FilterRule → Option ℕ
  decision [] = none
  decision (r ∷ rs) =
      let rest = decision rs in
      if matches_flow r
      then (if r.quick then some 0 else elim rest [ none ↦ some 0 | some j ↦ some (suc j) ])
      else elim rest [ none ↦ none | some j ↦ some (suc j) ]

  -- The index that a scan from rule `i` on leaves: the one found, or the one before.
  abbrev pub later : ℕ → Option ℕ → Option ℕ → Option ℕ
  later i last none = last
  later i last (some j) = some (i + j)

  Decides-cons :
      (r : FilterRule) (rs : List FilterRule) (d : Option ℕ) (m q : Bool)
      → matches_flow r ≡ m
      → r.quick ≡ q
      → Decides rs d
      → Decides (r ∷ rs) (
          if m
          then (if q then some 0 else elim d [ none ↦ some 0 | some j ↦ some (suc j) ])
          else elim d [ none ↦ none | some j ↦ some (suc j) ])
  Decides-cons r rs d true true em eq h = (em, inl eq)
  Decides-cons r rs none true false em eq h = (em, inr h)
  Decides-cons r rs (some j) true false em eq h = (inr eq, h)
  Decides-cons r rs none false q em eq h = (em, h)
  Decides-cons r rs (some j) false q em eq h = (inl em, h)

  decision-Decides : (rs : List FilterRule) → Decides rs (decision rs)
  unfolding decision
  decision-Decides [] = tt
  decision-Decides (r ∷ rs) =
      Decides-cons r rs (decision rs) (matches_flow r) r.quick refl refl (decision-Decides rs)

  pub scan-decision :
      (i : ℕ) (last : Option ℕ) (rs : List FilterRule)
      → (scan localtime flow i last rs).1 ≡ later i last (decision rs)
  unfolding scan decision
  scan-decision i last [] = refl
  scan-decision i last (r ∷ rs) =
      ground (arith, scan-decision (i + 1) (some i) rs, scan-decision (i + 1) last rs)

  action_at-eq :
      (j : ℕ) (r s : FilterRule) (rs ss : List FilterRule)
      → r.action ≡ s.action
      → ((k : ℕ) → action_at k rs ≡ action_at k ss)
      → action_at j (r ∷ rs) ≡ action_at j (s ∷ ss)
  unfolding action_at
  action_at-eq zero r s rs ss e h = ap some e
  action_at-eq (suc k) r s rs ss e h = h k

  -- The scan changes counters only.
  action_at-scan :
      (rs : List FilterRule) (i : ℕ) (last : Option ℕ) (j : ℕ)
      → action_at j (scan localtime flow i last rs).0 ≡ action_at j rs
  unfolding scan
  action_at-scan [] i last j = refl
  action_at-scan (r ∷ rs) i last j = ground (
    arith,
    action_at-eq j (matched r) r (scan localtime flow (i + 1) (some i) rs).0 rs refl
        (action_at-scan rs (i + 1) (some i)),
    action_at-eq j (matched r) r rs rs refl (λ k. refl),
    action_at-eq j (evaluated r) r (scan localtime flow (i + 1) last rs).0 rs refl
        (action_at-scan rs (i + 1) last),
  )

  -- The action of the rule that decides, if one does.
  abbrev pub chosen : List FilterRule → Option ℕ → Option FilterAction
  chosen rs none = none
  chosen rs (some i) = action_at i rs

  -- What that action does: a tag is stored in the flow, which is accepted; the default is to accept.
  abbrev pub Outcome : Option FilterAction → FlowComplete → Action → Type 0
  Outcome none flow' result = (flow' ≡ flow) × (result ≡ accept)
  Outcome (some a) flow' result =
      ((a.action_what ≡ tag)
        × (flow' ≡ record flow {
          hdr = record (flow.hdr) { fields = with_bit flow.hdr.fields 0 };
          tag = a.tag_value;
        })
        × (result ≡ accept))
      ⊎ ((a.action_what ≢ tag) × (flow' ≡ flow) × (result ≡ a.action_what))

  apply-Outcome :
      (out : List FilterRule) (w : Action) (t : ℕ)
      → let a : FilterAction = record { action_what = w; tag_value = t } in
        let f = apply_action out flow a in Outcome (some a) f.flow f.action
  unfolding apply_action
  apply-Outcome out accept t = inr (λ e. cc, refl, refl)
  apply-Outcome out discard t = inr (λ e. cc, refl, refl)
  apply-Outcome out tag t = inl (refl, refl, refl)

  deliver-Outcome :
      (rs : List FilterRule) (d : Option ℕ)
      → let f = deliver flow (rs, d) in Outcome (chosen rs d) f.flow f.action
  unfolding deliver
  deliver-Outcome rs none = (refl, refl)
  deliver-Outcome rs (some i) = elim (Option-cases (action_at i rs)) [
    | inl e ↦ rw (e, deliver) (refl, refl)
    | inr (a, e) ↦ rw (e, deliver) (apply-Outcome (add_win i rs) a.action_what a.tag_value)
  ]

  chosen-scan :
      (rs : List FilterRule) (i : ℕ) (last d : Option ℕ)
      → chosen (scan localtime flow i last rs).0 d ≡ chosen rs d
  chosen-scan rs i last none = refl
  chosen-scan rs i last (some j) = action_at-scan rs i last j

  pub later_self : (d : Option ℕ) → later 0 none d ≡ d
  later_self none = refl
  later_self (some j) = ap some (omega arith)

  -- `filter_flow` accepts or discards by the first quick match, or else by the last matching rule,
  -- or accepts the flow unchanged when no rule matches. A deciding tag rule stores its tag, sets the
  -- flag of the tag field and accepts; any other leaves the flow as it is.
  pub filter_flow-Decides :
      (rules : List FilterRule)
      → (d : Option ℕ) × Decides rules d
        × (let f = filter_flow localtime flow rules in Outcome (chosen rules d) f.flow f.action)
  unfolding filter_flow
  filter_flow-Decides rules =
      let s = scan localtime flow 0 none rules in
      let e : s.1 ≡ decision rules = scan-decision 0 none rules ∙ later_self (decision rules) in
      (
        decision rules,
        decision-Decides rules,
        subst (λ a. let f = deliver flow s in Outcome a f.flow f.action)
            (chosen-scan rules 0 none s.1 ∙ ap (chosen rules) e) (deliver-Outcome s.0 s.1),
      )
