-- ===== src/Filter/Counters.antt =====
-- The counters of the rules over one call of `filter_flow`.
use network_monitoring_emula.Common.{
  ℕ, zero, suc, ◌+◌, ◌-◌, ◌^◌, ◌≤◌, ◌<◌, ◌≡◌, refl, Bool, true, false, Option, none, some, List, [],
  ◌∷◌, if◌then◌else◌, Option-cases, inl, inr, arith, ◌∙◌, sym, subst,
}
use network_monitoring_emula.Store.{FlowComplete}
use network_monitoring_emula.Filter.{
  FilterRule, Tm, flow_match, evaluated, matched, scan, add_win, action_at, apply_action, Action,
  accept, discard, tag, deliver, filter_flow,
}
use network_monitoring_emula.Filter.Winner.{decision, scan-decision, later_self}

-- A rule wins no more often than it matches, and matches no more often than it is evaluated.
abbrev pub IsCounted : FilterRule → Type 0
IsCounted r = (r.wins ≤ r.matches) × (r.matches ≤ r.evaluations)

abbrev pub AllCounted : List FilterRule → Type 0
AllCounted [] = Unit {0}
AllCounted (r ∷ rs) = IsCounted r × AllCounted rs

-- No counter is about to wrap.
abbrev pub AllRoom : List FilterRule → Type 0
AllRoom [] = Unit {0}
AllRoom (r ∷ rs) = (r.evaluations < 2 ^ 64 - 1) × AllRoom rs

-- After the loop the rule that is to win has a match to spare.
abbrev CountedBut : Option ℕ → List FilterRule → Type 0
CountedBut last [] = Unit {0}
CountedBut none (r ∷ rs) = IsCounted r × CountedBut none rs
CountedBut (some zero) (r ∷ rs) = (IsCounted r × (r.wins < r.matches)) × CountedBut none rs
CountedBut (some (suc i)) (r ∷ rs) = IsCounted r × CountedBut (some i) rs

CountedBut-none : (rs : List FilterRule) → AllCounted rs → CountedBut none rs
CountedBut-none [] h = tt
CountedBut-none (r ∷ rs) h = (h.0, CountedBut-none rs h.1)

matched-IsCounted :
    (r : FilterRule)
    → IsCounted r
    → r.evaluations < 2 ^ 64 - 1
    → IsCounted (matched r) × (r.wins < (matched r).matches)
matched-IsCounted r c h = omega arith

evaluated-IsCounted :
    (r : FilterRule) → IsCounted r → r.evaluations < 2 ^ 64 - 1 → IsCounted (evaluated r)
evaluated-IsCounted r c h = omega arith

-- One round: `went_on` and `missed` are what the rest of the loop leaves after a match and without.
CountedBut-cons :
    (r : FilterRule) (rs : List FilterRule) (d : Option ℕ) (m q : Bool) (i : ℕ)
    (went_on missed : List FilterRule × Option ℕ)
    → IsCounted r
    → r.evaluations < 2 ^ 64 - 1
    → AllCounted rs
    → CountedBut d went_on.0
    → CountedBut d missed.0
    → let out : List FilterRule × Option ℕ =
        if m
        then (if q then (matched r ∷ rs, some i) else (matched r ∷ went_on.0, went_on.1))
        else (evaluated r ∷ missed.0, missed.1) in
      CountedBut
        (if m
          then (if q then some 0 else elim d [ none ↦ some 0 | some j ↦ some (suc j) ])
          else elim d [ none ↦ none | some j ↦ some (suc j) ])
        out.0
CountedBut-cons r rs d true true i a b c h cs ha hb =
    let m = matched-IsCounted r c h in ((m.0, m.1), CountedBut-none rs cs)
CountedBut-cons r rs none true false i a b c h cs ha hb =
    let m = matched-IsCounted r c h in ((m.0, m.1), ha)
CountedBut-cons r rs (some j) true false i a b c h cs ha hb = ((matched-IsCounted r c h).0, ha)
CountedBut-cons r rs none false q i a b c h cs ha hb = (evaluated-IsCounted r c h, hb)
CountedBut-cons r rs (some j) false q i a b c h cs ha hb = (evaluated-IsCounted r c h, hb)

add_win-AllCounted :
    (i : ℕ) (rs : List FilterRule) → CountedBut (some i) rs → AllCounted (add_win i rs)
unfolding add_win
add_win-AllCounted i [] h = tt
add_win-AllCounted zero (r ∷ rs) h = (omega arith, go rs h.1)
  where
    go : (rs : List FilterRule) → CountedBut none rs → AllCounted rs
    go [] k = tt
    go (r ∷ rs) k = (k.0, go rs k.1)
add_win-AllCounted (suc i) (r ∷ rs) h = (h.0, add_win-AllCounted i rs h.1)

CountedBut-AllCounted : (d : Option ℕ) (rs : List FilterRule) → CountedBut d rs → AllCounted rs
CountedBut-AllCounted d [] h = tt
CountedBut-AllCounted none (r ∷ rs) h = (h.0, CountedBut-AllCounted none rs h.1)
CountedBut-AllCounted (some zero) (r ∷ rs) h = (h.0.0, CountedBut-AllCounted none rs h.1)
CountedBut-AllCounted (some (suc i)) (r ∷ rs) h = (h.0, CountedBut-AllCounted (some i) rs h.1)

module _ (localtime : ℕ → Tm) (flow : FlowComplete) where
  scan-CountedBut :
      (i : ℕ) (last : Option ℕ) (rs : List FilterRule)
      → AllCounted rs
      → AllRoom rs
      → CountedBut (decision localtime flow rs) (scan localtime flow i last rs).0
  unfolding scan decision
  scan-CountedBut i last [] c h = tt
  scan-CountedBut i last (r ∷ rs) c h =
      CountedBut-cons r rs (decision localtime flow rs) (flow_match localtime r flow) r.quick i
        (scan localtime flow (i + 1) (some i) rs) (scan localtime flow (i + 1) last rs) c.0 h.0 c.1
        (scan-CountedBut (i + 1) (some i) rs c.1 h.1) (scan-CountedBut (i + 1) last rs c.1 h.1)

  apply_action-rules :
      (rs : List FilterRule) (w : Action) (t : ℕ)
      → (apply_action rs flow (record { action_what = w; tag_value = t })).rules ≡ rs
  unfolding apply_action
  apply_action-rules rs accept t = refl
  apply_action-rules rs discard t = refl
  apply_action-rules rs tag t = refl

  deliver-AllCounted :
      (rs : List FilterRule) (d : Option ℕ)
      → CountedBut d rs
      → AllCounted (deliver flow (rs, d)).rules
  unfolding deliver
  deliver-AllCounted rs none h = CountedBut-AllCounted none rs h
  deliver-AllCounted rs (some i) h = elim (Option-cases (action_at i rs)) [
    | inl e ↦ rw (e, deliver) (CountedBut-AllCounted (some i) rs h)
    | inr (a, e) ↦
        rw (e, deliver, apply_action-rules (add_win i rs) a.action_what a.tag_value)
          (add_win-AllCounted i rs h)
  ]

  -- While no counter is about to wrap, a call of `filter_flow` keeps, for each rule, the wins at most
  -- the matches and the matches at most the evaluations.
  pub filter_flow-AllCounted :
      (rules : List FilterRule)
      → AllCounted rules
      → AllRoom rules
      → AllCounted (filter_flow localtime flow rules).rules
  unfolding filter_flow
  filter_flow-AllCounted rules c h =
      let s = scan localtime flow 0 none rules in
      let e : s.1 ≡ decision localtime flow rules =
        scan-decision localtime flow 0 none rules
        ∙ later_self localtime flow (decision localtime flow rules) in
      deliver-AllCounted s.0 s.1
        (subst (λ d. CountedBut d s.0) (sym e) (scan-CountedBut 0 none rules c h))
