-- ===== src/Filter.antt =====
-- flowd/filter.c and flowd/filter.h: the rules that accept, discard or tag a flow.
--
-- An `int` of a rule that the code only compares for equality, uses as a mask or passes as an
-- unsigned mask length is modelled by its 32-bit pattern; one that it compares by order is a ℤ.
-- `localtime` is the C library's and a parameter. A rule list is its rules in order; `last_rule`
-- is the index of a rule in it.
pub mod Criteria
pub mod Winner
pub mod Counters
use network_monitoring_emula.Common.{
  ℕ, zero, suc, ◌+◌, ◌*◌, ◌%◌, ◌^◌, bit_and, Bool, true, false, not, ◌&&◌, ◌||◌, Option, none, some,
  List, [], ◌∷◌, ltb, ◌==◌, if◌then◌else◌,
}
use network_monitoring_emula.Common.Int.{ℤ, pos, negsuc, is_zero}
use network_monitoring_emula.Addr.{Xaddr, Family, family_eq, addr_netmatch}
use network_monitoring_emula.Store.{FlowComplete, StoreFlow, has_bit, with_bit}

-- FF_ACTION_ACCEPT, FF_ACTION_DISCARD, FF_ACTION_TAG
pub data Action : Type 0 where
  accept discard tag : Action

pub record FilterAction : Type 0 where
  pub action_what : Action
  pub tag_value : ℕ

pub record FilterMatch : Type 0 where
  pub match_what : ℕ
  pub match_negate : ℕ
  pub agent_masklen : ℕ
  pub agent_addr : Xaddr
  pub af : Family
  pub src_masklen : ℕ
  pub src_addr : Xaddr
  pub dst_masklen : ℕ
  pub dst_addr : Xaddr
  pub ifndx_in : ℕ
  pub ifndx_out : ℕ
  pub src_port : ℕ
  pub dst_port : ℕ
  pub proto : ℕ
  pub tos : ℕ
  pub tcp_flags_mask : ℕ
  pub tcp_flags_equals : ℕ
  pub day_mask : ℕ
  pub dayafter : ℤ
  pub daybefore : ℤ
  pub absafter : ℤ
  pub absbefore : ℤ

pub record FilterRule : Type 0 where
  pub action : FilterAction
  pub quick : Bool
  pub criteria : FilterMatch
  pub evaluations : ℕ
  pub matches : ℕ
  pub wins : ℕ

-- The FF_MATCH_ flags, in the order of the tests.
pub data Criterion : Type 0 where
  agent_addr ifndx_in ifndx_out af src_addr dst_addr src_port dst_port protocol tos : Criterion
  tcp_flags daytime abstime : Criterion

abbrev pub flag : Criterion → ℕ
flag src_addr = 0
flag dst_addr = 1
flag src_port = 2
flag dst_port = 3
flag protocol = 4
flag tos = 5
flag agent_addr = 6
flag tcp_flags = 7
flag af = 8
flag daytime = 9
flag abstime = 10
flag ifndx_in = 11
flag ifndx_out = 12

-- `n > z` and `n < z` for a number and an `int`.
abbrev pub above : ℕ → ℤ → Bool
above n (pos m) = ltb m n
above n (negsuc m) = true

abbrev pub below : ℕ → ℤ → Bool
below n (pos m) = ltb n m
below n (negsuc m) = false

-- `z != -1` and `z > 0`
abbrev pub is_set : ℤ → Bool
is_set (pos m) = true
is_set (negsuc m) = not (m == 0)

abbrev pub is_positive : ℤ → Bool
is_positive (pos m) = ltb 0 m
is_positive (negsuc m) = false

pub record Tm : Type 0 where
  pub tm_sec : ℕ
  pub tm_min : ℕ
  pub tm_hour : ℕ
  pub tm_wday : ℕ

-- The counters are `u_int64_t`.
abbrev pub count_up : ℕ → ℕ
count_up n = (n + 1) % 2 ^ 64

abbrev pub evaluated : FilterRule → FilterRule
evaluated r = record r { evaluations = count_up r.evaluations }

abbrev pub matched : FilterRule → FilterRule
matched r = record r { evaluations = count_up r.evaluations; matches = count_up r.matches }

-- `last_rule->wins++`
unfoldable pub add_win : ℕ → List FilterRule → List FilterRule
add_win i [] = []
add_win zero (r ∷ rs) = record r { wins = count_up r.wins } ∷ rs
add_win (suc i) (r ∷ rs) = r ∷ add_win i rs

unfoldable pub action_at : ℕ → List FilterRule → Option FilterAction
action_at i [] = none
action_at zero (r ∷ rs) = some r.action
action_at (suc i) (r ∷ rs) = action_at i rs

pub record Filtered : Type 0 where
  pub rules : List FilterRule
  pub flow : FlowComplete
  pub action : Action

-- What the action of the last rule does to the flow, and what is returned.
unfoldable pub apply_action : List FilterRule → FlowComplete → FilterAction → Filtered
apply_action rules flow a = elim a.action_what [
  | tag ↦ record {
    rules = rules;
    flow = record flow {
      hdr = record (flow.hdr) { fields = with_bit flow.hdr.fields 0 };
      tag = a.tag_value;
    };
    action = accept;
  }
  | accept ↦ record { rules = rules; flow = flow; action = accept }
  | discard ↦ record { rules = rules; flow = flow; action = discard }
]

-- The code after the loop. The index that the loop leaves is one of the list.
unfoldable pub deliver : FlowComplete → List FilterRule × Option ℕ → Filtered
unfolding add_win action_at apply_action
deliver flow (rs, none) = record { rules = rs; flow = flow; action = accept }
deliver flow (rs, some i) = elim (action_at i rs) [
  | none ↦ record { rules = rs; flow = flow; action = accept }
  | some a ↦ apply_action (add_win i rs) flow a
]

module _ (localtime : ℕ → Tm) where
  unfoldable pub flow_daytime_match : ℕ → ℕ → ℤ → ℤ → Bool
  flow_daytime_match recv_sec day_mask dayafter daybefore =
      let tm = localtime recv_sec in
      let sec = tm.tm_sec + tm.tm_min * 60 + tm.tm_hour * 3600 in
      if not (day_mask == 0) && not (has_bit day_mask tm.tm_wday)
      then false
      else if is_set daybefore && above sec daybefore
      then false
      else not (is_set dayafter && below sec dayafter)

  -- The variable `m` of each block of `flow_match`.
  unfoldable pub criterion_test : FilterMatch → FlowComplete → Criterion → Bool
  criterion_test r flow agent_addr =
      is_zero (addr_netmatch flow.agent_addr r.agent_addr r.agent_masklen)
  criterion_test r flow ifndx_in = flow.ifndx.if_index_in == r.ifndx_in
  criterion_test r flow ifndx_out = flow.ifndx.if_index_out == r.ifndx_out
  criterion_test r flow af = family_eq flow.src_addr.af r.af || family_eq flow.dst_addr.af r.af
  criterion_test r flow src_addr = is_zero (addr_netmatch flow.src_addr r.src_addr r.src_masklen)
  criterion_test r flow dst_addr = is_zero (addr_netmatch flow.dst_addr r.dst_addr r.dst_masklen)
  criterion_test r flow src_port = flow.ports.src_port == r.src_port
  criterion_test r flow dst_port = flow.ports.dst_port == r.dst_port
  criterion_test r flow protocol = flow.pft.protocol == r.proto
  criterion_test r flow tos = flow.pft.tos == r.tos
  criterion_test r flow tcp_flags =
      bit_and flow.pft.tcp_flags r.tcp_flags_mask == r.tcp_flags_equals
  criterion_test r flow daytime =
      flow_daytime_match flow.recv_time.recv_sec r.day_mask r.dayafter r.daybefore
  criterion_test r flow abstime =
      let tt = flow.recv_time.recv_sec in
      let before = if is_positive r.absbefore then below tt r.absbefore else true in
      if is_positive r.absafter then before && above tt r.absafter else before

  -- One block: with FRMATCH the function returns 0 if FRRETVAL, and goes on otherwise.
  unfoldable pub check : FilterMatch → FlowComplete → Criterion → Bool → Bool
  check r flow c rest =
      let m = criterion_test r flow c in
      let neg = has_bit r.match_negate (flag c) in
      if has_bit r.match_what (flag c) && ((neg && m) || (not neg && not m)) then false else rest

  unfoldable pub flow_match : FilterRule → FlowComplete → Bool
  unfolding check
  flow_match rule flow =
      let block = check rule.criteria flow in
      block agent_addr (
        block ifndx_in (
          block ifndx_out (
            block af (
              block src_addr (
                block dst_addr (
                  block src_port (
                    block dst_port (
                      block protocol
                        (block tos (block tcp_flags (block daytime (block abstime true))))))))))))

  -- TAILQ_FOREACH from rule number `i` on.
  unfoldable pub scan : FlowComplete → ℕ → Option ℕ → List FilterRule → List FilterRule × Option ℕ
  scan flow i last [] = ([], last)
  scan flow i last (r ∷ rs) =
      let missed = scan flow (i + 1) last rs in
      let went_on = scan flow (i + 1) (some i) rs in
      if flow_match r flow
      then (if r.quick then (matched r ∷ rs, some i) else (matched r ∷ went_on.0, went_on.1))
      else (evaluated r ∷ missed.0, missed.1)

  unfoldable pub filter_flow : FlowComplete → List FilterRule → Filtered
  unfolding scan deliver
  filter_flow flow rules = deliver flow (scan flow 0 none rules)
