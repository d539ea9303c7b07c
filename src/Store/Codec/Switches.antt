-- ===== src/Store/Codec/Switches.antt =====
-- The four switches of the serialiser in a row.
use network_monitoring_emula.Common.{refl, ℕ, ◌<◌, ◌≤◌, ◌≡◌, ◌∙◌, false, arith}
use network_monitoring_emula.Common.Flags.{has_bit}
use network_monitoring_emula.Addr.Value.{IsXaddr}
use network_monitoring_emula.Store.{FlowComplete}
use network_monitoring_emula.Store.Field.{Field}
use network_monitoring_emula.Store.Bytes.{Locals}
use network_monitoring_emula.Store.Codec.{ok, fix_addrs}
use network_monitoring_emula.Store.Codec.Copy.{IsLocals}
use network_monitoring_emula.Store.Codec.Addrs.{
  IsCoherent, IsFixed, IsKept, IsKept-along, Switched, switched, IsCoherent-same, IsFixed-same,
}

-- The flags of the four addresses fit their families.
pub record AllCoherent (f : FlowComplete) (m : ℕ) : Type 0 where
  pub agent : IsCoherent f.agent_addr Field.agent_addr4 Field.agent_addr6 m
  pub src : IsCoherent f.src_addr Field.src_addr4 Field.src_addr6 m
  pub dst : IsCoherent f.dst_addr Field.dst_addr4 Field.dst_addr6 m
  pub gateway : IsCoherent f.gateway_addr Field.gateway_addr4 Field.gateway_addr6 m

pub record AllFixed (f : FlowComplete) (m : ℕ) (v : Locals) : Type 0 where
  pub agent : IsFixed f.agent_addr Field.agent_addr4 Field.agent_addr6 m v.aa4 v.aa6
  pub src : IsFixed f.src_addr Field.src_addr4 Field.src_addr6 m v.sa4 v.sa6
  pub dst : IsFixed f.dst_addr Field.dst_addr4 Field.dst_addr6 m v.da4 v.da6
  pub gateway : IsFixed f.gateway_addr Field.gateway_addr4 Field.gateway_addr6 m v.ga4 v.ga6

abbrev pub AllXaddr : FlowComplete → Type 0
AllXaddr f = IsXaddr f.agent_addr × IsXaddr f.src_addr × IsXaddr f.dst_addr × IsXaddr f.gateway_addr

pub record AllKept (f : FlowComplete) (m m' : ℕ) : Type 0 where
  pub agent : IsKept f.agent_addr.af Field.agent_addr4 Field.agent_addr6 m m'
  pub src : IsKept f.src_addr.af Field.src_addr4 Field.src_addr6 m m'
  pub dst : IsKept f.dst_addr.af Field.dst_addr4 Field.dst_addr6 m m'
  pub gateway : IsKept f.gateway_addr.af Field.gateway_addr4 Field.gateway_addr6 m m'

pub record Switches (f : FlowComplete) (stack : Locals) : Type 0 where
  pub mask : ℕ
  pub locals : Locals
  pub returns : fix_addrs f stack ≡ ok (mask, locals)
  pub fixed : AllFixed f mask locals
  pub locals_fit : IsLocals locals
  pub kept : AllKept f f.hdr.fields mask
  pub same_low : (j : ℕ) → j < 3 → has_bit mask j ≡ has_bit f.hdr.fields j
  pub same_high : (j : ℕ) → 10 < j → has_bit mask j ≡ has_bit f.hdr.fields j
  pub no_larger : mask ≤ f.hdr.fields
  pub fewer : (j : ℕ) → has_bit f.hdr.fields j ≡ false → has_bit mask j ≡ false

module _ (f : FlowComplete) (stack : Locals) (x : AllXaddr f) (k : IsLocals stack)
    (c : AllCoherent f f.hdr.fields) where
  agent_switch :
      Switched f.agent_addr Field.agent_addr4 Field.agent_addr6 f.hdr.fields stack.aa4 stack.aa6
  agent_switch =
      switched f.agent_addr Field.agent_addr4 Field.agent_addr6 f.hdr.fields stack.aa4 stack.aa6
        (λ e. omega arith) x.0 k.aa4_fits k.aa6_fits c.agent

  -- The flags behind those of an address are not touched by its switch.
  same_after_agent : (j : ℕ) → 4 < j → has_bit agent_switch.mask j ≡ has_bit f.hdr.fields j
  same_after_agent j h = agent_switch.same j (λ e. omega arith) (λ e. omega arith)

  src_switch :
      Switched f.src_addr Field.src_addr4 Field.src_addr6 agent_switch.mask stack.sa4 stack.sa6
  src_switch =
      switched f.src_addr Field.src_addr4 Field.src_addr6 agent_switch.mask stack.sa4 stack.sa6
        (λ e. omega arith) x.1 k.sa4_fits k.sa6_fits
        (IsCoherent-same f.src_addr Field.src_addr4 Field.src_addr6 f.hdr.fields agent_switch.mask
          (same_after_agent 5 (omega arith)) (same_after_agent 6 (omega arith)) c.src)

  same_after_src : (j : ℕ) → 6 < j → has_bit src_switch.mask j ≡ has_bit f.hdr.fields j
  same_after_src j h =
      src_switch.same j (λ e. omega arith) (λ e. omega arith) ∙ same_after_agent j (omega arith)

  dst_switch :
      Switched f.dst_addr Field.dst_addr4 Field.dst_addr6 src_switch.mask stack.da4 stack.da6
  dst_switch =
      switched f.dst_addr Field.dst_addr4 Field.dst_addr6 src_switch.mask stack.da4 stack.da6
        (λ e. omega arith) x.2 k.da4_fits k.da6_fits
        (IsCoherent-same f.dst_addr Field.dst_addr4 Field.dst_addr6 f.hdr.fields src_switch.mask
          (same_after_src 7 (omega arith)) (same_after_src 8 (omega arith)) c.dst)

  same_after_dst : (j : ℕ) → 8 < j → has_bit dst_switch.mask j ≡ has_bit f.hdr.fields j
  same_after_dst j h =
      dst_switch.same j (λ e. omega arith) (λ e. omega arith) ∙ same_after_src j (omega arith)

  gateway_switch :
      Switched f.gateway_addr Field.gateway_addr4 Field.gateway_addr6 dst_switch.mask stack.ga4
        stack.ga6
  gateway_switch =
      switched f.gateway_addr Field.gateway_addr4 Field.gateway_addr6 dst_switch.mask stack.ga4
        stack.ga6 (λ e. omega arith) x.3 k.ga4_fits k.ga6_fits
        (IsCoherent-same f.gateway_addr Field.gateway_addr4 Field.gateway_addr6 f.hdr.fields
          dst_switch.mask (same_after_dst 9 (omega arith)) (same_after_dst 10 (omega arith))
          c.gateway)

  same_after_gateway : (j : ℕ) → 10 < j → has_bit gateway_switch.mask j ≡ has_bit f.hdr.fields j
  same_after_gateway j h =
      gateway_switch.same j (λ e. omega arith) (λ e. omega arith) ∙ same_after_dst j (omega arith)

  all_locals : Locals
  all_locals = record {
    aa4 = agent_switch.local4;
    aa6 = agent_switch.local6;
    sa4 = src_switch.local4;
    sa6 = src_switch.local6;
    da4 = dst_switch.local4;
    da6 = dst_switch.local6;
    ga4 = gateway_switch.local4;
    ga6 = gateway_switch.local6;
  }

  all_returns : fix_addrs f stack ≡ ok (gateway_switch.mask, all_locals)
  unfolding fix_addrs all_locals
  all_returns =
      rw (agent_switch.returns, src_switch.returns, dst_switch.returns, gateway_switch.returns) refl

  -- The flags of a later address are not touched by an earlier switch, nor the other way round.
  keeps_from_gateway : (j : ℕ) → j < 9 → has_bit gateway_switch.mask j ≡ has_bit dst_switch.mask j
  keeps_from_gateway j h = gateway_switch.same j (λ e. omega arith) (λ e. omega arith)

  keeps_from_dst : (j : ℕ) → j < 7 → has_bit gateway_switch.mask j ≡ has_bit src_switch.mask j
  keeps_from_dst j h =
      keeps_from_gateway j (omega arith) ∙ dst_switch.same j (λ e. omega arith) (λ e. omega arith)

  keeps_from_src : (j : ℕ) → j < 5 → has_bit gateway_switch.mask j ≡ has_bit agent_switch.mask j
  keeps_from_src j h =
      keeps_from_dst j (omega arith) ∙ src_switch.same j (λ e. omega arith) (λ e. omega arith)

  same_before_agent : (j : ℕ) → j < 3 → has_bit gateway_switch.mask j ≡ has_bit f.hdr.fields j
  same_before_agent j h =
      keeps_from_src j (omega arith) ∙ agent_switch.same j (λ e. omega arith) (λ e. omega arith)

  -- The switches succeed, and leave flags and locals that fit.
  pub switches : Switches f stack
  unfolding all_locals
  switches = record {
    mask = gateway_switch.mask;
    locals = all_locals;
    returns = all_returns;
    fixed = record {
      agent =
          IsFixed-same f.agent_addr Field.agent_addr4 Field.agent_addr6 agent_switch.mask
            gateway_switch.mask agent_switch.local4 agent_switch.local6
            (keeps_from_src 3 (omega arith)) (keeps_from_src 4 (omega arith)) agent_switch.fixed;
      src =
          IsFixed-same f.src_addr Field.src_addr4 Field.src_addr6 src_switch.mask
            gateway_switch.mask src_switch.local4 src_switch.local6 (keeps_from_dst 5 (omega arith))
            (keeps_from_dst 6 (omega arith)) src_switch.fixed;
      dst =
          IsFixed-same f.dst_addr Field.dst_addr4 Field.dst_addr6 dst_switch.mask
            gateway_switch.mask dst_switch.local4 dst_switch.local6
            (keeps_from_gateway 7 (omega arith)) (keeps_from_gateway 8 (omega arith))
            dst_switch.fixed;
      gateway = gateway_switch.fixed;
    };
    locals_fit = record {
      aa4_fits = agent_switch.local4_fits;
      aa6_fits = agent_switch.local6_fits;
      sa4_fits = src_switch.local4_fits;
      sa6_fits = src_switch.local6_fits;
      da4_fits = dst_switch.local4_fits;
      da6_fits = dst_switch.local6_fits;
      ga4_fits = gateway_switch.local4_fits;
      ga6_fits = gateway_switch.local6_fits;
    };
    kept = record {
      agent =
          IsKept-along f.agent_addr.af Field.agent_addr4 Field.agent_addr6 f.hdr.fields f.hdr.fields
            agent_switch.mask gateway_switch.mask refl refl agent_switch.kept
            (keeps_from_src 3 (omega arith)) (keeps_from_src 4 (omega arith));
      src =
          IsKept-along f.src_addr.af Field.src_addr4 Field.src_addr6 f.hdr.fields agent_switch.mask
            src_switch.mask gateway_switch.mask (same_after_agent 5 (omega arith))
            (same_after_agent 6 (omega arith)) src_switch.kept (keeps_from_dst 5 (omega arith))
            (keeps_from_dst 6 (omega arith));
      dst =
          IsKept-along f.dst_addr.af Field.dst_addr4 Field.dst_addr6 f.hdr.fields src_switch.mask
            dst_switch.mask gateway_switch.mask (same_after_src 7 (omega arith))
            (same_after_src 8 (omega arith)) dst_switch.kept (keeps_from_gateway 7 (omega arith))
            (keeps_from_gateway 8 (omega arith));
      gateway =
          IsKept-along f.gateway_addr.af Field.gateway_addr4 Field.gateway_addr6 f.hdr.fields
            dst_switch.mask gateway_switch.mask gateway_switch.mask (same_after_dst 9 (omega arith))
            (same_after_dst 10 (omega arith)) gateway_switch.kept refl refl;
    };
    same_low = same_before_agent;
    same_high = same_after_gateway;
    no_larger = omega (
      arith, gateway_switch.no_larger, dst_switch.no_larger, src_switch.no_larger,
      agent_switch.no_larger,
    );
    fewer = λ j p.
        gateway_switch.fewer j (dst_switch.fewer j (src_switch.fewer j (agent_switch.fewer j p)));
  }
