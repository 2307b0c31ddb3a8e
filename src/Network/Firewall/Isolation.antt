-- ===== src/Network/Firewall/Isolation.antt =====
-- The head of the chain `forward`: crossing between two segments, detached TAPs, unlisted bridges.
use micro_hosted.Prelude.{
  Bool, true, false, not, ◌&&◌, ◌||◌, ◌≡◌, none, some, List, str_eq, arith, if◌then◌else◌, ◌∙◌, ap,
}
use micro_hosted.Network.Firewall.{
  Packet, Range, Net, ManagedIface, Sets, drop, all_hold, decide, run_chain, holds, listed,
  has_prefix, with_policy,
}
use micro_hosted.Network.Firewall.Rules.{bridge_prefix, tap_prefix, isolation, forward_chain, sets}
use micro_hosted.Network.Firewall.Chain.{decide_stop}

module _ (s : Sets) (p : Packet) where
  abbrev pub touches_tap : Bool
  touches_tap = has_prefix p.iif tap_prefix || has_prefix p.oif tap_prefix

  abbrev pub touches_unlisted : Bool
  touches_unlisted =
      (has_prefix p.iif bridge_prefix && not (listed p.iif s.bridges))
      || (has_prefix p.oif bridge_prefix && not (listed p.oif s.bridges))

  abbrev pub crosses : Bool
  crosses = listed p.iif s.bridges && (listed p.oif s.bridges && not (str_eq p.iif p.oif))

  abbrev pub is_isolated : Bool
  is_isolated = touches_tap || (touches_unlisted || crosses)

  pub decide-isolation :
      (on : Bool) → decide s p (isolation on) ≡ (if is_isolated then some drop else none)
  unfolding isolation decide all_hold holds
  decide-isolation true = ground arith
  decide-isolation false = ground arith

-- A packet that comes from or leaves through a detached TAP, uses a bridge that no network has, or
-- goes from the bridge of one network to that of another is dropped by the chain `forward`,
-- whatever the networks, their rules and the managed interfaces, recorded or not, and whatever
-- the state of its flow.
pub forward-Isolated :
    (on : Bool) (private : List Range) (managed : List ManagedIface) (networks : List Net)
    (p : Packet)
    → is_isolated (sets private networks) p ≡ true
    → run_chain (sets private networks) p (forward_chain on managed networks) ≡ drop
unfolding run_chain forward_chain
forward-Isolated on private managed networks p isolated = ap with_policy (
    decide_stop (sets private networks) p (isolation on) _ drop
      (decide-isolation (sets private networks) p on ∙ ground arith))
