-- ===== src/Network/Firewall/Forward.antt =====
-- The chain `forward`, section by section.
use micro_hosted.Prelude.{Bool, ◌||◌, ◌≡◌, some, List, ◌++◌, str_eq, arith, if◌then◌else◌}
use micro_hosted.Network.Firewall.{Packet, Net, ManagedIface, Sets, accept, drop, decide}
use micro_hosted.Network.Firewall.Rules.{
  isolation, forward_chain, each, managed_drops, wan_rules, managed_egress_rule, ingress_rule,
}
use micro_hosted.Network.Firewall.Chain.{any_of, decide-append}
use micro_hosted.Network.Firewall.Isolation.{is_isolated, decide-isolation}
use micro_hosted.Network.Firewall.Spec.{
  egress_passes, ingress_passes, decide-egress_section, decide-ingress_section,
  decide-managed_section,
}

-- A packet is dropped at the head of the chain, or accepted by a rule for a managed interface, or
-- dropped on one, or left to the networks' ways to the WAN.
pub decide-forward :
    (s : Sets) (p : Packet) (on : Bool) (managed : List ManagedIface) (networks : List Net)
    → decide s p (forward_chain on managed networks) ≡ (
        if is_isolated s p
        then some drop
        else if any_of (λ n. any_of (egress_passes managed n p) n.allowed_egress) networks
        then some accept
        else if any_of (λ n. any_of (ingress_passes managed n p) n.allowed_ingress) networks
        then some accept
        else if any_of (λ m. str_eq m.name p.iif || str_eq m.name p.oif) managed
        then some drop
        else decide s p (each (wan_rules on) networks))
unfolding forward_chain
decide-forward s p on managed networks =
    let egress = each (λ n. each (managed_egress_rule managed n) n.allowed_egress) networks in
    let ingress = each (λ n. each (ingress_rule managed n) n.allowed_ingress) networks in
    let drops = each (managed_drops on) managed in
    let wan = each (wan_rules on) networks in
    ground (
      arith,
      decide-append s p (isolation on) (egress ++ (ingress ++ (drops ++ wan))),
      decide-append s p egress (ingress ++ (drops ++ wan)),
      decide-append s p ingress (drops ++ wan),
      decide-append s p drops wan,
      decide-isolation s p on,
      decide-egress_section s p managed networks,
      decide-ingress_section s p managed networks,
      decide-managed_section s p on managed,
    )
