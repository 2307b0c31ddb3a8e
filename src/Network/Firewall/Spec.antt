-- ===== src/Network/Firewall/Spec.antt =====
-- What the rules of a network say, apart from how renderNftables writes them down, and the printed
-- sections of `forward` in those terms.
use micro_hosted.Prelude.{
  ℕ, Bool, true, false, not, ◌&&◌, ◌||◌, ◌≡◌, none, some, List, str_eq, ◌==◌, arith, if◌then◌else◌,
}
use micro_hosted.Network.Firewall.{
  Proto, tcp, udp, icmp, other_proto, proto_eq, in_range, Packet, EgressRule, IngressRule, Net,
  ManagedIface, Sets, accept, drop, all_hold, decide, holds, listed,
}
use micro_hosted.Network.Firewall.Rules.{
  by_proto, egress_legs, managed_egress_rule, ingress_rule, ingress_matches, ingress_back, single,
  is_managed, managed_drops, wan_leg, wan_rule, each,
}
use micro_hosted.Network.Firewall.Chain.{any_of, decide-each}

abbrev pub goes_to : Packet → Proto → ℕ → Bool
goes_to p tcp port = proto_eq p.proto tcp && (p.dport == port)
goes_to p udp port = proto_eq p.proto udp && (p.dport == port)
goes_to p icmp port = proto_eq p.proto icmp
goes_to p other_proto port = false

abbrev pub comes_from : Packet → Proto → ℕ → Bool
comes_from p tcp port = proto_eq p.proto tcp && (p.sport == port)
comes_from p udp port = proto_eq p.proto udp && (p.sport == port)
comes_from p icmp port = proto_eq p.proto icmp
comes_from p other_proto port = false

-- A guest's packet that an egress rule allows through its interface, and the device's answer.
abbrev pub egress_request : Net → Packet → EgressRule → Bool
egress_request n p r =
    str_eq n.bridge p.iif
    && (str_eq r.iface p.oif && (in_range p.dst r.ip && goes_to p r.proto r.port))

abbrev pub egress_answer : Net → Packet → EgressRule → Bool
egress_answer n p r =
    str_eq r.iface p.iif
    && (str_eq n.bridge p.oif
        && (in_range p.src r.ip
            && (in_range p.dst n.subnet && (comes_from p r.proto r.port && p.reply))))

abbrev pub egress_passes : List ManagedIface → Net → Packet → EgressRule → Bool
egress_passes managed n p r =
    not (str_eq r.iface "")
    && (is_managed managed r.iface && (egress_request n p r || egress_answer n p r))

-- A device's packet that an ingress rule allows, and the guest's answer.
abbrev pub ingress_request : Net → Packet → IngressRule → Bool
ingress_request n p r =
    str_eq r.iface p.iif
    && (str_eq n.bridge p.oif
        && (in_range p.src r.src_ip
            && ((p.dst == r.to_ip)
                && (proto_eq p.proto r.proto && ((p.dport == r.port) && (p.dnat && not p.reply))))))

abbrev pub ingress_answer : Net → Packet → IngressRule → Bool
ingress_answer n p r =
    str_eq n.bridge p.iif
    && (str_eq r.iface p.oif
        && ((p.src == r.to_ip)
            && (proto_eq p.proto r.proto
                && ((p.sport == r.port) && (in_range p.dst r.src_ip && (p.dnat && p.reply))))))

abbrev pub ingress_passes : List ManagedIface → Net → Packet → IngressRule → Bool
ingress_passes managed n p r =
    is_managed managed r.iface && (ingress_request n p r || ingress_answer n p r)

-- A guest's packet that a rule without an interface allows towards the WAN.
abbrev pub wan_request : Packet → EgressRule → Bool
wan_request p r = str_eq r.iface "" && (in_range p.dst r.ip && goes_to p r.proto r.port)

module _ (s : Sets) (p : Packet) where
  decide-egress_legs :
      (n : Net) (r : EgressRule) (q : Proto)
      → decide s p (by_proto q (egress_legs n r) r.port) ≡ (
          if (str_eq n.bridge p.iif
              && (str_eq r.iface p.oif && (in_range p.dst r.ip && goes_to p q r.port)))
            || (str_eq r.iface p.iif
                && (str_eq n.bridge p.oif
                    && (in_range p.src r.ip
                        && (in_range p.dst n.subnet && (comes_from p q r.port && p.reply)))))
          then some accept
          else none)
  unfolding decide all_hold holds
  decide-egress_legs n r tcp = ground arith
  decide-egress_legs n r udp = ground arith
  decide-egress_legs n r icmp = ground arith
  decide-egress_legs n r other_proto = ground arith

  decide-managed_egress_rule :
      (managed : List ManagedIface) (n : Net) (r : EgressRule)
      → decide s p (managed_egress_rule managed n r)
        ≡ (if egress_passes managed n p r then some accept else none)
  unfolding managed_egress_rule decide
  decide-managed_egress_rule managed n r = ground (arith, decide-egress_legs n r r.proto)

  in_single : (v a : ℕ) → in_range v (single a) ≡ (v == a)
  in_single v a = ground arith

  ingress_request_matches :
      (n : Net) (r : IngressRule) → all_hold s p (ingress_matches n r) ≡ ingress_request n p r
  unfolding all_hold holds
  ingress_request_matches n r = ground (arith, in_single p.dst r.to_ip)

  ingress_answer_matches :
      (n : Net) (r : IngressRule) → all_hold s p (ingress_back n r) ≡ ingress_answer n p r
  unfolding all_hold holds
  ingress_answer_matches n r = ground (arith, in_single p.src r.to_ip)

  decide-ingress_rule :
      (managed : List ManagedIface) (n : Net) (r : IngressRule)
      → decide s p (ingress_rule managed n r)
        ≡ (if ingress_passes managed n p r then some accept else none)
  unfolding ingress_rule decide
  decide-ingress_rule managed n r =
      ground (arith, ingress_request_matches n r, ingress_answer_matches n r)

  decide-managed_drops :
      (on : Bool) (m : ManagedIface)
      → decide s p (managed_drops on m)
        ≡ (if str_eq m.name p.iif || str_eq m.name p.oif then some drop else none)
  unfolding managed_drops decide all_hold holds
  decide-managed_drops true m = ground arith
  decide-managed_drops false m = ground arith

  decide-wan_leg :
      (n : Net) (r : EgressRule) (q : Proto)
      → decide s p (by_proto q (wan_leg n r) r.port) ≡ (
          if str_eq n.bridge p.iif
            && (not (listed p.oif s.bridges) && (in_range p.dst r.ip && goes_to p q r.port))
          then some accept
          else none)
  unfolding decide all_hold holds
  decide-wan_leg n r tcp = ground arith
  decide-wan_leg n r udp = ground arith
  decide-wan_leg n r icmp = ground arith
  decide-wan_leg n r other_proto = ground arith

  pub decide-wan_rule :
      (n : Net) (r : EgressRule)
      → decide s p (wan_rule n r) ≡ (
          if (str_eq n.bridge p.iif && not (listed p.oif s.bridges)) && wan_request p r
          then some accept
          else none)
  unfolding wan_rule decide
  decide-wan_rule n r = ground (arith, decide-wan_leg n r r.proto)

  -- The three sections of `forward` before the networks' ways to the WAN.
  pub decide-egress_section :
      (managed : List ManagedIface) (networks : List Net)
      → decide s p (each (λ n. each (managed_egress_rule managed n) n.allowed_egress) networks) ≡ (
          if any_of (λ n. any_of (egress_passes managed n p) n.allowed_egress) networks
          then some accept
          else none)
  decide-egress_section managed networks =
      decide-each s p _ _ accept
        (λ n. decide-each s p _ _ accept (decide-managed_egress_rule managed n) n.allowed_egress)
        networks

  pub decide-ingress_section :
      (managed : List ManagedIface) (networks : List Net)
      → decide s p (each (λ n. each (ingress_rule managed n) n.allowed_ingress) networks) ≡ (
          if any_of (λ n. any_of (ingress_passes managed n p) n.allowed_ingress) networks
          then some accept
          else none)
  decide-ingress_section managed networks =
      decide-each s p _ _ accept
        (λ n. decide-each s p _ _ accept (decide-ingress_rule managed n) n.allowed_ingress) networks

  pub decide-managed_section :
      (on : Bool) (managed : List ManagedIface)
      → decide s p (each (managed_drops on) managed) ≡ (
          if any_of (λ m. str_eq m.name p.iif || str_eq m.name p.oif) managed
          then some drop
          else none)
  decide-managed_section on managed = decide-each s p _ _ drop (decide-managed_drops on) managed
