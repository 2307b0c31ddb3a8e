-- ===== src/Network/Clash.antt =====
-- When two inbound rules can both match one packet (IngressClash and asNet of
-- internal/network/nftables.go), on the ranges of addresses that their sources stand for.
use micro_hosted.Prelude.{
  ◌≡◌, refl, Bool, true, false, not, ◌||◌, ◌&&◌, List, [], ◌∷◌, str_eq, eq_iff, ◌==◌, if◌then◌else◌,
  arith, ◌↔◌,
}
use micro_hosted.Network.Firewall.{
  Proto, tcp, udp, icmp, other_proto, proto_eq, in_range, IngressRule, Packet,
}

unfoldable pub ingress_clash : IngressRule → IngressRule → Bool
ingress_clash a b =
    if not (str_eq a.iface b.iface) || not (proto_eq a.proto b.proto) || not (a.port == b.port)
    then false
    else in_range b.src_ip.low a.src_ip || in_range a.src_ip.low b.src_ip

proto_eq_iff : (p q : Proto) → (proto_eq p q ≡ true) ↔ (p ≡ q)
proto_eq_iff tcp tcp = (λ h. refl, λ e. refl)
proto_eq_iff tcp udp = (λ h. absurd (cc h), λ e. absurd (cc e))
proto_eq_iff tcp icmp = (λ h. absurd (cc h), λ e. absurd (cc e))
proto_eq_iff tcp other_proto = (λ h. absurd (cc h), λ e. absurd (cc e))
proto_eq_iff udp tcp = (λ h. absurd (cc h), λ e. absurd (cc e))
proto_eq_iff udp udp = (λ h. refl, λ e. refl)
proto_eq_iff udp icmp = (λ h. absurd (cc h), λ e. absurd (cc e))
proto_eq_iff udp other_proto = (λ h. absurd (cc h), λ e. absurd (cc e))
proto_eq_iff icmp tcp = (λ h. absurd (cc h), λ e. absurd (cc e))
proto_eq_iff icmp udp = (λ h. absurd (cc h), λ e. absurd (cc e))
proto_eq_iff icmp icmp = (λ h. refl, λ e. refl)
proto_eq_iff icmp other_proto = (λ h. absurd (cc h), λ e. absurd (cc e))
proto_eq_iff other_proto tcp = (λ h. absurd (cc h), λ e. absurd (cc e))
proto_eq_iff other_proto udp = (λ h. absurd (cc h), λ e. absurd (cc e))
proto_eq_iff other_proto icmp = (λ h. absurd (cc h), λ e. absurd (cc e))
proto_eq_iff other_proto other_proto = (λ h. refl, λ e. refl)

-- Whether a rule, or one of a list of rules, lets in a packet of a device.
abbrev pub admits : IngressRule → Packet → Bool
admits r p =
    str_eq r.iface p.iif
    && (proto_eq r.proto p.proto && ((r.port == p.dport) && in_range p.src r.src_ip))

unfoldable pub lets_in : List IngressRule → Packet → Bool
lets_in [] p = false
lets_in (r ∷ rs) p = admits r p || lets_in rs p

-- A packet that two rules let in makes them clash.
pub admits-ingress_clash :
    (a b : IngressRule) (p : Packet)
    → admits a p ≡ true
    → admits b p ≡ true
    → ingress_clash a b ≡ true
unfolding ingress_clash
admits-ingress_clash a b p h k = ground (
  arith,
  eq_iff a.iface p.iif,
  eq_iff b.iface p.iif,
  eq_iff a.iface b.iface,
  proto_eq_iff a.proto p.proto,
  proto_eq_iff b.proto p.proto,
  proto_eq_iff a.proto b.proto,
)
