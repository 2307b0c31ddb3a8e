-- ===== src/Network/Firewall/Managed.antt =====
-- Devices on managed interfaces: which guests and which services of the host they reach (the
-- chains `forward` and `input`).
use micro_hosted.Prelude.{
  Bool, true, false, not, ◌&&◌, ◌||◌, ◌≡◌, ◌==◌, refl, none, some, List, [], ◌∷◌, ◌++◌, String,
  str_eq, arith, if◌then◌else◌, ◌∙◌, sym, eq_iff, map,
}
use micro_hosted.Network.Firewall.{
  Range, Packet, Net, ManagedIface, HostService, Sets, accept, drop, decide, run_chain, listed,
  with_policy, proto_eq, all_hold, holds, has_prefix, iif_is,
}
use micro_hosted.Network.Firewall.Rules.{
  sets, is_managed, forward_chain, each, input_chain, host_rules, host_rule, rule, bridge_prefix,
  tap_prefix,
}
use micro_hosted.Network.Firewall.Chain.{
  any_of, any_of_ext, any_of_none, any_of_guard, decide-append, decide-each,
}
use micro_hosted.Network.Firewall.Forward.{decide-forward}
use micro_hosted.Network.Firewall.Isolation.{is_isolated}
use micro_hosted.Network.Firewall.Spec.{egress_passes, ingress_passes, ingress_request}

pub listed_bridges :
    (name : String) (networks : List Net)
    → listed name (map (λ n. n.bridge) networks) ≡ any_of (λ n. str_eq n.bridge name) networks
unfolding listed any_of
listed_bridges name [] = refl
listed_bridges name (n ∷ ns) = ground (arith, listed_bridges name ns)

pub is_managed_any :
    (name : String) (managed : List ManagedIface)
    → is_managed managed name ≡ any_of (λ m. str_eq m.name name) managed
unfolding is_managed any_of
is_managed_any name [] = refl
is_managed_any name (m ∷ ms) = ground (arith, is_managed_any name ms)

pub touches_managed :
    (p : Packet) (managed : List ManagedIface)
    → any_of (λ m. str_eq m.name p.iif || str_eq m.name p.oif) managed
      ≡ (is_managed managed p.iif || is_managed managed p.oif)
unfolding is_managed any_of
touches_managed p [] = refl
touches_managed p (m ∷ ms) = ground (arith, touches_managed p ms)

module _ (managed : List ManagedIface) (p : Packet) where
  -- Nothing but an answer comes in under an egress rule.
  no_egress :
      (n : Net)
      → str_eq n.bridge p.iif ≡ false
      → p.reply ≡ false
      → any_of (egress_passes managed n p) n.allowed_egress ≡ false
  no_egress n other first =
      any_of_none (egress_passes managed n p) (λ r. ground arith) n.allowed_egress

  only_requests :
      (n : Net)
      → is_managed managed p.iif ≡ true
      → str_eq n.bridge p.iif ≡ false
      → any_of (ingress_passes managed n p) n.allowed_ingress
        ≡ any_of (ingress_request n p) n.allowed_ingress
  only_requests n m other =
      any_of_ext (λ _. false) (ingress_passes managed n p) (ingress_request n p)
        (λ r _. ground (arith, eq_iff r.iface p.iif)) n.allowed_ingress
        (any_of_none (λ _. false) (λ _. refl) n.allowed_ingress)

-- A packet that a device on a managed interface (no bridge of a network) sends on its own account
-- is forwarded exactly when it is not isolated and an ingress rule of a network lets it in: from
-- the rule's interface and source addresses, to the rule's guest, protocol and port on the
-- network's bridge, and only through the address translation.
pub device_reach :
    (on : Bool) (private : List Range) (managed : List ManagedIface) (networks : List Net)
    (p : Packet)
    → is_managed managed p.iif ≡ true
    → listed p.iif (map (λ n. n.bridge) networks) ≡ false
    → p.reply ≡ false
    → run_chain (sets private networks) p (forward_chain on managed networks) ≡ (
        if not (is_isolated (sets private networks) p)
          && any_of (λ n. any_of (ingress_request n p) n.allowed_ingress) networks
        then accept
        else drop)
unfolding run_chain
device_reach on private managed networks p on_managed no_bridge first =
    let elsewhere = sym (listed_bridges p.iif networks) ∙ no_bridge in
    ground (
      arith,
      decide-forward (sets private networks) p on managed networks,
      touches_managed p managed,
      any_of_ext _ (λ n. any_of (egress_passes managed n p) n.allowed_egress) (λ _. false)
            (λ n other. no_egress managed p n other first) networks elsewhere
          ∙ any_of_none (λ _. false) (λ _. refl) networks,
      any_of_ext _ (λ n. any_of (ingress_passes managed n p) n.allowed_ingress)
          (λ n. any_of (ingress_request n p) n.allowed_ingress)
          (λ n. only_requests managed p n on_managed) networks elsewhere,
    )

-- What the host offers on a managed interface: the services of the first entry of its name.
unfoldable pub host_offers : List ManagedIface → Packet → Bool
host_offers [] p = true
host_offers (m ∷ ms) p =
    let later = host_offers ms p in
    if str_eq m.name p.iif
    then any_of (λ h. proto_eq p.proto h.proto && (p.dport == h.port)) m.host_allow
    else later

module _ (s : Sets) (p : Packet) where
  decide-host_services :
      (name : String) (services : List HostService)
      → decide s p (each (host_rule name) services) ≡ (
          if any_of
            (λ h. str_eq name p.iif && (proto_eq p.proto h.proto && (p.dport == h.port)))
            services
          then some accept
          else none)
  unfolding decide all_hold holds
  decide-host_services name services = decide-each s p _ _ accept (λ h. ground arith) services

  decide-host_rules :
      (managed : List ManagedIface)
      → with_policy (decide s p (each host_rules managed))
        ≡ (if host_offers managed p then accept else drop)
  unfolding decide each host_offers all_hold holds
  decide-host_rules [] = refl
  decide-host_rules (m ∷ ms) =
      let services = each (host_rule m.name) m.host_allow in
      let rest = rule (iif_is m.name ∷ []) drop ∷ [] in
      ground (
        arith,
        decide-append s p (services ++ rest) (each host_rules ms),
        decide-append s p services rest,
        decide-host_services m.name m.host_allow,
        any_of_guard (str_eq m.name p.iif) (λ h. proto_eq p.proto h.proto && (p.dport == h.port))
            m.host_allow,
        decide-host_rules ms,
      )

-- The chain `input` accepts a packet exactly when it does not come from a detached TAP, and is part
-- of an established flow or comes neither from a bridge of ours nor, on a managed interface, for a
-- service that the interface does not list.
pub host_reach :
    (on : Bool) (s : Sets) (managed : List ManagedIface) (p : Packet)
    → run_chain s p (input_chain on managed) ≡ (
        if not (has_prefix p.iif tap_prefix)
          && (p.established || (not (has_prefix p.iif bridge_prefix) && host_offers managed p))
        then accept
        else drop)
unfolding run_chain input_chain decide all_hold holds
host_reach true s managed p = ground (arith, decide-host_rules s p managed)
host_reach false s managed p = ground (arith, decide-host_rules s p managed)
