-- ===== src/Network/Firewall/Egress.antt =====
-- Guests' packets beyond the bridges: the networks' ways to the WAN, and the whole chain
-- `forward`.
use micro_hosted.Prelude.{
  Bool, true, false, not, ◌&&◌, ◌||◌, Bool-cases, inl, inr, ◌≡◌, refl, none, some, List, [], ◌∷◌,
  String, str_eq, arith, if◌then◌else◌, ◌∙◌, sym, eq_iff, map,
}
use micro_hosted.Network.Firewall.{
  Range, Packet, Net, EgressRule, IngressRule, ManagedIface, Sets, accept, drop, decide, run_chain,
  listed, with_policy, in_ranges, port_listed, has_ports, all_hold, holds, iif_is, oif_unlisted,
}
use micro_hosted.Network.Firewall.Rules.{
  sets, is_managed, forward_chain, each, wan_rules, wan_rule, open_rules, egress_open, is_empty,
  logged_drop,
}
use micro_hosted.Network.Firewall.Chain.{
  any_of, any_of_ext, any_of_none, any_of_or, any_of_guard, decide-logged_drop, decide-append,
  decide-each,
}
use micro_hosted.Network.Firewall.Isolation.{is_isolated}
use micro_hosted.Network.Firewall.Forward.{decide-forward}
use micro_hosted.Network.Firewall.Managed.{listed_bridges, touches_managed}
use micro_hosted.Network.Firewall.Spec.{
  egress_passes, egress_request, ingress_passes, ingress_answer, wan_request, decide-wan_rule,
}

-- What full egress lets out: through its one interface, to the internet or, with the flag, to
-- private ranges, and to the ports it names when it names any.
abbrev pub open_passes : List Range → Net → Packet → Bool
open_passes private n p =
    str_eq n.egress_iface p.oif
    && ((n.egress_private || not (in_ranges p.dst private))
        && (is_empty n.egress_ports
            || (has_ports p.proto && port_listed p.proto p.dport n.egress_ports)))

abbrev pub wan_allows : List Range → Net → Packet → Bool
wan_allows private n p =
    if egress_open n then open_passes private n p else any_of (wan_request p) n.allowed_egress

module _ (s : Sets) (p : Packet) where
  decide-open_rules :
      (on : Bool) (n : Net)
      → decide s p (open_rules on n) ≡ (
          if (str_eq n.bridge p.iif && not (listed p.oif s.bridges))
            && not (open_passes s.private n p)
          then some drop
          else none)
  unfolding open_rules decide all_hold holds
  decide-open_rules true n = ground arith
  decide-open_rules false n = ground arith

  pub decide-wan_rules :
      (on : Bool) (n : Net)
      → decide s p (wan_rules on n) ≡ (
          if str_eq n.bridge p.iif && not (listed p.oif s.bridges)
          then (if wan_allows s.private n p
              then (if egress_open n then none else some accept)
              else some drop)
          else none)
  unfolding wan_rules decide all_hold holds
  decide-wan_rules on n =
      let allowed = each (wan_rule n) n.allowed_egress in
      ground (
        arith,
        decide-open_rules on n,
        decide-append s p allowed (logged_drop on (iif_is n.bridge ∷ oif_unlisted ∷ []) "egress"),
        decide-logged_drop s p on (iif_is n.bridge ∷ oif_unlisted ∷ []) "egress",
        decide-each s p (wan_rule n) _ accept (decide-wan_rule s p n) n.allowed_egress,
        any_of_guard (str_eq n.bridge p.iif && not (listed p.oif s.bridges)) (wan_request p)
            n.allowed_egress,
      )

  -- No rule of a network decides about a packet from another bridge.
  wan_elsewhere :
      (on : Bool) (networks : List Net)
      → any_of (λ n. str_eq n.bridge p.iif) networks ≡ false
      → decide s p (each (wan_rules on) networks) ≡ none
  unfolding any_of each decide
  wan_elsewhere on [] none_here = refl
  wan_elsewhere on (n ∷ ns) none_here = ground (
    arith,
    decide-append s p (wan_rules on n) (each (wan_rules on) ns),
    decide-wan_rules on n,
    wan_elsewhere on ns,
  )

-- No two networks share a bridge.
unfoldable pub DistinctBridges : List Net → Type 0
DistinctBridges [] = true ≡ true
DistinctBridges (n ∷ ns) = (any_of (λ m. str_eq m.bridge n.bridge) ns ≡ false) × DistinctBridges ns

any_of_absent :
    (name other : String) (networks : List Net)
    → str_eq name other ≡ true
    → any_of (λ m. str_eq m.bridge name) networks ≡ false
    → any_of (λ m. str_eq m.bridge other) networks ≡ false
unfolding any_of
any_of_absent name other [] same none_here = refl
any_of_absent name other (n ∷ ns) same none_here =
    ground (arith, eq_iff name other, any_of_absent name other ns)

any_of_nowhere :
    (name : String) (g : Net → Bool) (networks : List Net)
    → any_of (λ m. str_eq m.bridge name) networks ≡ false
    → any_of (λ m. str_eq m.bridge name && g m) networks ≡ false
unfolding any_of
any_of_nowhere name g [] none_here = refl
any_of_nowhere name g (n ∷ ns) none_here = ground (arith, any_of_nowhere name g ns)

module _ (s : Sets) (p : Packet) where
  wan_section :
      (on : Bool) (networks : List Net)
      → DistinctBridges networks
      → any_of (λ n. str_eq n.bridge p.iif) networks ≡ true
      → listed p.oif s.bridges ≡ false
      → with_policy (decide s p (each (wan_rules on) networks)) ≡ (
          if any_of (λ n. str_eq n.bridge p.iif && wan_allows s.private n p) networks
          then accept
          else drop)
  unfolding any_of each DistinctBridges decide
  wan_section on [] distinct here out = cc here
  wan_section on (n ∷ ns) distinct here out = elim (Bool-cases (str_eq n.bridge p.iif)) [
    | inl its ↦ ground (
      arith,
      decide-append s p (wan_rules on n) (each (wan_rules on) ns),
      decide-wan_rules s p on n,
      wan_elsewhere s p on ns,
      any_of_absent n.bridge p.iif ns,
      any_of_nowhere p.iif (λ m. wan_allows s.private m p) ns,
    )
    | inr another ↦ ground (
      arith,
      decide-append s p (wan_rules on n) (each (wan_rules on) ns),
      decide-wan_rules s p on n,
      wan_section on ns,
    )
  ]

-- What a network lets a guest's packet do beyond the bridges.
abbrev egress_leaves : List ManagedIface → Net → Packet → EgressRule → Bool
egress_leaves managed n p r =
    not (str_eq r.iface "") && (is_managed managed r.iface && egress_request n p r)

abbrev ingress_leaves : List ManagedIface → Net → Packet → IngressRule → Bool
ingress_leaves managed n p r = is_managed managed r.iface && ingress_answer n p r

abbrev pub through_managed : List ManagedIface → Net → Packet → Bool
through_managed managed n p =
    any_of (egress_leaves managed n p) n.allowed_egress
    || any_of (ingress_leaves managed n p) n.allowed_ingress

abbrev pub to_wan : List Range → List ManagedIface → Net → Packet → Bool
to_wan private managed n p =
    not (is_managed managed p.iif || is_managed managed p.oif)
    && (str_eq n.bridge p.iif && wan_allows private n p)

module _ (managed : List ManagedIface) (p : Packet) where
  only_egress_requests :
      (n : Net)
      → str_eq n.bridge p.oif ≡ false
      → any_of (egress_passes managed n p) n.allowed_egress
        ≡ any_of (egress_leaves managed n p) n.allowed_egress
  only_egress_requests n out =
      any_of_ext (λ _. false) (egress_passes managed n p) (egress_leaves managed n p)
        (λ r _. ground arith) n.allowed_egress
        (any_of_none (λ _. false) (λ _. refl) n.allowed_egress)

  only_ingress_answers :
      (n : Net)
      → str_eq n.bridge p.oif ≡ false
      → any_of (ingress_passes managed n p) n.allowed_ingress
        ≡ any_of (ingress_leaves managed n p) n.allowed_ingress
  only_ingress_answers n out =
      any_of_ext (λ _. false) (ingress_passes managed n p) (ingress_leaves managed n p)
        (λ r _. ground arith) n.allowed_ingress
        (any_of_none (λ _. false) (λ _. refl) n.allowed_ingress)

-- When no two networks share a bridge, a packet from the bridge of a network towards anything that
-- is no bridge is forwarded exactly when it is not isolated and that network lets it leave: by an
-- egress rule through its managed interface, as the answer to a flow that an ingress rule let in,
-- or to the WAN, which no managed interface is: with full egress as far as it goes, else by an
-- egress rule without an interface.
pub guest_reach :
    (on : Bool) (private : List Range) (managed : List ManagedIface) (networks : List Net)
    (p : Packet)
    → DistinctBridges networks
    → listed p.iif (map (λ n. n.bridge) networks) ≡ true
    → listed p.oif (map (λ n. n.bridge) networks) ≡ false
    → run_chain (sets private networks) p (forward_chain on managed networks) ≡ (
        if not (is_isolated (sets private networks) p)
          && any_of (λ n. through_managed managed n p || to_wan private managed n p) networks
        then accept
        else drop)
unfolding run_chain
guest_reach on private managed networks p distinct from_bridge out =
    let elsewhere = sym (listed_bridges p.oif networks) ∙ out in
    let leaving = λ (n : Net). any_of (egress_leaves managed n p) n.allowed_egress in
    let answering = λ (n : Net). any_of (ingress_leaves managed n p) n.allowed_ingress in
    ground (
      arith,
      decide-forward (sets private networks) p on managed networks,
      touches_managed p managed,
      any_of_ext _ (λ n. any_of (egress_passes managed n p) n.allowed_egress) leaving
          (only_egress_requests managed p) networks elsewhere,
      any_of_ext _ (λ n. any_of (ingress_passes managed n p) n.allowed_ingress) answering
          (only_ingress_answers managed p) networks elsewhere,
      any_of_or (λ n. through_managed managed n p) (λ n. to_wan private managed n p) networks,
      any_of_or leaving answering networks,
      any_of_guard (not (is_managed managed p.iif || is_managed managed p.oif))
          (λ n. str_eq n.bridge p.iif && wan_allows private n p) networks,
      wan_section (sets private networks) p on networks distinct
          (sym (listed_bridges p.iif networks) ∙ from_bridge) out,
    )
