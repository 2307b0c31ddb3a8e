-- ===== src/Network/Firewall/Rules.antt =====
-- The rules that renderNftables prints, chain by chain and in its order.
use micro_hosted.Prelude.{
  ℕ, Bool, true, false, not, ◌&&◌, ◌||◌, Option, none, some, List, [], ◌∷◌, ◌++◌, String, str_eq,
  if◌then◌else◌, map,
}
use micro_hosted.Network.Firewall.{
  Proto, tcp, udp, icmp, other_proto, Range, PortRule, EgressRule, IngressRule, Net, HostService,
  ManagedIface, Match, iif_is, iif_has_prefix, oif_is, oif_is_not, oif_has_prefix, iif_listed,
  iif_unlisted, oif_listed, oif_unlisted, other_bridge, src_in, dst_in, dst_private, is_proto,
  no_ports, to_port, from_port, not_to_ports, is_established, is_reply, is_original, is_dnat,
  to_host, Verdict, accept, drop, decides, log, Rule, Sets, Packet, all_hold,
}

abbrev pub bridge_prefix : String
bridge_prefix = "mhbr"

abbrev pub tap_prefix : String
tap_prefix = "tap"

abbrev pub rule : List Match → Verdict → Rule
rule ms v = record { matches = ms; action = decides v }

-- `writeFlowLog`, for a match and its reason.
abbrev pub flow_log : Bool → List Match → String → List Rule
flow_log true ms reason = record { matches = ms; action = log reason } ∷ []
flow_log false ms reason = []

-- A drop behind the rule that records it.
abbrev pub logged_drop : Bool → List Match → String → List Rule
logged_drop on ms reason = flow_log on ms reason ++ (rule ms drop ∷ [])

module _ {ℓ} {A : Type ℓ} where
  unfoldable pub each : (A → List Rule) → List A → List Rule
  each f [] = []
  each f (x ∷ xs) = f x ++ each f xs

abbrev pub sets : List Range → List Net → Sets
sets private networks = record { bridges = map (λ n. n.bridge) networks; private = private }

unfoldable pub is_managed : List ManagedIface → String → Bool
is_managed [] name = false
is_managed (m ∷ ms) name = str_eq m.name name || is_managed ms name

-- The chain `input`.
abbrev pub host_rule : String → HostService → List Rule
host_rule name h = rule (iif_is name ∷ to_port h.proto h.port ∷ []) accept ∷ []

abbrev pub host_rules : ManagedIface → List Rule
host_rules m = each (host_rule m.name) m.host_allow ++ (rule (iif_is m.name ∷ []) drop ∷ [])

unfoldable pub input_chain : Bool → List ManagedIface → List Rule
input_chain on managed =
    logged_drop on (iif_has_prefix tap_prefix ∷ []) "quarantine"
    ++ ((rule (is_established ∷ []) accept ∷ [])
        ++ (logged_drop on (iif_has_prefix bridge_prefix ∷ []) "host" ++ each host_rules managed))

-- The head of the chain `forward`: detached TAPs, unlisted bridges, other segments.
unfoldable pub isolation : Bool → List Rule
isolation on =
    logged_drop on (iif_has_prefix tap_prefix ∷ []) "quarantine"
    ++ ((rule (oif_has_prefix tap_prefix ∷ []) drop ∷ [])
        ++ (logged_drop on (iif_has_prefix bridge_prefix ∷ iif_unlisted ∷ []) "unlisted"
            ++ ((rule (oif_has_prefix bridge_prefix ∷ oif_unlisted ∷ []) drop ∷ [])
                ++ logged_drop on (iif_listed ∷ oif_listed ∷ other_bridge ∷ []) "cross")))

-- Both legs of an egress rule through a managed interface, for its match on the protocol there
-- and back.
abbrev pub egress_legs : Net → EgressRule → Match → Match → List Rule
egress_legs n r there back =
    rule (iif_is n.bridge ∷ oif_is r.iface ∷ dst_in r.ip ∷ there ∷ []) accept
    ∷ rule (iif_is r.iface ∷ oif_is n.bridge ∷ src_in r.ip ∷ dst_in n.subnet ∷ back ∷ is_reply ∷ [])
        accept
    ∷ []

abbrev pub by_proto : Proto → (Match → Match → List Rule) → ℕ → List Rule
by_proto tcp f port = f (to_port tcp port) (from_port tcp port)
by_proto udp f port = f (to_port udp port) (from_port udp port)
by_proto icmp f port = f (is_proto icmp) (is_proto icmp)
by_proto other_proto f port = []

unfoldable pub managed_egress_rule : List ManagedIface → Net → EgressRule → List Rule
managed_egress_rule managed n r =
    if str_eq r.iface "" || not (is_managed managed r.iface)
    then []
    else by_proto r.proto (egress_legs n r) r.port

abbrev pub single : ℕ → Range
single v = record { low = v; high = v }

-- Both legs of an ingress rule.
abbrev pub ingress_matches : Net → IngressRule → List Match
ingress_matches n r =
    iif_is r.iface
    ∷ oif_is n.bridge
    ∷ src_in r.src_ip
    ∷ dst_in (single r.to_ip)
    ∷ to_port r.proto r.port
    ∷ is_dnat
    ∷ is_original
    ∷ []

abbrev pub ingress_back : Net → IngressRule → List Match
ingress_back n r =
    iif_is n.bridge
    ∷ oif_is r.iface
    ∷ src_in (single r.to_ip)
    ∷ from_port r.proto r.port
    ∷ dst_in r.src_ip
    ∷ is_dnat
    ∷ is_reply
    ∷ []

unfoldable pub ingress_rule : List ManagedIface → Net → IngressRule → List Rule
ingress_rule managed n r =
    if not (is_managed managed r.iface)
    then []
    else (rule (ingress_matches n r) accept ∷ rule (ingress_back n r) accept ∷ [])

-- What crosses a managed interface otherwise.
unfoldable pub managed_drops : Bool → ManagedIface → List Rule
managed_drops on m =
    rule (iif_is m.name ∷ []) drop
    ∷ (flow_log on (iif_listed ∷ oif_is m.name ∷ []) "managed"
        ++ (rule (oif_is m.name ∷ []) drop ∷ []))

unfoldable pub egress_open : Net → Bool
egress_open n = n.egress && not (str_eq n.egress_iface "")

abbrev pub is_empty : List PortRule → Bool
is_empty [] = true
is_empty (_ ∷ _) = false

-- The drops of a network with full egress.
unfoldable pub open_rules : Bool → Net → List Rule
open_rules on n =
    logged_drop on (iif_is n.bridge ∷ oif_unlisted ∷ oif_is_not n.egress_iface ∷ []) "iface"
    ++ ((if n.egress_private
          then []
          else logged_drop on (iif_is n.bridge ∷ oif_unlisted ∷ dst_private ∷ []) "private")
        ++ (if is_empty n.egress_ports
            then []
            else (logged_drop on (iif_is n.bridge ∷ oif_unlisted ∷ no_ports ∷ []) "port"
                ++ logged_drop on
                    (iif_is n.bridge ∷ oif_unlisted ∷ not_to_ports n.egress_ports ∷ []) "port")))

abbrev pub wan_leg : Net → EgressRule → Match → Match → List Rule
wan_leg n r there _ = rule (iif_is n.bridge ∷ oif_unlisted ∷ dst_in r.ip ∷ there ∷ []) accept ∷ []

unfoldable pub wan_rule : Net → EgressRule → List Rule
wan_rule n r = if not (str_eq r.iface "") then [] else by_proto r.proto (wan_leg n r) r.port

-- A network's way to the WAN.
unfoldable pub wan_rules : Bool → Net → List Rule
wan_rules on n =
    if egress_open n
    then open_rules on n
    else (each (wan_rule n) n.allowed_egress
        ++ logged_drop on (iif_is n.bridge ∷ oif_unlisted ∷ []) "egress")

-- The chain `forward`.
unfoldable pub forward_chain : Bool → List ManagedIface → List Net → List Rule
forward_chain on managed networks =
    isolation on
    ++ (each (λ n. each (managed_egress_rule managed n) n.allowed_egress) networks
        ++ (each (λ n. each (ingress_rule managed n) n.allowed_ingress) networks
            ++ (each (managed_drops on) managed ++ each (wan_rules on) networks)))

-- The chain `prerouting`: the destination that a packet to the host is rewritten to.
abbrev pub dnat_rule : List ManagedIface → IngressRule → List (List Match × ℕ)
dnat_rule managed r =
    if not (is_managed managed r.iface)
    then []
    else ((iif_is r.iface ∷ src_in r.src_ip ∷ to_host ∷ to_port r.proto r.port ∷ [], r.to_ip) ∷ [])

unfoldable pub dnats_of : List ManagedIface → List IngressRule → List (List Match × ℕ)
dnats_of managed [] = []
dnats_of managed (r ∷ rs) = dnat_rule managed r ++ dnats_of managed rs

unfoldable pub prerouting_chain : List ManagedIface → List Net → List (List Match × ℕ)
unfolding dnats_of
prerouting_chain managed [] = []
prerouting_chain managed (n ∷ ns) =
    dnats_of managed n.allowed_ingress ++ prerouting_chain managed ns

-- The destination of a packet after a chain of translations: the first that matches.
unfoldable pub translated : Sets → Packet → List (List Match × ℕ) → Option ℕ
translated s p [] = none
translated s p ((ms, target) ∷ rest) =
    let later = translated s p rest in if all_hold s p ms then some target else later

abbrev has_rules : List EgressRule → Bool
has_rules [] = false
has_rules (_ ∷ _) = true

-- The chain `postrouting`: what is masqueraded.
unfoldable pub masquerade_rules : Net → List (List Match)
masquerade_rules n =
    if egress_open n
    then (src_in n.subnet ∷ oif_is n.egress_iface ∷ []) ∷ []
    else if not n.egress && has_rules n.allowed_egress
    then (src_in n.subnet ∷ oif_unlisted ∷ []) ∷ []
    else []

unfoldable pub postrouting_chain : List Net → List (List Match)
unfolding masquerade_rules
postrouting_chain [] = []
postrouting_chain (n ∷ ns) = masquerade_rules n ++ postrouting_chain ns
