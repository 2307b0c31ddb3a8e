-- ===== src/Network/Firewall.antt =====
-- The `inet microhosted` ruleset (renderNftables of internal/network/nftables.go, with Network,
-- EgressRule, IngressRule and PortRule of pkg/types/network.go). A rule is the list of its
-- matches and its verdict, in the order in which the script prints them; what nft and the kernel
-- make of a printed rule is `holds` and `decide`: the first rule with a verdict whose matches all
-- hold decides, and the policy of every chain is accept. An address or CIDR of a rule is the
-- range of addresses that it stands for.
pub mod Rules
pub mod Chain
pub mod Spec
pub mod Isolation
pub mod Forward
pub mod Managed
pub mod Egress
pub mod Recording
pub mod Translation
mod Tests
use text.Mathlib.Text.{starts_with}
use micro_hosted.Prelude.{
  ℕ, Bool, true, false, not, ◌&&◌, ◌||◌, Option, none, some, List, [], ◌∷◌, ◌++◌, String, str_eq,
  leb, ◌==◌, if◌then◌else◌,
}

pub data Proto : Type 0 where
  tcp udp icmp other_proto : Proto

pub record Range : Type 0 where
  pub low : ℕ
  pub high : ℕ

abbrev pub in_range : ℕ → Range → Bool
in_range v r = leb r.low v && leb v r.high

pub record PortRule : Type 0 where
  pub proto : Proto
  pub port : ℕ

-- An empty `iface` is the way out to the WAN.
pub record EgressRule : Type 0 where
  pub iface : String
  pub ip : Range
  pub proto : Proto
  pub port : ℕ

pub record IngressRule : Type 0 where
  pub iface : String
  pub src_ip : Range
  pub proto : Proto
  pub port : ℕ
  pub to_ip : ℕ

-- The fields of a network that the ruleset reads.
pub record Net : Type 0 where
  pub bridge : String
  pub subnet : Range
  pub egress : Bool
  pub egress_iface : String
  pub egress_private : Bool
  pub egress_ports : List PortRule
  pub allowed_egress : List EgressRule
  pub allowed_ingress : List IngressRule

pub record HostService : Type 0 where
  pub proto : Proto
  pub port : ℕ

pub record ManagedIface : Type 0 where
  pub name : String
  pub host_allow : List HostService

pub record Packet : Type 0 where
  pub iif : String
  pub oif : String
  pub src : ℕ
  pub dst : ℕ
  pub proto : Proto
  pub sport : ℕ
  pub dport : ℕ
  pub established : Bool
  pub reply : Bool
  pub dnat : Bool
  pub dst_local : Bool

abbrev pub proto_eq : Proto → Proto → Bool
proto_eq tcp tcp = true
proto_eq udp udp = true
proto_eq icmp icmp = true
proto_eq other_proto other_proto = true
proto_eq _ _ = false

abbrev pub has_ports : Proto → Bool
has_ports tcp = true
has_ports udp = true
has_ports _ = false

-- One match expression. `to_port` and `from_port` are `tcp dport N` and `tcp sport N`;
-- `not_to_ports` is `meta l4proto . th dport != { … }`, which a packet without ports never meets.
pub data Match : Type 0 where
  iif_is iif_has_prefix oif_is oif_is_not oif_has_prefix : String → Match
  iif_listed iif_unlisted oif_listed oif_unlisted other_bridge : Match
  src_in dst_in : Range → Match
  dst_private : Match
  is_proto : Proto → Match
  no_ports : Match
  to_port from_port : Proto → ℕ → Match
  not_to_ports : List PortRule → Match
  is_established is_reply is_original is_dnat to_host : Match

pub data Verdict : Type 0 where
  accept drop : Verdict

-- `log` records the packet for a reason and goes on with the next rule.
pub data Action : Type 0 where
  decides : Verdict → Action
  log : String → Action

pub record Rule : Type 0 where
  pub matches : List Match
  pub action : Action

-- The named sets: `@mhbridges` (with `@mhsame`, its pairs) and `@mhprivate`.
pub record Sets : Type 0 where
  pub bridges : List String
  pub private : List Range

-- A name matched by `"prefix*"`.
unfoldable pub has_prefix : String → String → Bool
has_prefix name prefix = starts_with name prefix

unfoldable pub listed : String → List String → Bool
listed name [] = false
listed name (b ∷ bs) = str_eq b name || listed name bs

unfoldable pub in_ranges : ℕ → List Range → Bool
in_ranges v [] = false
in_ranges v (r ∷ rs) = in_range v r || in_ranges v rs

unfoldable pub port_listed : Proto → ℕ → List PortRule → Bool
port_listed proto port [] = false
port_listed proto port (r ∷ rs) =
    (proto_eq r.proto proto && (r.port == port)) || port_listed proto port rs

unfoldable pub holds : Sets → Packet → Match → Bool
holds s p (iif_is n) = str_eq n p.iif
holds s p (iif_has_prefix n) = has_prefix p.iif n
holds s p (oif_is n) = str_eq n p.oif
holds s p (oif_is_not n) = not (str_eq n p.oif)
holds s p (oif_has_prefix n) = has_prefix p.oif n
holds s p iif_listed = listed p.iif s.bridges
holds s p iif_unlisted = not (listed p.iif s.bridges)
holds s p oif_listed = listed p.oif s.bridges
holds s p oif_unlisted = not (listed p.oif s.bridges)
holds s p other_bridge = not (str_eq p.iif p.oif && listed p.iif s.bridges)
holds s p (src_in r) = in_range p.src r
holds s p (dst_in r) = in_range p.dst r
holds s p dst_private = in_ranges p.dst s.private
holds s p (is_proto q) = proto_eq p.proto q
holds s p no_ports = not (has_ports p.proto)
holds s p (to_port q n) = proto_eq p.proto q && (p.dport == n)
holds s p (from_port q n) = proto_eq p.proto q && (p.sport == n)
holds s p (not_to_ports ports) = has_ports p.proto && not (port_listed p.proto p.dport ports)
holds s p is_established = p.established
holds s p is_reply = p.reply
holds s p is_original = not p.reply
holds s p is_dnat = p.dnat
holds s p to_host = p.dst_local

unfoldable pub all_hold : Sets → Packet → List Match → Bool
all_hold s p [] = true
all_hold s p (m ∷ ms) = holds s p m && all_hold s p ms

abbrev pub decided : Action → Option Verdict → Option Verdict
decided (decides v) rest = some v
decided (log _) rest = rest

-- The verdict of the first matching rule that has one.
unfoldable pub decide : Sets → Packet → List Rule → Option Verdict
decide s p [] = none
decide s p (r ∷ rs) =
    let rest = decide s p rs in if all_hold s p r.matches then decided r.action rest else rest

abbrev pub with_policy : Option Verdict → Verdict
with_policy none = accept
with_policy (some v) = v

unfoldable pub run_chain : Sets → Packet → List Rule → Verdict
run_chain s p rules = with_policy (decide s p rules)
