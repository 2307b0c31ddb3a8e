-- ===== src/Network/Manager.antt =====
-- The networks of a daemon and the ruleset in force (internal/network/manager.go). A change of the
-- policy is one step, as applyMu makes it, save that Create is two: a machine may attach to other
-- networks between them. The host's answers to a step are its `Faults`. The store is a map by the
-- names, which are unique in it.
pub mod Create
pub mod Update
pub mod Attach
pub mod Installed
pub mod Created
pub mod Updated
pub mod Attached
pub mod Apart
pub mod Unshared
pub mod Reach
pub mod Ingress
mod Tests
use micro_hosted.Prelude.{
  ℕ, Bool, true, false, not, ◌&&◌, ◌||◌, Option, none, some, List, [], ◌∷◌, ◌++◌, String, str_eq,
  if◌then◌else◌, Result, ok, err, Dict, lookup, insert, erase,
}
use micro_hosted.Labels.{Labels, PatchMap, patch}
use micro_hosted.Network.Address.{Bytes, ip_text}
use micro_hosted.Network.Ipam.{
  Subnet, parse_subnet, allocate_avoiding, reserve_exclusive, check_guest_ip, overlaps,
}
use micro_hosted.Network.Ipam as Ipam
use micro_hosted.Network.SubnetPool.{Pool, bytes_eq}
use micro_hosted.Network.SubnetPool as SubnetPool
use micro_hosted.Network.Clash.{ingress_clash}
use micro_hosted.Network.Firewall.{Net, Range, EgressRule, IngressRule, PortRule}

-- types.Network: `rules` are the fields that the ruleset reads.
pub record NetRecord : Type 0 where
  pub name : String
  pub rules : Net
  pub cidr : Bytes
  pub labels : Labels
  pub intra : Bool

pub record ManagedNet : Type 0 where
  pub net : NetRecord
  pub subnet : Subnet
  pub vms : Dict String
  pub pending : Bool

-- The manager, with what it keeps outside: the store, the ruleset that the kernel has (the networks
-- it lists by their names), and whether the last attempts to install the ruleset and the port
-- filter went well.
pub record Manager : Type 0 where
  pub nets : Dict ManagedNet
  pub pool : Pool
  pub stored : Dict NetRecord
  pub installed : Dict Net
  pub rules_ok : Bool
  pub ports_ok : Bool

pub data Error : Type 0 where
  rejected exists bad_subnet overlapping bad_ingress not_found in_use : Error
  exhausted : Error
  address : Ipam.Error → Error
  host store_failed ports_failed : Error

pub record Faults : Type 0 where
  pub bridge_up : Bool
  pub apply : Bool
  pub save : Bool
  pub reapply : Bool
  pub bridge_down : Bool
  pub forget : Bool

unfoldable pub snapshot : Dict ManagedNet → Dict Net
snapshot [] = []
snapshot ((name, mn) ∷ nets) = (name, mn.net.rules) ∷ snapshot nets

-- `applyRules`: `nft -f` installs the whole ruleset or leaves the one in force.
abbrev pub apply_rules : Bool → Manager → Manager
apply_rules works m =
    if works
    then record m { installed = snapshot m.nets; rules_ok = true }
    else record m { rules_ok = false }

abbrev pub is_guest : Result Ipam.Error (Unit {0}) → Bool
is_guest (ok u) = true
is_guest (err e) = false

unfoldable pub clashes : IngressRule → List IngressRule → Bool
clashes r [] = false
clashes r (o ∷ others) = ingress_clash r o || clashes r others

unfoldable pub clashes_in : String → IngressRule → Dict ManagedNet → Bool
clashes_in self r [] = false
clashes_in self r ((name, other) ∷ nets) =
    (not (str_eq name self) && clashes r other.net.rules.allowed_ingress) || clashes_in self r nets

-- `checkIngress`, as whether it accepts the rules.
unfoldable pub check_ingress : String → Subnet → List IngressRule → Dict ManagedNet → Bool
check_ingress self s [] nets = true
check_ingress self s (r ∷ rs) nets =
    is_guest (check_guest_ip (ip_text r.to_ip) s)
    && not (clashes_in self r nets)
    && check_ingress self s rs nets

-- What UpdateEgress and UpdateIngress change.
pub data Change : Type 0 where
  egress : Bool → String → Bool → List PortRule → List EgressRule → Change
  ingress : List IngressRule → Change

abbrev pub changed : Change → Net → Net
changed (egress wide iface private ports rules) n = record n {
  egress = wide;
  egress_iface = iface;
  egress_private = private;
  egress_ports = ports;
  allowed_egress = rules;
}
changed (ingress rules) n = record n { allowed_ingress = rules }

abbrev pub with_net : NetRecord → ManagedNet → ManagedNet
with_net n mn = record mn { net = n }

abbrev pub swapped : String → NetRecord → ManagedNet → Manager → Manager
swapped name n mn m = record m { nets = insert name (with_net n mn) m.nets }
