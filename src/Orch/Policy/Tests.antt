-- ===== src/Orch/Policy/Tests.antt =====
-- Two rules in either order, and a network whose mode has changed.
use mathlib.Core.List.{Perm}
use micro_hosted.Prelude.{◌≡◌, refl, ◌↔◌, true, false, [], ◌∷◌}
use micro_hosted.Orch.Policy.{
  EgressRule, egress_eq, Policy, SpecNetwork, egress_request, set_egress, same_rules, all_taken,
  take_unused, network_updates,
}
use micro_hosted.Orch.Policy.SameRules.{same_rules-Perm}
use micro_hosted.Orch.Policy.Updates.{carry_all, egress_eq_iff, InPlace, network_updates-InPlace}

abbrev web : EgressRule
web = record { iface = "eth0"; ip = "10.0.0.9"; protocol = "tcp"; port = 443 }

abbrev dns : EgressRule
dns = record { iface = "eth0"; ip = "10.0.0.9"; protocol = "udp"; port = 53 }

any_order : same_rules egress_eq (web ∷ dns ∷ web ∷ []) (web ∷ web ∷ dns ∷ []) ≡ true
unfolding same_rules all_taken take_unused
any_order = refl

not_twice : same_rules egress_eq (web ∷ web ∷ dns ∷ []) (web ∷ dns ∷ dns ∷ []) ≡ false
unfolding same_rules all_taken take_unused
not_twice = refl

same_rules-Perm_example :
    (same_rules egress_eq (web ∷ dns ∷ []) (dns ∷ web ∷ []) ≡ true)
    ↔ Perm (web ∷ dns ∷ []) (dns ∷ web ∷ [])
same_rules-Perm_example = same_rules-Perm egress_eq egress_eq_iff (web ∷ dns ∷ []) (dns ∷ web ∷ [])

-- A live network with full egress to port 443, and two specifications.
abbrev before : Policy
before = record {
  egress = record {
    egress = true;
    egress_iface = "eth0";
    egress_private = false;
    egress_ports = record { protocol = "tcp"; port = 443 } ∷ [];
    allowed_egress = [];
  };
  allowed_ingress = [];
  intra = true;
}

abbrev full : SpecNetwork
full = record {
  intra = true;
  egress = true;
  egress_iface = "eth0";
  egress_private = false;
  allowed_egress = [];
  allowed_ingress = [];
}

abbrev allowed : SpecNetwork
allowed = record full { egress = false; egress_iface = ""; allowed_egress = dns ∷ web ∷ [] }

-- The specification asks for egress to every port.
ports_stay : network_updates before full ≡ []
unfolding network_updates same_rules all_taken take_unused
ports_stay = refl

only_egress : network_updates before allowed ≡ set_egress (egress_request allowed) ∷ []
unfolding network_updates same_rules all_taken take_unused
only_egress = refl

network_updates-InPlace_example :
    InPlace (carry_all (network_updates before allowed) before) allowed
    × ((network_updates before allowed ≡ []) ↔ InPlace before allowed)
    × ((carry_all (network_updates before allowed) before).egress.egress_ports ≡ [])
unfolding same_rules all_taken take_unused
network_updates-InPlace_example = network_updates-InPlace before allowed
