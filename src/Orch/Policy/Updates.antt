-- ===== src/Orch/Policy/Updates.antt =====
-- A network's policy once its updates are carried out (networkUpdates of
-- orchestrator/orch/plan.go). The engine's SetEgress, SetIngress and SetIntra replace what they
-- name.
use mathlib.Core.List.Perm
use mathlib.Core.List.{Perm}
use micro_hosted.Prelude.{
  ◌≡◌, refl, ◌↔◌, Bool, true, false, List, [], ◌∷◌, if◌then◌else◌, eq_iff, arith,
}
use micro_hosted.Orch.Policy.{
  EgressRule, IngressRule, egress_eq, ingress_eq, Policy, SpecNetwork, Update, set_egress,
  set_ingress, set_intra, bool_eq, egress_differs, same_rules, network_updates,
}
use micro_hosted.Orch.Policy.SameRules.{same_rules-Perm}

abbrev pub carry_out : Update → Policy → Policy
carry_out (set_egress e) p = record {
  egress = e;
  allowed_ingress = p.allowed_ingress;
  intra = p.intra;
}
carry_out (set_ingress rules) p = record {
  egress = p.egress;
  allowed_ingress = rules;
  intra = p.intra;
}
carry_out (set_intra allowed) p = record {
  egress = p.egress;
  allowed_ingress = p.allowed_ingress;
  intra = allowed;
}

abbrev pub carry_all : List Update → Policy → Policy
carry_all [] p = p
carry_all (u ∷ us) p = carry_all us (carry_out u p)

pub egress_eq_iff : (a b : EgressRule) → (egress_eq a b ≡ true) ↔ (a ≡ b)
egress_eq_iff a b =
    ground (arith, eq_iff a.iface b.iface, eq_iff a.ip b.ip, eq_iff a.protocol b.protocol)

pub ingress_eq_iff : (a b : IngressRule) → (ingress_eq a b ≡ true) ↔ (a ≡ b)
ingress_eq_iff a b = ground (
  arith,
  eq_iff a.iface b.iface,
  eq_iff a.src_ip b.src_ip,
  eq_iff a.protocol b.protocol,
  eq_iff a.to_ip b.to_ip,
)

bool_eq_iff : (a b : Bool) → (bool_eq a b ≡ true) ↔ (a ≡ b)
bool_eq_iff true true = ground arith
bool_eq_iff true false = ground arith
bool_eq_iff false true = ground arith
bool_eq_iff false false = ground arith

-- The policy is the one of the specification, in what a specification has, rules in any order.
pub record InPlace (have : Policy) (want : SpecNetwork) : Type 0 where
  pub egress : have.egress.egress ≡ want.egress
  pub egress_iface : have.egress.egress_iface ≡ want.egress_iface
  pub egress_private : have.egress.egress_private ≡ want.egress_private
  pub allowed_egress : Perm have.egress.allowed_egress want.allowed_egress
  pub allowed_ingress : Perm have.allowed_ingress want.allowed_ingress
  pub intra : have.intra ≡ want.intra

abbrev ingress_same : Policy → SpecNetwork → Bool
ingress_same have want = same_rules ingress_eq have.allowed_ingress want.allowed_ingress

to_InPlace :
    (have : Policy) (want : SpecNetwork)
    → egress_differs have.egress want ≡ false
    → ingress_same have want ≡ true
    → bool_eq have.intra want.intra ≡ true
    → InPlace have want
to_InPlace have want e i b = record {
  egress = (bool_eq_iff _ _).0 (ground (arith, e));
  egress_iface = ground (arith, e, eq_iff have.egress.egress_iface want.egress_iface);
  egress_private = (bool_eq_iff _ _).0 (ground (arith, e));
  allowed_egress = (same_rules-Perm egress_eq egress_eq_iff _ _).0 (ground (arith, e));
  allowed_ingress = (same_rules-Perm ingress_eq ingress_eq_iff _ _).0 i;
  intra = (bool_eq_iff _ _).0 b;
}

egress_differs-InPlace :
    (have : Policy) (want : SpecNetwork)
    → InPlace have want
    → egress_differs have.egress want ≡ false
egress_differs-InPlace have want p = ground (
  arith,
  p.egress_iface,
  eq_iff have.egress.egress_iface want.egress_iface,
  (bool_eq_iff _ _).1 p.egress,
  (bool_eq_iff _ _).1 p.egress_private,
  (same_rules-Perm egress_eq egress_eq_iff _ _).1 p.allowed_egress,
)

from_InPlace :
    (have : Policy) (want : SpecNetwork) → InPlace have want → network_updates have want ≡ []
unfolding network_updates
from_InPlace have want p = ground (
  arith,
  egress_differs-InPlace have want p,
  (same_rules-Perm ingress_eq ingress_eq_iff _ _).1 p.allowed_ingress,
  (bool_eq_iff _ _).1 p.intra,
)

nothing_InPlace :
    (have : Policy) (want : SpecNetwork) → network_updates have want ≡ [] → InPlace have want
unfolding network_updates
nothing_InPlace have want h =
    to_InPlace have want (ground (arith, h)) (ground (arith, h)) (ground (arith, h))

module _ (have : Policy) (want : SpecNetwork) where
  abbrev after : Policy
  after = carry_all (network_updates have want) have

  carried-InPlace : InPlace after want
  unfolding network_updates
  carried-InPlace =
      let egress_same =
        (same_rules-Perm egress_eq egress_eq_iff want.allowed_egress want.allowed_egress).1
          (Perm.refl _) in
      let ingress =
        (same_rules-Perm ingress_eq ingress_eq_iff want.allowed_ingress want.allowed_ingress).1
          (Perm.refl _) in
      let intra = (bool_eq_iff want.intra want.intra).1 refl in
      let wide = (bool_eq_iff want.egress want.egress).1 refl in
      let private = (bool_eq_iff want.egress_private want.egress_private).1 refl in
      to_InPlace after want
        (ground (arith, egress_same, wide, private, eq_iff want.egress_iface want.egress_iface))
        (ground (arith, ingress)) (ground (arith, intra))

  ports_after :
      after.egress.egress_ports
      ≡ (if egress_differs have.egress want then [] else have.egress.egress_ports)
  unfolding network_updates
  ports_after = ground arith

-- The updates of a network bring its policy to that of the specification, the rules in any order,
-- and there are none exactly when it is that already. The ports that narrow full egress are no part
-- of a specification: they are dropped when the rest of the egress policy differs, and stay
-- otherwise.
pub network_updates-InPlace :
    (have : Policy) (want : SpecNetwork)
    → InPlace (carry_all (network_updates have want) have) want
      × ((network_updates have want ≡ []) ↔ InPlace have want)
      × ((carry_all (network_updates have want) have).egress.egress_ports
          ≡ (if egress_differs have.egress want then [] else have.egress.egress_ports))
network_updates-InPlace have want = (
  carried-InPlace have want,
  (nothing_InPlace have want, from_InPlace have want),
  ports_after have want,
)
