-- ===== src/Orch/Policy.antt =====
-- The policy of a network in place (networkUpdates and sameRules of orchestrator/orch/plan.go). A
-- rule of the specification is carried over to the engine's rule field by field (toEgress,
-- toIngress): it is one type here.
pub mod SameRules
pub mod Updates
mod Tests
use micro_hosted.Prelude.{
  ℕ, Bool, true, false, not, ◌&&◌, ◌||◌, Option, none, some, List, [], ◌∷◌, ◌++◌, String, str_eq,
  ◌==◌, if◌then◌else◌, length,
}

abbrev pub unused {ℓ} : {A : Type ℓ} → List A → List Bool
unused [] = []
unused (y ∷ b) = false ∷ unused b

abbrev pub marked : Bool → Option (List Bool) → Option (List Bool)
marked u none = none
marked u (some used) = some (u ∷ used)

-- `reflect.DeepEqual` on rules is the test `eq`; `used` marks the places of `b` that are taken.
module _ {ℓ} {A : Type ℓ} (eq : A → A → Bool) where
  -- The next place that holds `x` and is not taken, which is then.
  unfoldable pub take_unused : A → List A → List Bool → Option (List Bool)
  take_unused x [] used = none
  take_unused x (y ∷ b) [] = none
  take_unused x (y ∷ b) (u ∷ used) =
      let rest = take_unused x b used in
      if eq x y && not u then some (true ∷ used) else marked u rest

  unfoldable pub all_taken : List A → List A → List Bool → Bool
  all_taken [] b used = true
  all_taken (x ∷ a) b used = elim (take_unused x b used) [
    | none ↦ false
    | some next ↦ all_taken a b next
  ]

  -- `sameRules`.
  unfoldable pub same_rules : List A → List A → Bool
  same_rules a b = if not (length a == length b) then false else all_taken a b (unused b)

pub record EgressRule : Type 0 where
  pub iface : String
  pub ip : String
  pub protocol : String
  pub port : ℕ

pub record IngressRule : Type 0 where
  pub iface : String
  pub src_ip : String
  pub protocol : String
  pub port : ℕ
  pub to_ip : String

abbrev pub egress_eq : EgressRule → EgressRule → Bool
egress_eq a b =
    str_eq a.iface b.iface
    && (str_eq a.ip b.ip && (str_eq a.protocol b.protocol && (a.port == b.port)))

abbrev pub ingress_eq : IngressRule → IngressRule → Bool
ingress_eq a b =
    str_eq a.iface b.iface
    && (str_eq a.src_ip b.src_ip
        && (str_eq a.protocol b.protocol && ((a.port == b.port) && str_eq a.to_ip b.to_ip)))

pub record PortRule : Type 0 where
  pub protocol : String
  pub port : ℕ

-- What SetEgress replaces.
pub record EgressPolicy : Type 0 where
  pub egress : Bool
  pub egress_iface : String
  pub egress_private : Bool
  pub egress_ports : List PortRule
  pub allowed_egress : List EgressRule

-- The policy of a live network, as the engine tells it.
pub record Policy : Type 0 where
  pub egress : EgressPolicy
  pub allowed_ingress : List IngressRule
  pub intra : Bool

-- A network of the specification, without its subnet: it has no ports to narrow full egress to.
pub record SpecNetwork : Type 0 where
  pub intra : Bool
  pub egress : Bool
  pub egress_iface : String
  pub egress_private : Bool
  pub allowed_egress : List EgressRule
  pub allowed_ingress : List IngressRule

pub data Update : Type 0 where
  set_egress : EgressPolicy → Update
  set_ingress : List IngressRule → Update
  set_intra : Bool → Update

abbrev pub bool_eq : Bool → Bool → Bool
bool_eq true b = b
bool_eq false b = not b

abbrev pub egress_differs : EgressPolicy → SpecNetwork → Bool
egress_differs have want =
    not (bool_eq have.egress want.egress)
    || (not (str_eq have.egress_iface want.egress_iface)
        || (not (bool_eq have.egress_private want.egress_private)
            || not (same_rules egress_eq have.allowed_egress want.allowed_egress)))

-- The UpdateNetworkEgressRequest, whose EgressPorts is left empty.
abbrev pub egress_request : SpecNetwork → EgressPolicy
egress_request want = record {
  egress = want.egress;
  egress_iface = want.egress_iface;
  egress_private = want.egress_private;
  egress_ports = [];
  allowed_egress = want.allowed_egress;
}

-- `networkUpdates`.
unfoldable pub network_updates : Policy → SpecNetwork → List Update
network_updates have want =
    (if egress_differs have.egress want then set_egress (egress_request want) ∷ [] else [])
    ++ ((if not (same_rules ingress_eq have.allowed_ingress want.allowed_ingress)
          then set_ingress want.allowed_ingress ∷ []
          else [])
        ++ (if not (bool_eq have.intra want.intra) then set_intra want.intra ∷ [] else []))
