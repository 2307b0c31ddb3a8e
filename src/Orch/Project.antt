-- ===== src/Orch/Project.antt =====
-- The plan of a whole specification (planFor of orchestrator/orch/plan.go): networks, machines of
-- functions that are gone, functions, and networks that are gone. Names of networks come sorted; a
-- label stands once.
pub mod Owned
mod Tests
use micro_hosted.Prelude.{
  ℕ, Bool, true, false, not, ◌&&◌, ◌||◌, Option, none, some, List, [], ◌∷◌, ◌++◌, map, String,
  str_eq, if◌then◌else◌, Result, ok, err, Dict, lookup, insert,
}
use micro_hosted.Labels.{Labels}
use micro_hosted.Orch.{
  Vm, Function, Mode, is_persistent, persistent, owner, label, label_managed_by, label_project,
  label_function, mine, later,
}
use micro_hosted.Orch.Plan.{Action, destroy, removed, leftover, persistent_actions}
use micro_hosted.Orch.Policy.{SpecNetwork, Policy, Update, network_updates}

pub record WantNetwork : Type 0 where
  pub subnet : String
  pub policy : SpecNetwork

pub record HaveNetwork : Type 0 where
  pub name : String
  pub subnet : String
  pub labels : Labels
  pub policy : Policy

-- Functions in their order in the file, networks in the order of their names.
pub record Spec : Type 0 where
  pub functions : Dict Function
  pub networks : Dict WantNetwork

pub data Error : Type 0 where
  not_owned other_project subnet_changed : String → Error
  overlapping : String → String → Error
  budget : Error

pub data Step : Type 0 where
  create_network : String → WantNetwork → Step
  update_network : String → Update → Step
  adopt_network : String → Step
  vm_action : Action → Step
  delete_network : String → Step

abbrev pub is_some {ℓ} : {A : Type ℓ} → Option A → Bool
is_some none = false
is_some (some _) = true

-- The map of the engine's networks by name.
unfoldable pub by_name : List HaveNetwork → Dict HaveNetwork → Dict HaveNetwork
by_name [] known = known
by_name (n ∷ ns) known = by_name ns (insert n.name n known)

unfoldable pub overlap_errors :
    (String → String → Bool) → String → String → List HaveNetwork → List Error
overlap_errors overlaps name subnet [] = []
overlap_errors overlaps name subnet (n ∷ ns) =
    let rest = overlap_errors overlaps name subnet ns in
    if overlaps n.subnet subnet then overlapping name n.name ∷ rest else rest

abbrev pub NetworkPlan : Type 0
NetworkPlan = List Error × List Step

-- A network that the engine has.
abbrev pub present_network : String → String → WantNetwork → HaveNetwork → NetworkPlan
present_network project name want have =
    if not (str_eq (label label_managed_by have.labels) owner)
    then (not_owned name ∷ [], [])
    else if not (mine project have.labels true)
    then (other_project name ∷ [], [])
    else if not (str_eq have.subnet want.subnet)
    then (subnet_changed name ∷ [], [])
    else (
      [],
      map (update_network name) (network_updates have.policy want.policy)
          ++ (if not (str_eq (label label_project have.labels) project)
              then adopt_network name ∷ []
              else []),
    )

-- A network of the specification, from what the engine has under its name; `overlaps` is netip's
-- test on prefixes.
abbrev pub plan_network :
    (String → String → Bool)
    → String
    → List HaveNetwork
    → String
    → WantNetwork
    → Option HaveNetwork
    → NetworkPlan
plan_network overlaps project all name want none =
    (overlap_errors overlaps name want.subnet all, create_network name want ∷ [])
plan_network overlaps project all name want (some have) = present_network project name want have

unfoldable pub plan_networks :
    (String → String → Bool) → String → List HaveNetwork → Dict WantNetwork → NetworkPlan
plan_networks overlaps project all [] = ([], [])
plan_networks overlaps project all ((name, want) ∷ wanted) =
    let rest = plan_networks overlaps project all wanted in
    let this = plan_network overlaps project all name want (lookup name (by_name all [])) in
    (this.0 ++ rest.0, this.1 ++ rest.1)

-- `myVMs`.
unfoldable pub my_vms : String → Spec → List Vm → List Vm
my_vms project s [] = []
my_vms project s (v ∷ vs) =
    let rest = my_vms project s vs in
    if mine project v.labels (is_some (lookup (label label_function v.labels) s.functions))
    then v ∷ rest
    else rest

-- `serving[name]` of byFunction.
unfoldable pub serving : String → List Vm → List Vm
serving name [] = []
serving name (v ∷ vs) =
    let rest = serving name vs in
    if not v.quarantine && str_eq (label label_function v.labels) name then v ∷ rest else rest

-- Sorted, each name once.
unfoldable pub add_name : String → List String → List String
add_name name [] = name ∷ []
add_name name (n ∷ ns) =
    if str_eq n name then n ∷ ns else if later n name then name ∷ n ∷ ns else n ∷ add_name name ns

unfoldable pub gone_names : Dict Function → List Vm → List String
gone_names functions [] = []
gone_names functions (v ∷ vs) =
    let rest = gone_names functions vs in
    if not v.quarantine && not (is_some (lookup (label label_function v.labels) functions))
    then add_name (label label_function v.labels) rest
    else rest

unfoldable pub prune : List String → List Vm → List Step
prune [] vms = []
prune (name ∷ names) vms =
    map (λ v. vm_action (destroy v removed)) (serving name vms) ++ prune names vms

abbrev pub plan_function : (Function → String) → String → String → Function → List Vm → List Step
plan_function spec_hash project name f have =
    if is_persistent f.lifecycle.mode
    then map vm_action (persistent_actions spec_hash project name f have)
    else map (λ v. vm_action (destroy v leftover)) have

unfoldable pub plan_functions : (Function → String) → String → Dict Function → List Vm → List Step
plan_functions spec_hash project [] vms = []
plan_functions spec_hash project ((name, f) ∷ functions) vms =
    plan_function spec_hash project name f (serving name vms)
    ++ plan_functions spec_hash project functions vms

unfoldable pub delete_networks : String → Dict WantNetwork → List HaveNetwork → List Step
delete_networks project wanted [] = []
delete_networks project wanted (n ∷ ns) =
    let rest = delete_networks project wanted ns in
    if is_some (lookup n.name wanted) || not (mine project n.labels false)
    then rest
    else delete_network n.name ∷ rest

abbrev pub planned : List Error → List Step → Result (List Error) (List Step)
planned [] steps = ok steps
planned (e ∷ es) steps = err (e ∷ es)

-- `planFor`; `over` is what `budget` found.
unfoldable pub plan_for :
    (Function → String)
    → (String → String → Bool)
    → String
    → List Error
    → Spec
    → List HaveNetwork
    → List Vm
    → Result (List Error) (List Step)
plan_for spec_hash overlaps project over s all vms =
    let networks = plan_networks overlaps project all s.networks in
    let own = my_vms project s vms in
    planned (over ++ networks.0) (
      networks.1
      ++ (prune (gone_names s.functions own) own
          ++ (plan_functions spec_hash project s.functions own
              ++ delete_networks project s.networks all)))
