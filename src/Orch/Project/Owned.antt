-- ===== src/Orch/Project/Owned.antt =====
-- What a plan may touch (planFor of orchestrator/orch/plan.go).
use micro_hosted.Prelude.{
  ◌≡◌, refl, subst, Bool, true, false, not, ◌&&◌, ◌||◌, Option, none, some, List, [], ◌∷◌, ◌++◌,
  map, String, str_eq, ok, Dict, lookup, arith, inl, inr, ok-injective, holds_if, All, All-append,
  All-any, All-if, All-map,
}
use micro_hosted.Labels.{Labels}
use micro_hosted.Orch.{
  Vm, VmState, running, stopped, Function, is_persistent, owner, label, label_managed_by,
  label_function, label_project, mine,
}
use micro_hosted.Orch.Plan.{
  Action, destroy, bury, create, relabel, removed, leftover, newest, retire_in, retire_others,
  is_kept, relabelled, settled, persistent_actions, label_patch,
}
use micro_hosted.Orch.Plan.Newest.{Among, here, there, newest-IsNewest}
use micro_hosted.Orch.Policy.{network_updates}
use micro_hosted.Orch.Project.{
  NetworkPlan, HaveNetwork, WantNetwork, Spec, Error, Step, create_network, update_network,
  adopt_network, vm_action, delete_network, is_some, by_name, present_network, plan_network,
  plan_networks, my_vms, serving, gone_names, prune, plan_function, plan_functions, delete_networks,
  planned, plan_for,
}

module _ (project : String) (s : Spec) where
  -- A machine of the project, or one from before projects that the specification declares; never
  -- evidence.
  abbrev pub OwnVm : Vm → Type 0
  OwnVm v =
      (mine project v.labels (is_some (lookup (label label_function v.labels) s.functions)) ≡ true)
      × (v.quarantine ≡ false)

  abbrev pub MayAct : Action → Type 0
  MayAct (destroy v why) = OwnVm v
  MayAct (bury v why) = OwnVm v
  MayAct (create name) = Unit
  MayAct (relabel v patch) = OwnVm v

  -- A network is changed if it is the project's or adopted, deleted if it is the project's and not
  -- wanted.
  abbrev pub MayTouch : List HaveNetwork → Step → Type 0
  MayTouch all (create_network name want) = lookup name (by_name all []) ≡ none
  MayTouch all (update_network name u) =
      (n : HaveNetwork) × (lookup name (by_name all []) ≡ some n)
      × (mine project n.labels true ≡ true)
  MayTouch all (adopt_network name) =
      (n : HaveNetwork) × (lookup name (by_name all []) ≡ some n)
      × (mine project n.labels true ≡ true)
  MayTouch all (vm_action a) = MayAct a
  MayTouch all (delete_network name) =
      (n : HaveNetwork) × (n.name ≡ name)
      × (mine project n.labels false ≡ true)
      × (lookup name s.networks ≡ none)

  unwanted :
      (name : String) → is_some (lookup name s.networks) ≡ false → lookup name s.networks ≡ none
  unwanted name h = ground (arith, h)

  retire_in-MayAct :
      (hash : String) (v : Vm) (state : VmState) → OwnVm v → MayAct (retire_in hash v state)
  retire_in-MayAct hash v running own = own
  retire_in-MayAct hash v (stopped t) own = own

  retire_others-MayAct :
      (hash : String) (keep : Option Vm) (vs : List Vm)
      → All OwnVm vs
      → All MayAct (retire_others hash keep vs)
  unfolding retire_others
  retire_others-MayAct hash keep [] own = tt
  retire_others-MayAct hash keep (v ∷ vs) own =
      let rest = retire_others-MayAct hash keep vs own.1 in
      All-if MayAct (is_kept keep v) _ _ (λ kept. rest)
        (λ gone. (retire_in-MayAct hash v v.state own.0, rest))

  All-Among : (k : Vm) (vs : List Vm) → All OwnVm vs → Among k vs → OwnVm k
  All-Among k _ own here = own.0
  All-Among k _ own (there {vs = vs} a) = All-Among k vs own.1 a

  relabelled-MayAct :
      (k : Vm) (patch : Dict (Option String)) → OwnVm k → All MayAct (relabelled k patch)
  relabelled-MayAct k [] own = tt
  relabelled-MayAct k (c ∷ cs) own = (own, tt)

  settled-MayAct :
      (name : String) (want : Labels) (keep : Option Vm)
      → ((k : Vm) → keep ≡ some k → OwnVm k)
      → All MayAct (settled name want keep)
  settled-MayAct name want none own = (tt, tt)
  settled-MayAct name want (some k) own =
      relabelled-MayAct k (label_patch want k.labels) (own k refl)

  persistent_actions-MayAct :
      (spec_hash : Function → String) (name : String) (f : Function) (have : List Vm)
      → All OwnVm have
      → All MayAct (persistent_actions spec_hash project name f have)
  unfolding persistent_actions
  persistent_actions-MayAct spec_hash name f have own =
      All-append MayAct (retire_others (spec_hash f) (newest (spec_hash f) none have) have) _
        (retire_others-MayAct (spec_hash f) (newest (spec_hash f) none have) have own)
        (settled-MayAct name _ (newest (spec_hash f) none have) (λ k found.
          elim (newest-IsNewest (spec_hash f) none have k found).known [
            | inl never ↦ absurd (cc never)
            | inr (a, c) ↦ All-Among k have own a
          ]))

  abbrev Mine : Vm → Type 0
  Mine v =
      mine project v.labels (is_some (lookup (label label_function v.labels) s.functions)) ≡ true

  my_vms-All : (vs : List Vm) → All Mine (my_vms project s vs)
  unfolding my_vms
  my_vms-All [] = tt
  my_vms-All (v ∷ vs) =
      All-if Mine
        (mine project v.labels (is_some (lookup (label label_function v.labels) s.functions))) _ _
        (λ own. (own, my_vms-All vs)) (λ other. my_vms-All vs)

  serving-OwnVm : (name : String) (vs : List Vm) → All Mine vs → All OwnVm (serving name vs)
  unfolding serving
  serving-OwnVm name [] m = tt
  serving-OwnVm name (v ∷ vs) m =
      All-if OwnVm (not v.quarantine && str_eq (label label_function v.labels) name) _ _
        (λ serves. ((m.0, ground (arith, serves)), serving-OwnVm name vs m.1))
        (λ not_here. serving-OwnVm name vs m.1)

  module _ (all : List HaveNetwork) where
    prune-MayTouch :
        (names : List String) (vs : List Vm) → All Mine vs → All (MayTouch all) (prune names vs)
    unfolding prune
    prune-MayTouch [] vs m = tt
    prune-MayTouch (name ∷ names) vs m =
        All-append (MayTouch all) (map (λ v. vm_action (destroy v removed)) (serving name vs))
          (prune names vs)
          (All-map OwnVm (MayTouch all) (λ v. vm_action (destroy v removed)) (serving name vs)
            (λ v own. own) (serving-OwnVm name vs m))
          (prune-MayTouch names vs m)

    plan_function-MayTouch :
        (spec_hash : Function → String) (name : String) (f : Function) (have : List Vm)
        → All OwnVm have
        → All (MayTouch all) (plan_function spec_hash project name f have)
    plan_function-MayTouch spec_hash name f have own =
        All-if (MayTouch all) (is_persistent f.lifecycle.mode) _ _
          (λ lasting.
            All-map MayAct (MayTouch all) vm_action
              (persistent_actions spec_hash project name f have) (λ a may. may)
              (persistent_actions-MayAct spec_hash name f have own))
          (λ cycles.
            All-map OwnVm (MayTouch all) (λ v. vm_action (destroy v leftover)) have
              (λ v mine_too. mine_too) own)

    plan_functions-MayTouch :
        (spec_hash : Function → String) (functions : Dict Function) (vs : List Vm)
        → All Mine vs
        → All (MayTouch all) (plan_functions spec_hash project functions vs)
    unfolding plan_functions
    plan_functions-MayTouch spec_hash [] vs m = tt
    plan_functions-MayTouch spec_hash ((name, f) ∷ functions) vs m =
        All-append (MayTouch all) (plan_function spec_hash project name f (serving name vs)) _
          (plan_function-MayTouch spec_hash name f (serving name vs) (serving-OwnVm name vs m))
          (plan_functions-MayTouch spec_hash functions vs m)

    delete_networks-MayTouch :
        (ns : List HaveNetwork) → All (MayTouch all) (delete_networks project s.networks ns)
    unfolding delete_networks
    delete_networks-MayTouch [] = tt
    delete_networks-MayTouch (n ∷ ns) =
        All-if (MayTouch all)
          (is_some (lookup n.name s.networks) || not (mine project n.labels false)) _ _
          (λ stays. delete_networks-MayTouch ns)
          (λ goes. (
            (n, refl, ground (arith, goes), unwanted n.name (ground (arith, goes))),
            delete_networks-MayTouch ns,
          ))

    present_network-MayTouch :
        (name : String) (want : WantNetwork) (have : HaveNetwork)
        → lookup name (by_name all []) ≡ some have
        → All (MayTouch all) (present_network project name want have).1
    present_network-MayTouch name want have found =
        let Good = λ (plan : NetworkPlan). All (MayTouch all) plan.1 in
        holds_if Good (not (str_eq (label label_managed_by have.labels) owner)) _ _ (λ foreign. tt)
          (λ owned.
            holds_if Good (not (mine project have.labels true)) _ _ (λ other. tt)
              (λ own.
                let own_network : MayTouch all (adopt_network name) =
                  (have, found, ground (arith, own)) in
                holds_if Good (not (str_eq have.subnet want.subnet)) _ _ (λ changed. tt)
                  (λ same.
                    All-append (MayTouch all)
                      (map (update_network name) (network_updates have.policy want.policy)) _
                      (All-map (λ u. Unit) (MayTouch all) (update_network name)
                        (network_updates have.policy want.policy) (λ u known. own_network)
                        (All-any (λ u. Unit) (λ u. tt) (network_updates have.policy want.policy)))
                      (All-if (MayTouch all)
                        (not (str_eq (label label_project have.labels) project)) _ _
                        (λ unlabelled. (own_network, tt)) (λ labelled. tt)))))

    plan_network-MayTouch :
        (overlaps : String → String → Bool) (name : String) (want : WantNetwork)
        (have : Option HaveNetwork)
        → lookup name (by_name all []) ≡ have
        → All (MayTouch all) (plan_network overlaps project all name want have).1
    plan_network-MayTouch overlaps name want none absent = (absent, tt)
    plan_network-MayTouch overlaps name want (some have) found =
        present_network-MayTouch name want have found

    plan_networks-MayTouch :
        (overlaps : String → String → Bool) (wanted : Dict WantNetwork)
        → All (MayTouch all) (plan_networks overlaps project all wanted).1
    unfolding plan_networks
    plan_networks-MayTouch overlaps [] = tt
    plan_networks-MayTouch overlaps ((name, want) ∷ wanted) =
        All-append (MayTouch all)
          (plan_network overlaps project all name want (lookup name (by_name all []))).1 _
          (plan_network-MayTouch overlaps name want (lookup name (by_name all [])) refl)
          (plan_networks-MayTouch overlaps wanted)

    planned-ok :
        (errors : List Error) (steps done : List Step)
        → planned errors steps ≡ ok done
        → steps ≡ done
    planned-ok [] steps done h = ok-injective h
    planned-ok (e ∷ es) steps done h = absurd (cc h)

    -- Every step of a plan touches only what is the project's: it destroys or relabels no machine
    -- but the project's own, quarantined ones never; it changes a network only if that is the
    -- project's or from before projects, deletes one only if it is the project's and no longer
    -- wanted, and creates one only under a free name.
    pub plan_for-MayTouch :
        (spec_hash : Function → String) (overlaps : String → String → Bool) (over : List Error)
        (vms : List Vm) (steps : List Step)
        → plan_for spec_hash overlaps project over s all vms ≡ ok steps
        → All (MayTouch all) steps
    unfolding plan_for
    plan_for-MayTouch spec_hash overlaps over vms steps h =
        let own = my_vms project s vms in
        let own_all = my_vms-All vms in
        let networks = plan_networks overlaps project all s.networks in
        let gone = gone_names s.functions own in
        subst (All (MayTouch all)) (planned-ok (over ++ networks.0) _ steps h) (
          All-append (MayTouch all) networks.1 _ (plan_networks-MayTouch overlaps s.networks) (
            All-append (MayTouch all) (prune gone own) _ (prune-MayTouch gone own own_all) (
              All-append (MayTouch all) (plan_functions spec_hash project s.functions own) _
                (plan_functions-MayTouch spec_hash s.functions own own_all)
                (delete_networks-MayTouch all))))
