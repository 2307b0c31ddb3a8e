-- ===== src/Network/Manager/Reach.antt =====
-- The states that the manager can be in: what every operation of internal/network/manager.go keeps.
use micro_hosted.Prelude.{
  ℕ, ◌≡◌, Bool, true, false, Option, none, some, List, [], String, Dict, lookup, Bool-cases, ◌⊎◌,
  inl, inr,
}
use micro_hosted.Labels.{PatchMap}
use micro_hosted.Network.Address.{Bytes}
use micro_hosted.Network.SubnetPool.{Pool}
use micro_hosted.Network.Firewall.{Net, PortRule, EgressRule, IngressRule}
use micro_hosted.Network.Manager.{ManagedNet, Manager, Faults}
use micro_hosted.Network.Manager.Create.{Request, begin_create, finish_create}
use micro_hosted.Network.Manager.Update.{
  update_egress, update_ingress, update_intra, set_labels, delete,
}
use micro_hosted.Network.Manager.Attach.{attach, claim, detach}
use micro_hosted.Network.Manager.Installed.{absent, kept_of, pending_of}
use micro_hosted.Network.Manager.Created.{Good, begin_create-Good, finish_create-Good}
use micro_hosted.Network.Manager.Updated.{
  update_egress-Good, update_ingress-Good, update_intra-Good, set_labels-Good, delete-Good,
}
use micro_hosted.Network.Manager.Attached.{attach-Good, claim-Good, detach-Good}

-- One operation, with any request and any answers of the host.
pub data Step (m : Manager) : Manager → Type 0 where
  creates :
      (read : Bytes → Option (ℕ × ℕ)) (valid : Bool) (req : Request)
      → Step m (begin_create read valid req m).1
  finishes : (faults : Faults) (name : String) → Step m (finish_create faults name m).1
  egresses :
      (faults : Faults) (valid : Bool) (name : String) (wide : Bool) (iface : String)
      (private : Bool) (ports : List PortRule) (rules : List EgressRule)
      → Step m (update_egress faults valid name wide iface private ports rules m).1
  ingresses :
      (faults : Faults) (valid : Bool) (name : String) (rules : List IngressRule)
      → Step m (update_ingress faults valid name rules m).1
  intras :
      (faults : Faults) (name : String) (intra : Bool) → Step m (update_intra faults name intra m).1
  labels : (faults : Faults) (name : String) (p : PatchMap) → Step m (set_labels faults name p m).1
  deletes : (faults : Faults) (name : String) → Step m (delete faults name m).1
  attaches :
      (name vm tap : String) (ports again : Bool) → Step m (attach name vm tap ports again m).1
  claims :
      (name vm : String) (ip : Bytes) (tap : String) (ports again : Bool)
      → Step m (claim name vm ip tap ports again m).1
  detaches : (name vm : String) (ports : Bool) → Step m (detach name vm ports m)

-- A daemon that has just started on an empty store, whatever ruleset it finds.
abbrev pub started : Pool → Dict Net → Bool → Manager
started pool found works = record {
  nets = [];
  pool = pool;
  stored = [];
  installed = found;
  rules_ok = works;
  ports_ok = works;
}

pub data Reach : Manager → Type 0 where
  start : (pool : Pool) (found : Dict Net) (works : Bool) → Reach (started pool found works)
  after : (m m' : Manager) → Reach m → Step m m' → Reach m'

Step-Good : (m m' : Manager) → Step m m' → Good m → Good m'
Step-Good m _ (creates read valid req) good = begin_create-Good read req valid m good
Step-Good m _ (finishes faults name) good = finish_create-Good faults name m good
Step-Good m _ (egresses faults valid name wide iface private ports rules) good =
    update_egress-Good faults valid name wide iface private ports rules m good
Step-Good m _ (ingresses faults valid name rules) good =
    update_ingress-Good faults valid name rules m good
Step-Good m _ (intras faults name intra) good = update_intra-Good faults name intra m good
Step-Good m _ (labels faults name p) good = set_labels-Good faults name p m good
Step-Good m _ (deletes faults name) good = delete-Good faults name m good
Step-Good m _ (attaches name vm tap ports again) good = attach-Good name vm tap ports again m good
Step-Good m _ (claims name vm ip tap ports again) good =
    claim-Good name vm ip tap ports again m good
Step-Good m _ (detaches name vm ports) good = detach-Good name vm ports m good

pub Reach-Good : (m : Manager) → Reach m → Good m
unfolding lookup
Reach-Good _ (start pool found works) = λ name. absent (lookup name found)
Reach-Good _ (after m m' before step) = Step-Good m m' step (Reach-Good m before)

-- A network that serves its machines: the store has it as memory has it, and the ruleset that the
-- kernel has lists its bridge, with its own rules unless the last install failed.
abbrev pub InForce : Manager → String → ManagedNet → Type 0
InForce m name mn =
    (lookup name m.stored ≡ some mn.net)
    × ((r : Net) × ((lookup name m.installed ≡ some r)
          × (r.bridge ≡ mn.net.rules.bridge)
          × ((m.rules_ok ≡ false) ⊎ (r ≡ mn.net.rules))))

-- A network that is being created: the store does not have it, and no machine is on it.
abbrev pub Waits : Manager → String → ManagedNet → Type 0
Waits m name mn = (lookup name m.stored ≡ none) × (mn.vms ≡ [])

-- In every state that the operations reach from a start on an empty store, whichever calls to the
-- host and the store fail on the way: a network that is not being created is in the store exactly
-- as memory has it, its bridge is in the ruleset that the kernel has, and that ruleset has exactly
-- its declared rules unless the last install failed; a network that is still being created is not
-- in the store and has no machine.
pub Reach-InForce :
    (m : Manager) (name : String) (mn : ManagedNet)
    → Reach m
    → lookup name m.nets ≡ some mn
    → ((mn.pending ≡ false) × InForce m name mn) ⊎ ((mn.pending ≡ true) × Waits m name mn)
Reach-InForce m name mn reach found =
    let fit = Reach-Good m reach name in
    elim (Bool-cases mn.pending) [
      | inl waits ↦ inr (
        waits,
        pending_of m.rules_ok mn (lookup name m.nets) (lookup name m.installed)
            (lookup name m.stored) fit found waits,
      )
      | inr ready ↦
          let (kept, (r, (listed, bridge, right))) =
            kept_of m.rules_ok mn (lookup name m.nets) (lookup name m.installed)
              (lookup name m.stored) fit found ready in
          let exactly : (m.rules_ok ≡ false) ⊎ (r ≡ mn.net.rules) = elim (Bool-cases m.rules_ok) [
            | inl works ↦ inr (right works)
            | inr failed ↦ inl failed
          ] in
          inl (ready, (kept, (r, (listed, bridge, exactly))))
    ]
