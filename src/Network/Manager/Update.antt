-- ===== src/Network/Manager/Update.antt =====
-- Changes of a network that is there, and its end (UpdateEgress to Delete of
-- internal/network/manager.go).
use micro_hosted.Prelude.{
  Bool, true, false, not, Option, none, some, List, [], ◌∷◌, String, if◌then◌else◌, Result, ok, err,
  Dict, lookup, insert, erase,
}
use micro_hosted.Labels.{Labels, PatchMap, patch}
use micro_hosted.Labels as Labels
use micro_hosted.Network.Firewall.{PortRule, EgressRule, IngressRule}
use micro_hosted.Network.SubnetPool as SubnetPool
use micro_hosted.Network.Manager.{
  NetRecord, ManagedNet, Manager, Error, rejected, not_found, host, store_failed, in_use, Faults,
  apply_rules, Change, changed, swapped, egress, ingress, bad_ingress, check_ingress,
}

-- The network that an operation finds: not one whose rules are not in force yet.
abbrev pub settled : Option ManagedNet → Option ManagedNet
settled none = none
settled (some mn) = if mn.pending then none else some mn

abbrev pub find_net : String → Manager → Option ManagedNet
find_net name m = settled (lookup name m.nets)

abbrev pub kept : Faults → String → ManagedNet → NetRecord → Manager → Option Error × Manager
kept faults name mn n m =
    if faults.save
    then (none, record m { stored = insert name n m.stored })
    else (some store_failed, apply_rules faults.reapply (swapped name mn.net mn m))

-- `updatePolicy`, from the network and its changed record.
abbrev pub replace_policy :
    Faults → String → ManagedNet → NetRecord → Manager → Option Error × Manager
replace_policy faults name mn n m =
    if faults.apply
    then kept faults name mn n (apply_rules true (swapped name n mn m))
    else (some host, swapped name mn.net mn (apply_rules false (swapped name n mn m)))

abbrev pub with_rules : Change → NetRecord → NetRecord
with_rules c n = record n { rules = changed c n.rules }

-- Whether the change accepts the network: UpdateIngress looks at the addresses and the other
-- networks.
abbrev pub accepted : String → Change → Manager → ManagedNet → Bool
accepted name (egress wide iface private ports rules) m mn = true
accepted name (ingress rules) m mn = check_ingress name mn.subnet rules m.nets

abbrev pub policy_of :
    Faults → String → Change → Option ManagedNet → Manager → Option Error × Manager
policy_of faults name c none m = (some not_found, m)
policy_of faults name c (some mn) m =
    if not (accepted name c m mn)
    then (some bad_ingress, m)
    else replace_policy faults name mn (with_rules c mn.net) m

unfoldable pub update_policy : Faults → String → Change → Manager → Option Error × Manager
update_policy faults name c m = policy_of faults name c (find_net name m) m

-- `valid` is what the validators say, here and in `update_ingress`.
abbrev pub update_egress :
    Faults
    → Bool
    → String
    → Bool
    → String
    → Bool
    → List PortRule
    → List EgressRule
    → Manager
    → Option Error × Manager
update_egress faults valid name wide iface private ports rules m =
    if not valid
    then (some rejected, m)
    else update_policy faults name (egress wide iface private ports rules) m

abbrev pub update_ingress :
    Faults → Bool → String → List IngressRule → Manager → Option Error × Manager
update_ingress faults valid name rules m =
    if not valid then (some bad_ingress, m) else update_policy faults name (ingress rules) m

-- `updateRecord`: stored first, and only then in memory.
abbrev pub replace_record :
    Faults → String → ManagedNet → NetRecord → Manager → Option Error × Manager
replace_record faults name mn n m =
    if faults.save
    then (none, record (swapped name n mn m) { stored = insert name n m.stored })
    else (some store_failed, m)

abbrev pub intra_of : Faults → String → Bool → Option ManagedNet → Manager → Option Error × Manager
intra_of faults name intra none m = (some not_found, m)
intra_of faults name intra (some mn) m =
    replace_record faults name mn (record mn.net { intra = intra }) m

unfoldable pub update_intra : Faults → String → Bool → Manager → Option Error × Manager
update_intra faults name intra m = intra_of faults name intra (find_net name m) m

abbrev pub labelled :
    Faults → String → ManagedNet → Result Labels.Error Labels → Manager → Option Error × Manager
labelled faults name mn (err e) m = (some rejected, m)
labelled faults name mn (ok labels) m =
    replace_record faults name mn (record mn.net { labels = labels }) m

abbrev pub labels_of :
    Faults → String → PatchMap → Option ManagedNet → Manager → Option Error × Manager
labels_of faults name p none m = (some not_found, m)
labels_of faults name p (some mn) m = labelled faults name mn (patch mn.net.labels p) m

unfoldable pub set_labels : Faults → String → PatchMap → Manager → Option Error × Manager
set_labels faults name p m = labels_of faults name p (find_net name m) m

abbrev pub is_empty : Dict String → Bool
is_empty [] = true
is_empty (v ∷ vs) = false

abbrev pub forgotten : String → ManagedNet → Manager → Manager
forgotten name mn m = record m {
  nets = erase name m.nets;
  stored = erase name m.stored;
  pool = SubnetPool.release mn.net.cidr m.pool;
}

abbrev pub failed : Bool → Option Error
failed true = none
failed false = some host

abbrev pub delete_of : Faults → String → Option ManagedNet → Manager → Option Error × Manager
delete_of faults name none m = (some not_found, m)
delete_of faults name (some mn) m =
    if not (is_empty mn.vms)
    then (some in_use, m)
    else if not faults.bridge_down
    then (some host, m)
    else if not faults.forget
    then (some store_failed, m)
    else (failed faults.apply, apply_rules faults.apply (forgotten name mn m))

unfoldable pub delete : Faults → String → Manager → Option Error × Manager
delete faults name m = delete_of faults name (find_net name m) m
