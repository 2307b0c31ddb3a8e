-- ===== src/Network/Manager/Ingress.antt =====
-- The ingress rules of all networks share the chain `prerouting`: what checkIngress of
-- internal/network/manager.go keeps of them in every state.
use micro_hosted.Prelude.{
  ◌≡◌, refl, Bool, true, false, not, Option, none, some, String, str_eq, holds_if, Result, ok, err,
  lookup, insert, erase,
}
use micro_hosted.Labels.{patch, PatchMap}
use micro_hosted.Network.Address.{Bytes}
use micro_hosted.Network.Ipam.{Subnet, allocate_avoiding, reserve_exclusive, check_guest_ip}
use micro_hosted.Network.Ipam as Ipam
use micro_hosted.Network.Clash.{lets_in}
use micro_hosted.Network.Firewall.{Packet}
use micro_hosted.Network.Manager.{ManagedNet, Manager, Faults, Change, egress, ingress, is_guest}
use micro_hosted.Network.Manager.Create.{finish_found, finish_create}
use micro_hosted.Network.Manager.Update.{
  find_net, policy_of, update_policy, intra_of, update_intra, labels_of, set_labels, delete_of,
  delete,
}
use micro_hosted.Network.Manager.Attach.{
  pinned, attach, claim, detach, leased, with_lease, pinned_or_undone, granted, reserved, claim_on,
  attach_to, detached,
}
use micro_hosted.Network.Manager.Updated.{on_found}
use micro_hosted.Network.Manager.Apart.{same-Apart}
use micro_hosted.Network.Manager.Unshared.{
  Unshared, UnsharedAfter, begin_create-Unshared, finished-Unshared, policy-Unshared,
  recorded-Unshared, labelled-Unshared, deleted-Unshared,
}
use micro_hosted.Network.Manager.Reach.{
  Step, creates, finishes, egresses, ingresses, intras, labels, deletes, attaches, claims, detaches,
  Reach, start, after,
}

finish_found-Unshared :
    (faults : Faults) (name : String) (found : Option ManagedNet) (m : Manager)
    → Unshared m
    → lookup name m.nets ≡ found
    → UnsharedAfter (finish_found faults name found m)
finish_found-Unshared faults name none m apart e = apart
finish_found-Unshared faults name (some mn) m apart e =
    holds_if UnsharedAfter mn.pending _ _ (λ waits. finished-Unshared faults name mn m apart e)
      (λ ready. apart)

finish_create-Unshared :
    (faults : Faults) (name : String) (m : Manager)
    → Unshared m
    → UnsharedAfter (finish_create faults name m)
unfolding finish_create
finish_create-Unshared faults name m apart =
    finish_found-Unshared faults name (lookup name m.nets) m apart refl

update_policy-Unshared :
    (faults : Faults) (name : String) (c : Change) (m : Manager)
    → Unshared m
    → UnsharedAfter (update_policy faults name c m)
unfolding update_policy
update_policy-Unshared faults name c m apart =
    on_found UnsharedAfter name m (policy_of faults name c) apart
      (λ mn ready found. policy-Unshared faults name mn m apart found c) (find_net name m) refl

update_intra-Unshared :
    (faults : Faults) (name : String) (intra : Bool) (m : Manager)
    → Unshared m
    → UnsharedAfter (update_intra faults name intra m)
unfolding update_intra
update_intra-Unshared faults name intra m apart =
    on_found UnsharedAfter name m (intra_of faults name intra) apart
      (λ mn ready found.
        recorded-Unshared faults name mn m apart found (record mn.net { intra = intra }) refl)
      (find_net name m) refl

set_labels-Unshared :
    (faults : Faults) (name : String) (p : PatchMap) (m : Manager)
    → Unshared m
    → UnsharedAfter (set_labels faults name p m)
unfolding set_labels
set_labels-Unshared faults name p m apart =
    on_found UnsharedAfter name m (labels_of faults name p) apart
      (λ mn ready found. labelled-Unshared faults name mn m apart found (patch mn.net.labels p))
      (find_net name m) refl

delete-Unshared :
    (faults : Faults) (name : String) (m : Manager)
    → Unshared m
    → UnsharedAfter (delete faults name m)
unfolding delete
delete-Unshared faults name m apart =
    on_found UnsharedAfter name m (delete_of faults name) apart
      (λ mn ready found. deleted-Unshared faults name mn m apart found) (find_net name m) refl

detached-Unshared :
    (name vm : String) (found : Option ManagedNet) (ports : Bool) (m : Manager)
    → Unshared m
    → lookup name m.nets ≡ found
    → Unshared (detached name vm found ports m)
detached-Unshared name vm none ports m apart e = apart
detached-Unshared name vm (some mn) ports m apart e =
    same-Apart name mn (with_lease (Ipam.release vm mn.subnet) (erase vm mn.vms) mn) m.nets e refl
      apart

detach-Unshared :
    (name vm : String) (ports : Bool) (m : Manager) → Unshared m → Unshared (detach name vm ports m)
unfolding detach
detach-Unshared name vm ports m apart =
    detached-Unshared name vm (lookup name m.nets) ports m apart refl

pinned_or_undone-Unshared :
    (name vm : String) (ports again : Bool) (m : Manager)
    → Unshared m
    → UnsharedAfter (pinned_or_undone name vm ports again m)
pinned_or_undone-Unshared name vm true again m apart = apart
pinned_or_undone-Unshared name vm false again m apart =
    detach-Unshared name vm again (record m { ports_ok = false }) apart

module _ (name vm tap : String) (ports again : Bool) (mn : ManagedNet) (m : Manager)
    (apart : Unshared m) (found : lookup name m.nets ≡ some mn) where
  leased-Unshared : (s : Subnet) → Unshared (leased name vm tap mn s m)
  leased-Unshared s =
      same-Apart name mn (with_lease s (insert vm tap mn.vms) mn) m.nets found refl apart

  granted-Unshared :
      (got : Result Ipam.Error Bytes × Subnet)
      → UnsharedAfter (granted name vm tap ports again mn got m)
  granted-Unshared (err e, s) = apart
  granted-Unshared (ok ip, s) =
      pinned_or_undone-Unshared name vm ports again (leased name vm tap mn s m) (leased-Unshared s)

  reserved-Unshared :
      (got : Result Ipam.Error (Unit {0}) × Subnet)
      → UnsharedAfter (reserved name vm tap ports again mn got m)
  reserved-Unshared (err e, s) = apart
  reserved-Unshared (ok u, s) =
      pinned_or_undone-Unshared name vm ports again (leased name vm tap mn s m) (leased-Unshared s)

attach-Unshared :
    (name vm tap : String) (ports again : Bool) (m : Manager)
    → Unshared m
    → UnsharedAfter (attach name vm tap ports again m)
unfolding attach
attach-Unshared name vm tap ports again m apart =
    on_found UnsharedAfter name m (attach_to name vm tap ports again) apart
      (λ mn ready found.
        granted-Unshared name vm tap ports again mn m apart found
          (allocate_avoiding vm (pinned mn.net.rules.allowed_ingress) mn.subnet))
      (find_net name m) refl

claim-Unshared :
    (name vm : String) (ip : Bytes) (tap : String) (ports again : Bool) (m : Manager)
    → Unshared m
    → UnsharedAfter (claim name vm ip tap ports again m)
unfolding claim
claim-Unshared name vm ip tap ports again m apart =
    on_found UnsharedAfter name m (claim_on name vm ip tap ports again) apart
      (λ mn ready found.
        holds_if UnsharedAfter (not (is_guest (check_guest_ip ip mn.subnet))) _ _ (λ other. apart)
          (λ guest.
            reserved-Unshared name vm tap ports again mn m apart found
              (reserve_exclusive vm ip mn.subnet)))
      (find_net name m) refl

Step-Unshared : (m m' : Manager) → Step m m' → Unshared m → Unshared m'
Step-Unshared m _ (creates read valid req) apart = begin_create-Unshared read req valid m apart
Step-Unshared m _ (finishes faults name) apart = finish_create-Unshared faults name m apart
Step-Unshared m _ (egresses faults valid name wide iface private ports rules) apart =
    holds_if UnsharedAfter (not valid) _ _ (λ invalid. apart)
      (λ passed. update_policy-Unshared faults name (egress wide iface private ports rules) m apart)
Step-Unshared m _ (ingresses faults valid name rules) apart =
    holds_if UnsharedAfter (not valid) _ _ (λ invalid. apart)
      (λ passed. update_policy-Unshared faults name (ingress rules) m apart)
Step-Unshared m _ (intras faults name intra) apart = update_intra-Unshared faults name intra m apart
Step-Unshared m _ (labels faults name p) apart = set_labels-Unshared faults name p m apart
Step-Unshared m _ (deletes faults name) apart = delete-Unshared faults name m apart
Step-Unshared m _ (attaches name vm tap ports again) apart =
    attach-Unshared name vm tap ports again m apart
Step-Unshared m _ (claims name vm ip tap ports again) apart =
    claim-Unshared name vm ip tap ports again m apart
Step-Unshared m _ (detaches name vm ports) apart = detach-Unshared name vm ports m apart

Reach-Unshared : (m : Manager) → Reach m → Unshared m
unfolding lookup
Reach-Unshared _ (start pool found works) = λ name mn here. absurd (cc here)
Reach-Unshared _ (after m m' before step) = Step-Unshared m m' step (Reach-Unshared m before)

-- In every state that the operations reach from a start on an empty store, whatever fails on the
-- way, a packet of a device that the ingress rules of one network let in is let in by those of no
-- other network.
pub ingress_unshared :
    (m : Manager) (a b : String) (x y : ManagedNet) (p : Packet)
    → Reach m
    → str_eq a b ≡ false
    → lookup a m.nets ≡ some x
    → lookup b m.nets ≡ some y
    → lets_in x.net.rules.allowed_ingress p ≡ true
    → lets_in y.net.rules.allowed_ingress p ≡ false
ingress_unshared m a b x y p reach other found_a found_b hit =
    Reach-Unshared m reach a x found_a b y p other found_b hit
