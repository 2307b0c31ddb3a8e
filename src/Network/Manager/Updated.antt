-- ===== src/Network/Manager/Updated.antt =====
-- Changes of a network and its end (updatePolicy, updateRecord and Delete of
-- internal/network/manager.go).
use micro_hosted.Prelude.{
  ◌≡◌, refl, sym, ap, ◌∙◌, subst, Bool, true, false, not, Option, none, some, List, String,
  holds_if, Result, ok, err, Dict, lookup, insert, erase,
}
use micro_hosted.Labels.{Labels, PatchMap, patch}
use micro_hosted.Labels as Labels
use micro_hosted.Network.Firewall.{Net, PortRule, EgressRule, IngressRule}
use micro_hosted.Network.Manager.{
  NetRecord, ManagedNet, Manager, Error, Faults, snapshot, with_net, Change, egress, ingress,
  changed,
}
use micro_hosted.Network.Manager.Update.{
  settled, find_net, replace_policy, with_rules, accepted, policy_of, update_policy, update_egress,
  update_ingress, replace_record, intra_of, update_intra, labelled, labels_of, set_labels,
  delete_of, delete, is_empty,
}
use micro_hosted.Network.Manager.Installed.{
  Fits, absent, in_force, AllFit, applied-AllFit, weaker-AllFit, insert-Elsewhere, erase-Elsewhere,
  lookup-insert_same, lookup-erase_same, lookup-snapshot, changed-AllFit, kept_of, rules_of,
  Elsewhere,
}
use micro_hosted.Network.Manager.Created.{Good, GoodAfter}

bridge-changed : (c : Change) (n : Net) → (changed c n).bridge ≡ n.bridge
bridge-changed (egress wide iface private ports rules) n = refl
bridge-changed (ingress rules) n = refl

pub settled-some :
    (found : Option ManagedNet) (mn : ManagedNet)
    → settled found ≡ some mn
    → (found ≡ some mn) × (mn.pending ≡ false)
settled-some none mn h = absurd (cc h)
settled-some (some x) mn h =
    holds_if (λ (o : Option ManagedNet). o ≡ some mn → (some x ≡ some mn) × (mn.pending ≡ false))
      x.pending none (some x) (λ waits e. absurd (cc e))
      (λ ready e. let same : x ≡ mn = cc e in (e, sym (ap (λ y. y.pending) same) ∙ ready)) h

-- A network set twice is the network set last.
twice-Elsewhere :
    (name : String) (a b : ManagedNet) (nets : Dict ManagedNet)
    → Elsewhere name nets (insert name b (insert name a nets))
twice-Elsewhere name a b nets n other =
    insert-Elsewhere name b (insert name a nets) n other ∙ insert-Elsewhere name a nets n other

-- The network with another record, in memory and in the store.
replaced-AllFit :
    (name : String) (mn : ManagedNet) (works : Bool) (n : NetRecord) (nets nets' : Dict ManagedNet)
    (installed : Dict Net) (stored stored' : Dict NetRecord) (r : Net)
    → mn.pending ≡ false
    → AllFit works nets installed stored
    → Elsewhere name nets nets'
    → Elsewhere name stored stored'
    → lookup name nets' ≡ some (with_net n mn)
    → lookup name stored' ≡ some n
    → lookup name installed ≡ some r
    → r.bridge ≡ n.rules.bridge
    → (works ≡ true → r ≡ n.rules)
    → AllFit works nets' installed stored'
replaced-AllFit name mn works n nets nets' installed stored stored' r ready fit nets_same
      stored_same here kept_here listed bridge right =
    changed-AllFit works name nets nets' installed stored stored' fit nets_same stored_same (
      subst (λ o. Fits works o (lookup name installed) (lookup name stored')) (sym here)
        (subst (Fits works (some (with_net n mn)) (lookup name installed)) (sym kept_here) (
          subst (λ i. Fits works (some (with_net n mn)) i (some n)) (sym listed)
            (in_force (with_net n mn) r ready bridge right))))

module _ (faults : Faults) (name : String) (mn : ManagedNet) (m : Manager)
    (ready : mn.pending ≡ false) (good : Good m) (found : lookup name m.nets ≡ some mn) where
  -- What the network has outside memory before the change.
  abbrev Before : Type 0
  Before =
      (lookup name m.stored ≡ some mn.net)
      × ((r : Net) × ((lookup name m.installed ≡ some r)
            × (r.bridge ≡ mn.net.rules.bridge)
            × (m.rules_ok ≡ true → r ≡ mn.net.rules)))

  before : Before
  before =
      kept_of m.rules_ok mn (lookup name m.nets) (lookup name m.installed) (lookup name m.stored)
        (good name) found ready

  weak : AllFit false m.nets m.installed m.stored
  weak = weaker-AllFit m.rules_ok m.nets m.installed m.stored good

  -- The record that it had, whatever was set in between, under the old ruleset.
  back :
      (n : NetRecord)
      → AllFit false
          (insert name (with_net mn.net mn) (insert name (with_net n mn) m.nets))
          m.installed
          m.stored
  back n =
      let (kept_before, (r, (listed, bridge, right))) = before in
      replaced-AllFit name mn false mn.net m.nets
        (insert name (with_net mn.net mn) (insert name (with_net n mn) m.nets)) m.installed m.stored
        m.stored r ready weak (twice-Elsewhere name (with_net n mn) (with_net mn.net mn) m.nets)
        (λ k other. refl)
        (lookup-insert_same name (with_net mn.net mn) (insert name (with_net n mn) m.nets))
        kept_before listed bridge (λ e. absurd (cc e))

  module _ (n : NetRecord) (same_bridge : n.rules.bridge ≡ mn.net.rules.bridge) where
    abbrev new_nets : Dict ManagedNet
    new_nets = insert name (with_net n mn) m.nets

    updated : AllFit false new_nets m.installed (insert name n m.stored)
    updated =
        let (kept_before, (r, (listed, bridge, right))) = before in
        replaced-AllFit name mn false n m.nets new_nets m.installed m.stored
          (insert name n m.stored) r ready weak (insert-Elsewhere name (with_net n mn) m.nets)
          (insert-Elsewhere name n m.stored) (lookup-insert_same name (with_net n mn) m.nets)
          (lookup-insert_same name n m.stored) listed (bridge ∙ sym same_bridge)
          (λ e. absurd (cc e))

    -- The record that it had, under the new ruleset.
    back_late :
        AllFit false (insert name (with_net mn.net mn) new_nets) (snapshot new_nets) m.stored
    back_late =
        let installed_new =
          applied-AllFit false new_nets m.installed (insert name n m.stored) updated in
        let weak_new =
          weaker-AllFit true new_nets (snapshot new_nets) (insert name n m.stored) installed_new in
        replaced-AllFit name mn false mn.net new_nets (insert name (with_net mn.net mn) new_nets)
          (snapshot new_nets) (insert name n m.stored) m.stored n.rules ready weak_new
          (insert-Elsewhere name (with_net mn.net mn) new_nets)
          (λ k other. sym (insert-Elsewhere name n m.stored k other))
          (lookup-insert_same name (with_net mn.net mn) new_nets) before.0
          (lookup-snapshot name new_nets
            ∙ ap rules_of (lookup-insert_same name (with_net n mn) m.nets))
          same_bridge (λ e. absurd (cc e))

    pub replace_policy-Good : GoodAfter (replace_policy faults name mn n m)
    replace_policy-Good =
        holds_if GoodAfter faults.apply _ _
          (λ works.
            holds_if GoodAfter faults.save _ _
              (λ saves. applied-AllFit false new_nets m.installed (insert name n m.stored) updated)
              (λ loses.
                holds_if Good faults.reapply _ _
                  (λ again.
                    applied-AllFit false (insert name (with_net mn.net mn) new_nets) m.installed
                      m.stored (back n))
                  (λ fails. back_late)))
          (λ fails. back n)

    pub replace_record-Good : n.rules ≡ mn.net.rules → GoodAfter (replace_record faults name mn n m)
    replace_record-Good same =
        let (kept_before, (r, (listed, bridge, right))) = before in
        holds_if GoodAfter faults.save _ _
          (λ saves.
            replaced-AllFit name mn m.rules_ok n m.nets new_nets m.installed m.stored
              (insert name n m.stored) r ready good (insert-Elsewhere name (with_net n mn) m.nets)
              (insert-Elsewhere name n m.stored) (lookup-insert_same name (with_net n mn) m.nets)
              (lookup-insert_same name n m.stored) listed (bridge ∙ sym same_bridge)
              (λ e. right e ∙ sym same))
          (λ loses. good)

  forgotten-AllFit : AllFit m.rules_ok (erase name m.nets) m.installed (erase name m.stored)
  forgotten-AllFit =
      changed-AllFit m.rules_ok name m.nets (erase name m.nets) m.installed m.stored
        (erase name m.stored) good (erase-Elsewhere name m.nets) (erase-Elsewhere name m.stored)
        (subst
          (λ o. Fits m.rules_ok o (lookup name m.installed) (lookup name (erase name m.stored)))
          (sym (lookup-erase_same name m.nets))
          (subst (Fits m.rules_ok none (lookup name m.installed))
            (sym (lookup-erase_same name m.stored)) (absent (lookup name m.installed))))

  delete_of-Good : GoodAfter (delete_of faults name (some mn) m)
  delete_of-Good =
      holds_if GoodAfter (not (is_empty mn.vms)) _ _ (λ busy. good)
        (λ idle.
          holds_if GoodAfter (not faults.bridge_down) _ _ (λ stays. good)
            (λ down.
              holds_if GoodAfter (not faults.forget) _ _ (λ remembered. good)
                (λ forgets.
                  holds_if Good faults.apply _ _
                    (λ works.
                      applied-AllFit m.rules_ok (erase name m.nets) m.installed
                        (erase name m.stored) forgotten-AllFit)
                    (λ fails.
                      weaker-AllFit m.rules_ok (erase name m.nets) m.installed (erase name m.stored)
                        forgotten-AllFit))))

-- An operation on a network that is found, from the operation on that network.
pub on_found :
    (P : Option Error × Manager → Type 0) (name : String) (m : Manager)
    (op : Option ManagedNet → Manager → Option Error × Manager)
    → P (op none m)
    → ((mn : ManagedNet) → mn.pending ≡ false → lookup name m.nets ≡ some mn → P (op (some mn) m))
    → (found : Option ManagedNet) → find_net name m ≡ found
    → P (op found m)
on_found P name m op missing there none e = missing
on_found P name m op missing there (some mn) e =
    let (found, ready) = settled-some (lookup name m.nets) mn e in there mn ready found

update_policy-Good :
    (faults : Faults) (name : String) (c : Change) (m : Manager)
    → Good m
    → GoodAfter (update_policy faults name c m)
unfolding update_policy
update_policy-Good faults name c m good =
    on_found GoodAfter name m (policy_of faults name c) good
      (λ mn ready found.
        holds_if GoodAfter (not (accepted name c m mn)) _ _ (λ wrong. good)
          (λ right.
            replace_policy-Good faults name mn m ready good found (with_rules c mn.net)
              (bridge-changed c mn.net.rules)))
      (find_net name m) refl

pub update_egress-Good :
    (faults : Faults) (valid : Bool) (name : String) (wide : Bool) (iface : String) (private : Bool)
    (ports : List PortRule) (rules : List EgressRule) (m : Manager)
    → Good m
    → GoodAfter (update_egress faults valid name wide iface private ports rules m)
update_egress-Good faults valid name wide iface private ports rules m good =
    holds_if GoodAfter (not valid) _ _ (λ invalid. good)
      (λ passed. update_policy-Good faults name (egress wide iface private ports rules) m good)

pub update_ingress-Good :
    (faults : Faults) (valid : Bool) (name : String) (rules : List IngressRule) (m : Manager)
    → Good m
    → GoodAfter (update_ingress faults valid name rules m)
update_ingress-Good faults valid name rules m good =
    holds_if GoodAfter (not valid) _ _ (λ invalid. good)
      (λ passed. update_policy-Good faults name (ingress rules) m good)

pub update_intra-Good :
    (faults : Faults) (name : String) (intra : Bool) (m : Manager)
    → Good m
    → GoodAfter (update_intra faults name intra m)
unfolding update_intra
update_intra-Good faults name intra m good =
    on_found GoodAfter name m (intra_of faults name intra) good
      (λ mn ready found.
        replace_record-Good faults name mn m ready good found (record mn.net { intra = intra }) refl
          refl)
      (find_net name m) refl

labelled-Good :
    (faults : Faults) (name : String) (mn : ManagedNet) (next : Result Labels.Error Labels)
    (m : Manager)
    → Good m
    → mn.pending ≡ false
    → lookup name m.nets ≡ some mn
    → GoodAfter (labelled faults name mn next m)
labelled-Good faults name mn (err e) m good ready found = good
labelled-Good faults name mn (ok labels) m good ready found =
    replace_record-Good faults name mn m ready good found (record mn.net { labels = labels }) refl
      refl

pub set_labels-Good :
    (faults : Faults) (name : String) (p : PatchMap) (m : Manager)
    → Good m
    → GoodAfter (set_labels faults name p m)
unfolding set_labels
set_labels-Good faults name p m good =
    on_found GoodAfter name m (labels_of faults name p) good
      (λ mn ready found. labelled-Good faults name mn (patch mn.net.labels p) m good ready found)
      (find_net name m) refl

pub delete-Good :
    (faults : Faults) (name : String) (m : Manager) → Good m → GoodAfter (delete faults name m)
unfolding delete
delete-Good faults name m good =
    on_found GoodAfter name m (delete_of faults name) good
      (λ mn ready found. delete_of-Good faults name mn m ready good found) (find_net name m) refl
