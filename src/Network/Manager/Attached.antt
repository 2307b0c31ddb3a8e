-- ===== src/Network/Manager/Attached.antt =====
-- A machine that comes or goes leaves its network where it was (AttachVM, ClaimVM and DetachVM of
-- internal/network/manager.go).
use micro_hosted.Prelude.{
  ◌≡◌, refl, sym, ap, ◌∙◌, subst, Bool, true, false, not, Option, none, some, [], String, holds_if,
  Result, ok, err, Dict, lookup, insert, erase, arith,
}
use micro_hosted.Network.Address.{Bytes}
use micro_hosted.Network.Ipam.{Subnet, allocate_avoiding, reserve_exclusive, check_guest_ip}
use micro_hosted.Network.Ipam as Ipam
use micro_hosted.Network.Firewall.{Net}
use micro_hosted.Network.Manager.{NetRecord, ManagedNet, Manager, is_guest}
use micro_hosted.Network.Manager.Update.{find_net}
use micro_hosted.Network.Manager.Attach.{
  pinned, attach, claim, detach, leased, with_lease, pinned_or_undone, granted, reserved, claim_on,
  attach_to, detached,
}
use micro_hosted.Network.Manager.Installed.{
  Fits, absent, waiting, in_force, AllFit, insert-Elsewhere, lookup-insert_same, changed-AllFit,
  pending_of,
}
use micro_hosted.Network.Manager.Created.{Good, GoodAfter}
use micro_hosted.Network.Manager.Updated.{on_found}

-- Other addresses and machines; a network that waits has none of them.
relet :
    (works : Bool) (s : Subnet) (vms : Dict String) (mn : ManagedNet) (found : Option ManagedNet)
    (listed : Option Net) (kept : Option NetRecord)
    → Fits works found listed kept
    → found ≡ some mn
    → (mn.pending ≡ true → vms ≡ [])
    → Fits works (some (with_lease s vms mn)) listed kept
relet works s vms mn _ _ _ (absent listed) found alone = absurd (cc found)
relet works s vms mn _ _ _ (waiting mn' listed pending none_on) found alone =
    let e : mn' ≡ mn = cc found in
    let waits = sym (ap (λ x. x.pending) e) ∙ pending in
    waiting (with_lease s vms mn) listed waits (alone waits)
relet works s vms mn _ _ _ (in_force mn' r settled same right) found alone =
    let e : mn' ≡ mn = cc found in
    subst (λ n. Fits works (some (with_lease s vms mn)) (some r) (some n)) (sym (ap (λ x. x.net) e))
      (in_force (with_lease s vms mn) r (sym (ap (λ x. x.pending) e) ∙ settled)
        (same ∙ ap (λ x. x.net.rules.bridge) e) (λ w. right w ∙ ap (λ x. x.net.rules) e))

relet-AllFit :
    (name : String) (s : Subnet) (vms : Dict String) (mn : ManagedNet) (m : Manager)
    → Good m
    → lookup name m.nets ≡ some mn
    → (mn.pending ≡ true → vms ≡ [])
    → AllFit m.rules_ok (insert name (with_lease s vms mn) m.nets) m.installed m.stored
relet-AllFit name s vms mn m good found alone =
    changed-AllFit m.rules_ok name m.nets (insert name (with_lease s vms mn) m.nets) m.installed
      m.stored m.stored good (insert-Elsewhere name (with_lease s vms mn) m.nets) (λ n other. refl)
      (subst (λ o. Fits m.rules_ok o (lookup name m.installed) (lookup name m.stored))
        (sym (lookup-insert_same name (with_lease s vms mn) m.nets))
        (relet m.rules_ok s vms mn (lookup name m.nets) (lookup name m.installed)
          (lookup name m.stored) (good name) found alone))

erase-empty : (vm : String) (vms : Dict String) → vms ≡ [] → erase vm vms ≡ []
unfolding erase
erase-empty vm vms e = ap (erase vm) e

detached-Good :
    (name vm : String) (found : Option ManagedNet) (ports : Bool) (m : Manager)
    → Good m
    → lookup name m.nets ≡ found
    → Good (detached name vm found ports m)
detached-Good name vm none ports m good e = good
detached-Good name vm (some mn) ports m good e =
    relet-AllFit name (Ipam.release vm mn.subnet) (erase vm mn.vms) mn m good e (λ waits.
      erase-empty vm mn.vms
        (pending_of m.rules_ok mn (lookup name m.nets) (lookup name m.installed)
          (lookup name m.stored) (good name) e waits).1)

pub detach-Good :
    (name vm : String) (ports : Bool) (m : Manager) → Good m → Good (detach name vm ports m)
unfolding detach
detach-Good name vm ports m good = detached-Good name vm (lookup name m.nets) ports m good refl

pinned_or_undone-Good :
    (name vm : String) (ports again : Bool) (m : Manager)
    → Good m
    → GoodAfter (pinned_or_undone name vm ports again m)
pinned_or_undone-Good name vm true again m good = good
pinned_or_undone-Good name vm false again m good =
    detach-Good name vm again (record m { ports_ok = false }) good

module _ (name vm tap : String) (ports again : Bool) (mn : ManagedNet) (m : Manager) (good : Good m)
    (found : lookup name m.nets ≡ some mn) (ready : mn.pending ≡ false) where
  leased-Good : (s : Subnet) → Good (leased name vm tap mn s m)
  leased-Good s =
      relet-AllFit name s (insert vm tap mn.vms) mn m good found
        (λ waits. absurd (ground (arith, waits, ready)))

  granted-Good :
      (got : Result Ipam.Error Bytes × Subnet)
      → GoodAfter (granted name vm tap ports again mn got m)
  granted-Good (err e, s) = good
  granted-Good (ok ip, s) =
      pinned_or_undone-Good name vm ports again (leased name vm tap mn s m) (leased-Good s)

  reserved-Good :
      (got : Result Ipam.Error (Unit {0}) × Subnet)
      → GoodAfter (reserved name vm tap ports again mn got m)
  reserved-Good (err e, s) = good
  reserved-Good (ok u, s) =
      pinned_or_undone-Good name vm ports again (leased name vm tap mn s m) (leased-Good s)

pub attach-Good :
    (name vm tap : String) (ports again : Bool) (m : Manager)
    → Good m
    → GoodAfter (attach name vm tap ports again m)
unfolding attach
attach-Good name vm tap ports again m good =
    on_found GoodAfter name m (attach_to name vm tap ports again) good
      (λ mn ready found.
        granted-Good name vm tap ports again mn m good found ready
          (allocate_avoiding vm (pinned mn.net.rules.allowed_ingress) mn.subnet))
      (find_net name m) refl

pub claim-Good :
    (name vm : String) (ip : Bytes) (tap : String) (ports again : Bool) (m : Manager)
    → Good m
    → GoodAfter (claim name vm ip tap ports again m)
unfolding claim
claim-Good name vm ip tap ports again m good =
    on_found GoodAfter name m (claim_on name vm ip tap ports again) good
      (λ mn ready found.
        holds_if GoodAfter (not (is_guest (check_guest_ip ip mn.subnet))) _ _ (λ other. good)
          (λ guest.
            reserved-Good name vm tap ports again mn m good found ready
              (reserve_exclusive vm ip mn.subnet)))
      (find_net name m) refl
