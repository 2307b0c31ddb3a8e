-- ===== src/Network/Manager/Unshared.antt =====
-- No operation of internal/network/manager.go makes two networks let in one packet of a device.
use micro_hosted.Prelude.{
  ℕ, ◌≡◌, refl, Bool, true, false, not, Option, none, some, [], String, holds_if, Result, ok, err,
  lookup, insert, arith,
}
use micro_hosted.Labels.{Labels, patch, PatchMap}
use micro_hosted.Labels as Labels
use micro_hosted.Network.Address.{Bytes}
use micro_hosted.Network.Ipam.{
  Subnet, parse_subnet, allocate_avoiding, reserve_exclusive, check_guest_ip,
}
use micro_hosted.Network.Ipam as Ipam
use micro_hosted.Network.SubnetPool.{Pool}
use micro_hosted.Network.SubnetPool as SubnetPool
use micro_hosted.Network.Manager.{
  NetRecord, ManagedNet, Manager, Error, Faults, Change, egress, ingress, check_ingress, bad_subnet,
  overlapping, bad_ingress, with_net,
}
use micro_hosted.Network.Manager.Create.{
  Request, any_overlap, record_of, is_some, refused, with_subnet, with_cidr, allocated, chosen,
  begin_create, ready, finished,
}
use micro_hosted.Network.Manager.Update.{
  replace_policy, with_rules, policy_of, replace_record, labelled, delete_of, is_empty,
}
use micro_hosted.Network.Manager.Installed.{insert-Elsewhere}
use micro_hosted.Network.Manager.Apart.{
  Away, Apart, check_ingress-Away, Away-Elsewhere, insert-Apart, erase-Apart, same-Apart,
}

abbrev pub Unshared : Manager → Type 0
Unshared m = Apart m.nets

abbrev pub UnsharedAfter : Option Error × Manager → Type 0
UnsharedAfter r = Unshared r.1

module _ (read : Bytes → Option (ℕ × ℕ)) (req : Request) where
  refused-Unshared :
      (taken : Bool) (cidr : Bytes) (e : Error) (m : Manager)
      → Unshared m
      → UnsharedAfter (refused taken cidr e m)
  refused-Unshared true cidr e m apart = apart
  refused-Unshared false cidr e m apart = apart

  with_subnet-Unshared :
      (taken : Bool) (cidr : Bytes) (s : Result Ipam.Error Subnet) (m : Manager)
      → Unshared m
      → UnsharedAfter (with_subnet req taken cidr s m)
  with_subnet-Unshared taken cidr (err e) m apart = refused-Unshared taken cidr bad_subnet m apart
  with_subnet-Unshared taken cidr (ok s) m apart =
      let mn : ManagedNet = record {
        net = record_of req cidr s;
        subnet = s;
        vms = [];
        pending = true;
      } in
      holds_if UnsharedAfter (any_overlap s m.nets) _ _
        (λ clash. refused-Unshared taken cidr overlapping m apart)
        (λ free.
          holds_if UnsharedAfter (not (check_ingress req.name s req.policy.allowed_ingress m.nets))
            _ _ (λ wrong. refused-Unshared taken cidr bad_ingress m apart)
            (λ right.
              insert-Apart req.name mn m.nets
                (check_ingress-Away req.name s req.policy.allowed_ingress m.nets
                  (ground (arith, right)))
                apart))

  with_cidr-Unshared :
      (taken : Bool) (cidr : Bytes) (range : Option (ℕ × ℕ)) (m : Manager)
      → Unshared m
      → UnsharedAfter (with_cidr read req taken cidr range m)
  with_cidr-Unshared taken cidr none m apart = refused-Unshared taken cidr bad_subnet m apart
  with_cidr-Unshared taken cidr (some (base, prefix)) m apart =
      with_subnet-Unshared taken cidr (parse_subnet base prefix) m apart

  allocated-Unshared :
      (got : Result SubnetPool.Exhausted Bytes × Pool) (m : Manager)
      → Unshared m
      → UnsharedAfter (allocated read req got m)
  allocated-Unshared (err e, pool) m apart = apart
  allocated-Unshared (ok cidr, pool) m apart =
      with_cidr-Unshared true cidr (read cidr) (record m { pool = pool }) apart

  chosen-Unshared :
      (cidr : Option Bytes) (m : Manager) → Unshared m → UnsharedAfter (chosen read req cidr m)
  chosen-Unshared none m apart = allocated-Unshared (SubnetPool.allocate m.pool) m apart
  chosen-Unshared (some cidr) m apart = with_cidr-Unshared false cidr (read cidr) m apart

  pub begin_create-Unshared :
      (valid : Bool) (m : Manager) → Unshared m → UnsharedAfter (begin_create read valid req m)
  unfolding begin_create
  begin_create-Unshared valid m apart =
      holds_if UnsharedAfter (not valid) _ _ (λ invalid. apart)
        (λ passed.
          holds_if UnsharedAfter (is_some (lookup req.name m.nets)) _ _ (λ exists. apart)
            (λ free. chosen-Unshared req.cidr m apart))

-- A step on a network that is found.
module _ (faults : Faults) (name : String) (mn : ManagedNet) (m : Manager) (apart : Unshared m)
    (found : lookup name m.nets ≡ some mn) where
  pub finished-Unshared : UnsharedAfter (finished faults name mn m)
  finished-Unshared =
      let gone = erase-Apart name m.nets apart in
      holds_if UnsharedAfter (not faults.bridge_up) _ _ (λ dark. gone)
        (λ bridge.
          holds_if UnsharedAfter faults.apply _ _
            (λ works.
              holds_if UnsharedAfter faults.save _ _
                (λ saves. same-Apart name mn (ready mn) m.nets found refl apart)
                (λ loses. holds_if Unshared faults.reapply _ _ (λ again. gone) (λ fails. gone)))
            (λ fails. gone))

  replaced-Unshared :
      (n : NetRecord)
      → Away name n.rules.allowed_ingress m.nets
      → UnsharedAfter (replace_policy faults name mn n m)
  replaced-Unshared n away =
      let set : Apart (insert name (with_net n mn) m.nets) =
        insert-Apart name (with_net n mn) m.nets away apart in
      let back : Apart (insert name (with_net mn.net mn) (insert name (with_net n mn) m.nets)) =
        insert-Apart name (with_net mn.net mn) (insert name (with_net n mn) m.nets)
          (Away-Elsewhere name mn.net.rules.allowed_ingress m.nets
            (insert name (with_net n mn) m.nets) (insert-Elsewhere name (with_net n mn) m.nets)
            (apart name mn found))
          set in
      holds_if UnsharedAfter faults.apply _ _
        (λ works.
          holds_if UnsharedAfter faults.save _ _ (λ saves. set)
            (λ loses. holds_if Unshared faults.reapply _ _ (λ again. back) (λ fails. back)))
        (λ fails. back)

  pub policy-Unshared : (c : Change) → UnsharedAfter (policy_of faults name c (some mn) m)
  policy-Unshared (egress wide iface private ports rules) =
      replaced-Unshared (with_rules (egress wide iface private ports rules) mn.net)
        (apart name mn found)
  policy-Unshared (ingress rules) =
      holds_if UnsharedAfter (not (check_ingress name mn.subnet rules m.nets)) _ _ (λ wrong. apart)
        (λ right.
          replaced-Unshared (with_rules (ingress rules) mn.net)
            (check_ingress-Away name mn.subnet rules m.nets (ground (arith, right))))

  pub recorded-Unshared :
      (n : NetRecord)
      → mn.net.rules.allowed_ingress ≡ n.rules.allowed_ingress
      → UnsharedAfter (replace_record faults name mn n m)
  recorded-Unshared n same =
      holds_if UnsharedAfter faults.save _ _
        (λ saves. same-Apart name mn (with_net n mn) m.nets found same apart) (λ loses. apart)

  pub labelled-Unshared :
      (next : Result Labels.Error Labels) → UnsharedAfter (labelled faults name mn next m)
  labelled-Unshared (err e) = apart
  labelled-Unshared (ok labels) = recorded-Unshared (record mn.net { labels = labels }) refl

  pub deleted-Unshared : UnsharedAfter (delete_of faults name (some mn) m)
  deleted-Unshared =
      let gone = erase-Apart name m.nets apart in
      holds_if UnsharedAfter (not (is_empty mn.vms)) _ _ (λ busy. apart)
        (λ idle.
          holds_if UnsharedAfter (not faults.bridge_down) _ _ (λ stays. apart)
            (λ down.
              holds_if UnsharedAfter (not faults.forget) _ _ (λ remembered. apart)
                (λ forgets. holds_if Unshared faults.apply _ _ (λ works. gone) (λ fails. gone))))
