-- ===== src/Network/Manager/Created.antt =====
-- The making of a network (create of internal/network/manager.go).
use micro_hosted.Prelude.{
  ℕ, ◌≡◌, refl, sym, ap, ◌∙◌, subst, Bool, true, false, not, Option, none, some, [], String,
  holds_if, Result, ok, err, Dict, lookup, insert, erase, arith,
}
use micro_hosted.Network.Address.{Bytes}
use micro_hosted.Network.Ipam.{Subnet, parse_subnet}
use micro_hosted.Network.Ipam as Ipam
use micro_hosted.Network.SubnetPool.{Pool}
use micro_hosted.Network.SubnetPool as SubnetPool
use micro_hosted.Network.Firewall.{Net}
use micro_hosted.Network.Manager.{
  NetRecord, ManagedNet, Manager, Error, overlapping, bad_ingress, bad_subnet, Faults, snapshot,
  apply_rules, check_ingress,
}
use micro_hosted.Network.Manager.Create.{
  Request, any_overlap, refused, with_subnet, with_cidr, allocated, chosen, begin_create, ready,
  saved, finished, finish_found, finish_create, is_some, record_of,
}
use micro_hosted.Network.Manager.Installed.{
  Fits, absent, waiting, in_force, AllFit, applied-AllFit, weaker-AllFit, insert-Elsewhere,
  erase-Elsewhere, lookup-insert_same, lookup-erase_same, lookup-snapshot, changed-AllFit,
  pending_of, absent_of, rules_of,
}

abbrev pub Good : Manager → Type 0
Good m = AllFit m.rules_ok m.nets m.installed m.stored

abbrev pub GoodAfter : Option Error × Manager → Type 0
GoodAfter r = Good r.1

module _ (read : Bytes → Option (ℕ × ℕ)) (req : Request) where
  refused-Good :
      (taken : Bool) (cidr : Bytes) (e : Error) (m : Manager)
      → Good m
      → GoodAfter (refused taken cidr e m)
  refused-Good true cidr e m good = good
  refused-Good false cidr e m good = good

  with_subnet-Good :
      (taken : Bool) (cidr : Bytes) (s : Result Ipam.Error Subnet) (m : Manager)
      → lookup req.name m.nets ≡ none
      → Good m
      → GoodAfter (with_subnet req taken cidr s m)
  with_subnet-Good taken cidr (err e) m free good = refused-Good taken cidr bad_subnet m good
  with_subnet-Good taken cidr (ok s) m free good =
      holds_if GoodAfter (any_overlap s m.nets) _ _
        (λ clash. refused-Good taken cidr overlapping m good)
        (λ apart.
          holds_if GoodAfter (not (check_ingress req.name s req.policy.allowed_ingress m.nets)) _ _
            (λ wrong. refused-Good taken cidr bad_ingress m good)
            (λ right.
              let mn : ManagedNet = record {
                net = record_of req cidr s;
                subnet = s;
                vms = [];
                pending = true;
              } in
              let unkept =
                absent_of m.rules_ok (lookup req.name m.nets) (lookup req.name m.installed)
                  (lookup req.name m.stored) (good req.name) free in
              changed-AllFit m.rules_ok req.name m.nets (insert req.name mn m.nets) m.installed
                m.stored m.stored good (insert-Elsewhere req.name mn m.nets) (λ n other. refl)
                (subst
                  (λ o. Fits m.rules_ok o (lookup req.name m.installed) (lookup req.name m.stored))
                  (sym (lookup-insert_same req.name mn m.nets))
                  (subst (λ k. Fits m.rules_ok (some mn) (lookup req.name m.installed) k)
                    (sym unkept) (waiting mn (lookup req.name m.installed) refl refl)))))

  with_cidr-Good :
      (taken : Bool) (cidr : Bytes) (range : Option (ℕ × ℕ)) (m : Manager)
      → lookup req.name m.nets ≡ none
      → Good m
      → GoodAfter (with_cidr read req taken cidr range m)
  with_cidr-Good taken cidr none m free good = refused-Good taken cidr bad_subnet m good
  with_cidr-Good taken cidr (some (base, prefix)) m free good =
      with_subnet-Good taken cidr (parse_subnet base prefix) m free good

  allocated-Good :
      (got : Result SubnetPool.Exhausted Bytes × Pool) (m : Manager)
      → lookup req.name m.nets ≡ none
      → Good m
      → GoodAfter (allocated read req got m)
  allocated-Good (err e, pool) m free good = good
  allocated-Good (ok cidr, pool) m free good =
      with_cidr-Good true cidr (read cidr) (record m { pool = pool }) free good

  chosen-Good :
      (cidr : Option Bytes) (m : Manager)
      → lookup req.name m.nets ≡ none
      → Good m
      → GoodAfter (chosen read req cidr m)
  chosen-Good none m free good = allocated-Good (SubnetPool.allocate m.pool) m free good
  chosen-Good (some cidr) m free good = with_cidr-Good false cidr (read cidr) m free good

  pub begin_create-Good :
      (valid : Bool) (m : Manager) → Good m → GoodAfter (begin_create read valid req m)
  unfolding begin_create
  begin_create-Good valid m good =
      holds_if GoodAfter (not valid) _ _ (λ invalid. good)
        (λ passed.
          holds_if GoodAfter (is_some (lookup req.name m.nets)) _ _ (λ exists. good)
            (λ free. chosen-Good req.cidr m (ground (arith, free)) good))

module _ (faults : Faults) (name : String) (mn : ManagedNet) where
  -- A rollback, whatever ruleset is in force.
  gone :
      (works : Bool) (nets : Dict ManagedNet) (installed : Dict Net) (stored : Dict NetRecord)
      → AllFit works nets installed stored
      → lookup name nets ≡ some mn
      → mn.pending ≡ true
      → AllFit works (erase name nets) installed stored
  gone works nets installed stored fit found waits =
      changed-AllFit works name nets (erase name nets) installed stored stored fit
        (erase-Elsewhere name nets) (λ n other. refl)
        (subst (λ o. Fits works o (lookup name installed) (lookup name stored))
          (sym (lookup-erase_same name nets))
          (subst (Fits works none (lookup name installed))
            (sym
              (pending_of works mn (lookup name nets) (lookup name installed) (lookup name stored)
                (fit name) found waits).0)
            (absent (lookup name installed))))

  saved-Good :
      (m : Manager)
      → AllFit true m.nets (snapshot m.nets) m.stored
      → lookup name m.nets ≡ some mn
      → mn.pending ≡ true
      → GoodAfter (saved faults name mn (apply_rules true m))
  saved-Good m fit found waits =
      holds_if GoodAfter faults.save _ _
        (λ kept.
          changed-AllFit true name m.nets (insert name (ready mn) m.nets) (snapshot m.nets) m.stored
            (insert name mn.net m.stored) fit (insert-Elsewhere name (ready mn) m.nets)
            (insert-Elsewhere name mn.net m.stored)
            (subst
              (λ o.
                Fits true o (lookup name (snapshot m.nets))
                  (lookup name (insert name mn.net m.stored)))
              (sym (lookup-insert_same name (ready mn) m.nets))
              (subst (Fits true (some (ready mn)) (lookup name (snapshot m.nets)))
                (sym (lookup-insert_same name mn.net m.stored))
                (subst (λ i. Fits true (some (ready mn)) i (some mn.net))
                  (sym (lookup-snapshot name m.nets ∙ ap rules_of found))
                  (in_force (ready mn) mn.net.rules refl refl (λ e. refl))))))
        (λ lost.
          let rolled = gone true m.nets (snapshot m.nets) m.stored fit found waits in
          holds_if Good faults.reapply _ _
            (λ again. applied-AllFit true (erase name m.nets) (snapshot m.nets) m.stored rolled)
            (λ fails. weaker-AllFit true (erase name m.nets) (snapshot m.nets) m.stored rolled))

  finished-Good :
      (m : Manager)
      → Good m
      → lookup name m.nets ≡ some mn
      → mn.pending ≡ true
      → GoodAfter (finished faults name mn m)
  finished-Good m good found waits =
      holds_if GoodAfter (not faults.bridge_up) _ _
        (λ no_bridge. gone m.rules_ok m.nets m.installed m.stored good found waits)
        (λ bridge.
          holds_if GoodAfter faults.apply _ _
            (λ works.
              saved-Good m (applied-AllFit m.rules_ok m.nets m.installed m.stored good) found waits)
            (λ fails.
              gone false m.nets m.installed m.stored
                (weaker-AllFit m.rules_ok m.nets m.installed m.stored good) found waits))

finish_found-Good :
    (faults : Faults) (name : String) (found : Option ManagedNet) (m : Manager)
    → Good m
    → lookup name m.nets ≡ found
    → GoodAfter (finish_found faults name found m)
finish_found-Good faults name none m good e = good
finish_found-Good faults name (some mn) m good e =
    holds_if GoodAfter mn.pending _ _ (λ waits. finished-Good faults name mn m good e waits)
      (λ settled. good)

pub finish_create-Good :
    (faults : Faults) (name : String) (m : Manager)
    → Good m
    → GoodAfter (finish_create faults name m)
unfolding finish_create
finish_create-Good faults name m good =
    finish_found-Good faults name (lookup name m.nets) m good refl
