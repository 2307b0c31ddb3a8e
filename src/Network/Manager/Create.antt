-- ===== src/Network/Manager/Create.antt =====
-- The making of a network (create of internal/network/manager.go), in its two steps.
use micro_hosted.Prelude.{
  ℕ, Bool, true, false, not, ◌||◌, Option, none, some, [], ◌∷◌, String, if◌then◌else◌, Result, ok,
  err, Dict, lookup, insert, erase,
}
use micro_hosted.Labels.{Labels}
use micro_hosted.Network.Address.{Bytes}
use micro_hosted.Network.Ipam.{
  Subnet, parse_subnet, allocate_avoiding, reserve_exclusive, check_guest_ip, overlaps,
}
use micro_hosted.Network.Ipam as Ipam
use micro_hosted.Network.SubnetPool.{Pool, bytes_eq}
use micro_hosted.Network.SubnetPool as SubnetPool
use micro_hosted.Network.Firewall.{Net}
use micro_hosted.Network.Manager.{
  NetRecord, ManagedNet, Manager, Error, Faults, apply_rules, check_ingress, rejected, exists,
  bad_subnet, overlapping, bad_ingress, not_found, exhausted, host, store_failed,
}

-- A request; `bridge` is BridgePrefix with the fresh id.
pub record Request : Type 0 where
  pub name : String
  pub bridge : String
  pub cidr : Option Bytes
  pub policy : Net
  pub labels : Labels
  pub intra : Bool

unfoldable pub any_overlap : Subnet → Dict ManagedNet → Bool
any_overlap s [] = false
any_overlap s ((name, mn) ∷ nets) = overlaps mn.subnet s || any_overlap s nets

abbrev pub record_of : Request → Bytes → Subnet → NetRecord
record_of req cidr s = record {
  name = req.name;
  cidr = cidr;
  labels = req.labels;
  intra = req.intra;
  rules = record req.policy {
    bridge = req.bridge;
    subnet = record { low = s.base; high = s.bcast };
  };
}

abbrev pub refused : Bool → Bytes → Error → Manager → Option Error × Manager
refused allocated cidr e m =
    (some e, if allocated then record m { pool = SubnetPool.release cidr m.pool } else m)

abbrev pub with_subnet :
    Request → Bool → Bytes → Result Ipam.Error Subnet → Manager → Option Error × Manager
with_subnet req allocated cidr (err e) m = refused allocated cidr bad_subnet m
with_subnet req allocated cidr (ok s) m =
    if any_overlap s m.nets
    then refused allocated cidr overlapping m
    else if not (check_ingress req.name s req.policy.allowed_ingress m.nets)
    then refused allocated cidr bad_ingress m
    else (
      none,
      record m {
        pool = SubnetPool.reserve cidr m.pool;
        nets =
            insert req.name
              (record { net = record_of req cidr s; subnet = s; vms = []; pending = true }) m.nets;
      },
    )

-- `read` is net.ParseCIDR on the text.
abbrev pub with_cidr :
    (Bytes → Option (ℕ × ℕ))
    → Request
    → Bool
    → Bytes
    → Option (ℕ × ℕ)
    → Manager
    → Option Error × Manager
with_cidr read req allocated cidr none m = refused allocated cidr bad_subnet m
with_cidr read req allocated cidr (some (base, prefix)) m =
    with_subnet req allocated cidr (parse_subnet base prefix) m

abbrev pub allocated :
    (Bytes → Option (ℕ × ℕ))
    → Request
    → Result SubnetPool.Exhausted Bytes × Pool
    → Manager
    → Option Error × Manager
allocated read req (err e, pool) m = (some exhausted, record m { pool = pool })
allocated read req (ok cidr, pool) m =
    with_cidr read req true cidr (read cidr) (record m { pool = pool })

abbrev pub chosen :
    (Bytes → Option (ℕ × ℕ)) → Request → Option Bytes → Manager → Option Error × Manager
chosen read req none m = allocated read req (SubnetPool.allocate m.pool) m
chosen read req (some cidr) m = with_cidr read req false cidr (read cidr) m

abbrev pub is_some {ℓ} : {A : Type ℓ} → Option A → Bool
is_some none = false
is_some (some _) = true

-- `create` up to the pending network; `valid` is what the validators of the request say, and
-- whether it has a subnet if it has ingress rules.
unfoldable pub begin_create :
    (Bytes → Option (ℕ × ℕ)) → Bool → Request → Manager → Option Error × Manager
begin_create read valid req m =
    if not valid
    then (some rejected, m)
    else if is_some (lookup req.name m.nets)
    then (some exists, m)
    else chosen read req req.cidr m

-- The rollback of a create, without its bridge.
abbrev pub rollback : String → ManagedNet → Manager → Manager
rollback name mn m = record m {
  nets = erase name m.nets;
  pool = SubnetPool.release mn.net.cidr m.pool;
}

abbrev pub ready : ManagedNet → ManagedNet
ready mn = record mn { pending = false }

abbrev pub saved : Faults → String → ManagedNet → Manager → Option Error × Manager
saved faults name mn m =
    if faults.save
    then (
      none,
      record m { stored = insert name mn.net m.stored; nets = insert name (ready mn) m.nets },
    )
    else (some store_failed, apply_rules faults.reapply (rollback name mn m))

-- `create` from the bridge on.
abbrev pub finished : Faults → String → ManagedNet → Manager → Option Error × Manager
finished faults name mn m =
    if not faults.bridge_up
    then (some host, rollback name mn m)
    else if faults.apply
    then saved faults name mn (apply_rules true m)
    else (some host, rollback name mn (apply_rules false m))

abbrev pub finish_found : Faults → String → Option ManagedNet → Manager → Option Error × Manager
finish_found faults name none m = (some not_found, m)
finish_found faults name (some mn) m =
    if mn.pending then finished faults name mn m else (some exists, m)

unfoldable pub finish_create : Faults → String → Manager → Option Error × Manager
finish_create faults name m = finish_found faults name (lookup name m.nets) m
