-- ===== src/Network/Manager/Attach.antt =====
-- Machines on a network (AttachVM, ClaimVM and DetachVM of internal/network/manager.go). `ports`
-- says whether the port filter could be installed.
use micro_hosted.Prelude.{
  Bool, true, false, not, ◌||◌, Option, none, some, List, [], ◌∷◌, String, if◌then◌else◌, Result,
  ok, err, Dict, lookup, insert, erase,
}
use micro_hosted.Network.Address.{Bytes, ip_text}
use micro_hosted.Network.Ipam.{Subnet, allocate_avoiding, reserve_exclusive, check_guest_ip}
use micro_hosted.Network.Ipam as Ipam
use micro_hosted.Network.SubnetPool.{bytes_eq}
use micro_hosted.Network.Firewall.{IngressRule}
use micro_hosted.Network.Manager.{
  ManagedNet, Manager, Error, is_guest, not_found, address, ports_failed,
}
use micro_hosted.Network.Manager.Update.{find_net}

-- `pinnedIPs`, as its test.
unfoldable pub pinned : List IngressRule → Bytes → Bool
pinned [] ip = false
pinned (r ∷ rs) ip = bytes_eq (ip_text r.to_ip) ip || pinned rs ip

abbrev pub with_lease : Subnet → Dict String → ManagedNet → ManagedNet
with_lease s vms mn = record mn { subnet = s; vms = vms }

abbrev pub detached : String → String → Option ManagedNet → Bool → Manager → Manager
detached name vm none ports m = m
detached name vm (some mn) ports m = record m {
  nets = insert name (with_lease (Ipam.release vm mn.subnet) (erase vm mn.vms) mn) m.nets;
  ports_ok = ports;
}

-- `DetachVM`.
unfoldable pub detach : String → String → Bool → Manager → Manager
detach name vm ports m = detached name vm (lookup name m.nets) ports m

-- The port filter with the new lease, or the lease undone.
abbrev pub pinned_or_undone : String → String → Bool → Bool → Manager → Option Error × Manager
pinned_or_undone name vm ports again m =
    if ports
    then (none, record m { ports_ok = true })
    else (some ports_failed, detach name vm again (record m { ports_ok = false }))

abbrev pub leased : String → String → String → ManagedNet → Subnet → Manager → Manager
leased name vm tap mn s m = record m {
  nets = insert name (with_lease s (insert vm tap mn.vms) mn) m.nets;
}

abbrev pub granted :
    String
    → String
    → String
    → Bool
    → Bool
    → ManagedNet
    → Result Ipam.Error Bytes × Subnet
    → Manager
    → Option Error × Manager
granted name vm tap ports again mn (err e, s) m = (some (address e), m)
granted name vm tap ports again mn (ok ip, s) m =
    pinned_or_undone name vm ports again (leased name vm tap mn s m)

abbrev pub attach_to :
    String → String → String → Bool → Bool → Option ManagedNet → Manager → Option Error × Manager
attach_to name vm tap ports again none m = (some not_found, m)
attach_to name vm tap ports again (some mn) m =
    granted name vm tap ports again mn
      (allocate_avoiding vm (pinned mn.net.rules.allowed_ingress) mn.subnet) m

-- `AttachVM`; `again` is the install after an undone lease.
unfoldable pub attach : String → String → String → Bool → Bool → Manager → Option Error × Manager
attach name vm tap ports again m = attach_to name vm tap ports again (find_net name m) m

abbrev pub reserved :
    String
    → String
    → String
    → Bool
    → Bool
    → ManagedNet
    → Result Ipam.Error (Unit {0}) × Subnet
    → Manager
    → Option Error × Manager
reserved name vm tap ports again mn (err e, s) m = (some (address e), m)
reserved name vm tap ports again mn (ok u, s) m =
    pinned_or_undone name vm ports again (leased name vm tap mn s m)

abbrev pub claim_on :
    String
    → String
    → Bytes
    → String
    → Bool
    → Bool
    → Option ManagedNet
    → Manager
    → Option Error × Manager
claim_on name vm ip tap ports again none m = (some not_found, m)
claim_on name vm ip tap ports again (some mn) m =
    if not (is_guest (check_guest_ip ip mn.subnet))
    then (some (address Ipam.not_a_guest), m)
    else reserved name vm tap ports again mn (reserve_exclusive vm ip mn.subnet) m

-- `ClaimVM`.
unfoldable pub claim :
    String → String → Bytes → String → Bool → Bool → Manager → Option Error × Manager
claim name vm ip tap ports again m = claim_on name vm ip tap ports again (find_net name m) m
