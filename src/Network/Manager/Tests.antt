-- ===== src/Network/Manager/Tests.antt =====
-- A run of the manager: a network is made, a machine attaches, and a change of the policy is taken
-- back.
use micro_hosted.Prelude.{
  ℕ, ◌*◌, ◌+◌, ◌^◌, ◌≡◌, refl, ◌⊎◌, true, false, Option, none, some, [], ◌∷◌, codes, if◌then◌else◌,
  lookup, insert,
}
use micro_hosted.Network.Address.{Bytes, ip_text, parse_ip}
use micro_hosted.Network.Ipam.{
  parse_subnet, new_subnet, allocate_avoiding, first_free, check_guest_ip, overlaps,
}
use micro_hosted.Network.SubnetPool.{bytes_eq, new_pool}
use micro_hosted.Network.Firewall.{Net, IngressRule, Packet, tcp}
use micro_hosted.Network.Clash.{ingress_clash, lets_in}
use micro_hosted.Network.Manager.Ingress.{ingress_unshared}
use micro_hosted.Network.Manager.{
  ManagedNet, Manager, Faults, Error, host, snapshot, check_ingress, clashes, clashes_in,
  bad_ingress,
}
use micro_hosted.Network.Manager.Create.{
  Request, record_of, any_overlap, begin_create, finish_create,
}
use micro_hosted.Network.Manager.Update.{update_policy, update_egress, update_ingress}
use micro_hosted.Network.Manager.Attach.{attach, pinned}
use micro_hosted.Network.Manager.Reach.{
  Reach, start, after, creates, finishes, attaches, egresses, ingresses, started, InForce, Waits,
  Reach-InForce,
}

abbrev web_cidr : Bytes
web_cidr = codes "10.0.0.0/29"

abbrev read_web : Bytes → Option (ℕ × ℕ)
read_web cidr = if bytes_eq cidr web_cidr then some (10 * 2 ^ 24, 29) else none

abbrev closed : Net
closed = record {
  bridge = "";
  subnet = record { low = 0; high = 0 };
  egress = false;
  egress_iface = "";
  egress_private = false;
  egress_ports = [];
  allowed_egress = [];
  allowed_ingress = [];
}

abbrev asked : Request
asked = record {
  name = "web";
  bridge = "mhbr1";
  cidr = some web_cidr;
  policy = closed;
  labels = [];
  intra = false;
}

abbrev all_well : Faults
all_well = record {
  bridge_up = true;
  apply = true;
  save = true;
  reapply = true;
  bridge_down = true;
  forget = true;
}

abbrev nft_fails : Faults
nft_fails = record all_well { apply = false }

abbrev first : Manager
first = started (new_pool) [] true

abbrev pending_web : Manager
pending_web = (begin_create read_web true asked first).1

abbrev made_web : Manager
made_web = (finish_create all_well "web" pending_web).1

abbrev one_machine : Manager
one_machine = (attach "web" "vm1" "tap1" true true made_web).1

abbrev refused_change : Option Error × Manager
refused_change = update_egress nft_fails true "web" true "" false [] [] one_machine

abbrev web : ManagedNet
web = record {
  net = record_of asked web_cidr (new_subnet (10 * 2 ^ 24) 29);
  subnet = (allocate_avoiding "vm1" (pinned []) (new_subnet (10 * 2 ^ 24) 29)).1;
  vms = ("vm1", "tap1") ∷ [];
  pending = false;
}

change_fails : (refused_change.0 ≡ some host) × (lookup "web" refused_change.1.nets ≡ some web)
unfolding begin_create finish_create attach update_policy lookup insert any_overlap parse_subnet
    new_subnet allocate_avoiding first_free snapshot pinned bytes_eq check_ingress
change_fails = (refl, refl)

refused_change-Reach : Reach refused_change.1
refused_change-Reach =
    after one_machine refused_change.1
      (after made_web one_machine
        (after pending_web made_web
          (after first pending_web (start new_pool [] true) (creates read_web true asked))
          (finishes all_well "web"))
        (attaches "web" "vm1" "tap1" true true))
      (egresses nft_fails true "web" true "" false [] [])

-- The change was taken back, and the bridge with its machine is still in force.
Reach-InForce_example :
    ((web.pending ≡ false) × InForce refused_change.1 "web" web)
    ⊎ ((web.pending ≡ true) × Waits refused_change.1 "web" web)
Reach-InForce_example = Reach-InForce refused_change.1 "web" web refused_change-Reach change_fails.1

-- Two networks that take connections of the same devices, on two ports.
abbrev from_camera : ℕ → ℕ → IngressRule
from_camera port guest = record {
  iface = "eth1";
  src_ip = record { low = 100; high = 200 };
  proto = tcp;
  port = port;
  to_ip = guest;
}

abbrev recorder : Request
recorder = record {
  name = "rec";
  bridge = "mhbr2";
  cidr = some (codes "10.1.0.0/29");
  labels = [];
  intra = false;
  policy = record closed { allowed_ingress = from_camera 554 (10 * 2 ^ 24 + 2 ^ 16 + 2) ∷ [] };
}

abbrev read_both : Bytes → Option (ℕ × ℕ)
read_both cidr =
    if bytes_eq cidr web_cidr
    then some (10 * 2 ^ 24, 29)
    else if bytes_eq cidr (codes "10.1.0.0/29")
    then some (10 * 2 ^ 24 + 2 ^ 16, 29)
    else none

abbrev two_nets : Manager
two_nets = (begin_create read_both true recorder made_web).1

abbrev opened : Option Error × Manager
opened = update_ingress all_well true "web" (from_camera 80 (10 * 2 ^ 24 + 2) ∷ []) two_nets

abbrev clashing : Option Error × Manager
clashing = update_ingress all_well true "web" (from_camera 554 (10 * 2 ^ 24 + 2) ∷ []) two_nets

abbrev web_open : ManagedNet
web_open = record {
  net = record (record_of asked web_cidr (new_subnet (10 * 2 ^ 24) 29)) {
    rules = record closed {
      bridge = "mhbr1";
      subnet = record { low = 10 * 2 ^ 24; high = 10 * 2 ^ 24 + 7 };
      allowed_ingress = from_camera 80 (10 * 2 ^ 24 + 2) ∷ [];
    };
  };
  subnet = new_subnet (10 * 2 ^ 24) 29;
  vms = [];
  pending = false;
}

abbrev rec_net : ManagedNet
rec_net = record {
  net = record_of recorder (codes "10.1.0.0/29") (new_subnet (10 * 2 ^ 24 + 2 ^ 16) 29);
  subnet = new_subnet (10 * 2 ^ 24 + 2 ^ 16) 29;
  vms = [];
  pending = true;
}

opened_run :
    (opened.0 ≡ none)
    × (clashing.0 ≡ some bad_ingress)
    × (lookup "web" opened.1.nets ≡ some web_open)
    × (lookup "rec" opened.1.nets ≡ some rec_net)
unfolding begin_create finish_create update_policy lookup insert any_overlap parse_subnet new_subnet
    snapshot bytes_eq check_ingress clashes clashes_in ingress_clash check_guest_ip ip_text parse_ip
    overlaps
opened_run = (refl, refl, refl, refl)

opened-Reach : Reach opened.1
opened-Reach =
    after two_nets opened.1
      (after made_web two_nets
        (after pending_web made_web
          (after first pending_web (start new_pool [] true) (creates read_web true asked))
          (finishes all_well "web"))
        (creates read_both true recorder))
      (ingresses all_well true "web" (from_camera 80 (10 * 2 ^ 24 + 2) ∷ []))

abbrev to_web : Packet
to_web = record {
  iif = "eth1";
  oif = "";
  src = 150;
  dst = 1;
  proto = tcp;
  sport = 4000;
  dport = 80;
  established = false;
  reply = false;
  dnat = false;
  dst_local = true;
}

to_web_in : lets_in web_open.net.rules.allowed_ingress to_web ≡ true
unfolding lets_in
to_web_in = refl

ingress_unshared_example : lets_in rec_net.net.rules.allowed_ingress to_web ≡ false
ingress_unshared_example =
    ingress_unshared opened.1 "web" "rec" web_open rec_net to_web opened-Reach refl opened_run.2
      opened_run.3 to_web_in
