-- ===== src/Network/Firewall/Tests.antt =====
-- A ruleset of two networks and one managed interface, at single packets.
use micro_hosted.Prelude.{ℕ, ◌≡◌, refl, if◌then◌else◌, true, false, some, List, [], ◌∷◌, String}
use micro_hosted.Network.Firewall.{
  tcp, udp, Range, Net, ManagedIface, Packet, accept, drop, run_chain, has_prefix, listed, holds,
  all_hold, in_ranges, port_listed,
}
use micro_hosted.Network.Firewall.Rules.{
  sets, single, forward_chain, input_chain, prerouting_chain, dnats_of, translated, is_managed,
  egress_open,
}
use micro_hosted.Network.Firewall.Chain.{any_of}
use micro_hosted.Network.Firewall.Spec.{ingress_request}
use micro_hosted.Network.Firewall.Isolation.{is_isolated, forward-Isolated}
use micro_hosted.Network.Firewall.Managed.{device_reach, host_offers, host_reach}
use micro_hosted.Network.Firewall.Egress.{guest_reach, DistinctBridges}
use micro_hosted.Network.Firewall.Recording.{records_neutral}
use micro_hosted.Network.Firewall.Translation.{routed, translated_admitted}

abbrev private : List Range
private = record { low = 100; high = 199 } ∷ []

-- Full egress through eth0, to port 443 only.
abbrev open_net : Net
open_net = record {
  bridge = "mhbr-open";
  subnet = record { low = 1000; high = 1255 };
  egress = true;
  egress_iface = "eth0";
  egress_private = false;
  egress_ports = record { proto = tcp; port = 443 } ∷ [];
  allowed_egress = [];
  allowed_ingress = [];
}

-- A device's port on wlan0, and a guest's port for that device.
abbrev lab_net : Net
lab_net = record {
  bridge = "mhbr-lab";
  subnet = record { low = 2000; high = 2255 };
  egress = false;
  egress_iface = "";
  egress_private = false;
  egress_ports = [];
  allowed_egress = record { iface = "wlan0"; ip = single 150; proto = tcp; port = 80 } ∷ [];
  allowed_ingress =
      record { iface = "wlan0"; src_ip = single 150; proto = tcp; port = 8080; to_ip = 2002 } ∷ [];
}

abbrev networks : List Net
networks = open_net ∷ lab_net ∷ []

abbrev managed : List ManagedIface
managed = record { name = "wlan0"; host_allow = record { proto = udp; port = 67 } ∷ [] } ∷ []

-- A first packet of a TCP flow.
abbrev flow : String → String → ℕ → ℕ → ℕ → Packet
flow iif oif src dst dport = record {
  iif = iif;
  oif = oif;
  src = src;
  dst = dst;
  proto = tcp;
  sport = 40000;
  dport = dport;
  established = false;
  reply = false;
  dnat = false;
  dst_local = false;
}

abbrev web : Packet
web = flow "mhbr-open" "eth0" 1002 7 443

abbrev router : Packet
router = flow "mhbr-open" "eth0" 1002 101 443

abbrev across : Packet
across = flow "mhbr-open" "mhbr-lab" 1002 2002 443

abbrev scan : Packet
scan = flow "wlan0" "mhbr-lab" 150 2002 22

abbrev call : Packet
call = record {
  iif = "wlan0";
  oif = "";
  src = 150;
  dst = 9;
  proto = tcp;
  sport = 40000;
  dport = 8080;
  established = false;
  reply = false;
  dnat = false;
  dst_local = true;
}

forward-Isolated_example :
    run_chain (sets private networks) across (forward_chain true managed networks) ≡ drop
unfolding has_prefix listed
forward-Isolated_example = forward-Isolated true private managed networks across refl

guest_reach_example :
    run_chain (sets private networks) web (forward_chain true managed networks) ≡ accept
unfolding has_prefix listed any_of egress_open is_managed in_ranges port_listed DistinctBridges
guest_reach_example = guest_reach true private managed networks web (refl, (refl, refl)) refl refl

router_closed :
    run_chain (sets private networks) router (forward_chain true managed networks) ≡ drop
unfolding has_prefix listed any_of egress_open is_managed in_ranges port_listed DistinctBridges
router_closed = guest_reach true private managed networks router (refl, (refl, refl)) refl refl

device_reach_example :
    run_chain (sets private networks) scan (forward_chain true managed networks) ≡ drop
unfolding has_prefix listed any_of is_managed
device_reach_example = device_reach true private managed networks scan refl refl refl

host_reach_example : run_chain (sets private networks) scan (input_chain true managed) ≡ drop
unfolding has_prefix any_of host_offers
host_reach_example = host_reach true (sets private networks) managed scan

records_neutral_run :
    (run_chain (sets private networks) web (forward_chain true managed networks)
      ≡ run_chain (sets private networks) web (forward_chain false managed networks))
    × (run_chain (sets private networks) web (input_chain true managed)
        ≡ run_chain (sets private networks) web (input_chain false managed))
records_neutral_run = records_neutral (sets private networks) managed networks web

-- The call of the device is translated to the guest of the rule.
call_is_rewritten :
    translated (sets private networks) call (prerouting_chain managed networks) ≡ some 2002
unfolding translated prerouting_chain dnats_of is_managed all_hold holds
call_is_rewritten = refl

translated_admitted_example :
    (is_managed managed "wlan0" ≡ true)
    × ((n : Net) × ((any_of (ingress_request n (routed call n 2002)) n.allowed_ingress ≡ true)
          × (run_chain
                (sets private networks)
                (routed call n 2002)
                (forward_chain true managed networks)
              ≡ (if is_isolated (sets private networks) (routed call n 2002)
                  then drop
                  else accept))))
unfolding listed
translated_admitted_example =
    translated_admitted true private managed networks call 2002 refl refl call_is_rewritten
