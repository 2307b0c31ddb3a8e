-- ===== src/Network/FlowLog/Tests.antt =====
-- A log of one source with room for one flow, and two packets.
use micro_hosted.Prelude.{◌≤◌, ◌≡◌, refl, some, [], ◌∷◌, String, length, arith, lookup, insert}
use micro_hosted.Network.FlowLog.{
  FlowLimits, Flow, FlowSource, Received, new_flow_log, prefix_of, record_packet, record_flow,
  with_source, add_flow, find_flow, oldest_from, flow_of,
}
use micro_hosted.Network.FlowLog.Oldest.{Holds, NoneBefore, oldest_lem}
use micro_hosted.Network.FlowLog.Bounded.{received, overran, run, run_within}

abbrev limits : FlowLimits
limits = record { per_source = 1; sources = 1 }

abbrev dropped : String → Received
dropped vm = record {
  words = "mh" ∷ "drop" ∷ "egress" ∷ [];
  ip = some (record { src = "172.16.0.2"; dst = "8.8.8.8"; proto = "udp"; dst_port = 53 });
  iface = "mhbr0";
  network = "lab";
  vm = vm;
}

abbrev flow : Flow
flow =
    flow_of (dropped "a") ("drop", "egress")
      (record { src = "172.16.0.2"; dst = "8.8.8.8"; proto = "udp"; dst_port = 53 }) 7

abbrev kept : FlowSource
kept = record { flows = flow ∷ []; omitted = 0; last = 7 }

first_packet :
    record_packet limits 7 (dropped "a") new_flow_log
    ≡ record { sources = ("a", kept) ∷ []; overruns = 0 }
unfolding record_packet new_flow_log prefix_of record_flow with_source add_flow find_flow lookup
    insert
first_packet = refl

run_within_example :
    (length (run limits (received 7 (dropped "a") ∷ overran ∷ []) new_flow_log).sources ≤ 1)
    × ((k : String) (s : FlowSource)
        → lookup k (run limits (received 7 (dropped "a") ∷ overran ∷ []) new_flow_log).sources
          ≡ some s
        → length s.flows ≤ 1)
run_within_example = run_within limits (received 7 (dropped "a") ∷ overran ∷ []) (omega arith)

oldest_run :
    (o : FlowSource) × (Holds "a" o (("a", kept) ∷ []) × NoneBefore o.last (("a", kept) ∷ []))
unfolding oldest_from lookup
oldest_run = oldest_lem "a" kept [] (refl, tt) refl
