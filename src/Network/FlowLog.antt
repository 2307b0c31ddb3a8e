-- ===== src/Network/FlowLog.antt =====
-- The flow log: internal/network/flowlog.go. A guest's `flows` and `order` are one list of flows in
-- the order first seen. A packet comes with what the netlink decoder, the interface names and the
-- resolver say of it, and the time. Counters are not wrapped at 2 ^ 64.
pub mod Oldest
pub mod Bounded
pub mod Counted
mod Tests
use Prim.Native.String.{◌++◌ as text_append}
use micro_hosted.Prelude.{
  ℕ, ◌+◌, Bool, true, false, not, ◌&&◌, ◌||◌, Option, none, some, List, [], ◌∷◌, ◌++◌, String,
  str_eq, ◌==◌, ltb, leb, if◌then◌else◌, Dict, lookup, insert, erase, length,
}

pub record FlowLimits : Type 0 where
  pub per_source : ℕ
  pub sources : ℕ

pub record FlowKey : Type 0 where
  pub iface : String
  pub verdict : String
  pub reason : String
  pub proto : String
  pub dst : String
  pub port : ℕ

abbrev pub key_eq : FlowKey → FlowKey → Bool
key_eq a b =
    str_eq a.iface b.iface
    && (str_eq a.verdict b.verdict
        && (str_eq a.reason b.reason
            && (str_eq a.proto b.proto && (str_eq a.dst b.dst && (a.port == b.port)))))

pub record Flow : Type 0 where
  pub key : FlowKey
  pub vm : String
  pub network : String
  pub src : String
  pub count : ℕ
  pub first : ℕ
  pub last : ℕ

pub record FlowSource : Type 0 where
  pub flows : List Flow
  pub omitted : ℕ
  pub last : ℕ

pub record FlowLog : Type 0 where
  pub sources : Dict FlowSource
  pub overruns : ℕ

-- The addresses and ports of an IPv4 payload.
pub record Ip : Type 0 where
  pub src : String
  pub dst : String
  pub proto : String
  pub dst_port : ℕ

-- `words` are the fields of the prefix, `ip` is none for a payload that is not IPv4.
pub record Received : Type 0 where
  pub words : List String
  pub ip : Option Ip
  pub iface : String
  pub network : String
  pub vm : String

unfoldable pub new_flow_log : FlowLog
new_flow_log = record { sources = []; overruns = 0 }

-- The mark, the verdict and the reason in a prefix.
unfoldable pub prefix_of : List String → Option (String × String)
prefix_of (tag ∷ verdict ∷ reason ∷ []) = if str_eq tag "mh" then some (verdict, reason) else none
prefix_of _ = none

-- The loop of `forgetOldestSource`, from the oldest so far and its time.
unfoldable pub oldest_from : String → ℕ → Dict FlowSource → String
oldest_from oldest at [] = oldest
oldest_from oldest at ((k, s) ∷ rest) =
    let earlier = oldest_from k s.last rest in
    let same = oldest_from oldest at rest in
    if str_eq oldest "" || ltb s.last at then earlier else same

unfoldable pub forget_oldest_source : Dict FlowSource → Dict FlowSource
forget_oldest_source sources = erase (oldest_from "" 0 sources) sources

abbrev fresh_source : ℕ → FlowSource
fresh_source now = record { flows = []; omitted = 0; last = now }

-- The source of a key, made when there is none, and the others.
unfoldable pub with_source :
    FlowLimits → String → ℕ → Dict FlowSource → FlowSource × Dict FlowSource
with_source l sk now sources = elim (lookup sk sources) [
  | some s ↦ (s, sources)
  | none ↦ (
    fresh_source now,
    if leb l.sources (length sources) then forget_oldest_source sources else sources,
  )
]

unfoldable pub find_flow : FlowKey → List Flow → Option Flow
find_flow key [] = none
find_flow key (f ∷ fs) = if key_eq f.key key then some f else find_flow key fs

unfoldable pub bump : FlowKey → ℕ → List Flow → List Flow
bump key now [] = []
bump key now (f ∷ fs) =
    if key_eq f.key key
    then (record {
      key = f.key;
      vm = f.vm;
      network = f.network;
      src = f.src;
      count = f.count + 1;
      first = f.first;
      last = now;
    }
        ∷ fs)
    else (f ∷ bump key now fs)

-- One packet of a guest: counted, kept as a new flow, or omitted.
unfoldable pub add_flow : FlowLimits → Flow → ℕ → FlowSource → FlowSource
add_flow l new now s = elim (find_flow new.key s.flows) [
  | some _ ↦ record { flows = bump new.key now s.flows; omitted = s.omitted; last = now }
  | none ↦
      if leb l.per_source (length s.flows)
      then record { flows = s.flows; omitted = s.omitted + 1; last = now }
      else record { flows = s.flows ++ (new ∷ []); omitted = s.omitted; last = now }
]

abbrev pub flow_of : Received → String × String → Ip → ℕ → Flow
flow_of p prefix ip now = record {
  key = record {
    iface = p.iface;
    verdict = prefix.0;
    reason = prefix.1;
    proto = ip.proto;
    dst = ip.dst;
    port = ip.dst_port;
  };
  vm = p.vm;
  network = p.network;
  src = ip.src;
  count = 1;
  first = now;
  last = now;
}

-- A guest is its VM; without one, the address on that device.
abbrev pub source_key : Received → Ip → String
source_key p ip = if str_eq p.vm "" then text_append p.iface (text_append "/" ip.src) else p.vm

unfoldable pub record_flow : FlowLimits → String → Flow → ℕ → Dict FlowSource → Dict FlowSource
unfolding with_source
record_flow l sk new now sources =
    let found = with_source l sk now sources in insert sk (add_flow l new now found.0) found.1

unfoldable pub record_packet : FlowLimits → ℕ → Received → FlowLog → FlowLog
record_packet l now p log = elim (prefix_of p.words) [
  | none ↦ log
  | some prefix ↦ elim p.ip [
    | none ↦ log
    | some ip ↦ record {
      sources = record_flow l (source_key p ip) (flow_of p prefix ip now) now log.sources;
      overruns = log.overruns;
    }
  ]
]

-- What Run does when the kernel has discarded records.
unfoldable pub overrun : FlowLog → FlowLog
overrun log = record { sources = log.sources; overruns = log.overruns + 1 }

unfoldable pub known : String → FlowLog → Bool
known id log = elim (lookup id log.sources) [ none ↦ false | some _ ↦ true ]
