-- ===== src/Network/FlowLog/Bounded.antt =====
-- The sizes of the flow log.
use Prim.Native.String.{◌++◌ as text_append, count}
use text.Mathlib.TextLemmas.{length-append as count-append}
use micro_hosted.Prelude.{
  ℕ, ◌+◌, ◌≤◌, ◌<◌, false, ◌≡◌, refl, ap, none, some, List, [], ◌∷◌, String, str_eq, eq_iff, leb,
  Dict, lookup, insert, erase, Unique, length, length-append, arith, lookup-insert, lookup-erase,
  insert-Unique, erase-Unique, Option-cases, Bool-cases, inl, inr, subst,
}
use micro_hosted.Network.FlowLog.{
  FlowLimits, FlowKey, Flow, FlowSource, FlowLog, Received, Ip, new_flow_log, prefix_of,
  oldest_from, forget_oldest_source, with_source, bump, add_flow, flow_of, source_key, record_flow,
  record_packet, overrun,
}
use micro_hosted.Network.FlowLog.Oldest.{Holds, oldest_lem}

pub record IsBounded (l : FlowLimits) (sources : Dict FlowSource) : Type 0 where
  pub few : length sources ≤ l.sources
  pub short : (k : String) (s : FlowSource) → Holds k s sources → length s.flows ≤ l.per_source
  pub unique : Unique sources
  pub keyed : lookup "" sources ≡ none

length-insert :
    (k : String) (s : FlowSource) (sources : Dict FlowSource)
    → length (insert k s sources) ≤ length sources + 1
unfolding insert
length-insert k s [] = omega arith
length-insert k s ((j, t) ∷ rest) = ground (arith, length-insert k s rest)

length-insert_held :
    (k : String) (s t : FlowSource) (sources : Dict FlowSource)
    → Holds k t sources
    → length (insert k s sources) ≡ length sources
unfolding insert lookup
length-insert_held k s t [] h = cc h
length-insert_held k s t ((j, w) ∷ rest) h = ground (arith, length-insert_held k s t rest)

length-erase : (k : String) (sources : Dict FlowSource) → length (erase k sources) ≤ length sources
unfolding erase
length-erase k [] = omega arith
length-erase k ((j, t) ∷ rest) = ground (arith, length-erase k rest)

length-erase_held :
    (k : String) (s : FlowSource) (sources : Dict FlowSource)
    → Holds k s sources
    → length (erase k sources) + 1 ≤ length sources
unfolding erase lookup
length-erase_held k s [] h = cc h
length-erase_held k s ((j, t) ∷ rest) h =
    ground (arith, length-erase_held k s rest, length-erase k rest)

length-bump : (key : FlowKey) (now : ℕ) (fs : List Flow) → length (bump key now fs) ≡ length fs
unfolding bump
length-bump key now [] = refl
length-bump key now (f ∷ fs) = ground (arith, length-bump key now fs)

add_flow_short :
    (l : FlowLimits) (new : Flow) (now : ℕ) (s : FlowSource)
    → length s.flows ≤ l.per_source
    → length ((add_flow l new now s).flows) ≤ l.per_source
unfolding add_flow
add_flow_short l new now s h =
    ground (arith, length-bump new.key now s.flows, length-append s.flows (new ∷ []))

-- To forget a source makes room for one.
forget_room :
    (sources : Dict FlowSource)
    → Unique sources
    → lookup "" sources ≡ none
    → 0 < length sources
    → length (forget_oldest_source sources) + 1 ≤ length sources
unfolding forget_oldest_source
forget_room [] u keyed some_source = absurd (omega arith)
forget_room ((j, t) ∷ rest) u keyed some_source =
    let (o, (held, _)) = oldest_lem j t rest u keyed in
    length-erase_held (oldest_from "" 0 ((j, t) ∷ rest)) o ((j, t) ∷ rest) held

forget-IsBounded :
    (l : FlowLimits) (sources : Dict FlowSource)
    → IsBounded l sources
    → IsBounded l (forget_oldest_source sources)
unfolding forget_oldest_source
forget-IsBounded l sources b =
    let gone = oldest_from "" 0 sources in
    record {
      few = omega (arith, b.few, length-erase gone sources);
      short = λ k s h. ground (arith, lookup-erase gone k sources, b.short k s);
      unique = erase-Unique gone sources b.unique;
      keyed = ground (arith, lookup-erase gone "" sources, b.keyed);
    }

insert-IsBounded :
    (l : FlowLimits) (sk : String) (s : FlowSource) (sources : Dict FlowSource)
    → IsBounded l sources
    → str_eq sk "" ≡ false
    → length s.flows ≤ l.per_source
    → length (insert sk s sources) ≤ l.sources
    → IsBounded l (insert sk s sources)
insert-IsBounded l sk s sources b named short few = record {
  few = few;
  short = λ k t h. ground (arith, short, lookup-insert sk k s sources, b.short k t);
  unique = insert-Unique sk s sources b.unique;
  keyed = ground (arith, named, lookup-insert sk "" s sources, b.keyed);
}

record_flow-IsBounded :
    (l : FlowLimits) (sk : String) (new : Flow) (now : ℕ) (sources : Dict FlowSource)
    → 0 < l.sources
    → str_eq sk "" ≡ false
    → IsBounded l sources
    → IsBounded l (record_flow l sk new now sources)
unfolding record_flow with_source
record_flow-IsBounded l sk new now sources some_room named b =
    elim (Option-cases (lookup sk sources)) [
      | inr (s, held) ↦
          subst (IsBounded l) {x = insert sk (add_flow l new now s) sources} (ground (arith, held))
            (insert-IsBounded l sk (add_flow l new now s) sources b named
              (add_flow_short l new now s (b.short sk s held))
              (ground (arith, b.few, length-insert_held sk (add_flow l new now s) s sources held)))
      | inl absent ↦
          let empty : FlowSource = record { flows = []; omitted = 0; last = now } in
          let fits = add_flow_short l new now empty (omega arith) in
          elim (Bool-cases (leb l.sources (length sources))) [
            | inl full ↦
                let rest = forget_oldest_source sources in
                subst (IsBounded l) {x = insert sk (add_flow l new now empty) rest}
                  (ground (arith, absent, full))
                  (insert-IsBounded l sk (add_flow l new now empty) rest
                    (forget-IsBounded l sources b) named fits
                    (ground (
                      arith,
                      full,
                      b.few,
                      forget_room sources b.unique b.keyed,
                      length-insert sk (add_flow l new now empty) rest,
                    )))
            | inr room ↦
                subst (IsBounded l) {x = insert sk (add_flow l new now empty) sources}
                  (ground (arith, absent, room))
                  (insert-IsBounded l sk (add_flow l new now empty) sources b named fits
                    (ground (arith, room, length-insert sk (add_flow l new now empty) sources)))
          ]
    ]

append_named : (a b : String) → str_eq (text_append a (text_append "/" b)) "" ≡ false
append_named a b =
    let key = text_append a (text_append "/" b) in
    elim (Bool-cases (str_eq key "")) [
      | inr named ↦ named
      | inl empty ↦ absurd (
          omega (
            arith,
            ap count ((eq_iff key "").0 empty),
            count-append a (text_append "/" b),
            count-append "/" b,
          ))
    ]

source_key_named : (p : Received) (ip : Ip) → str_eq (source_key p ip) "" ≡ false
source_key_named p ip = ground (arith, append_named p.iface ip.src)

-- What the log receives, packet by packet with the times, and the kernel's overruns.
pub data Op : Type 0 where
  received : ℕ → Received → Op
  overran : Op

abbrev pub apply : FlowLimits → Op → FlowLog → FlowLog
apply l (received now p) log = record_packet l now p log
apply l overran log = overrun log

unfoldable pub run : FlowLimits → List Op → FlowLog → FlowLog
run l [] log = log
run l (o ∷ os) log = run l os (apply l o log)

packet-IsBounded :
    (l : FlowLimits) (now : ℕ) (p : Received) (log : FlowLog)
    → 0 < l.sources
    → IsBounded l log.sources
    → IsBounded l ((record_packet l now p log).sources)
unfolding record_packet
packet-IsBounded l now p log some_room b = elim (Option-cases (prefix_of p.words)) [
  | inl other ↦ subst (IsBounded l) (ground (arith, other)) b
  | inr (prefix, ours) ↦ elim (Option-cases p.ip) [
    | inl not_ip ↦ subst (IsBounded l) (ground (arith, ours, not_ip)) b
    | inr (ip, is_ip) ↦
        subst (IsBounded l)
          {x = record_flow l (source_key p ip) (flow_of p prefix ip now) now log.sources}
          (ground (arith, ours, is_ip))
          (record_flow-IsBounded l (source_key p ip) (flow_of p prefix ip now) now log.sources
            some_room (source_key_named p ip) b)
  ]
]

run-IsBounded :
    (l : FlowLimits) (os : List Op) (log : FlowLog)
    → 0 < l.sources
    → IsBounded l log.sources
    → IsBounded l ((run l os log).sources)
unfolding run overrun
run-IsBounded l [] log some_room b = b
run-IsBounded l (received now p ∷ os) log some_room b =
    run-IsBounded l os (record_packet l now p log) some_room
      (packet-IsBounded l now p log some_room b)
run-IsBounded l (overran ∷ os) log some_room b = run-IsBounded l os (overrun log) some_room b

-- After any packets and overruns, a log that started empty keeps no more sources than its limit,
-- and no more flows of a source than the limit for one, when the limit of sources is not zero.
pub run_within :
    (l : FlowLimits) (os : List Op)
    → 0 < l.sources
    → (length (run l os new_flow_log).sources ≤ l.sources)
      × ((k : String) (s : FlowSource)
          → lookup k (run l os new_flow_log).sources ≡ some s
          → length s.flows ≤ l.per_source)
unfolding new_flow_log lookup
run_within l os some_room =
    let b =
      run-IsBounded l os new_flow_log some_room
        (record { few = omega arith; short = λ k s h. cc h; unique = tt; keyed = refl }) in
    (b.few, b.short)
