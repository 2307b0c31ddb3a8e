-- ===== src/Events/Tests.antt =====
-- A bus of three events' capacity: its runs, and the theorems at them.
use micro_hosted.Prelude.{
  ◌+◌, ◌≡◌, refl, false, none, some, List, [], ◌∷◌, ◌++◌, String, arith, length, drop, map, leb,
  if◌then◌else◌, eq_iff,
}
use micro_hosted.Events.{Event, Bus, new_bus, new_epoch, gap, publish, subscribe, backlog, stamp}
use micro_hosted.Events.Ring.{Logs, new_bus-Logs, publish-Logs}
use micro_hosted.Events.Resume.{oldest, backlog_lem, other_epoch, subscribe_position}
use micro_hosted.Events.Session.{
  Op, published, shut, received, run, begin, Complete, resume-Complete,
}

abbrev started : String → Event
started vm = record {
  epoch = "";
  seq = 0;
  time = 0;
  kind = "vm.started";
  vm = vm;
  name = vm;
  labels = [];
  network = "";
  reason = "";
  payload = [];
}

abbrev bus0 : Bus
bus0 = new_bus "e1" 2

abbrev bus1 : Bus
bus1 = publish 10 (started "a") bus0

abbrev bus2 : Bus
bus2 = publish 20 (started "b") bus1

abbrev bus3 : Bus
bus3 = publish 30 (started "c") bus2

abbrev log3 : List Event
log3 =
    (([] ++ (stamp bus0 10 (started "a") ∷ [])) ++ (stamp bus1 20 (started "b") ∷ []))
    ++ (stamp bus2 30 (started "c") ∷ [])

-- the oldest event fell off
ring_of_three : map (λ e. e.vm) bus3.ring ≡ "b" ∷ "c" ∷ []
unfolding publish new_bus
ring_of_three = refl

bus3-Logs : Logs bus3 log3
unfolding publish new_bus
bus3-Logs =
    publish-Logs bus2 _ 30 (started "c")
      (publish-Logs bus1 _ 20 (started "b")
        (publish-Logs bus0 [] 10 (started "a") (new_bus-Logs "e1" 2) (omega arith)) (omega arith))
      (omega arith)

publish-Logs_run : Logs bus1 ([] ++ (stamp bus0 10 (started "a") ∷ []))
publish-Logs_run =
    publish-Logs bus0 [] 10 (started "a") (new_bus-Logs "e1" 2) (unfold new_bus in omega arith)

backlog_lem_example : backlog bus3.epoch 1 false bus3 ≡ (
    if leb (oldest bus3 log3) 1
    then (drop 1 log3, none)
    else (drop (oldest bus3 log3) log3, some gap))
backlog_lem_example = backlog_lem bus3 log3 bus3-Logs 1

other_epoch_run : backlog "e0" 1 false bus3 ≡ (drop (oldest bus3 log3) log3, some new_epoch)
unfolding publish new_bus
other_epoch_run = other_epoch bus3 log3 bus3-Logs "e0" 1 (λ e. cc ((eq_iff "e0" "e1").1 e))

subscribe_position_run :
    let r = (subscribe "e0" 1 false bus3).0 in r.at + length r.missed ≡ bus3.seq
subscribe_position_run = subscribe_position bus3 log3 bus3-Logs "e0" 1 false

abbrev life : List Op
life =
    published 40 (started "d")
    ∷ received 0
    ∷ published 50 (started "e")
    ∷ shut
    ∷ published 60 (started "f")
    ∷ []

resume-Complete_example :
    Complete 1
      (subscribe bus3.epoch 1 false bus3).0.missed
      (run (length bus3.subs) life (begin bus3 log3 1))
      (length bus3.subs)
unfolding publish new_bus
resume-Complete_example =
    resume-Complete bus3 log3 bus3-Logs 1 life (omega arith) (omega arith) (omega arith)
