-- ===== src/Vm/Admission/Reach.antt =====
-- The invariants of admission along the interleavings of its steps.
use micro_hosted.Prelude.{
  Dict, erase, insert, none, ◌+◌, ◌≤◌, ◌<◌, true, false, ◌≡◌, sym, refl, some, [], String, lookup,
  length, arith, inl, inr, ap, subst,
}
use micro_hosted.Vm.Admission.Restored.{
  running_vm, AreBack, left_back, step-AreBack, lighter_gone, restored-AreBack, restored_load,
  restored-IsKept,
}
use micro_hosted.Vm.Admission.{
  Vm, reserve_disk, Quota, Limits, Launch, Manager, quota_for, usage, live_running, release,
  release_disk, put_vm, forget_vm,
}
use micro_hosted.Vm.Admission.Load.{
  Weight, launched, running, load, all_memory, usage-load, live_load, length-launched,
  running-insert_vm, running-replace_vm, running-forget_vm, machines_of, memory_of,
}
use micro_hosted.Vm.Admission.Bounded.{
  IsBounded, IsKept, Step, admitted, released, started, stopped, forgotten, reserved, unreserved,
  admit_cases, load-release, admit-IsBounded, lighter-IsBounded, reserve_disk-same,
}
use micro_hosted.Vm.Admission.Kept.{step-IsKept}

module _ (l : Limits) where
  start_load :
      (id : String) (k : Launch) (m : Manager) (w : Weight)
      → lookup id m.inflight ≡ some k
      → load w (put_vm id (record { running = true; consumer = k.consumer; mem_mb = k.mem_mb }) m)
        ≤ load w m
  unfolding put_vm
  start_load id k m w found = ground (
    arith,
    running-insert_vm w id (record { running = true; consumer = k.consumer; mem_mb = k.mem_mb })
        m.inflight m.vms,
  )

  start-IsBounded :
      (back : Dict Launch) (id : String) (k : Launch) (m : Manager)
      → lookup id m.inflight ≡ some k
      → IsBounded l back m
      → IsBounded l back (put_vm id (running_vm k) m)
  unfolding put_vm
  start-IsBounded back id k m found bounded =
      lighter-IsBounded l back back m (put_vm id (running_vm k) m) bounded
        (λ w. omega (arith, start_load id k m w found)) (omega arith)

  step-IsBounded :
      (m m' : Manager) (back : Dict Launch) (st : Step l m m')
      → IsKept l m
      → AreBack back m
      → IsBounded l back m
      → IsBounded l (left_back l st back) m'
  unfolding release put_vm forget_vm release_disk
  step-IsBounded m m' back (admitted host id consumer mem_mb disk_mb fresh idle) kept are bounded =
      elim (admit_cases l host id consumer mem_mb disk_mb m) [
        | inl same ↦ subst (IsBounded l back) (sym same) bounded
        | inr (passed, new) ↦
            subst (IsBounded l back) (sym new)
              (admit-IsBounded l back host id consumer mem_mb disk_mb m bounded fresh passed)
      ]
  step-IsBounded m m' back (released id k disk_mb found) kept are bounded =
      lighter-IsBounded l back back m (release id k.mem_mb disk_mb m) bounded
        (λ w. omega (arith, load-release l id k disk_mb m w kept found)) (omega arith)
  step-IsBounded m m' back (started id k found) kept are bounded =
      start-IsBounded back id k m found bounded
  step-IsBounded m m' back (stopped id consumer mem_mb) kept are bounded =
      let v : Vm = record { running = false; consumer = consumer; mem_mb = mem_mb } in
      lighter-IsBounded l back (erase id back) m (put_vm id v m) bounded
        (λ w.
          lighter_gone l id back m w (running w m.inflight (insert id v m.vms)) are
            (ground (arith, running-replace_vm w id v m.inflight m.vms)))
        (omega arith)
  step-IsBounded m m' back (forgotten id) kept are bounded =
      lighter-IsBounded l back (erase id back) m (forget_vm id m) bounded
        (λ w.
          lighter_gone l id back m w (running w m.inflight (erase id m.vms)) are
            (running-forget_vm w id m.inflight m.vms))
        (omega arith)
  step-IsBounded m m' back (reserved free need_mb) kept are bounded =
      lighter-IsBounded l back back m ((reserve_disk l free need_mb m).1) bounded
        (λ w. ground (
          arith,
          reserve_disk-same l free need_mb m,
          ap (λ i. launched w i),
          ap (λ i. running w i),
        ))
        (ground (arith, reserve_disk-same l free need_mb m))
  step-IsBounded m m' back (unreserved need_mb) kept are bounded =
      lighter-IsBounded l back back m (release_disk need_mb m) bounded (λ w. omega arith)
        (omega arith)

  restored-IsBounded :
      (id : String) (k : Launch) (v : Vm) (back : Dict Launch) (m : Manager)
      → lookup id m.vms ≡ some v
      → v.running ≡ false
      → lookup id m.inflight ≡ none
      → AreBack back m
      → IsBounded l back m
      → IsBounded l (insert id k back) (put_vm id (running_vm k) m)
  unfolding put_vm
  restored-IsBounded id k v back m held idle free are bounded =
      lighter-IsBounded l back (insert id k back) m (put_vm id (running_vm k) m) bounded
        (λ w. restored_load l id k back m v held idle free w are) (omega arith)

  -- The states that a daemon with no machines reaches, with the machines in them that a restore of
  -- a running machine has put back. Such a restore is two steps, `stopped` and `restored`, between
  -- which any other may come.
  pub data Reach : Dict Launch → Manager → Type 0 where
    fresh :
        Reach [] (record {
          vms = [];
          inflight = [];
          inflight_mb = 0;
          disk_inflight_mb = 0;
          slots_taken = 0;
        })
    next :
        {back : Dict Launch} {m m' : Manager}
        → Reach back m
        → (st : Step l m m') → Reach (left_back l st back) m'
    restored :
        {back : Dict Launch} {m : Manager} (id : String) (k : Launch) (v : Vm)
        → Reach back m
        → lookup id m.vms ≡ some v
        → v.running ≡ false
        → lookup id m.inflight ≡ none
        → Reach (insert id k back) (put_vm id (running_vm k) m)

  Reach-Invariant :
      (back : Dict Launch) (m : Manager)
      → Reach back m
      → IsKept l m × AreBack back m × IsBounded l back m
  unfolding launched running lookup
  Reach-Invariant _ m fresh = (
    record {
      unique_vms = tt;
      unique_inflight = tt;
      promised = refl;
      slots = refl;
      matching = λ i j v launching its runs. cc launching;
    },
    (tt, λ id k held. absurd (cc held)),
    record { quotas = λ c q has. ground arith; cap = λ capped. omega arith; boots = omega arith },
  )
  Reach-Invariant _ after (next {back} {m = before} r step) =
      let (kept, are, bounded) = Reach-Invariant back before r in
      (
        step-IsKept l before after kept step,
        step-AreBack l before after back step are,
        step-IsBounded before after back step kept are bounded,
      )
  Reach-Invariant _ _ (restored {back} {m} id k v r held idle free) =
      let (kept, are, bounded) = Reach-Invariant back m r in
      (
        restored-IsKept l id k back m v held idle free kept,
        restored-AreBack l id k back m v held idle free are,
        restored-IsBounded id k v back m held idle free are bounded,
      )

  -- In every state that launches, stops, removals, restores and reservations of disk lead to from
  -- an empty daemon, in any order: what a consumer with a quota holds, running or launching, is
  -- within its quota, or above it by no more than those of its machines that a restore has put back
  -- and that run since; the same holds of the machines running or launching and the cap, when one
  -- is set; no more launches are in progress than boot slots; and the memory promised to launches
  -- is the sum of theirs.
  pub Reach-WithinLimits :
      (back : Dict Launch) (m : Manager)
      → Reach back m
      → ((c : String) (q : Quota)
          → quota_for l c ≡ some q
          → (0 < q.max_vms → (usage c m).0 ≤ q.max_vms + launched (machines_of c) back)
            × (0 < q.max_mem_mb → (usage c m).1 ≤ q.max_mem_mb + launched (memory_of c) back))
        × ((0 < l.max_vms
              → length m.inflight + live_running m.inflight m.vms ≤ l.max_vms + length back)
            × ((length m.inflight ≤ l.max_parallel_boots)
                × (m.inflight_mb ≡ launched all_memory m.inflight)))
  Reach-WithinLimits back m r =
      let (kept, are, bounded) = Reach-Invariant back m r in
      (
        (λ c q has. ground (arith, usage-load c m, bounded.quotas c q has)),
        (
          (λ capped. omega (arith, live_load m, bounded.cap capped, length-launched back)),
          (omega (arith, bounded.boots, kept.slots, length-launched m.inflight), kept.promised),
        ),
      )
