-- ===== src/Vm/Admission/Kept.antt =====
-- The manager's own books, kept by every step.
use micro_hosted.Prelude.{
  ℕ, ◌+◌, ◌≡◌, sym, subst, none, lookup, insert, insert-Unique, erase-Unique, lookup-insert,
  lookup-erase, arith, eq_iff, inl, inr, some, String, true, false,
}
use micro_hosted.Vm.Admission.{
  Limits, Vm, Launch, Manager, release, put_vm, forget_vm, release_disk,
}
use micro_hosted.Vm.Admission.Load.{any_machine, all_memory, launched-insert, launched-erase}
use micro_hosted.Vm.Admission.Bounded.{
  IsKept, Step, admitted, released, started, stopped, forgotten, reserved, unreserved, admit_cases,
  reserve_disk_cases,
}

module _ (l : Limits) where
  admit-IsKept :
      (id consumer : String) (mem_mb disk_mb : ℕ) (m : Manager)
      → IsKept l m
      → lookup id m.inflight ≡ none
      → ((v : Vm) → lookup id m.vms ≡ some v → v.running ≡ false)
      → IsKept l (record {
        vms = m.vms;
        inflight = insert id (record { consumer = consumer; mem_mb = mem_mb }) m.inflight;
        inflight_mb = m.inflight_mb + mem_mb;
        disk_inflight_mb = m.disk_inflight_mb + disk_mb;
        slots_taken = m.slots_taken + 1;
      })
  admit-IsKept id consumer mem_mb disk_mb m kept fresh idle =
      let new : Launch = record { consumer = consumer; mem_mb = mem_mb } in
      record {
        unique_vms = kept.unique_vms;
        unique_inflight = insert-Unique id new m.inflight kept.unique_inflight;
        promised = omega (arith, kept.promised, launched-insert all_memory id new m.inflight fresh);
        slots = omega (arith, kept.slots, launched-insert any_machine id new m.inflight fresh);
        matching = λ i k v launching its runs.
            ground
              (arith, eq_iff id i, lookup-insert id i new m.inflight, idle v, kept.matching i k v);
      }

  release-IsKept :
      (id : String) (k : Launch) (disk_mb : ℕ) (m : Manager)
      → IsKept l m
      → lookup id m.inflight ≡ some k
      → IsKept l (release id k.mem_mb disk_mb m)
  unfolding release
  release-IsKept id k disk_mb m kept found = record {
    unique_vms = kept.unique_vms;
    unique_inflight = erase-Unique id m.inflight kept.unique_inflight;
    promised = omega (
      arith,
      kept.promised,
      launched-erase all_memory id k m.inflight kept.unique_inflight found,
    );
    slots =
        omega (
          arith,
          kept.slots,
          launched-erase any_machine id k m.inflight kept.unique_inflight found,
        );
    matching = λ i j v launching its runs.
        ground (arith, lookup-erase id i m.inflight, kept.matching i j v);
  }

  start-IsKept :
      (id : String) (k : Launch) (m : Manager)
      → IsKept l m
      → lookup id m.inflight ≡ some k
      → IsKept l (put_vm id (record { running = true; consumer = k.consumer; mem_mb = k.mem_mb }) m)
  unfolding put_vm
  start-IsKept id k m kept found =
      let new : Vm = record { running = true; consumer = k.consumer; mem_mb = k.mem_mb } in
      record {
        unique_vms = insert-Unique id new m.vms kept.unique_vms;
        unique_inflight = kept.unique_inflight;
        promised = kept.promised;
        slots = kept.slots;
        matching = λ i j v launching its runs.
            ground (arith, eq_iff id i, found, lookup-insert id i new m.vms, kept.matching i j v);
      }

  stop-IsKept :
      (id consumer : String) (mem_mb : ℕ) (m : Manager)
      → IsKept l m
      → IsKept l (put_vm id (record { running = false; consumer = consumer; mem_mb = mem_mb }) m)
  unfolding put_vm
  stop-IsKept id consumer mem_mb m kept =
      let new : Vm = record { running = false; consumer = consumer; mem_mb = mem_mb } in
      record {
        unique_vms = insert-Unique id new m.vms kept.unique_vms;
        unique_inflight = kept.unique_inflight;
        promised = kept.promised;
        slots = kept.slots;
        matching = λ i j v launching its runs.
            ground (arith, lookup-insert id i new m.vms, kept.matching i j v);
      }

  forget-IsKept : (id : String) (m : Manager) → IsKept l m → IsKept l (forget_vm id m)
  unfolding forget_vm
  forget-IsKept id m kept = record {
    unique_vms = erase-Unique id m.vms kept.unique_vms;
    unique_inflight = kept.unique_inflight;
    promised = kept.promised;
    slots = kept.slots;
    matching =
        λ i j v launching its runs. ground (arith, lookup-erase id i m.vms, kept.matching i j v);
  }

  pub step-IsKept : (m m' : Manager) → IsKept l m → Step l m m' → IsKept l m'
  unfolding release_disk
  step-IsKept m m' kept (admitted host id consumer mem_mb disk_mb fresh idle) =
      elim (admit_cases l host id consumer mem_mb disk_mb m) [
        | inl same ↦ subst (IsKept l) (sym same) kept
        | inr (passed, new) ↦
            subst (IsKept l) (sym new) (admit-IsKept id consumer mem_mb disk_mb m kept fresh idle)
      ]
  step-IsKept m m' kept (released id k disk_mb found) = release-IsKept id k disk_mb m kept found
  step-IsKept m m' kept (started id k found) = start-IsKept id k m kept found
  step-IsKept m m' kept (stopped id consumer mem_mb) = stop-IsKept id consumer mem_mb m kept
  step-IsKept m m' kept (forgotten id) = forget-IsKept id m kept
  step-IsKept m m' kept (reserved free need_mb) = elim (reserve_disk_cases l free need_mb m) [
    | inl same ↦ subst (IsKept l) (sym same) kept
    | inr new ↦ subst (IsKept l) (sym new) (record {
      unique_vms = kept.unique_vms;
      unique_inflight = kept.unique_inflight;
      promised = kept.promised;
      slots = kept.slots;
      matching = kept.matching;
    })
  ]
  step-IsKept m m' kept (unreserved need_mb) = record {
    unique_vms = kept.unique_vms;
    unique_inflight = kept.unique_inflight;
    promised = kept.promised;
    slots = kept.slots;
    matching = kept.matching;
  }
