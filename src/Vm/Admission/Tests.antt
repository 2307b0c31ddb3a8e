-- ===== src/Vm/Admission/Tests.antt =====
-- A host with one consumer at its quota.
use micro_hosted.Prelude.{
  ◌≤◌, ◌≡◌, refl, none, some, [], ◌∷◌, arith, lookup, insert, erase, String, false,
}
use micro_hosted.Vm.Admission.{
  Quota, Limits, Launch, Vm, release, put_vm, Manager, Host, vm_quota, memory_short, admit, refusal,
  quota_for, usage, check_quota, check_max_vms, check_memory, check_disk, held_by_running,
  held_by_launches, live_running,
}
use micro_hosted.Vm.Admission.Bounded.{admitted, started, released, stopped}
use micro_hosted.Vm.Admission.Load.{launched}
use micro_hosted.Vm.Admission.Restored.{running_vm}
use micro_hosted.Vm.Admission.Reach.{Reach, fresh, next, restored, Reach-WithinLimits}
use micro_hosted.Vm.Admission.Reserve.{Outcome, admit_lem}

abbrev one_vm : Quota
one_vm = record { max_vms = 1; max_mem_mb = 0 }

abbrev limits : Limits
limits = record {
  mem_reserve_mb = 512;
  max_vms = 10;
  max_parallel_boots = 4;
  disk_reserve_mb = 1024;
  quotas = ("orch", one_vm) ∷ [];
  default_quota = none;
}

abbrev host : Host
host = record { avail_mb = some 4096; free_mb = some 9000 }

abbrev idle : Manager
idle = record { vms = []; inflight = []; inflight_mb = 0; disk_inflight_mb = 0; slots_taken = 0 }

abbrev one_launch : Manager
one_launch = (admit limits host "a" "orch" 128 0 idle).1

at_quota : (admit limits host "b" "orch" 128 0 one_launch).0 ≡ some vm_quota
unfolding admit refusal check_quota check_max_vms quota_for usage held_by_running held_by_launches
    live_running lookup insert
at_quota = refl

short : (admit limits host "b" "" 4000 0 idle).0 ≡ some memory_short
unfolding admit refusal check_quota check_max_vms check_memory quota_for live_running
short = refl

-- A machine of a consumer with room for one stops to be restored, another is launched in between,
-- and the first is put back.
abbrev one : Launch
one = record { consumer = "orch"; mem_mb = 128 }

abbrev stopped_vm : Vm
stopped_vm = record { running = false; consumer = "orch"; mem_mb = 128 }

abbrev launched_whole : String → Manager → Manager
launched_whole id m =
    release id 128 0 (put_vm id (running_vm one) (admit limits host id "orch" 128 0 m).1)

abbrev restoring : Manager
restoring = put_vm "a" stopped_vm (launched_whole "a" idle)

abbrev second_launched : Manager
second_launched = launched_whole "b" restoring

abbrev put_back : Manager
put_back = put_vm "a" (running_vm one) second_launched

put_back-Reach : Reach limits (("a", one) ∷ []) put_back
unfolding lookup insert erase put_vm release admit refusal check_quota check_max_vms check_memory
    check_disk quota_for usage held_by_running held_by_launches live_running
put_back-Reach =
    restored "a" one stopped_vm
      (next
        (next
          (next
            (next
              (next
                (next (next fresh (admitted host "a" "orch" 128 0 refl (λ v h. cc h)))
                  (started "a" one refl))
                (released "a" one 0 refl))
              (stopped "a" "orch" 128))
            (admitted host "b" "orch" 128 0 refl (λ v h. cc h)))
          (started "b" one refl))
        (released "b" one 0 refl))
      refl refl refl

-- Two machines, where the quota is one.
over_quota : (usage "orch" put_back).0 ≡ 2
unfolding lookup insert erase put_vm release admit refusal check_quota check_max_vms check_memory
    check_disk quota_for usage held_by_running held_by_launches live_running
over_quota = refl

Reach-WithinLimits_example : (usage "orch" put_back).0 ≤ 2
unfolding quota_for launched lookup
Reach-WithinLimits_example =
    ((Reach-WithinLimits limits (("a", one) ∷ []) put_back put_back-Reach).0 "orch" one_vm refl).0
      (omega arith)

admit_lem_example : Outcome limits host "a" "orch" 128 0 idle (none, one_launch)
unfolding admit refusal check_quota check_max_vms check_memory check_disk quota_for usage
    held_by_running held_by_launches live_running lookup
admit_lem_example = admit_lem limits host "a" "orch" 128 0 idle
