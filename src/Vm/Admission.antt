-- ===== src/Vm/Admission.antt =====
-- Admission of launches: admit of internal/vm/lifecycle.go, the quotas of internal/vm/quota.go and
-- the store's reserve of internal/vm/diskguard.go. Sizes are in MB and never negative; a difference
-- that the source compares with a reserve is compared as a sum. A call that waits for a boot slot
-- is one step when it has one, and `no_boot_slot` when its request is cancelled before. What the
-- host answers (free memory, free space) is an argument, none when it cannot be read.
pub mod Load
pub mod Bounded
pub mod Kept
pub mod Restored
pub mod Reach
pub mod Reserve
mod Tests
use micro_hosted.Prelude.{
  ℕ, ◌+◌, ◌-◌, Bool, true, false, not, ◌&&◌, ◌||◌, Option, none, some, List, [], ◌∷◌, String,
  str_eq, ltb, leb, if◌then◌else◌, Dict, lookup, insert, erase, length,
}

-- A zero field is no cap.
pub record Quota : Type 0 where
  pub max_vms : ℕ
  pub max_mem_mb : ℕ

pub record Limits : Type 0 where
  pub mem_reserve_mb : ℕ
  pub max_vms : ℕ
  pub max_parallel_boots : ℕ
  pub disk_reserve_mb : ℕ
  pub quotas : Dict Quota
  pub default_quota : Option Quota

-- The fields of a machine's record that count, and a launch in progress.
pub record Vm : Type 0 where
  pub running : Bool
  pub consumer : String
  pub mem_mb : ℕ

pub record Launch : Type 0 where
  pub consumer : String
  pub mem_mb : ℕ

pub record Manager : Type 0 where
  pub vms : Dict Vm
  pub inflight : Dict Launch
  pub inflight_mb : ℕ
  pub disk_inflight_mb : ℕ
  pub slots_taken : ℕ

pub data Refusal : Type 0 where
  no_boot_slot max_vms_reached vm_quota memory_quota : Refusal
  memory_unknown memory_short disk_unknown disk_short : Refusal

-- `SetLimits`, for the fields that admission reads.
unfoldable pub set_limits : Limits → Limits
set_limits l = record {
  mem_reserve_mb = if ltb 0 l.mem_reserve_mb then l.mem_reserve_mb else 512;
  max_vms = l.max_vms;
  max_parallel_boots = if ltb 0 l.max_parallel_boots then l.max_parallel_boots else 4;
  disk_reserve_mb = if ltb 0 l.disk_reserve_mb then l.disk_reserve_mb else 1024;
  quotas = l.quotas;
  default_quota = l.default_quota;
}

abbrev is_present : Option Launch → Bool
is_present none = false
is_present (some _) = true

abbrev pub is_launching : String → Dict Launch → Bool
is_launching id inflight = is_present (lookup id inflight)

-- `quotaForLocked`.
unfoldable pub quota_for : Limits → String → Option Quota
quota_for l consumer =
    if str_eq consumer ""
    then none
    else elim (lookup consumer l.quotas) [ none ↦ l.default_quota | some q ↦ some q ]

-- The two loops of `usageLocked`: machines, then their memory.
unfoldable pub held_by_running : String → Dict Launch → Dict Vm → ℕ × ℕ
held_by_running consumer inflight [] = (0, 0)
held_by_running consumer inflight ((id, v) ∷ rest) =
    let held = held_by_running consumer inflight rest in
    if is_launching id inflight
    then held
    else if v.running && str_eq v.consumer consumer
    then (held.0 + 1, held.1 + v.mem_mb)
    else held

unfoldable pub held_by_launches : String → Dict Launch → ℕ × ℕ
held_by_launches consumer [] = (0, 0)
held_by_launches consumer ((id, l) ∷ rest) =
    let held = held_by_launches consumer rest in
    if str_eq l.consumer consumer then (held.0 + 1, held.1 + l.mem_mb) else held

unfoldable pub usage : String → Manager → ℕ × ℕ
usage consumer m =
    let running = held_by_running consumer m.inflight m.vms in
    let launching = held_by_launches consumer m.inflight in
    (running.0 + launching.0, running.1 + launching.1)

-- The checks of admission: the refusal, or none to go on.
abbrev pub over_quota : Quota → ℕ × ℕ → ℕ → Option Refusal
over_quota q held mem_mb =
    if ltb 0 q.max_vms && ltb q.max_vms (held.0 + 1)
    then some vm_quota
    else if ltb 0 q.max_mem_mb && ltb q.max_mem_mb (held.1 + mem_mb)
    then some memory_quota
    else none

unfoldable pub check_quota : Limits → String → ℕ → Manager → Option Refusal
check_quota l consumer mem_mb m = elim (quota_for l consumer) [
  | none ↦ none
  | some q ↦ over_quota q (usage consumer m) mem_mb
]

unfoldable pub live_running : Dict Launch → Dict Vm → ℕ
live_running inflight [] = 0
live_running inflight ((id, v) ∷ rest) =
    let live = live_running inflight rest in
    if v.running && not (is_launching id inflight) then live + 1 else live

unfoldable pub check_max_vms : Limits → Manager → Option Refusal
check_max_vms l m =
    if ltb 0 l.max_vms && leb l.max_vms (length m.inflight + live_running m.inflight m.vms)
    then some max_vms_reached
    else none

unfoldable pub check_memory : Limits → Option ℕ → ℕ → Manager → Option Refusal
check_memory l none mem_mb m = some memory_unknown
check_memory l (some avail) mem_mb m =
    if ltb avail (m.inflight_mb + mem_mb + l.mem_reserve_mb) then some memory_short else none

-- `checkDiskLocked`.
unfoldable pub check_disk : Limits → Option ℕ → ℕ → Manager → Option Refusal
check_disk l none need_mb m = some disk_unknown
check_disk l (some free) need_mb m =
    if ltb free (m.disk_inflight_mb + need_mb + l.disk_reserve_mb) then some disk_short else none

abbrev pub or_else : Option Refusal → Option Refusal → Option Refusal
or_else none later = later
or_else (some r) later = some r

abbrev check_slot : Limits → Manager → Option Refusal
check_slot l m = if ltb m.slots_taken l.max_parallel_boots then none else some no_boot_slot

-- What the host answers: MemAvailable, and the free space of the store.
pub record Host : Type 0 where
  pub avail_mb : Option ℕ
  pub free_mb : Option ℕ

unfoldable pub refusal : Limits → Host → String → ℕ → ℕ → Manager → Option Refusal
unfolding check_quota check_max_vms check_memory check_disk
refusal l host consumer mem_mb disk_mb m = or_else (check_slot l m) (
    or_else (check_max_vms l m) (
      or_else (check_quota l consumer mem_mb m)
        (or_else (check_memory l host.avail_mb mem_mb m) (check_disk l host.free_mb disk_mb m))))

-- The error, none for a launch that is admitted. A refusal gives the boot slot back.
abbrev pub settle : Option Refusal → String → String → ℕ → ℕ → Manager → Option Refusal × Manager
settle (some r) id consumer mem_mb disk_mb m = (some r, m)
settle none id consumer mem_mb disk_mb m = (
  none,
  record {
    vms = m.vms;
    inflight = insert id (record { consumer = consumer; mem_mb = mem_mb }) m.inflight;
    inflight_mb = m.inflight_mb + mem_mb;
    disk_inflight_mb = m.disk_inflight_mb + disk_mb;
    slots_taken = m.slots_taken + 1;
  },
)

unfoldable pub admit : Limits → Host → String → String → ℕ → ℕ → Manager → Option Refusal × Manager
admit l host id consumer mem_mb disk_mb m =
    settle (refusal l host consumer mem_mb disk_mb m) id consumer mem_mb disk_mb m

-- The `release` that admit returns, for its id and amounts.
unfoldable pub release : String → ℕ → ℕ → Manager → Manager
release id mem_mb disk_mb m = record {
  vms = m.vms;
  inflight = erase id m.inflight;
  inflight_mb = m.inflight_mb - mem_mb;
  disk_inflight_mb = m.disk_inflight_mb - disk_mb;
  slots_taken = m.slots_taken - 1;
}

-- `reserveDisk` and its release.
unfoldable pub reserve_disk : Limits → Option ℕ → ℕ → Manager → Option Refusal × Manager
reserve_disk l free need_mb m = elim (check_disk l free need_mb m) [
  | some r ↦ (some r, m)
  | none ↦ (
    none,
    record {
      vms = m.vms;
      inflight = m.inflight;
      inflight_mb = m.inflight_mb;
      disk_inflight_mb = m.disk_inflight_mb + need_mb;
      slots_taken = m.slots_taken;
    },
  )
]

unfoldable pub release_disk : ℕ → Manager → Manager
release_disk need_mb m = record {
  vms = m.vms;
  inflight = m.inflight;
  inflight_mb = m.inflight_mb;
  disk_inflight_mb = m.disk_inflight_mb - need_mb;
  slots_taken = m.slots_taken;
}

-- A machine's record, written by the operations that start, stop and forget machines.
unfoldable pub put_vm : String → Vm → Manager → Manager
put_vm id v m = record {
  vms = insert id v m.vms;
  inflight = m.inflight;
  inflight_mb = m.inflight_mb;
  disk_inflight_mb = m.disk_inflight_mb;
  slots_taken = m.slots_taken;
}

unfoldable pub forget_vm : String → Manager → Manager
forget_vm id m = record {
  vms = erase id m.vms;
  inflight = m.inflight;
  inflight_mb = m.inflight_mb;
  disk_inflight_mb = m.disk_inflight_mb;
  slots_taken = m.slots_taken;
}
