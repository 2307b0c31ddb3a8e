-- ===== src/Vm/Admission/Reserve.antt =====
-- What an admission leaves of the host.
use micro_hosted.Prelude.{
  ℕ, ◌+◌, ◌-◌, ◌≤◌, ◌≡◌, refl, Option, none, some, String, lookup, erase, arith, eq_iff,
  lookup-insert,
}
use micro_hosted.Vm.Admission.{
  Limits, Launch, Manager, Host, Refusal, refusal, admit, settle, release, check_memory, check_disk,
}

add_back : (a b : ℕ) → a + b - b ≡ a
add_back a b = omega arith

memory_leaves :
    (l : Limits) (avail : Option ℕ) (mem_mb : ℕ) (m : Manager)
    → check_memory l avail mem_mb m ≡ none
    → (a : ℕ) × ((avail ≡ some a) × (m.inflight_mb + mem_mb + l.mem_reserve_mb ≤ a))
unfolding check_memory
memory_leaves l none mem_mb m h = cc h
memory_leaves l (some a) mem_mb m h = (a, (refl, ground arith))

disk_leaves :
    (l : Limits) (free : Option ℕ) (need_mb : ℕ) (m : Manager)
    → check_disk l free need_mb m ≡ none
    → (f : ℕ) × ((free ≡ some f) × (m.disk_inflight_mb + need_mb + l.disk_reserve_mb ≤ f))
unfolding check_disk
disk_leaves l none need_mb m h = cc h
disk_leaves l (some f) need_mb m h = (f, (refl, ground arith))

room_checked :
    (l : Limits) (host : Host) (consumer : String) (mem_mb disk_mb : ℕ) (m : Manager)
    → refusal l host consumer mem_mb disk_mb m ≡ none
    → (check_memory l host.avail_mb mem_mb m ≡ none) × (check_disk l host.free_mb disk_mb m ≡ none)
unfolding refusal
room_checked l host consumer mem_mb disk_mb m h = ground arith

module _ (l : Limits) (host : Host) (id consumer : String) (mem_mb disk_mb : ℕ) (m : Manager) where
  -- The room that is left after an admission, and what it registers; after a refusal, nothing.
  pub Outcome : Option Refusal × Manager → Type 0
  Outcome (none, after) =
      ((avail : ℕ) × ((host.avail_mb ≡ some avail)
          × (after.inflight_mb + l.mem_reserve_mb ≤ avail)))
      × (((free : ℕ) × ((host.free_mb ≡ some free)
              × (after.disk_inflight_mb + l.disk_reserve_mb ≤ free)))
          × ((lookup id after.inflight ≡ some (record { consumer = consumer; mem_mb = mem_mb }))
              × (release id mem_mb disk_mb after ≡ record {
                vms = m.vms;
                inflight = erase id after.inflight;
                inflight_mb = m.inflight_mb;
                disk_inflight_mb = m.disk_inflight_mb;
                slots_taken = m.slots_taken;
              })))
  Outcome (some r, after) = after ≡ m

  granted :
      refusal l host consumer mem_mb disk_mb m ≡ none
      → Outcome (settle none id consumer mem_mb disk_mb m)
  unfolding Outcome release
  granted passed =
      let room = room_checked l host consumer mem_mb disk_mb m passed in
      let (avail, (reads, fits)) = memory_leaves l host.avail_mb mem_mb m room.0 in
      let (free, (sees, leaves)) = disk_leaves l host.free_mb disk_mb m room.1 in
      let new : Launch = record { consumer = consumer; mem_mb = mem_mb } in
      (
        (avail, (reads, omega (arith, fits))),
        (
          (free, (sees, omega (arith, leaves))),
          (
            ground (arith, lookup-insert id id new m.inflight, eq_iff id id),
            cc (
              add_back m.inflight_mb mem_mb,
              add_back m.disk_inflight_mb disk_mb,
              add_back m.slots_taken 1,
            ),
          ),
        ),
      )

  settled :
      (o : Option Refusal)
      → refusal l host consumer mem_mb disk_mb m ≡ o
      → Outcome (settle o id consumer mem_mb disk_mb m)
  unfolding Outcome
  settled none passed = granted passed
  settled (some r) refused = refl

  -- A launch is admitted only when the host's memory and the store's free space could be read, and
  -- what is then promised to launches and to writes leaves both reserves; it is registered under
  -- its id with its consumer and memory, and its release takes back the promises and the boot slot.
  -- A refused launch changes nothing.
  pub admit_lem : Outcome (admit l host id consumer mem_mb disk_mb m)
  unfolding admit
  admit_lem = settled (refusal l host consumer mem_mb disk_mb m) refl
