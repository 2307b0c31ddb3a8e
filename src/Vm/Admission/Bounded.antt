-- ===== src/Vm/Admission/Bounded.antt =====
-- The steps of admission (launches, stops, reservations of disk), and its invariants.
use micro_hosted.Prelude.{
  ℕ, ◌+◌, ◌≤◌, ◌<◌, true, false, ◌≡◌, ◌∙◌, Option, none, some, String, str_eq, eq_iff, lookup,
  insert, Dict, Unique, arith, Option-cases, Bool-cases, inl, inr, ap, ◌⊎◌,
}
use micro_hosted.Vm.Admission.{
  Quota, Limits, Vm, Launch, Manager, Host, quota_for, refusal, admit, release, reserve_disk,
  release_disk, put_vm, forget_vm, check_disk, check_quota, check_max_vms,
}
use micro_hosted.Vm.Admission.Load.{
  Weight, launched, running, load, machines_of, memory_of, any_machine, all_memory, usage-load,
  live_load, launched-insert, launched-erase, running-insert_launch, running-erase_launch,
}

module _ (l : Limits) where
  -- What is promised stays within the limits, but for the machines that a restore has put back.
  pub record IsBounded (back : Dict Launch) (m : Manager) : Type 0 where
    pub quotas :
        (c : String) (q : Quota)
        → quota_for l c ≡ some q
        → (0 < q.max_vms → load (machines_of c) m ≤ q.max_vms + launched (machines_of c) back)
          × (0 < q.max_mem_mb → load (memory_of c) m ≤ q.max_mem_mb + launched (memory_of c) back)
    pub cap : 0 < l.max_vms → load any_machine m ≤ l.max_vms + launched any_machine back
    pub boots : m.slots_taken ≤ l.max_parallel_boots

  -- The manager's own books.
  pub record IsKept (m : Manager) : Type 0 where
    pub unique_vms : Unique m.vms
    pub unique_inflight : Unique m.inflight
    pub promised : m.inflight_mb ≡ launched all_memory m.inflight
    pub slots : m.slots_taken ≡ launched any_machine m.inflight
    pub matching :
        (id : String) (k : Launch) (v : Vm)
        → lookup id m.inflight ≡ some k
        → lookup id m.vms ≡ some v
        → v.running ≡ true
        → (v.consumer ≡ k.consumer) × (v.mem_mb ≡ k.mem_mb)

  -- One operation, with what its caller has made sure of, and the manager after it.
  pub data Step (m : Manager) : Manager → Type 0 where
    admitted :
        (host : Host) (id consumer : String) (mem_mb disk_mb : ℕ)
        → lookup id m.inflight ≡ none
        → ((v : Vm) → lookup id m.vms ≡ some v → v.running ≡ false)
        → Step m ((admit l host id consumer mem_mb disk_mb m).1)
    released :
        (id : String) (k : Launch) (disk_mb : ℕ)
        → lookup id m.inflight ≡ some k
        → Step m (release id k.mem_mb disk_mb m)
    started :
        (id : String) (k : Launch)
        → lookup id m.inflight ≡ some k
        → Step m (put_vm id (record { running = true; consumer = k.consumer; mem_mb = k.mem_mb }) m)
    stopped :
        (id consumer : String) (mem_mb : ℕ)
        → Step m (put_vm id (record { running = false; consumer = consumer; mem_mb = mem_mb }) m)
    forgotten : (id : String) → Step m (forget_vm id m)
    reserved : (free : Option ℕ) (need_mb : ℕ) → Step m ((reserve_disk l free need_mb m).1)
    unreserved : (need_mb : ℕ) → Step m (release_disk need_mb m)

  -- Whether a launch was refused, and what an admission adds.
  pub admit_cases :
      (host : Host) (id consumer : String) (mem_mb disk_mb : ℕ) (m : Manager)
      → ((admit l host id consumer mem_mb disk_mb m).1 ≡ m)
        ⊎ ((refusal l host consumer mem_mb disk_mb m ≡ none)
            × ((admit l host id consumer mem_mb disk_mb m).1 ≡ record {
              vms = m.vms;
              inflight = insert id (record { consumer = consumer; mem_mb = mem_mb }) m.inflight;
              inflight_mb = m.inflight_mb + mem_mb;
              disk_inflight_mb = m.disk_inflight_mb + disk_mb;
              slots_taken = m.slots_taken + 1;
            }))
  unfolding admit
  admit_cases host id consumer mem_mb disk_mb m =
      elim (Option-cases (refusal l host consumer mem_mb disk_mb m)) [
        | inl none_found ↦ inr (none_found, ground (arith, none_found))
        | inr (r, found) ↦ inl (ground (arith, found))
      ]

  pub load-release :
      (id : String) (k : Launch) (disk_mb : ℕ) (m : Manager) (w : Weight)
      → IsKept m
      → lookup id m.inflight ≡ some k
      → load w (release id k.mem_mb disk_mb m) ≤ load w m
  unfolding release
  load-release id k disk_mb m w kept found =
      let gone = launched-erase w id k m.inflight kept.unique_inflight found in
      let more = running-erase_launch w id m.inflight m.vms kept.unique_vms in
      elim (Option-cases (lookup id m.vms)) [
        | inl no_vm ↦ ground (arith, gone, more, no_vm)
        | inr (v, its) ↦ ground (arith, gone, more, its, kept.matching id k v found its, ap w)
      ]

  admit_load :
      (id consumer : String) (mem_mb : ℕ) (m : Manager) (w : Weight)
      → lookup id m.inflight ≡ none
      → launched w (insert id (record { consumer = consumer; mem_mb = mem_mb }) m.inflight)
          + running w (insert id (record { consumer = consumer; mem_mb = mem_mb }) m.inflight) m.vms
        ≤ load w m + w consumer mem_mb
  admit_load id consumer mem_mb m w fresh =
      let new : Launch = record { consumer = consumer; mem_mb = mem_mb } in
      omega (
        arith,
        launched-insert w id new m.inflight fresh,
        running-insert_launch w id new m.inflight m.vms,
      )

  refusal_checks :
      (host : Host) (consumer : String) (mem_mb disk_mb : ℕ) (m : Manager)
      → refusal l host consumer mem_mb disk_mb m ≡ none
      → (check_max_vms l m ≡ none)
        × ((check_quota l consumer mem_mb m ≡ none) × (m.slots_taken + 1 ≤ l.max_parallel_boots))
  unfolding refusal
  refusal_checks host consumer mem_mb disk_mb m h = ground arith

  quota_fits :
      (consumer : String) (mem_mb : ℕ) (m : Manager) (q : Quota)
      → check_quota l consumer mem_mb m ≡ none
      → quota_for l consumer ≡ some q
      → (0 < q.max_vms → load (machines_of consumer) m + 1 ≤ q.max_vms)
        × (0 < q.max_mem_mb → load (memory_of consumer) m + mem_mb ≤ q.max_mem_mb)
  unfolding check_quota
  quota_fits consumer mem_mb m q h has = ground (arith, usage-load consumer m)

  cap_fits :
      (m : Manager) → check_max_vms l m ≡ none → 0 < l.max_vms → load any_machine m + 1 ≤ l.max_vms
  unfolding check_max_vms
  cap_fits m h some_cap = ground (arith, live_load m)

  pub admit-IsBounded :
      (back : Dict Launch) (host : Host) (id consumer : String) (mem_mb disk_mb : ℕ) (m : Manager)
      → IsBounded back m
      → lookup id m.inflight ≡ none
      → refusal l host consumer mem_mb disk_mb m ≡ none
      → IsBounded back (record {
        vms = m.vms;
        inflight = insert id (record { consumer = consumer; mem_mb = mem_mb }) m.inflight;
        inflight_mb = m.inflight_mb + mem_mb;
        disk_inflight_mb = m.disk_inflight_mb + disk_mb;
        slots_taken = m.slots_taken + 1;
      })
  admit-IsBounded back host id consumer mem_mb disk_mb m bounded fresh passed =
      let checks = refusal_checks host consumer mem_mb disk_mb m passed in
      record {
        quotas = λ c q has. elim (Bool-cases (str_eq consumer c)) [
          | inl same ↦
              let e = (eq_iff consumer c).0 same in
              let fits = quota_fits consumer mem_mb m q checks.1.0 (ap (quota_for l) e ∙ has) in
              ground (
                arith,
                same,
                e,
                fits,
                ap (λ d. load (machines_of d) m) e,
                ap (λ d. load (memory_of d) m) e,
                admit_load id consumer mem_mb m (machines_of c) fresh,
                admit_load id consumer mem_mb m (memory_of c) fresh,
              )
          | inr other ↦ ground (
            arith,
            other,
            bounded.quotas c q has,
            admit_load id consumer mem_mb m (machines_of c) fresh,
            admit_load id consumer mem_mb m (memory_of c) fresh,
          )
        ];
        cap = λ capped.
            omega (
              arith,
              cap_fits m checks.0 capped,
              admit_load id consumer mem_mb m any_machine fresh,
            );
        boots = checks.1.1;
      }

  pub lighter-IsBounded :
      (back back' : Dict Launch) (m m' : Manager)
      → IsBounded back m
      → ((w : Weight) → load w m' + launched w back ≤ load w m + launched w back')
      → m'.slots_taken ≤ m.slots_taken
      → IsBounded back' m'
  lighter-IsBounded back back' m m' bounded lighter slots = record {
    quotas = λ c q has.
        ground (arith, bounded.quotas c q has, lighter (machines_of c), lighter (memory_of c));
    cap = λ capped. omega (arith, bounded.cap capped, lighter any_machine);
    boots = omega (arith, bounded.boots, slots);
  }

  pub reserve_disk-same :
      (free : Option ℕ) (need_mb : ℕ) (m : Manager)
      → (((reserve_disk l free need_mb m).1).vms ≡ m.vms)
        × ((((reserve_disk l free need_mb m).1).inflight ≡ m.inflight)
            × ((((reserve_disk l free need_mb m).1).inflight_mb ≡ m.inflight_mb)
                × (((reserve_disk l free need_mb m).1).slots_taken ≡ m.slots_taken)))
  unfolding reserve_disk
  reserve_disk-same free need_mb m = ground arith

  pub reserve_disk_cases :
      (free : Option ℕ) (need_mb : ℕ) (m : Manager)
      → ((reserve_disk l free need_mb m).1 ≡ m)
        ⊎ ((reserve_disk l free need_mb m).1 ≡ record {
          vms = m.vms;
          inflight = m.inflight;
          inflight_mb = m.inflight_mb;
          disk_inflight_mb = m.disk_inflight_mb + need_mb;
          slots_taken = m.slots_taken;
        })
  unfolding reserve_disk
  reserve_disk_cases free need_mb m = elim (Option-cases (check_disk l free need_mb m)) [
    | inl passed ↦ inr (ground (arith, passed))
    | inr (r, refused) ↦ inl (ground (arith, refused))
  ]
