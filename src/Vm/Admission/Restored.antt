-- ===== src/Vm/Admission/Restored.antt =====
-- The machines that Restore (internal/vm/manager.go) has put back. A restore of a running machine
-- stops it, lets go of the mutex, and starts it again later without admitting it.
use micro_hosted.Prelude.{
  ℕ, ◌+◌, ◌≤◌, ◌≡◌, ◌⊎◌, sym, ap, ◌∙◌, subst, refl, true, false, none, some, String, lookup, insert,
  erase, Dict, Unique, insert-Unique, erase-Unique, lookup-insert, lookup-erase, eq_iff, arith,
  Option-cases, inl, inr, if◌then◌else◌,
}
use micro_hosted.Vm.Admission.{
  Limits, Vm, Launch, Manager, release, release_disk, put_vm, forget_vm, is_launching,
}
use micro_hosted.Vm.Admission.Load.{
  Weight, launched, running, load, erase_absent, launched-erase, launched-insert,
  running-replace_vm, weight_at,
}
use micro_hosted.Vm.Admission.Bounded.{
  IsKept, Step, admitted, released, started, stopped, forgotten, reserved, unreserved, admit_cases,
  reserve_disk-same,
}

abbrev pub running_vm : Launch → Vm
running_vm k = record { running = true; consumer = k.consumer; mem_mb = k.mem_mb }

-- A machine that has been put back, runs, and is in no launch.
abbrev pub AreBack : Dict Launch → Manager → Type 0
AreBack back m =
    Unique back
    × ((id : String) (k : Launch)
        → lookup id back ≡ some k
        → (lookup id m.vms ≡ some (running_vm k)) × (lookup id m.inflight ≡ none))

module _ (l : Limits) where
  -- Those that are left after a step.
  abbrev pub left_back : {m m' : Manager} → Step l m m' → Dict Launch → Dict Launch
  left_back (stopped id consumer mem_mb) back = erase id back
  left_back (forgotten id) back = erase id back
  left_back (admitted host id consumer mem_mb disk_mb fresh idle) back = back
  left_back (released id k disk_mb found) back = back
  left_back (started id k found) back = back
  left_back (reserved free need_mb) back = back
  left_back (unreserved need_mb) back = back

  erased-AreBack :
      (id : String) (back : Dict Launch) (m m' : Manager)
      → AreBack back m
      → m'.inflight ≡ m.inflight
      → ((j : String) → (lookup j m'.vms ≡ lookup j m.vms) ⊎ (id ≡ j))
      → AreBack (erase id back) m'
  erased-AreBack id back m m' (unique, runs) same others = (
    erase-Unique id back unique,
    λ j k held.
        let in_back : lookup j back ≡ some k = ground (arith, held, lookup-erase id j back) in
        let (here, idle) = runs j k in_back in
        elim (others j) [
          | inl kept ↦ (kept ∙ here, ap (lookup j) same ∙ idle)
          | inr its ↦ absurd (ground (arith, held, lookup-erase id j back, eq_iff id j, its))
        ],
  )

  put_elsewhere :
      (id : String) (v : Vm) (m : Manager) (j : String)
      → (lookup j (insert id v m.vms) ≡ lookup j m.vms) ⊎ (id ≡ j)
  put_elsewhere id v m j = ground (arith, lookup-insert id j v m.vms, eq_iff id j)

  erase_elsewhere :
      (id : String) (m : Manager) (j : String)
      → (lookup j (erase id m.vms) ≡ lookup j m.vms) ⊎ (id ≡ j)
  erase_elsewhere id m j = ground (arith, lookup-erase id j m.vms, eq_iff id j)

  pub step-AreBack :
      (m m' : Manager) (back : Dict Launch) (st : Step l m m')
      → AreBack back m
      → AreBack (left_back st back) m'
  unfolding release put_vm forget_vm release_disk
  step-AreBack m m' back (admitted host id consumer mem_mb disk_mb fresh idle) (unique, runs) =
      elim (admit_cases l host id consumer mem_mb disk_mb m) [
        | inl same ↦ subst (AreBack back) (sym same) (unique, runs)
        | inr (passed, new) ↦ subst (AreBack back) (sym new) (
          unique,
          λ j k held.
              let (here, free) = runs j k held in
              (
                here,
                ground (
                  arith,
                  free,
                  lookup-insert id j (record { consumer = consumer; mem_mb = mem_mb }) m.inflight,
                  eq_iff id j,
                  idle (running_vm k),
                  here,
                  ap (λ i. lookup i m.vms) {x = id} {y = j},
                ),
              ),
        )
      ]
  step-AreBack m m' back (released id k disk_mb found) (unique, runs) = (
    unique,
    λ j v held.
        let (here, free) = runs j v held in
        (here, ground (arith, free, lookup-erase id j m.inflight)),
  )
  step-AreBack m m' back (started id k found) (unique, runs) = (
    unique,
    λ j v held.
        let (here, free) = runs j v held in
        (
          ground (
            arith,
            here,
            free,
            found,
            lookup-insert id j (running_vm k) m.vms,
            eq_iff id j,
            ap (λ i. lookup i m.inflight) {x = id} {y = j},
          ),
          free,
        ),
  )
  step-AreBack m m' back (stopped id consumer mem_mb) are =
      erased-AreBack id back m
        (put_vm id (record { running = false; consumer = consumer; mem_mb = mem_mb }) m) are refl
        (put_elsewhere id (record { running = false; consumer = consumer; mem_mb = mem_mb }) m)
  step-AreBack m m' back (forgotten id) are =
      erased-AreBack id back m (forget_vm id m) are refl (erase_elsewhere id m)
  step-AreBack m m' back (reserved free need_mb) (unique, runs) =
      let same = reserve_disk-same l free need_mb m in
      (
        unique,
        λ j v held.
            let (here, idle) = runs j v held in
            (ap (lookup j) same.0 ∙ here, ap (lookup j) same.1.0 ∙ idle),
      )
  step-AreBack m m' back (unreserved need_mb) are = are

  -- A machine goes, put back or not.
  pub lighter_gone :
      (id : String) (back : Dict Launch) (m : Manager) (w : Weight) (after : ℕ)
      → AreBack back m
      → after + (if is_launching id m.inflight then 0 else weight_at w (lookup id m.vms))
        ≤ running w m.inflight m.vms
      → (launched w m.inflight + after) + launched w back ≤ load w m + launched w (erase id back)
  lighter_gone id back m w after (unique, runs) less = elim (Option-cases (lookup id back)) [
    | inl absent ↦ omega (arith, erase_absent w id back absent, less)
    | inr (k, held) ↦
        let (here, free) = runs id k held in
        let gone = launched-erase w id k back unique held in
        let whole : after + w k.consumer k.mem_mb ≤ running w m.inflight m.vms =
          subst (λ o. after + weight_at w o ≤ running w m.inflight m.vms) here
            (ground (arith, less, free)) in
        omega (arith, gone, whole)
  ]

  module _ (id : String) (k : Launch) (back : Dict Launch) (m : Manager) (found : Vm)
      (held : lookup id m.vms ≡ some found) (idle : found.running ≡ false)
      (free : lookup id m.inflight ≡ none) where
    not_back : AreBack back m → lookup id back ≡ none
    not_back (unique, runs) = elim (Option-cases (lookup id back)) [
      | inl absent ↦ absent
      | inr (j, there) ↦
          let (here, _) = runs id j there in
          let same : found ≡ running_vm j = cc (held, here) in
          absurd (ground (arith, idle, ap (λ x. x.running) same))
    ]

    pub restored-AreBack : AreBack back m → AreBack (insert id k back) (put_vm id (running_vm k) m)
    unfolding put_vm
    restored-AreBack (unique, runs) = (
      insert-Unique id k back unique,
      λ j v there. ground (
        arith,
        there,
        runs j v,
        free,
        lookup-insert id j k back,
        lookup-insert id j (running_vm k) m.vms,
        eq_iff id j,
        ap (λ i. lookup i m.inflight) {x = id} {y = j},
        ap running_vm {x = k} {y = v},
      ),
    )

    pub restored_load :
        (w : Weight)
        → AreBack back m
        → load w (put_vm id (running_vm k) m) + launched w back
          ≤ load w m + launched w (insert id k back)
    unfolding put_vm
    restored_load w are = ground (
      arith,
      launched-insert w id k back (not_back are),
      running-replace_vm w id (running_vm k) m.inflight m.vms,
      free,
    )

    pub restored-IsKept : IsKept l m → IsKept l (put_vm id (running_vm k) m)
    unfolding put_vm
    restored-IsKept kept = record {
      unique_vms = insert-Unique id (running_vm k) m.vms kept.unique_vms;
      unique_inflight = kept.unique_inflight;
      promised = kept.promised;
      slots = kept.slots;
      matching = λ i j v launching its runs. ground (
        arith,
        eq_iff id i,
        free,
        launching,
        lookup-insert id i (running_vm k) m.vms,
        kept.matching i j v,
        ap (λ x. lookup x m.inflight) {x = id} {y = i},
      );
    }
