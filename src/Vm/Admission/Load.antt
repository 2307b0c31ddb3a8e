-- ===== src/Vm/Admission/Load.antt =====
-- What machines and launches hold together, for any weight of a consumer and a size: the number of
-- machines, their memory, or those of one consumer.
use micro_hosted.Prelude.{
  ℕ, ◌+◌, ◌≤◌, ◌≡◌, refl, Option, none, some, [], ◌∷◌, String, str_eq, eq_iff, if◌then◌else◌, Dict,
  lookup, insert, erase, Unique, length, arith, lookup-insert, lookup-erase,
}
use micro_hosted.Vm.Admission.{
  Vm, Launch, Manager, is_launching, held_by_running, held_by_launches, usage, live_running,
}

abbrev pub Weight : Type 0
Weight = String → ℕ → ℕ

unfoldable pub launched : Weight → Dict Launch → ℕ
launched w [] = 0
launched w ((id, l) ∷ rest) = w l.consumer l.mem_mb + launched w rest

abbrev pub weight_of : Weight → Vm → ℕ
weight_of w v = if v.running then w v.consumer v.mem_mb else 0

unfoldable pub running : Weight → Dict Launch → Dict Vm → ℕ
running w inflight [] = 0
running w inflight ((id, v) ∷ rest) =
    (if is_launching id inflight then 0 else weight_of w v) + running w inflight rest

abbrev pub load : Weight → Manager → ℕ
load w m = launched w m.inflight + running w m.inflight m.vms

abbrev pub machines_of : String → Weight
machines_of c consumer mem_mb = if str_eq consumer c then 1 else 0

abbrev pub memory_of : String → Weight
memory_of c consumer mem_mb = if str_eq consumer c then mem_mb else 0

abbrev pub any_machine : Weight
any_machine consumer mem_mb = 1

abbrev pub all_memory : Weight
all_memory consumer mem_mb = mem_mb

-- The source's counts are such loads.
held_by_running_load :
    (c : String) (inflight : Dict Launch) (vms : Dict Vm)
    → ((held_by_running c inflight vms).0 ≡ running (machines_of c) inflight vms)
      × ((held_by_running c inflight vms).1 ≡ running (memory_of c) inflight vms)
unfolding held_by_running running
held_by_running_load c inflight [] = (refl, refl)
held_by_running_load c inflight ((id, v) ∷ rest) =
    ground (arith, held_by_running_load c inflight rest)

held_by_launches_load :
    (c : String) (inflight : Dict Launch)
    → ((held_by_launches c inflight).0 ≡ launched (machines_of c) inflight)
      × ((held_by_launches c inflight).1 ≡ launched (memory_of c) inflight)
unfolding held_by_launches launched
held_by_launches_load c [] = (refl, refl)
held_by_launches_load c ((id, l) ∷ rest) = ground (arith, held_by_launches_load c rest)

pub usage-load :
    (c : String) (m : Manager)
    → ((usage c m).0 ≡ load (machines_of c) m) × ((usage c m).1 ≡ load (memory_of c) m)
unfolding usage
usage-load c m =
    ground (arith, held_by_running_load c m.inflight m.vms, held_by_launches_load c m.inflight)

pub length-launched : (inflight : Dict Launch) → length inflight ≡ launched any_machine inflight
unfolding launched
length-launched [] = refl
length-launched ((id, l) ∷ rest) = omega (arith, length-launched rest)

live_running_load :
    (inflight : Dict Launch) (vms : Dict Vm)
    → live_running inflight vms ≡ running any_machine inflight vms
unfolding live_running running
live_running_load inflight [] = refl
live_running_load inflight ((id, v) ∷ rest) = ground (arith, live_running_load inflight rest)

pub live_load :
    (m : Manager) → length m.inflight + live_running m.inflight m.vms ≡ load any_machine m
live_load m = omega (arith, length-launched m.inflight, live_running_load m.inflight m.vms)

module _ (w : Weight) where
  pub launched-insert :
      (id : String) (l : Launch) (inflight : Dict Launch)
      → lookup id inflight ≡ none
      → launched w (insert id l inflight) ≡ launched w inflight + w l.consumer l.mem_mb
  unfolding launched insert lookup
  launched-insert id l [] free = omega arith
  launched-insert id l ((i, k) ∷ rest) free = ground (arith, launched-insert id l rest)

  pub erase_absent :
      (id : String) (inflight : Dict Launch)
      → lookup id inflight ≡ none
      → launched w (erase id inflight) ≡ launched w inflight
  unfolding launched erase lookup
  erase_absent id [] free = refl
  erase_absent id ((i, k) ∷ rest) free = ground (arith, erase_absent id rest)

  pub launched-erase :
      (id : String) (l : Launch) (inflight : Dict Launch)
      → Unique inflight
      → lookup id inflight ≡ some l
      → launched w (erase id inflight) + w l.consumer l.mem_mb ≡ launched w inflight
  unfolding launched erase lookup
  launched-erase id l [] u found = cc found
  launched-erase id l ((i, k) ∷ rest) u found =
      ground (arith, eq_iff i id, launched-erase id l rest, erase_absent id rest)

  pub running-insert_launch :
      (id : String) (l : Launch) (inflight : Dict Launch) (vms : Dict Vm)
      → running w (insert id l inflight) vms ≤ running w inflight vms
  unfolding running
  running-insert_launch id l inflight [] = omega arith
  running-insert_launch id l inflight ((i, v) ∷ rest) =
      ground (arith, lookup-insert id i l inflight, running-insert_launch id l inflight rest)

  erase_elsewhere :
      (id : String) (inflight : Dict Launch) (vms : Dict Vm)
      → lookup id vms ≡ none
      → running w (erase id inflight) vms ≡ running w inflight vms
  unfolding running lookup
  erase_elsewhere id inflight [] absent = refl
  erase_elsewhere id inflight ((i, v) ∷ rest) absent = ground (
    arith,
    eq_iff i id,
    eq_iff id i,
    lookup-erase id i inflight,
    erase_elsewhere id inflight rest,
  )

  -- The end of a launch: what counted as launched counts as running from then on, if it runs.
  abbrev pub weight_at : Option Vm → ℕ
  weight_at none = 0
  weight_at (some v) = weight_of w v

  pub running-erase_launch :
      (id : String) (inflight : Dict Launch) (vms : Dict Vm)
      → Unique vms
      → running w (erase id inflight) vms ≤ running w inflight vms + weight_at (lookup id vms)
  unfolding running lookup
  running-erase_launch id inflight [] u = omega arith
  running-erase_launch id inflight ((i, v) ∷ rest) u = ground (
    arith,
    eq_iff i id,
    eq_iff id i,
    lookup-erase id i inflight,
    erase_elsewhere id inflight rest,
    running-erase_launch id inflight rest,
  )

  pub running-insert_vm :
      (id : String) (v : Vm) (inflight : Dict Launch) (vms : Dict Vm)
      → running w inflight (insert id v vms)
        ≤ running w inflight vms + (if is_launching id inflight then 0 else weight_of w v)
  unfolding running insert
  running-insert_vm id v inflight [] = ground arith
  running-insert_vm id v inflight ((i, k) ∷ rest) =
      ground (arith, eq_iff i id, running-insert_vm id v inflight rest)

  pub running-erase_vm :
      (id : String) (inflight : Dict Launch) (vms : Dict Vm)
      → running w inflight (erase id vms) ≤ running w inflight vms
  unfolding running erase
  running-erase_vm id inflight [] = omega arith
  running-erase_vm id inflight ((i, k) ∷ rest) = ground (arith, running-erase_vm id inflight rest)

  -- A machine that takes the place of another, and one that goes.
  pub running-replace_vm :
      (id : String) (v : Vm) (inflight : Dict Launch) (vms : Dict Vm)
      → running w inflight (insert id v vms)
          + (if is_launching id inflight then 0 else weight_at (lookup id vms))
        ≡ running w inflight vms + (if is_launching id inflight then 0 else weight_of w v)
  unfolding running insert lookup
  running-replace_vm id v inflight [] = ground arith
  running-replace_vm id v inflight ((i, k) ∷ rest) =
      ground (arith, eq_iff i id, running-replace_vm id v inflight rest)

  pub running-forget_vm :
      (id : String) (inflight : Dict Launch) (vms : Dict Vm)
      → running w inflight (erase id vms)
          + (if is_launching id inflight then 0 else weight_at (lookup id vms))
        ≤ running w inflight vms
  unfolding running erase lookup
  running-forget_vm id inflight [] = ground arith
  running-forget_vm id inflight ((i, k) ∷ rest) =
      ground
        (arith, eq_iff i id, running-forget_vm id inflight rest, running-erase_vm id inflight rest)
