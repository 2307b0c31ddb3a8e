-- ===== src/Orch/Budget.antt =====
-- The worst case of a specification and its budget (budget and memOf of orchestrator/orch/plan.go
-- and orch.go). `image_mem` is what the engine's store says of an image, none if it does not
-- resolve; memory is in MB, its sums without overflow.
pub mod Bound
mod Tests
use micro_hosted.Prelude.{
  ℕ, zero, suc, ◌+◌, ◌*◌, ◌≤◌, ◌<◌, min, max, ◌≡◌, refl, Bool, true, false, not, ◌&&◌, Option, none,
  some, List, [], ◌∷◌, ◌++◌, String, ltb, leb, ◌==◌, if◌then◌else◌, Dict, arith, subst,
}
use micro_hosted.Orch.{Function, Mode, persistent, is_persistent}

pub record Limits : Type 0 where
  pub workers : ℕ
  pub max_vms : ℕ
  pub max_mem_mb : ℕ

pub data Error : Type 0 where
  unresolved : String → Error
  too_many_vms : ℕ → Error
  too_much_memory : ℕ → Error

unfoldable pub mem_of : (String → Option ℕ) → Function → Option ℕ
mem_of image_mem f = if ltb 0 f.mem_mb then some f.mem_mb else image_mem f.image

-- What the loop over the functions adds up.
pub record Sums : Type 0 where
  pub vms : ℕ
  pub mem_mb : ℕ
  pub cycles : ℕ
  pub cycle_mem : ℕ

abbrev pub add_function : Bool → Option ℕ → Sums → Sums
add_function lasting none t = t
add_function true (some mem) t = record {
  vms = t.vms + 1;
  mem_mb = t.mem_mb + mem;
  cycles = t.cycles;
  cycle_mem = t.cycle_mem;
}
add_function false (some mem) t = record {
  vms = t.vms;
  mem_mb = t.mem_mb;
  cycles = t.cycles + 1;
  cycle_mem = max t.cycle_mem mem;
}

unfoldable pub sums : (String → Option ℕ) → Dict Function → Sums → Sums
sums image_mem [] t = t
sums image_mem ((name, f) ∷ fs) t =
    sums image_mem fs (add_function (is_persistent f.lifecycle.mode) (mem_of image_mem f) t)

-- The functions whose image does not resolve, reported unless an earlier step has failed already.
abbrev unresolved_of : Bool → String → Option ℕ → List Error → List Error
unresolved_of failed name none rest = if failed then rest else unresolved name ∷ rest
unresolved_of failed name (some _) rest = rest

unfoldable pub memory_errors : Bool → (String → Option ℕ) → Dict Function → List Error
memory_errors failed image_mem [] = []
memory_errors failed image_mem ((name, f) ∷ fs) =
    unresolved_of failed name (mem_of image_mem f) (memory_errors failed image_mem fs)

abbrev pub no_sums : Sums
no_sums = record { vms = 0; mem_mb = 0; cycles = 0; cycle_mem = 0 }

abbrev pub peak_vms : Limits → Sums → ℕ
peak_vms l t = t.vms + min l.workers t.cycles

abbrev pub peak_mem : Limits → Sums → ℕ
peak_mem l t = t.mem_mb + min l.workers t.cycles * t.cycle_mem

abbrev pub is_empty : List Error → Bool
is_empty [] = true
is_empty (e ∷ es) = false

-- `budget`, after the errors of resolveDefaults.
unfoldable pub budget : (String → Option ℕ) → Limits → Dict Function → List Error → List Error
budget image_mem l fs earlier =
    let t = sums image_mem fs no_sums in
    (earlier ++ memory_errors (not (is_empty earlier)) image_mem fs)
    ++ ((if ltb l.max_vms (peak_vms l t) then too_many_vms (peak_vms l t) ∷ [] else [])
        ++ (if ltb l.max_mem_mb (peak_mem l t) then too_much_memory (peak_mem l t) ∷ [] else []))
