-- ===== src/Orch/Budget/Bound.antt =====
-- What may run at once under a budget (budget of orchestrator/orch/plan.go).
use micro_hosted.Prelude.{
  ℕ, zero, suc, ◌+◌, ◌*◌, ◌≤◌, min, ◌≡◌, Bool, true, false, Option, none, some, List, [], ◌∷◌, ◌++◌,
  String, ltb, Dict, arith, subst,
}
use micro_hosted.Orch.{Function, is_persistent}
use micro_hosted.Orch.Budget.{
  Limits, Error, Sums, mem_of, add_function, sums, memory_errors, no_sums, peak_vms, peak_mem,
  budget,
}

-- Machines that may run at once: of each persistent function one or none, of some cycle functions
-- one each. `vms` and `mem` count those of persistent functions, `cycles` and `cycle_mem` those of
-- cycles.
pub data Running (image_mem : String → Option ℕ)
    : Dict Function → (vms mem cycles cycle_mem : ℕ) → Type 0 where
  none_left : Running image_mem [] 0 0 0 0
  idle :
      (name : String) (f : Function) {fs : Dict Function} {v m c k : ℕ}
      → Running image_mem fs v m c k
      → Running image_mem ((name, f) ∷ fs) v m c k
  serving :
      (name : String) (f : Function) (mem : ℕ) {fs : Dict Function} {v m c k : ℕ}
      → is_persistent f.lifecycle.mode ≡ true
      → mem_of image_mem f ≡ some mem
      → Running image_mem fs v m c k
      → Running image_mem ((name, f) ∷ fs) (v + 1) (m + mem) c k
  cycling :
      (name : String) (f : Function) (mem : ℕ) {fs : Dict Function} {v m c k : ℕ}
      → is_persistent f.lifecycle.mode ≡ false
      → mem_of image_mem f ≡ some mem
      → Running image_mem fs v m c k
      → Running image_mem ((name, f) ∷ fs) v m (c + 1) (k + mem)

-- What is running fits in the sums; of the cycles, each in the largest of them.
pub record Fits (t from : Sums) (v m c k : ℕ) : Type 0 where
  pub vms : v + from.vms ≤ t.vms
  pub mem : m + from.mem_mb ≤ t.mem_mb
  pub cycles : c + from.cycles ≤ t.cycles
  pub cycle_mem : k ≤ c * t.cycle_mem
  pub grown : from.cycle_mem ≤ t.cycle_mem

times_more : (c a : ℕ) → (c + 1) * a ≡ c * a + a
times_more c a = omega arith

add_grows :
    (lasting : Bool) (mem : Option ℕ) (t : Sums)
    → (t.vms ≤ (add_function lasting mem t).vms)
      × (t.mem_mb ≤ (add_function lasting mem t).mem_mb)
      × (t.cycles ≤ (add_function lasting mem t).cycles)
      × (t.cycle_mem ≤ (add_function lasting mem t).cycle_mem)
add_grows lasting none t = omega arith
add_grows true (some mem) t = omega arith
add_grows false (some mem) t = omega arith

module _ (image_mem : String → Option ℕ) where
  added :
      (name : String) (f : Function) (fs : Dict Function) (lasting : Bool) (mem v m c k : ℕ)
      (from : Sums)
      → is_persistent f.lifecycle.mode ≡ lasting
      → mem_of image_mem f ≡ some mem
      → Fits
          (sums image_mem fs
            (add_function (is_persistent f.lifecycle.mode) (mem_of image_mem f) from))
          (add_function (is_persistent f.lifecycle.mode) (mem_of image_mem f) from)
          v
          m
          c
          k
      → Fits (sums image_mem ((name, f) ∷ fs) from) (add_function lasting (some mem) from) v m c k
  unfolding sums
  added name f fs lasting mem v m c k from h known fits =
      let t =
        sums image_mem fs
          (add_function (is_persistent f.lifecycle.mode) (mem_of image_mem f) from) in
      subst (λ o. Fits t (add_function lasting o from) v m c k) known
        (subst (λ b. Fits t (add_function b (mem_of image_mem f) from) v m c k) h fits)

  running-Fits :
      (fs : Dict Function) (from : Sums) (v m c k : ℕ)
      → Running image_mem fs v m c k
      → Fits (sums image_mem fs from) from v m c k
  unfolding sums
  running-Fits _ from _ _ _ _ none_left = record {
    vms = omega arith;
    mem = omega arith;
    cycles = omega arith;
    cycle_mem = omega arith;
    grown = omega arith;
  }
  running-Fits _ from _ _ _ _ (idle name f {fs} {v} {m} {c} {k} r) =
      let ih =
        running-Fits fs (add_function (is_persistent f.lifecycle.mode) (mem_of image_mem f) from) v
          m c k r in
      let g = add_grows (is_persistent f.lifecycle.mode) (mem_of image_mem f) from in
      record {
        vms = omega (arith, ih.vms, g);
        mem = omega (arith, ih.mem, g);
        cycles = omega (arith, ih.cycles, g);
        cycle_mem = ih.cycle_mem;
        grown = omega (arith, ih.grown, g);
      }
  running-Fits _ from _ _ _ _ (serving name f mem {fs} {v} {m} {c} {k} lasting known r) =
      let ih = added name f fs true mem v m c k from lasting known (
        running-Fits fs (add_function (is_persistent f.lifecycle.mode) (mem_of image_mem f) from) v
          m c k r) in
      record {
        vms = omega (arith, ih.vms);
        mem = omega (arith, ih.mem);
        cycles = ih.cycles;
        cycle_mem = ih.cycle_mem;
        grown = ih.grown;
      }
  running-Fits _ from _ _ _ _ (cycling name f mem {fs} {v} {m} {c} {k} lasting known r) =
      let t = sums image_mem ((name, f) ∷ fs) from in
      let ih = added name f fs false mem v m c k from lasting known (
        running-Fits fs (add_function (is_persistent f.lifecycle.mode) (mem_of image_mem f) from) v
          m c k r) in
      record {
        vms = ih.vms;
        mem = ih.mem;
        cycles = omega (arith, ih.cycles);
        cycle_mem = omega (arith, ih.cycle_mem, ih.grown, times_more c t.cycle_mem);
        grown = omega (arith, ih.grown);
      }

times_mono : (a b c : ℕ) → a ≤ b → a * c ≤ b * c
times_mono a b zero h = omega arith
times_mono a b (suc c) h = omega (arith, times_mono a b c h)

append-empty : (xs ys : List Error) → xs ++ ys ≡ [] → ys ≡ []
append-empty [] ys h = h
append-empty (x ∷ xs) ys h = absurd (cc h)

-- A specification that the budget lets through never runs over it: whichever of its persistent
-- functions have their machine and whichever of its cycles run, at most as many cycles at once as
-- there are workers, the machines are at most max_vms and the memory they are promised at most
-- max_mem_mb.
pub budget-Running :
    (image_mem : String → Option ℕ) (l : Limits) (fs : Dict Function) (v m c k : ℕ)
    → budget image_mem l fs [] ≡ []
    → Running image_mem fs v m c k
    → c ≤ l.workers
    → (v + c ≤ l.max_vms) × (m + k ≤ l.max_mem_mb)
unfolding budget
budget-Running image_mem l fs v m c k fine r few =
    let t = sums image_mem fs no_sums in
    let fits = running-Fits image_mem fs no_sums v m c k r in
    let last = append-empty (memory_errors false image_mem fs) _ fine in
    let at_once : c ≤ min l.workers t.cycles = omega (arith, few, fits.cycles) in
    let vms : ltb l.max_vms (peak_vms l t) ≡ false = ground (arith, last) in
    let mem : ltb l.max_mem_mb (peak_mem l t) ≡ false = ground (arith, last) in
    (
      ground (arith, vms, fits.vms, at_once),
      ground (
        arith,
        mem,
        fits.mem,
        fits.cycle_mem,
        times_mono c (min l.workers t.cycles) t.cycle_mem at_once,
      ),
    )
