-- ===== src/Orch/Budget/Tests.antt =====
-- A persistent function and two with cycles, of which one worker runs one at a time.
use micro_hosted.Prelude.{
  ℕ, ◌+◌, ◌≤◌, ◌≡◌, refl, false, Option, none, some, [], ◌∷◌, String, Dict, arith,
}
use micro_hosted.Orch.{Function, Mode, persistent, transaction, window}
use micro_hosted.Orch.Budget.{Limits, too_much_memory, mem_of, sums, memory_errors, budget}
use micro_hosted.Orch.Budget.Bound.{Running, none_left, idle, serving, cycling, budget-Running}

abbrev function : Mode → ℕ → Function
function mode mem = record {
  image = "base";
  command = "run";
  health = none;
  mem_mb = mem;
  labels = [];
  lifecycle = record {
    mode = mode;
    every = 60;
    timeout = 5;
    duration = 5;
    recycle = 0;
    replace_on_exit = false;
  };
}

abbrev three : Dict Function
three =
    ("api", function persistent 256)
    ∷ ("poll", function transaction 128)
    ∷ ("watch", function window 0)
    ∷ []

-- The store says 512 MB of every image.
abbrev store : String → Option ℕ
store image = some 512

abbrev limits : ℕ → Limits
limits mem = record { workers = 1; max_vms = 2; max_mem_mb = mem }

fits : budget store (limits 768) three [] ≡ []
unfolding budget sums mem_of memory_errors
fits = refl

too_large : budget store (limits 767) three [] ≡ too_much_memory 768 ∷ []
unfolding budget sums mem_of memory_errors
too_large = refl

at_once : Running store three 1 256 1 128
unfolding mem_of
at_once = serving "api" (function persistent 256) 256 refl refl (
    cycling "poll" (function transaction 128) 128 refl refl
      (idle "watch" (function window 0) none_left))

budget-Running_example : (1 + 1 ≤ 2) × (256 + 128 ≤ 768)
budget-Running_example =
    budget-Running store (limits 768) three 1 256 1 128 fits at_once (omega arith)
