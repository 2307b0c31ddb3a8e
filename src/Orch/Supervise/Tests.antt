-- ===== src/Orch/Supervise/Tests.antt =====
-- A function whose machine has died, one that runs twice, and starts that fail.
use micro_hosted.Prelude.{
  Bool, not, str_eq, lookup, ℕ, ◌+◌, ◌≤◌, ◌≡◌, refl, ◌↔◌, true, false, none, List, [], ◌∷◌, String,
  length, arith,
}
use micro_hosted.Orch.{Vm, VmState, Function, persistent, running, stopped}
use micro_hosted.Orch.Plan.{is_current}
use micro_hosted.Orch.Plan.Newest.{Among, here, there}
use micro_hosted.Orch.Supervise.{
  Seen, Start, serves, fails, record_failure, destroy, start, pick, supervise_one, failed_start,
  fresh, degraded_after,
}
use micro_hosted.Orch.Supervise.Alone.{engine_carried, destroyable, supervise_one-AtMostOne}
use micro_hosted.Orch.Supervise.Bounded.{Passes, supervise, supervise-Bounded, supervise_one-Serves}

abbrev api : Function
api = record {
  image = "v2";
  command = "serve";
  health = none;
  mem_mb = 128;
  labels = [];
  lifecycle = record {
    mode = persistent;
    every = 0;
    timeout = 0;
    duration = 0;
    recycle = 3600;
    replace_on_exit = false;
  };
}

abbrev vm : String → VmState → Vm
vm id state = record {
  id = id;
  name = id;
  state = state;
  labels = ("spec", "v2") ∷ [];
  created_at = "";
  last_exit = none;
  quarantine = false;
}

abbrev seen : ℕ → Start → Seen
seen now s = record {
  now = now;
  done = now + 60;
  expired = false;
  command_running = true;
  exit = none;
  check_passes = true;
  worker = true;
  start = s;
}

abbrev dead : List Vm
dead = vm "a" (stopped "error") ∷ []

abbrev twice : List Vm
twice = vm "a" running ∷ vm "b" running ∷ []

replaces_dead : supervise_one "v2" api dead (seen 100 serves) fresh ≡ record {
  state = record {
    health_failures = 0;
    start_failures = 0;
    next_start = 0;
    last_check = 160;
    degraded = false;
  };
  effects =
      record_failure (vm "a" (stopped "error")) ∷ destroy (vm "a" (stopped "error")) ∷ start ∷ [];
}
unfolding supervise_one pick lookup
replaces_dead = refl

-- The engine fails to destroy the machine "b".
abbrev all_but_b : String → Bool
all_but_b id = not (str_eq id "b")

supervise_one-AtMostOne_example :
    length (
      destroyable all_but_b (
        engine_carried all_but_b
          (vm "n" running)
          (supervise_one "v2" api twice (seen 100 serves) fresh).effects
          twice))
    ≤ 1
supervise_one-AtMostOne_example =
    supervise_one-AtMostOne all_but_b (vm "n" running) "v2" api (seen 100 serves) twice fresh
      (refl, (refl, tt)) refl

-- It has two machines then.
b_is_left :
    engine_carried all_but_b
      (vm "n" running)
      (supervise_one "v2" api twice (seen 100 serves) fresh).effects
      twice
    ≡ twice
unfolding supervise_one pick lookup
b_is_left = refl

-- The machine that died, then four passes without one.
abbrev failing : Passes
failing =
    (dead, seen 100 fails)
    ∷ ([], seen 200 fails)
    ∷ ([], seen 300 fails)
    ∷ ([], seen 400 fails)
    ∷ ([], seen 500 fails)
    ∷ ([], seen 600 fails)
    ∷ []

five_attempts : (supervise "v2" api failing fresh).1 ≡ 5
unfolding supervise supervise_one pick failed_start
five_attempts = refl

supervise-Bounded_example :
    ((supervise "v2" api failing fresh).1 ≤ degraded_after)
    × (((supervise "v2" api failing fresh).0.degraded ≡ true)
        ↔ ((supervise "v2" api failing fresh).1 ≡ degraded_after))
supervise-Bounded_example =
    supervise-Bounded "v2" api failing (refl, (refl, (refl, (refl, (refl, (refl, tt))))))

not_current : (v : Vm) → Among v dead → is_current "v2" v ≡ false
not_current _ here = refl
not_current _ (there a) = elim a [ ]

supervise_one-Serves_example :
    (destroyable all_but_b (
        engine_carried all_but_b
          (vm "n" running)
          (supervise_one "v2" api dead (seen 100 serves) fresh).effects
          dead)
      ≡ vm "n" running ∷ [])
    × ((supervise_one "v2" api dead (seen 100 serves) fresh).state.start_failures ≡ 0)
supervise_one-Serves_example =
    supervise_one-Serves "v2" api all_but_b (vm "n" running) dead (seen 100 serves) fresh (refl, tt)
      not_current refl refl (omega arith) refl refl
