-- ===== src/Vm/ConsoleLog/Tests.antt =====
-- A console that prints two lines, and one that cannot be rotated.
use micro_hosted.Prelude.{
  ℕ, ◌≤◌, ◌≡◌, refl, true, false, none, some, List, [], ◌∷◌, length, arith, ok, inl,
}
use micro_hosted.Vm.ConsoleLog.{
  Files, Disk, State, content, write, open_console_log, console_tail, console_log_max,
}
use micro_hosted.Vm.ConsoleLog.Capped.{writes, closes, run, log_capped}
use micro_hosted.Vm.ConsoleLog.Tail.{print, printed, console_tail-last}

abbrev good : Disk
good = record { renames = true; opens = true; room = 100 }

abbrev full : Disk
full = record { renames = false; opens = true; room = 1 }

abbrev before : Files
before = record { live = some (9 ∷ []); rotated = some (8 ∷ []) }

abbrev opened : State
opened = record {
  log = record { is_open = true; size = 0; max = console_log_max };
  files = record { live = some []; rotated = none };
}

stored : (write full (1 ∷ 2 ∷ []) opened).1.files.live ≡ some (1 ∷ [])
unfolding write
stored = refl

log_capped_example :
    (length (content (run (writes full (1 ∷ 2 ∷ []) ∷ closes ∷ []) opened).files.live)
      ≤ console_log_max)
    × ((length (content (run (writes full (1 ∷ 2 ∷ []) ∷ closes ∷ []) opened).files.rotated)
          ≤ console_log_max)
        × ((disk : Disk) (p : List ℕ)
            → (write disk p (run (writes full (1 ∷ 2 ∷ []) ∷ closes ∷ []) opened)).0 ≡ length p))
unfolding open_console_log
log_capped_example =
    log_capped (writes full (1 ∷ 2 ∷ []) ∷ closes ∷ []) good true before opened (inl refl)

console_tail-last_example :
    console_tail (some (some (print ((1 ∷ 2 ∷ []) ∷ (3 ∷ []) ∷ []) opened).files)) 2
    ≡ ok (2 ∷ 3 ∷ [])
unfolding open_console_log printed
console_tail-last_example =
    console_tail-last ((1 ∷ 2 ∷ []) ∷ (3 ∷ []) ∷ []) true good before opened 2 refl (omega arith)
      (omega arith)
