-- ===== src/Vm/DiskGuard/Tests.antt =====
-- A store that fills up and recovers, and an upload of four bytes against a budget of three.
use micro_hosted.Prelude.{ℕ, ◌≡◌, refl, true, false, Option, none, some, List, [], ◌∷◌, arith}
use micro_hosted.Vm.DiskGuard.{
  host_disk_low, host_disk_ok, next_low, watch_disk, watch, over_budget, copy,
}
use micro_hosted.Vm.DiskGuard.Watched.{Alternates, watch-Alternates, Hovers, watch_steady}
use micro_hosted.Vm.DiskGuard.Budget.{Progresses, copy_lem}

abbrev readings : List (Option ℕ)
readings = some 2000 ∷ some 900 ∷ some 1050 ∷ some 1200 ∷ none ∷ []

published : (watch 1000 readings false).1 ≡ host_disk_low ∷ host_disk_ok ∷ host_disk_low ∷ []
unfolding watch watch_disk next_low
published = refl

watch-Alternates_run : Alternates false (host_disk_low ∷ host_disk_ok ∷ host_disk_low ∷ [])
unfolding watch watch_disk next_low
watch-Alternates_run = watch-Alternates 1000 readings false

watch_steady_run : watch 1000 (some 1001 ∷ some 1099 ∷ []) true ≡ (true, [])
unfolding Hovers
watch_steady_run =
    watch_steady 1000 (some 1001 ∷ some 1099 ∷ []) true
      (omega arith, (omega arith, (omega arith, (omega arith, refl))))

abbrev reads : List (ℕ × ℕ)
reads = (2, 1) ∷ (2, 9) ∷ (2, 9) ∷ (2, 9) ∷ (2, 9) ∷ []

copy_lem_example :
    copy reads (record { data_left = 1 ∷ 2 ∷ 3 ∷ 4 ∷ []; left = 3 })
    ≡ (1 ∷ 2 ∷ 3 ∷ [], some over_budget)
unfolding Progresses
copy_lem_example =
    copy_lem reads (1 ∷ 2 ∷ 3 ∷ 4 ∷ []) 3
      (
        omega arith,
        (
          omega arith,
          (
            omega arith,
            (
              omega arith,
              (
                omega arith,
                (omega arith, (omega arith, (omega arith, (omega arith, (omega arith, refl))))),
              ),
            ),
          ),
        ),
      )
      (omega arith)
