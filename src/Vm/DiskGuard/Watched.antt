-- ===== src/Vm/DiskGuard/Watched.antt =====
-- The events of watchDisk over a series of readings.
use micro_hosted.Prelude.{
  ℕ, ◌+◌, ◌/◌, ◌≤◌, ◌<◌, Bool, true, false, ◌≡◌, refl, Option, none, some, List, [], ◌∷◌, arith,
  Bool-cases, inl, inr,
}
use micro_hosted.Vm.DiskGuard.{DiskEvent, host_disk_low, host_disk_ok, next_low, watch_disk, watch}

-- Events that alternate; the first is host.disk_low where none is low before.
unfoldable pub Alternates : Bool → List DiskEvent → Type 0
Alternates low [] = low ≡ low
Alternates low (host_disk_low ∷ es) = (low ≡ false) × Alternates true es
Alternates low (host_disk_ok ∷ es) = (low ≡ true) × Alternates false es

-- Whatever is read, host.disk_low and host.disk_ok are published in turn, the first of them as the
-- state before asks.
pub watch-Alternates :
    (reserve : ℕ) (rs : List (Option ℕ)) (was : Bool) → Alternates was ((watch reserve rs was).1)
unfolding watch watch_disk Alternates
watch-Alternates reserve [] was = refl
watch-Alternates reserve (r ∷ rs) true = elim (Bool-cases (next_low reserve r true)) [
  | inl low ↦ ground (arith, low, watch-Alternates reserve rs true)
  | inr ok_again ↦ ground (arith, ok_again, watch-Alternates reserve rs false)
]
watch-Alternates reserve (r ∷ rs) false = elim (Bool-cases (next_low reserve r false)) [
  | inl low ↦ ground (arith, low, watch-Alternates reserve rs true)
  | inr still_ok ↦ ground (arith, still_ok, watch-Alternates reserve rs false)
]

-- All the readings lie between the reserve and its margin.
unfoldable pub Hovers : ℕ → List (Option ℕ) → Type 0
Hovers reserve [] = reserve ≡ reserve
Hovers reserve (none ∷ rs) = true ≡ false
Hovers reserve (some free ∷ rs) =
    (reserve ≤ free) × ((free < reserve + reserve / 10) × Hovers reserve rs)

-- A store that hovers between the reserve and a tenth above it changes nothing and publishes
-- nothing.
pub watch_steady :
    (reserve : ℕ) (rs : List (Option ℕ)) (was : Bool)
    → Hovers reserve rs
    → watch reserve rs was ≡ (was, [])
unfolding watch watch_disk next_low Hovers
watch_steady reserve [] was h = refl
watch_steady reserve (none ∷ rs) was h = cc h
watch_steady reserve (some free ∷ rs) true h = ground (arith, watch_steady reserve rs true)
watch_steady reserve (some free ∷ rs) false h = ground (arith, watch_steady reserve rs false)
