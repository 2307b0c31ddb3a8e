-- ===== src/Vm/DiskGuard.antt =====
-- The watch of the store and the budget of an upload: watchDisk and budgetReader of
-- internal/vm/diskguard.go. A reading of the free space is none when it cannot be read.
pub mod Watched
pub mod Budget
mod Tests
use micro_hosted.Prelude.{
  ℕ, ◌+◌, ◌-◌, ◌/◌, ◌*◌, ◌^◌, min, Bool, true, false, not, ◌&&◌, ◌||◌, Option, none, some, List, [],
  ◌∷◌, ◌++◌, ltb, leb, if◌then◌else◌, length, take, drop,
}

pub data DiskEvent : Type 0 where
  host_disk_low host_disk_ok : DiskEvent

abbrev is_low : ℕ → Option ℕ → Bool
is_low reserve none = true
is_low reserve (some free) = ltb free reserve

-- Whether the reading is under the reserve and its margin, a tenth of it.
abbrev under_margin : ℕ → Option ℕ → Bool
under_margin reserve none = false
under_margin reserve (some free) = ltb free (reserve + reserve / 10)

unfoldable pub next_low : ℕ → Option ℕ → Bool → Bool
next_low reserve reading was =
    let now = is_low reserve reading in
    if was && (not now && under_margin reserve reading) then true else now

abbrev event_of : Bool → DiskEvent
event_of true = host_disk_low
event_of false = host_disk_ok

-- The new state, and what is published.
unfoldable pub watch_disk : ℕ → Option ℕ → Bool → Bool × List DiskEvent
watch_disk reserve reading was =
    let now = next_low reserve reading was in
    (now, if (now && was) || (not now && not was) then [] else (event_of now ∷ []))

-- The monitor's ticks, one by one.
unfoldable pub watch : ℕ → List (Option ℕ) → Bool → Bool × List DiskEvent
unfolding watch_disk
watch reserve [] was = (was, [])
watch reserve (r ∷ rs) was =
    let tick = watch_disk reserve r was in
    let later = watch reserve rs tick.0 in (later.0, tick.1 ++ later.1)

-- `budgetReader`, over a reader that has the bytes `data` and hands out up to `grant` of them at a
-- time.
pub record BudgetReader : Type 0 where
  pub data_left : List ℕ
  pub left : ℕ

pub data ReadOutcome : Type 0 where
  bytes : List ℕ → ReadOutcome
  ended : ReadOutcome
  over_budget : ReadOutcome

-- A budget in bytes of MB, for each of the copies.
abbrev pub budget_of : ℕ → ℕ → ℕ → ℕ → ℕ
budget_of free inflight reserve copies = (free - inflight - reserve) / copies * 2 ^ 20

-- One Read into a buffer of `size` bytes, none of them zero.
unfoldable pub read : ℕ → ℕ → BudgetReader → ReadOutcome × BudgetReader
read size grant b =
    if not (ltb 0 b.left)
    then elim b.data_left [
      | [] ↦ (ended, b)
      | _ ∷ more ↦ (over_budget, record { data_left = more; left = 0 })
    ]
    else elim b.data_left [
      | [] ↦ (ended, b)
      | x ∷ xs ↦
          let n = min grant (min size b.left) in
          (
            bytes (take n (x ∷ xs)),
            record { data_left = drop n (x ∷ xs); left = b.left - length (take n (x ∷ xs)) },
          )
    ]

-- A copy of the reader, read by read: what has come, and how it ended, none while the reads run out
-- first.
unfoldable pub copy : List (ℕ × ℕ) → BudgetReader → List ℕ × Option ReadOutcome
copy [] b = ([], none)
copy ((size, grant) ∷ reads) b =
    let r = read size grant b in
    let later = copy reads r.1 in
    elim r.0 [
      | bytes bs ↦ (bs ++ later.0, later.1)
      | ended ↦ ([], some ended)
      | over_budget ↦ ([], some over_budget)
    ]
