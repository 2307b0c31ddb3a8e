-- ===== src/Vm/IdPool.antt =====
-- The identities of the reserved uid range (internal/vm/jailid.go). `owner` is the map from an
-- identity to its owner; the process table is what `live()` returned when it was asked, `none`
-- an error. The uids are numbers (the range lies far below an int's bound).
pub mod Exclusive
pub mod Rotation
mod Tests
use micro_hosted.Prelude.{
  ℕ, zero, suc, ◌+◌, ◌%◌, Bool, true, false, ◌||◌, not, Option, none, some, String, ltb, leb, ◌==◌,
  str_eq, if◌then◌else◌, Result, ok, err,
}

pub record IdPool : Type 0 where
  pub base : ℕ
  pub count : ℕ
  pub owner : ℕ → Option String
  pub next : ℕ

pub data Error : Type 0 where
  table_unreadable all_in_use : Error

unfoldable pub new_id_pool : ℕ → ℕ → IdPool
new_id_pool base count = record { base = base; count = count; owner = λ _. none; next = 0 }

abbrev pub owned_by : ℕ → Option String → (ℕ → Option String) → ℕ → Option String
owned_by uid o owner x = if uid == x then o else owner x

abbrev held_by_other : String → Option String → Bool
held_by_other o none = false
held_by_other o (some cur) = not (str_eq cur o)

unfoldable pub take : ℕ → String → IdPool → Bool × IdPool
take uid o p =
    if ltb uid p.base || leb (p.base + p.count) uid
    then (false, p)
    else if held_by_other o (p.owner uid)
    then (false, p)
    else (true, record p { owner = owned_by uid (some o) p.owner })

abbrev pub is_owned : Option String → Bool
is_owned none = false
is_owned (some _) = true

-- The offset of the loop's round `i`.
abbrev pub offset : IdPool → ℕ → ℕ
offset p i = (p.next + i) % p.count

abbrev pub is_busy : IdPool → (ℕ → Bool) → ℕ → Bool
is_busy p live uid = is_owned (p.owner uid) || live uid

-- The loop of `alloc`: `n` rounds from round `i` on; the first free round.
unfoldable pub free_round : IdPool → (ℕ → Bool) → ℕ → ℕ → Option ℕ
free_round p live zero i = none
free_round p live (suc n) i =
    let rest = free_round p live n (i + 1) in
    if is_busy p live (p.base + offset p i) then rest else some i

abbrev assigned : String → IdPool → Option ℕ → Result Error ℕ × IdPool
assigned o p none = (err all_in_use, p)
assigned o p (some i) =
    let uid = p.base + offset p i in
    (ok uid, record p { owner = owned_by uid (some o) p.owner; next = (offset p i + 1) % p.count })

unfoldable pub alloc : Option (ℕ → Bool) → String → IdPool → Result Error ℕ × IdPool
alloc none o p = (err table_unreadable, p)
alloc (some live) o p = assigned o p (free_round p live p.count 0)

abbrev pub holds : Option String → String → Bool
holds none o = str_eq "" o
holds (some cur) o = str_eq cur o

-- `p.owner[uid] == owner` reads "" where there is no owner; to delete what is not there changes
-- nothing.
unfoldable pub release : ℕ → String → IdPool → IdPool
release uid o p =
    if holds (p.owner uid) o then record p { owner = owned_by uid none p.owner } else p
