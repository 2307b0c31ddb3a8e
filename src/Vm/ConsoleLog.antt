-- ===== src/Vm/ConsoleLog.antt =====
-- A machine's console log: internal/vm/consolelog.go. The log has two files, the live segment and
-- the rotated one (none: it does not exist), written by one consoleLog at a time. What the disk
-- does to an operation is an argument: whether a rename or the opening of a segment works, and how
-- many bytes a write stores at most.
pub mod Capped
pub mod Tail
mod Tests
use micro_hosted.Prelude.{
  ℕ, ◌+◌, ◌-◌, ◌*◌, ◌^◌, Bool, true, false, not, ◌&&◌, ◌||◌, Option, none, some, List, [], ◌∷◌,
  ◌++◌, ltb, leb, if◌then◌else◌, length, take, drop, Result, ok, err,
}

abbrev pub Bytes : Type 0
Bytes = List ℕ

abbrev pub console_log_max : ℕ
console_log_max = 2 * 2 ^ 20

pub record Files : Type 0 where
  pub live : Option Bytes
  pub rotated : Option Bytes

-- `is_open` is `f != nil`.
pub record ConsoleLog : Type 0 where
  pub is_open : Bool
  pub size : ℕ
  pub max : ℕ

pub record Disk : Type 0 where
  pub renames : Bool
  pub opens : Bool
  pub room : ℕ

pub record State : Type 0 where
  pub log : ConsoleLog
  pub files : Files

abbrev pub content : Option Bytes → Bytes
content none = []
content (some bs) = bs

pub data OpenError : Type 0 where
  not_removed not_opened : OpenError

-- `openConsoleLog`, with whether a stale rotated segment can be removed.
unfoldable pub open_console_log : Bool → Disk → Files → Result OpenError State
open_console_log removes d files =
    if not removes
    then err not_removed
    else if not d.opens
    then err not_opened
    else ok (record {
      log = record { is_open = true; size = 0; max = console_log_max };
      files = record { live = some []; rotated = none };
    })

-- `reopenConsoleLog`: the live segment is kept, or made.
unfoldable pub reopen_console_log : Disk → Files → Result OpenError State
reopen_console_log d files =
    if not d.opens
    then err not_opened
    else ok (record {
      log = record { is_open = true; size = length (content files.live); max = console_log_max };
      files = record { live = some (content files.live); rotated = files.rotated };
    })

unfoldable pub rotate : Disk → State → State
rotate d s =
    if not d.renames
    then record {
      log = record { is_open = false; size = s.log.size; max = s.log.max };
      files = s.files;
    }
    else if not d.opens
    then record {
      log = record { is_open = false; size = s.log.size; max = s.log.max };
      files = record { live = none; rotated = s.files.live };
    }
    else record {
      log = record { is_open = true; size = 0; max = s.log.max };
      files = record { live = some []; rotated = s.files.live };
    }

-- One oversized write keeps only its tail.
abbrev pub clip : ℕ → Bytes → Bytes
clip max p = if ltb max (length p) then drop (length p - max) p else p

abbrev pub make_room : Disk → Bytes → State → State
make_room d p s = if ltb s.log.max (s.log.size + length p) then rotate d s else s

-- What the disk stores of a write.
abbrev pub store : Disk → Bytes → State → State
store d p s = if not s.log.is_open then s else record {
  log = record { is_open = true; size = s.log.size + length (take d.room p); max = s.log.max };
  files = record { live = some (content s.files.live ++ take d.room p); rotated = s.files.rotated };
}

-- `Write`: the number of bytes that it reports, and the log after it.
unfoldable pub write : Disk → Bytes → State → ℕ × State
unfolding rotate
write d p s =
    if not s.log.is_open
    then (length p, s)
    else (length p, store d (clip s.log.max p) (make_room d (clip s.log.max p) s))

unfoldable pub close : State → State
close s = record {
  log = record { is_open = false; size = s.log.size; max = s.log.max };
  files = s.files;
}

-- `readTail`: the last `n` bytes of a segment that is not being written.
unfoldable pub read_tail : Option Bytes → ℕ → Bytes
read_tail none n = []
read_tail (some bs) n = drop (length bs - n) bs

abbrev pub console_tail_max : ℕ
console_tail_max = 2 * console_log_max

pub data TailError : Type 0 where
  invalid_tail vm_not_found : TailError

abbrev pub tail_of : Files → ℕ → Bytes
unfolding read_tail
tail_of files n =
    let live = read_tail files.live n in
    if leb n (length live) then live else read_tail files.rotated (n - length live) ++ live

-- `ConsoleTail`, of a machine's record: none when there is no such machine, and its log's files,
-- none when it has no log.
unfoldable pub console_tail : Option (Option Files) → ℕ → Result TailError Bytes
unfolding tail_of
console_tail vm n = if not (ltb 0 n) || ltb console_tail_max n then err invalid_tail else elim vm [
  | none ↦ err vm_not_found
  | some none ↦ ok []
  | some (some files) ↦ ok (tail_of files n)
]
