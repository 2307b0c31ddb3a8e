-- ===== src/Orch/Supervise.antt =====
-- The supervision of one persistent function (superviseOne, failedStart of
-- orchestrator/orch/run.go). A time is a number of seconds. What a pass learns from the engine is
-- its `Seen`; what it does is a list of effects.
pub mod Carried
pub mod Alone
pub mod Attempts
pub mod Bounded
mod Tests
use micro_hosted.Prelude.{
  ℕ, zero, suc, ◌+◌, ◌-◌, ◌*◌, ◌^◌, min, Bool, true, false, not, ◌&&◌, ◌||◌, Option, none, some,
  List, [], ◌∷◌, ◌++◌, String, str_eq, ltb, leb, ◌==◌, if◌then◌else◌,
}
use micro_hosted.Orch.{Function, Health, Vm, VmState, running, stopped, is_running}
use micro_hosted.Orch.Plan.{is_current}

abbrev pub backoff_min : ℕ
backoff_min = 5

abbrev pub backoff_max : ℕ
backoff_max = 300

abbrev pub degraded_after : ℕ
degraded_after = 5

pub record PersistentState : Type 0 where
  pub health_failures : ℕ
  pub start_failures : ℕ
  pub next_start : ℕ
  pub last_check : ℕ
  pub degraded : Bool

abbrev pub fresh : PersistentState
fresh = record {
  health_failures = 0;
  start_failures = 0;
  next_start = 0;
  last_check = 0;
  degraded = false;
}

-- How a start ends: `stopping` is an error once the orchestrator is ending.
pub data Start : Type 0 where
  serves fails stopping : Start

-- A pass at `now`, whose start, if any, ends at `done`. `expired` says that the machine is older
-- than recycle, `exit` the code of a command that has ended, if it left one, `worker` that a start
-- gets a worker before the orchestrator ends.
pub record Seen : Type 0 where
  pub now : ℕ
  pub done : ℕ
  pub expired : Bool
  pub command_running : Bool
  pub exit : Option ℕ
  pub check_passes : Bool
  pub worker : Bool
  pub start : Start

pub data Effect : Type 0 where
  record_failure destroy : Vm → Effect
  start : Effect

pub record Outcome : Type 0 where
  pub state : PersistentState
  pub effects : List Effect

-- `failedStart`.
abbrev pub backoff : ℕ → ℕ
backoff failures = min (backoff_min * 2 ^ (failures - 1)) backoff_max

unfoldable pub failed_start : ℕ → PersistentState → PersistentState
failed_start now st =
    if leb degraded_after (st.start_failures + 1)
    then record {
      health_failures = st.health_failures;
      start_failures = st.start_failures + 1;
      next_start = st.next_start;
      last_check = st.last_check;
      degraded = true;
    }
    else record {
      health_failures = st.health_failures;
      start_failures = st.start_failures + 1;
      next_start = now + backoff (st.start_failures + 1);
      last_check = st.last_check;
      degraded = st.degraded;
    }

-- A machine that does not serve: its death is a failure, kept before the machine goes.
abbrev pub remove_in : Vm → VmState → List Effect
remove_in v running = destroy v ∷ []
remove_in v (stopped _) = record_failure v ∷ destroy v ∷ []

abbrev pub remove : Vm → List Effect
remove v = remove_in v v.state

-- The first machine that runs the version, and the removal of the others.
unfoldable pub pick : String → Option Vm → List Vm → Option Vm × List Effect
pick hash cur [] = (cur, [])
pick hash none (v ∷ vs) =
    let next = pick hash (some v) vs in
    let rest = pick hash none vs in if is_current hash v then next else (rest.0, remove v ++ rest.1)
pick hash (some c) (v ∷ vs) = let rest = pick hash (some c) vs in (rest.0, remove v ++ rest.1)

abbrev pub has_command : Function → Bool
has_command f = not (str_eq f.command "")

-- The recycling of a machine that is too old.
abbrev pub recycle : Function → Seen → Option Vm → Option Vm × List Effect
recycle f seen none = (none, [])
recycle f seen (some v) =
    if ltb 0 f.lifecycle.recycle && seen.expired then (none, destroy v ∷ []) else (some v, [])

abbrev exited_well : Option ℕ → Bool
exited_well none = false
exited_well (some code) = code == 0

-- A command that has ended, where each run gets a fresh machine.
abbrev pub ended : Function → Seen → Bool
ended f seen = f.lifecycle.replace_on_exit && (has_command f && not seen.command_running)

abbrev pub replaced : Seen → Vm → List Effect
replaced seen v =
    if exited_well seen.exit then destroy v ∷ [] else record_failure v ∷ destroy v ∷ []

abbrev pub health_every : Option Health → ℕ
health_every none = 10
health_every (some h) = h.every

abbrev pub threshold : Option Health → ℕ
threshold none = 1
threshold (some h) = h.failures

abbrev has_health : Option Health → Bool
has_health none = false
has_health (some h) = true

abbrev pub healthy : Function → Seen → Bool
healthy f seen = if has_health f.health || has_command f then seen.check_passes else true

abbrev pub with_health : ℕ → ℕ → PersistentState → PersistentState
with_health failures checked st = record {
  health_failures = failures;
  start_failures = st.start_failures;
  next_start = st.next_start;
  last_check = checked;
  degraded = st.degraded;
}

-- Not served: a fresh machine, within the back-off.
abbrev pub after_start : Seen → Start → PersistentState → PersistentState
after_start seen serves st = record {
  health_failures = 0;
  start_failures = 0;
  next_start = st.next_start;
  last_check = seen.done;
  degraded = st.degraded;
}
after_start seen fails st = failed_start seen.done (with_health 0 seen.done st)
after_start seen stopping st = with_health 0 seen.done st

abbrev pub restart : Seen → PersistentState → List Effect → Outcome
restart seen st before =
    if ltb seen.now st.next_start || not seen.worker
    then record { state = st; effects = before }
    else record { state = after_start seen seen.start st; effects = before ++ (start ∷ []) }

-- The check of the machine that serves.
abbrev pub checked : Function → Seen → PersistentState → Vm → List Effect → Outcome
checked f seen st v before =
    if ltb (seen.now - st.last_check) (health_every f.health)
    then record { state = st; effects = before }
    else if healthy f seen
    then record { state = with_health 0 seen.now st; effects = before }
    else if ltb (st.health_failures + 1) (threshold f.health)
    then record { state = with_health (st.health_failures + 1) seen.now st; effects = before }
    else restart seen (with_health (st.health_failures + 1) seen.now st)
        (before ++ (record_failure v ∷ destroy v ∷ []))

abbrev pub served : Function → Seen → PersistentState → Option Vm → List Effect → Outcome
served f seen st none before = restart seen st before
served f seen st (some v) before =
    if ended f seen
    then restart seen (with_health 0 st.last_check st) (before ++ replaced seen v)
    else checked f seen st v before

-- `superviseOne`, for the hash of the function.
unfoldable pub supervise_one : String → Function → List Vm → Seen → PersistentState → Outcome
supervise_one hash f have seen st =
    let picked = pick hash none have in
    let kept = recycle f seen picked.0 in
    if st.degraded
    then record { state = st; effects = [] }
    else served f seen st kept.0 (picked.1 ++ kept.1)
