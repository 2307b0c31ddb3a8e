-- ===== src/Orch/Rollout.antt =====
-- The roll-out of a new specification to a running orchestrator (orchestrator/orch/rollout.go),
-- from where its plan has been accepted. How a start or a cycle of a version ends is the `Host`'s
-- to say, by function and version.
pub mod Stepwise
pub mod Reached
mod Tests
use micro_hosted.Prelude.{
  ℕ, Bool, true, false, not, ◌&&◌, Option, none, some, List, [], ◌∷◌, String, str_eq, ◌==◌,
  if◌then◌else◌, Dict, lookup, insert, erase,
}
use micro_hosted.Orch.{Function, Lifecycle, Mode, persistent, transaction, window, is_persistent}
use micro_hosted.Orch.Supervise.{PersistentState, fresh}

-- `interrupted` is an error once the orchestrator is ending; `skipped` a cycle that the host had no
-- room for.
pub data Verified : Type 0 where
  works interrupted skipped : Verified
  fails : String → Verified

pub record Host : Type 0 where
  pub ending : String → Bool
  pub start : String → Function → Verified
  pub cycle : String → Function → Verified

-- `effective` is the version that each function runs, `supervised` the supervisor's memory of the
-- persistent ones, `cycling` says whose cycles run, `held` why a function is held on its previous
-- version.
pub record Running : Type 0 where
  pub effective : Dict Function
  pub supervised : Dict PersistentState
  pub cycling : String → Bool
  pub held : Dict String

abbrev pub set_fn : String → Function → Running → Running
set_fn name f r = record {
  effective = insert name f r.effective;
  supervised = r.supervised;
  cycling = r.cycling;
  held = r.held;
}

abbrev pub set_supervised : Dict PersistentState → Running → Running
set_supervised s r = record {
  effective = r.effective;
  supervised = s;
  cycling = r.cycling;
  held = r.held;
}

abbrev pub set_cycling : String → Bool → Running → Running
set_cycling name cycles r = record {
  effective = r.effective;
  supervised = r.supervised;
  held = r.held;
  cycling = λ n. if str_eq n name then cycles else r.cycling n;
}

abbrev pub hold : String → String → Running → Running
hold name reason r = record {
  effective = r.effective;
  supervised = r.supervised;
  cycling = r.cycling;
  held = insert name reason r.held;
}

abbrev pub unhold : String → Running → Running
unhold name r = record {
  effective = r.effective;
  supervised = r.supervised;
  cycling = r.cycling;
  held = erase name r.held;
}

-- `cycleSet.stop` and `cycleSet.start`.
abbrev pub stop_cycles : String → Running → Running
stop_cycles name r = set_cycling name false r

abbrev pub started_cycles : String → Option Function → Running → Running
started_cycles name none r = r
started_cycles name (some f) r =
    if is_persistent f.lifecycle.mode then r else set_cycling name true r

abbrev pub start_cycles : String → Running → Running
start_cycles name r = started_cycles name (lookup name r.effective) r

abbrev pub mode_eq : Mode → Mode → Bool
mode_eq persistent persistent = true
mode_eq transaction transaction = true
mode_eq window window = true
mode_eq _ _ = false

abbrev bool_eq : Bool → Bool → Bool
bool_eq true b = b
bool_eq false b = not b

abbrev pub lifecycle_eq : Lifecycle → Lifecycle → Bool
lifecycle_eq a b =
    mode_eq a.mode b.mode
    && ((a.every == b.every)
        && ((a.timeout == b.timeout)
            && ((a.duration == b.duration)
                && ((a.recycle == b.recycle) && bool_eq a.replace_on_exit b.replace_on_exit))))

-- A function that starts under its mode.
abbrev pub begin : String → Function → Running → Running
begin name f r =
    if is_persistent f.lifecycle.mode
    then set_supervised (insert name fresh r.supervised) r
    else start_cycles name r

abbrev pub reset_in : String → Option PersistentState → Running → Running
reset_in name none r = r
reset_in name (some st) r = set_supervised (insert name fresh r.supervised) r

-- What an update or a step of the loop ends with: whether the roll-out goes on.
pub data Next : Type 0 where
  goes_on halts ends : Next

-- A persistent function, by a fresh machine of the new version.
abbrev pub after_update : String → Function → Running → Verified → Running × Next
after_update name cur r works = (unhold name r, goes_on)
after_update name cur r interrupted = (r, ends)
after_update name cur r skipped = (r, goes_on)
after_update name cur r (fails reason) = (hold name reason (set_fn name cur r), halts)

-- A start is never skipped.
abbrev pub tried : Verified → Verified
tried skipped = fails "skipped"
tried v = v

-- The cycles of a function start again whatever came of its update.
abbrev pub with_cycles : String → Running × Next → Running × Next
with_cycles name (r, next) = (start_cycles name r, next)

-- `update`.
unfoldable pub update : Host → String → Function → Function → Running → Running × Next
update host name cur new r =
    if not (mode_eq cur.lifecycle.mode new.lifecycle.mode)
    then (
      begin name new
          (set_fn name new (set_supervised (erase name r.supervised) (stop_cycles name r))),
      goes_on,
    )
    else if is_persistent new.lifecycle.mode
    then after_update name cur (reset_in name (lookup name r.supervised) (set_fn name new r))
        (tried (host.start name new))
    else with_cycles name
        (after_update name cur (set_fn name new (stop_cycles name r)) (host.cycle name new))

-- A function with the same machine: health, labels or schedule changed, if anything.
abbrev pub adopt : String → Function → Function → Running → Running
adopt name cur new r =
    let adopted = unhold name (set_fn name new r) in
    if not (lifecycle_eq cur.lifecycle new.lifecycle) && not (is_persistent new.lifecycle.mode)
    then start_cycles name (stop_cycles name adopted)
    else adopted

-- The body of the loop over the functions, for the version that runs, if any.
abbrev pub step :
    (Function → String) → Host → String → Function → Option Function → Running → Running × Next
step spec_hash host name new none r = (begin name new (set_fn name new r), goes_on)
step spec_hash host name new (some cur) r =
    if str_eq (spec_hash cur) (spec_hash new)
    then (adopt name cur new r, goes_on)
    else update host name cur new r

-- The rest of the loop, unless this step stopped it.
abbrev pub proceed : Next → Running → Running × Next → Running × Next
proceed goes_on r further = further
proceed halts r further = (r, halts)
proceed ends r further = (r, ends)

unfoldable pub roll : (Function → String) → Host → Dict Function → Running → Running × Next
roll spec_hash host [] r = (r, goes_on)
roll spec_hash host ((name, new) ∷ rest) r =
    if host.ending name
    then (r, ends)
    else (let this = step spec_hash host name new (lookup name r.effective) r in
        let further = roll spec_hash host rest this.0 in proceed this.1 this.0 further)

-- The functions that are gone stop first; their state is removed too.
unfoldable pub drop_removed : Dict Function → Dict Function → Running → Running
drop_removed wanted [] r = r
drop_removed wanted ((name, f) ∷ old) r = drop_removed wanted old (elim (lookup name wanted) [
  | some _ ↦ r
  | none ↦ record {
    effective = erase name r.effective;
    supervised = erase name r.supervised;
    cycling = λ n. if str_eq n name then false else r.cycling n;
    held = erase name r.held;
  }
])

-- `rollout`, from the functions of the old and the new specification.
unfoldable pub rollout :
    (Function → String) → Host → Dict Function → Dict Function → Running → Running × Next
rollout spec_hash host old new r = roll spec_hash host new (drop_removed new old r)
