-- ===== src/Orch/State.antt =====
-- What the orchestrator keeps of its functions (orchestrator/orch/state.go): a file per function,
-- as a map. A file is replaced as a whole; an update that fails leaves it, and is not modelled.
-- `now` is the time's text.
pub mod Kept
mod Tests
use micro_hosted.Prelude.{
  ℕ, ◌+◌, ◌-◌, Bool, true, false, not, ◌||◌, Option, none, some, List, [], ◌∷◌, ◌++◌, String,
  str_eq, ltb, if◌then◌else◌, length, drop, Dict, lookup, insert, erase,
}

-- A failure of a function; the texts of its record are one.
pub record Failure : Type 0 where
  pub function : String
  pub cause : String

abbrev pub failures_kept : ℕ
failures_kept = 5

pub record FunctionState : Type 0 where
  pub failures : List Failure
  pub degraded : Bool
  pub degraded_at : String
  pub held : Bool
  pub held_reason : String
  pub held_at : String

abbrev pub empty_state : FunctionState
empty_state = record {
  failures = [];
  degraded = false;
  degraded_at = "";
  held = false;
  held_reason = "";
  held_at = "";
}

abbrev pub State : Type 0
State = Dict FunctionState

abbrev pub or_new : Option FunctionState → FunctionState
or_new none = empty_state
or_new (some st) = st

abbrev pub get : String → State → FunctionState
get fn s = or_new (lookup fn s)

abbrev pub update : String → (FunctionState → FunctionState) → State → State
update fn change s = insert fn (change (get fn s)) s

abbrev pub newest_failures : List Failure → List Failure
newest_failures fs =
    if ltb failures_kept (length fs) then drop (length fs - failures_kept) fs else fs

abbrev pub with_failures : List Failure → FunctionState → FunctionState
with_failures fs st = record {
  failures = fs;
  degraded = st.degraded;
  degraded_at = st.degraded_at;
  held = st.held;
  held_reason = st.held_reason;
  held_at = st.held_at;
}

unfoldable pub record_failure : Failure → State → State
record_failure f s =
    update f.function (λ st. with_failures (newest_failures (st.failures ++ (f ∷ []))) st) s

unfoldable pub set_degraded : String → String → Bool → State → State
set_degraded now fn degraded s =
    update fn
      (λ st. record {
        failures = st.failures;
        degraded = degraded;
        degraded_at = if degraded then now else "";
        held = st.held;
        held_reason = st.held_reason;
        held_at = st.held_at;
      })
      s

unfoldable pub set_held : String → String → String → State → State
set_held now fn reason s =
    update fn
      (λ st. record {
        failures = st.failures;
        degraded = st.degraded;
        degraded_at = st.degraded_at;
        held = not (str_eq reason "");
        held_reason = reason;
        held_at = if str_eq reason "" then "" else now;
      })
      s

unfoldable pub remove : String → State → State
remove fn s = erase fn s

abbrev pub cleared : FunctionState → FunctionState
cleared st = record {
  failures = st.failures;
  degraded = false;
  degraded_at = "";
  held = false;
  held_reason = "";
  held_at = "";
}

-- The functions that are kept, as the test of the map `keep`.
unfoldable pub prune : (String → Bool) → State → State
prune keep [] = []
prune keep ((fn, st) ∷ s) =
    let rest = prune keep s in
    if not (keep fn)
    then rest
    else if st.degraded || st.held
    then (fn, cleared st) ∷ rest
    else (fn, st) ∷ rest
