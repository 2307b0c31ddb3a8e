-- ===== src/Orch.antt =====
-- The orchestrator (orchestrator/orch): what it holds of a function and of a machine. A time is the
-- text that the engine gives. `spec_hash` stands for SpecHash, the SHA-256 digest of a function's
-- JSON, wherever it is used.
pub mod Plan
pub mod Policy
pub mod Project
pub mod Budget
pub mod Supervise
pub mod State
pub mod Rollout
use Prim.Native.Char.{code}
use micro_hosted.Prelude.{
  ℕ, zero, suc, Bool, true, false, not, ◌&&◌, ◌||◌, Option, none, some, List, [], ◌∷◌, ◌++◌, String,
  str_eq, ltb, ◌==◌, if◌then◌else◌, Dict, lookup, insert, codes,
}
use micro_hosted.Labels.{Labels}

-- Owner and the label keys.
abbrev pub owner : String
owner = "mh-orchestrator"

abbrev pub label_managed_by : String
label_managed_by = "managed-by"

abbrev pub label_project : String
label_project = "project"

abbrev pub label_function : String
label_function = "function"

abbrev pub label_generation : String
label_generation = "generation"

abbrev pub label_spec : String
label_spec = "spec"

pub data Mode : Type 0 where
  persistent transaction window : Mode

abbrev pub is_persistent : Mode → Bool
is_persistent persistent = true
is_persistent _ = false

-- What the plan, the roll-out and the supervisor read of a function. Durations are in seconds.
pub record Lifecycle : Type 0 where
  pub mode : Mode
  pub every : ℕ
  pub timeout : ℕ
  pub duration : ℕ
  pub recycle : ℕ
  pub replace_on_exit : Bool

pub record Health : Type 0 where
  pub every : ℕ
  pub failures : ℕ

pub record Function : Type 0 where
  pub image : String
  pub command : String
  pub lifecycle : Lifecycle
  pub health : Option Health
  pub mem_mb : ℕ
  pub labels : Labels

pub data VmState : Type 0 where
  running : VmState
  stopped : String → VmState

pub record Vm : Type 0 where
  pub id : String
  pub name : String
  pub state : VmState
  pub labels : Labels
  pub created_at : String
  pub last_exit : Option String
  pub quarantine : Bool

abbrev pub is_running : VmState → Bool
is_running running = true
is_running (stopped _) = false

-- `labels[k]`, the empty text if there is none.
abbrev or_empty : Option String → String
or_empty none = ""
or_empty (some v) = v

abbrev pub label : String → Labels → String
label k labels = or_empty (lookup k labels)

-- `a > b` on texts, by their bytes.
unfoldable pub is_after : List ℕ → List ℕ → Bool
is_after [] ys = false
is_after (x ∷ xs) [] = true
is_after (x ∷ xs) (y ∷ ys) = if ltb y x then true else if ltb x y then false else is_after xs ys

abbrev pub later : String → String → Bool
later a b = is_after (codes a) (codes b)

-- `mine`.
abbrev ours : String → Bool → Option String → Bool
ours project declared none = declared
ours project declared (some p) = str_eq p project

unfoldable pub mine : String → Labels → Bool → Bool
mine project labels declared =
    if not (str_eq (label label_managed_by labels) owner)
    then false
    else ours project declared (lookup label_project labels)

-- `functionLabels`; `generation` is the number's text.
unfoldable pub function_labels : String → String → Labels → String → String → Labels
function_labels project name labels hash generation = insert label_spec hash (
    insert label_generation generation (
      insert label_function name
        (insert label_project project (insert label_managed_by owner labels))))
