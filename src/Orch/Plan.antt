-- ===== src/Orch/Plan.antt =====
-- The changes that a plan makes (orchestrator/orch/plan.go): for one persistent function, for a
-- network's policy, and for a whole specification.
pub mod Newest
pub mod Relabel
pub mod Performed
pub mod Converge
mod Tests
use micro_hosted.Prelude.{
  ℕ, zero, suc, ◌+◌, ◌*◌, min, max, Bool, true, false, not, ◌&&◌, ◌||◌, Option, none, some, List,
  [], ◌∷◌, ◌++◌, String, str_eq, ltb, ◌==◌, if◌then◌else◌, Dict, lookup, insert,
}
use micro_hosted.Labels.{Labels, PatchMap}
use micro_hosted.Orch.{
  Vm, Function, VmState, running, stopped, is_running, label, later, label_spec, label_generation,
  function_labels, label_function,
}

-- The reasons for a change.
pub data Why : Type 0 where
  duplicate spec_changed removed leftover : Why
  not_running : String → Why
  died : String → Why

-- `destroy` of a machine that is dead records a failure first: `bury`.
pub data Action : Type 0 where
  destroy : Vm → Why → Action
  bury : Vm → Why → Action
  create : String → Action
  relabel : Vm → PatchMap → Action

-- The loop that picks the machine to keep.
abbrev pub newer : Vm → Option Vm → Bool
newer v none = true
newer v (some keep) = later v.created_at keep.created_at

abbrev pub is_current : String → Vm → Bool
is_current hash v = is_running v.state && str_eq (label label_spec v.labels) hash

unfoldable pub newest : String → Option Vm → List Vm → Option Vm
newest hash keep [] = keep
newest hash keep (v ∷ vs) =
    newest hash (if is_current hash v && newer v keep then some v else keep) vs

abbrev why_dead : String → Option String → Why
why_dead state none = not_running state
why_dead state (some reason) = died reason

-- What becomes of a machine that is not kept.
abbrev pub retire_in : String → Vm → VmState → Action
retire_in hash v (stopped state) = bury v (why_dead state v.last_exit)
retire_in hash v running =
    destroy v (if str_eq (label label_spec v.labels) hash then duplicate else spec_changed)

abbrev pub retire : String → Vm → Action
retire hash v = retire_in hash v v.state

abbrev pub is_kept : Option Vm → Vm → Bool
is_kept none v = false
is_kept (some keep) v = str_eq v.id keep.id

unfoldable pub retire_others : String → Option Vm → List Vm → List Action
retire_others hash keep [] = []
retire_others hash keep (v ∷ vs) =
    let rest = retire_others hash keep vs in if is_kept keep v then rest else (retire hash v ∷ rest)

-- The label patch: what the wanted labels set and the machine lacks, then what it has and they do
-- not set.
unfoldable pub missing_labels : Labels → Labels → PatchMap → PatchMap
missing_labels have [] patch = patch
missing_labels have ((k, v) ∷ want) patch = missing_labels have want (
    if str_eq k label_generation || str_eq (label k have) v then patch else insert k (some v) patch)

abbrev pub is_none : Option String → Bool
is_none none = true
is_none (some _) = false

unfoldable pub extra_labels : Labels → Labels → PatchMap → PatchMap
extra_labels want [] patch = patch
extra_labels want ((k, v) ∷ have) patch =
    extra_labels want have (if is_none (lookup k want) then insert k none patch else patch)

unfoldable pub label_patch : Labels → Labels → PatchMap
label_patch want have = extra_labels want have (missing_labels have want [])

abbrev pub relabelled : Vm → PatchMap → List Action
relabelled keep [] = []
relabelled keep (c ∷ cs) = relabel keep (c ∷ cs) ∷ []

abbrev pub settled : String → Labels → Option Vm → List Action
settled name want none = create name ∷ []
settled name want (some keep) = relabelled keep (label_patch want keep.labels)

-- `persistentActions`.
unfoldable pub persistent_actions :
    (Function → String) → String → String → Function → List Vm → List Action
persistent_actions spec_hash project name f have =
    let keep = newest (spec_hash f) none have in
    retire_others (spec_hash f) keep have
    ++ settled name (function_labels project name f.labels (spec_hash f) "0") keep
