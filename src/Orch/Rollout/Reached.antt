-- ===== src/Orch/Rollout/Reached.antt =====
-- Where a roll-out ends (rollout of orchestrator/orch/rollout.go).
use micro_hosted.Prelude.{
  ◌≡◌, false, none, some, [], ◌∷◌, ◌++◌, String, str_eq, eq_iff, Dict, lookup, All, arith, ◌⊎◌,
}
use micro_hosted.Orch.{Function}
use micro_hosted.Orch.Rollout.{Running, Next, goes_on, halts}
use micro_hosted.Orch.Rollout.Stepwise.{version}

abbrev pub Runs : Running → (String × Function) → Type 0
Runs r (name, f) = version name r ≡ some f

abbrev pub Unchanged : Running → Running → (String × Function) → Type 0
Unchanged r s (name, f) = version name s ≡ version name r

-- A roll-out that stopped at a function: those before it run their new version, those after it the
-- one that they ran; the function itself, unless the orchestrator is ending, went back and is held.
pub record Stopped (fs : Dict Function) (r : Running) (o : Running × Next) : Type 0 where
  pub updated : Dict Function
  pub name : String
  pub new : Function
  pub left : Dict Function
  pub order : fs ≡ updated ++ ((name, new) ∷ left)
  pub run_new : All (Runs o.0) updated
  pub run_old : All (Unchanged r o.0) left
  pub back :
      o.1 ≡ halts
      → (version name o.0 ≡ version name r)
        × ((reason : String) × (lookup name o.0.held ≡ some reason))

abbrev pub Reached : Dict Function → Running → Running × Next → Type 0
Reached fs r o = ((o.1 ≡ goes_on) × All (Runs o.0) fs) ⊎ ((o.1 ≡ goes_on → ⊥) × Stopped fs r o)

abbrev Other : String → (String × Function) → Type 0
Other name p = str_eq name p.0 ≡ false

others : (name : String) (fs : Dict Function) → lookup name fs ≡ none → All (Other name) fs
unfolding lookup
others name [] absent = tt
others name ((n, f) ∷ fs) absent =
    (ground (arith, absent, eq_iff n name, eq_iff name n), others name fs (ground (arith, absent)))
