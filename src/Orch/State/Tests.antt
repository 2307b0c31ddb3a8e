-- ===== src/Orch/State/Tests.antt =====
-- Six failures of one function and one of another, with a hold between them.
use micro_hosted.Prelude.{
  ◌≡◌, refl, Bool, false, none, str_eq, List, [], ◌∷◌, String, lookup, insert,
}
use micro_hosted.Orch.State.{Failure, get, record_failure, set_held, prune, failures_kept}
use micro_hosted.Orch.State.Kept.{Op, fails, holds, run, reported, last, failures_last}

abbrev failure : String → String → Failure
failure function cause = record { function = function; cause = cause }

abbrev calls : List Op
calls =
    fails (failure "api" "1")
    ∷ fails (failure "api" "2")
    ∷ fails (failure "web" "x")
    ∷ holds "now" "api" "bad"
    ∷ fails (failure "api" "3")
    ∷ fails (failure "api" "4")
    ∷ fails (failure "api" "5")
    ∷ fails (failure "api" "6")
    ∷ []

newest_five :
    (get "api" (run calls [])).failures
    ≡ failure "api" "2"
      ∷ failure "api" "3"
      ∷ failure "api" "4"
      ∷ failure "api" "5"
      ∷ failure "api" "6"
      ∷ []
unfolding run record_failure set_held lookup insert
newest_five = refl

failures_last_run : (get "api" (run calls [])).failures ≡ last failures_kept (reported "api" calls)
failures_last_run = failures_last "api" calls

abbrev only_api : String → Bool
only_api fn = str_eq fn "api"

flags_cleared : (get "api" (prune only_api (run calls []))).held ≡ false
unfolding run record_failure set_held lookup insert prune
flags_cleared = refl

residue_removed : lookup "web" (prune only_api (run calls [])) ≡ none
unfolding run record_failure set_held lookup insert prune
residue_removed = refl
