-- ===== src/Orch/Supervise/Alone.antt =====
-- The machines of a function after a pass of its supervisor (superviseOne of
-- orchestrator/orch/run.go).
use micro_hosted.Prelude.{
  ◌≤◌, ◌≡◌, refl, sym, ap, ◌∙◌, Bool, false, List, [], ◌∷◌, String, eq_iff, if◌then◌else◌, holds_if,
  length, arith,
}
use micro_hosted.Orch.{Function, Vm}
use micro_hosted.Orch.Plan.Performed.{without, UniqueIds}
use micro_hosted.Orch.Supervise.{
  PersistentState, Seen, Effect, record_failure, destroy, start, supervise_one,
}
use micro_hosted.Orch.Supervise.Carried.{carried, supervise_one_ideal}

-- What the engine does of the effects: a destroy may fail, which the pass does not notice.
abbrev pub engine_carry : (String → Bool) → Vm → Effect → List Vm → List Vm
engine_carry works born (record_failure v) vms = vms
engine_carry works born (destroy v) vms = if works v.id then without v.id vms else vms
engine_carry works born start vms = born ∷ vms

abbrev pub engine_carried : (String → Bool) → Vm → List Effect → List Vm → List Vm
engine_carried works born [] vms = vms
engine_carried works born (e ∷ es) vms =
    engine_carried works born es (engine_carry works born e vms)

-- The machines that the engine does not fail to destroy.
unfoldable pub destroyable : (String → Bool) → List Vm → List Vm
destroyable works [] = []
destroyable works (v ∷ vms) =
    let rest = destroyable works vms in if works v.id then v ∷ rest else rest

destroyable-without :
    (works : String → Bool) (id : String) (vms : List Vm)
    → destroyable works (without id vms) ≡ without id (destroyable works vms)
unfolding destroyable without
destroyable-without works id [] = refl
destroyable-without works id (v ∷ vms) = ground (arith, destroyable-without works id vms)

destroyable_stuck :
    (works : String → Bool) (id : String) (vms : List Vm)
    → works id ≡ false
    → without id (destroyable works vms) ≡ destroyable works vms
unfolding destroyable without
destroyable_stuck works id [] stuck = refl
destroyable_stuck works id (v ∷ vms) stuck = ground (
  arith,
  stuck,
  eq_iff v.id id,
  ap works {x = v.id} {y = id},
  destroyable_stuck works id vms stuck,
)

length-destroyable :
    (works : String → Bool) (vms : List Vm) → length (destroyable works vms) ≤ length vms
unfolding destroyable
length-destroyable works [] = omega arith
length-destroyable works (v ∷ vms) = ground (arith, length-destroyable works vms)

-- But for those it fails to destroy, the engine has the machines that it would have otherwise.
pub destroyable_same :
    (works : String → Bool) (born : Vm) (es : List Effect) (vs ws : List Vm)
    → destroyable works vs ≡ destroyable works ws
    → destroyable works (engine_carried works born es vs) ≡ destroyable works (carried born es ws)
unfolding destroyable
destroyable_same works born [] vs ws same = same
destroyable_same works born (record_failure v ∷ es) vs ws same =
    destroyable_same works born es vs ws same
destroyable_same works born (destroy v ∷ es) vs ws same =
    destroyable_same works born es (engine_carry works born (destroy v) vs) (without v.id ws) (
      holds_if (λ (xs : List Vm). destroyable works xs ≡ destroyable works (without v.id ws))
        (works v.id) _ _
        (λ well.
          destroyable-without works v.id vs
          ∙ ap (without v.id) same
          ∙ sym (destroyable-without works v.id ws))
        (λ stuck.
          same
          ∙ sym (destroyable_stuck works v.id ws stuck)
          ∙ sym (destroyable-without works v.id ws)))
destroyable_same works born (start ∷ es) vs ws same =
    destroyable_same works born es (born ∷ vs) (born ∷ ws) (ground (arith, same))

-- After a pass of the supervisor the function has at most one machine besides those that the engine
-- failed to destroy, whatever the pass found and whatever it learnt. Machines have different ids,
-- and the function is not degraded, when a pass does nothing.
pub supervise_one-AtMostOne :
    (works : String → Bool) (born : Vm) (hash : String) (f : Function) (seen : Seen)
    (have : List Vm) (st : PersistentState)
    → UniqueIds have
    → st.degraded ≡ false
    → length (
        destroyable works
          (engine_carried works born (supervise_one hash f have seen st).effects have))
      ≤ 1
supervise_one-AtMostOne works born hash f seen have st unique tries =
    let effects = (supervise_one hash f have seen st).effects in
    omega (
      arith,
      ap length (destroyable_same works born effects have have refl),
      length-destroyable works (carried born effects have),
      supervise_one_ideal born hash f seen have st unique tries,
    )
