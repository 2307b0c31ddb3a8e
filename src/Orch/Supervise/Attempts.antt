-- ===== src/Orch/Supervise/Attempts.antt =====
-- The starts that a supervisor attempts (superviseOne and failedStart of orchestrator/orch/run.go).
use micro_hosted.Prelude.{
  not, ◌||◌, ℕ, ◌+◌, ◌-◌, ◌≤◌, ◌≡◌, refl, sym, subst, false, ◌&&◌, Option, none, some, List, [],
  ◌∷◌, ◌++◌, String, ltb, if◌then◌else◌, holds_if, arith, inl, inr, ◌⊎◌,
}
use micro_hosted.Orch.{Function, Vm, VmState, running, stopped}
use micro_hosted.Orch.Plan.{is_current}
use micro_hosted.Orch.Supervise.{
  PersistentState, Seen, Start, serves, fails, stopping, Effect, record_failure, destroy, start,
  Outcome, remove_in, remove, pick, recycle, ended, replaced, restart, checked, served,
  supervise_one, with_health, healthy, health_every, threshold, after_start, failed_start,
}

abbrev pub starts : List Effect → ℕ
starts [] = 0
starts (record_failure v ∷ es) = starts es
starts (destroy v ∷ es) = starts es
starts (start ∷ es) = starts es + 1

starts-append : (xs ys : List Effect) → starts (xs ++ ys) ≡ starts xs + starts ys
starts-append [] ys = omega arith
starts-append (record_failure v ∷ xs) ys = starts-append xs ys
starts-append (destroy v ∷ xs) ys = starts-append xs ys
starts-append (start ∷ xs) ys = omega (arith, starts-append xs ys)

starts-remove_in : (v : Vm) (state : VmState) → starts (remove_in v state) ≡ 0
starts-remove_in v running = refl
starts-remove_in v (stopped s) = refl

starts-pick : (hash : String) (cur : Option Vm) (vs : List Vm) → starts (pick hash cur vs).1 ≡ 0
unfolding pick
starts-pick hash cur [] = refl
starts-pick hash none (v ∷ vs) =
    holds_if (λ (r : Option Vm × List Effect). starts r.1 ≡ 0) (is_current hash v) _ _
      (λ current. starts-pick hash (some v) vs)
      (λ other. omega (
        arith,
        starts-append (remove v) (pick hash none vs).1,
        starts-remove_in v v.state,
        starts-pick hash none vs,
      ))
starts-pick hash (some c) (v ∷ vs) = omega (
  arith,
  starts-append (remove v) (pick hash (some c) vs).1,
  starts-remove_in v v.state,
  starts-pick hash (some c) vs,
)

-- A pass attempts no start and leaves the count of failures, or attempts one, not before its time.
abbrev pub Quiet : PersistentState → Outcome → Type 0
Quiet st o =
    (starts o.effects ≡ 0)
    × (o.state.start_failures ≡ st.start_failures)
    × (o.state.degraded ≡ st.degraded)
    × (o.state.next_start ≡ st.next_start)

abbrev pub Tried : Seen → PersistentState → Outcome → Type 0
Tried seen st o =
    (starts o.effects ≡ 1)
    × (st.next_start ≤ seen.now)
    × (o.state.start_failures ≡ (after_start seen seen.start st).start_failures)
    × (o.state.degraded ≡ (after_start seen seen.start st).degraded)
    × (o.state.next_start ≡ (after_start seen seen.start st).next_start)

abbrev pub Once : Seen → PersistentState → Outcome → Type 0
Once seen st o = Quiet st o ⊎ Tried seen st o

module _ (f : Function) (seen : Seen) (st : PersistentState) where
  -- A state that differs in the health of the machine only.
  after-health :
      (s : Start) (failures checked_at : ℕ)
      → ((after_start seen s (with_health failures checked_at st)).start_failures
          ≡ (after_start seen s st).start_failures)
        × ((after_start seen s (with_health failures checked_at st)).degraded
            ≡ (after_start seen s st).degraded)
        × ((after_start seen s (with_health failures checked_at st)).next_start
            ≡ (after_start seen s st).next_start)
  unfolding failed_start
  after-health serves failures checked_at = (refl, refl, refl)
  after-health fails failures checked_at = ground arith
  after-health stopping failures checked_at = (refl, refl, refl)

  restart-Once :
      (failures checked_at : ℕ) (before : List Effect)
      → starts before ≡ 0
      → Once seen st (restart seen (with_health failures checked_at st) before)
  restart-Once failures checked_at before silent =
      holds_if (Once seen st) (ltb seen.now st.next_start || not seen.worker) _ _
        (λ waits. inl (silent, refl, refl, refl))
        (λ due.
          let (a, b, c) = after-health seen.start failures checked_at in
          inr (
            omega (arith, silent, starts-append before (start ∷ [])),
            ground (arith, due),
            a,
            b,
            c,
          ))

  checked-Once :
      (v : Vm) (before : List Effect)
      → starts before ≡ 0
      → Once seen st (checked f seen st v before)
  checked-Once v before silent =
      holds_if (Once seen st) (ltb (seen.now - st.last_check) (health_every f.health)) _ _
        (λ early. inl (silent, refl, refl, refl))
        (λ due.
          holds_if (Once seen st) (healthy f seen) _ _ (λ well. inl (silent, refl, refl, refl))
            (λ ill.
              holds_if (Once seen st) (ltb (st.health_failures + 1) (threshold f.health)) _ _
                (λ few. inl (silent, refl, refl, refl))
                (λ many.
                  restart-Once (st.health_failures + 1) seen.now
                    (before ++ (record_failure v ∷ destroy v ∷ []))
                    (omega
                      (arith, silent, starts-append before (record_failure v ∷ destroy v ∷ []))))))

  served-Once :
      (cur : Option Vm) (before : List Effect)
      → starts before ≡ 0
      → Once seen st (served f seen st cur before)
  served-Once none before silent = restart-Once st.health_failures st.last_check before silent
  served-Once (some v) before silent =
      holds_if (Once seen st) (ended f seen) _ _
        (λ over. restart-Once 0 st.last_check (before ++ replaced seen v) (
          omega (
            arith,
            silent,
            starts-append before (replaced seen v),
            holds_if (λ (es : List Effect). starts es ≡ 0) _ (destroy v ∷ [])
                (record_failure v ∷ destroy v ∷ []) (λ well. refl) (λ ill. refl),
          )))
        (λ goes_on. checked-Once v before silent)

  starts-recycle : (cur : Option Vm) → starts (recycle f seen cur).1 ≡ 0
  starts-recycle none = refl
  starts-recycle (some v) =
      holds_if (λ (r : Option Vm × List Effect). starts r.1 ≡ 0)
        (ltb 0 f.lifecycle.recycle && seen.expired) _ _ (λ old. refl) (λ young. refl)

  pub supervise_one-Once :
      (hash : String) (have : List Vm)
      → st.degraded ≡ false
      → Once seen st (supervise_one hash f have seen st)
  unfolding supervise_one
  supervise_one-Once hash have tries =
      let picked = pick hash none have in
      let kept = recycle f seen picked.0 in
      subst
        (λ b. Once seen st (
          if b
          then record { state = st; effects = [] }
          else served f seen st kept.0 (picked.1 ++ kept.1)))
        (sym tries)
        (served-Once kept.0 (picked.1 ++ kept.1) (
          omega (
            arith,
            starts-append picked.1 kept.1,
            starts-pick hash none have,
            starts-recycle picked.0,
          )))
