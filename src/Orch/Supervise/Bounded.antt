-- ===== src/Orch/Supervise/Bounded.antt =====
-- Passes of a supervisor, one after the other (supervise and superviseOne of
-- orchestrator/orch/run.go).
use micro_hosted.Prelude.{
  Bool, not, ◌||◌, ℕ, ◌+◌, ◌≤◌, ◌<◌, ◌≡◌, refl, sym, ap, ◌∙◌, subst, ◌↔◌, true, false, none, List,
  [], ◌∷◌, ◌++◌, String, ltb, leb, if◌then◌else◌, holds_if, All, arith, Bool-cases, inl, inr,
}
use micro_hosted.Orch.{Function, Vm}
use micro_hosted.Orch.Plan.{is_current}
use micro_hosted.Orch.Plan.Newest.{Among, here, there}
use micro_hosted.Orch.Plan.Performed.{UniqueIds}
use micro_hosted.Orch.Supervise.{
  PersistentState, Seen, serves, fails, start, Outcome, pick, recycle, restart, served,
  supervise_one, after_start, failed_start, degraded_after, backoff, fresh,
}
use micro_hosted.Orch.Supervise.Alone.{engine_carried, destroyable, destroyable_same}
use micro_hosted.Orch.Supervise.Carried.{carried, carried-append, picked-Holds}
use micro_hosted.Orch.Supervise.Attempts.{starts, supervise_one-Once}

-- The machines that are found and what is seen, pass by pass.
abbrev pub Passes : Type 0
Passes = List (List Vm × Seen)

unfoldable pub supervise : String → Function → Passes → PersistentState → PersistentState × ℕ
supervise hash f [] st = (st, 0)
supervise hash f ((have, seen) ∷ passes) st =
    let o = supervise_one hash f have seen st in
    let rest = supervise hash f passes o.state in (rest.0, starts o.effects + rest.1)

idle_when_degraded :
    (hash : String) (f : Function) (have : List Vm) (seen : Seen) (st : PersistentState)
    → st.degraded ≡ true
    → supervise_one hash f have seen st ≡ record { state = st; effects = [] }
unfolding supervise_one
idle_when_degraded hash f have seen st degraded = ground (arith, degraded)

module _ (hash : String) (f : Function) where
  degraded-Still :
      (passes : Passes) (st : PersistentState)
      → st.degraded ≡ true
      → supervise hash f passes st ≡ (st, 0)
  unfolding supervise
  degraded-Still [] st degraded = refl
  degraded-Still ((have, seen) ∷ passes) st degraded =
      ground
        (arith, idle_when_degraded hash f have seen st degraded, degraded-Still passes st degraded)

  -- What a failed start makes of a count below the limit.
  failed-Counted :
      (seen : Seen) (st : PersistentState)
      → seen.start ≡ fails
      → st.degraded ≡ false
      → ((after_start seen seen.start st).start_failures ≡ st.start_failures + 1)
        × ((after_start seen seen.start st).degraded ≡ leb degraded_after (st.start_failures + 1))
        × (leb degraded_after (st.start_failures + 1) ≡ false
            → (after_start seen seen.start st).next_start
              ≡ seen.done + backoff (st.start_failures + 1))
  unfolding failed_start
  failed-Counted seen st failing tries = ground (arith, failing, tries)

  supervise-Counted :
      (passes : Passes) (st : PersistentState)
      → All (λ (p : List Vm × Seen). p.1.start ≡ fails) passes
      → st.degraded ≡ false
      → st.start_failures < degraded_after
      → ((supervise hash f passes st).1 + st.start_failures ≤ degraded_after)
        × ((supervise hash f passes st).0.degraded
            ≡ leb degraded_after ((supervise hash f passes st).1 + st.start_failures))
  unfolding supervise
  supervise-Counted [] st all_fail tries few = ground (arith, tries, few)
  supervise-Counted ((have, seen) ∷ passes) st all_fail tries few =
      let o = supervise_one hash f have seen st in
      elim (supervise_one-Once f seen st hash have tries) [
        | inl (silent, same, still, unmoved) ↦
            let ih =
              supervise-Counted passes o.state all_fail.1 (still ∙ tries)
                (omega (arith, same, few)) in
            ground (arith, silent, same, ih)
        | inr (one, due, count, degrades, next) ↦
            let (more, limit, wait) = failed-Counted seen st all_fail.0 tries in
            elim (Bool-cases (leb degraded_after (st.start_failures + 1))) [
              | inl last ↦
                  let stopped = degraded-Still passes o.state (degrades ∙ limit ∙ last) in
                  ground (arith, one, few, last, stopped, degrades, limit)
              | inr further ↦
                  let ih =
                    supervise-Counted passes o.state all_fail.1 (degrades ∙ limit ∙ further)
                      (ground (arith, count, more, further)) in
                  ground (arith, one, count, more, ih)
            ]
      ]

  -- A function whose starts all fail is started five times at most, however long it is supervised
  -- and whatever is found and seen meanwhile; it is degraded exactly when five have been attempted.
  pub supervise-Bounded :
      (passes : Passes)
      → All (λ (p : List Vm × Seen). p.1.start ≡ fails) passes
      → ((supervise hash f passes fresh).1 ≤ degraded_after)
        × (((supervise hash f passes fresh).0.degraded ≡ true)
            ↔ ((supervise hash f passes fresh).1 ≡ degraded_after))
  supervise-Bounded passes all_fail =
      let counted = supervise-Counted passes fresh all_fail refl (omega arith) in
      ground (arith, counted)

  -- A failed start, the k-th in a row, is followed by no other before the back-off, 5 * 2 ^ (k - 1)
  -- seconds or five minutes if that is less, has passed.
  pub supervise_one-Spaced :
      (have then_have : List Vm) (seen then_seen : Seen) (st : PersistentState)
      → st.degraded ≡ false
      → seen.start ≡ fails
      → starts (supervise_one hash f have seen st).effects ≡ 1
      → starts
          (supervise_one hash f then_have then_seen
            (supervise_one hash f have seen st).state).effects
        ≡ 1
      → seen.done + backoff (st.start_failures + 1) ≤ then_seen.now
  supervise_one-Spaced have then_have seen then_seen st tries failing first second =
      let o = supervise_one hash f have seen st in
      let (more, limit, wait) = failed-Counted seen st failing tries in
      elim (supervise_one-Once f seen st hash have tries) [
        | inl (silent, same, still, unmoved) ↦ absurd (omega (arith, silent, first))
        | inr (one, due, count, degrades, next) ↦
            elim (Bool-cases (leb degraded_after (st.start_failures + 1))) [
              | inl last ↦ absurd (
                  ground (
                    arith,
                    second,
                    idle_when_degraded hash f then_have then_seen o.state (degrades ∙ limit ∙ last),
                  ))
              | inr further ↦
                  elim (supervise_one-Once f then_seen o.state hash then_have
                    (degrades ∙ limit ∙ further)) [
                      | inl (silent, same, still, unmoved) ↦ absurd (omega (arith, silent, second))
                      | inr (again, due_again, _, _, _) ↦
                          omega (arith, due_again, next, wait further)
                    ]
            ]
      ]

  nobody :
      (have : List Vm)
      → ((v : Vm) → Among v have → is_current hash v ≡ false)
      → (pick hash none have).0 ≡ none
  unfolding pick
  nobody [] gone = refl
  nobody (v ∷ vs) gone = ground (arith, gone v here, nobody vs (λ w a. gone w (there a)))

  -- When no destroy fails.
  supervise_one_ideal :
      (born : Vm) (have : List Vm) (seen : Seen) (st : PersistentState)
      → UniqueIds have
      → ((v : Vm) → Among v have → is_current hash v ≡ false)
      → st.degraded ≡ false
      → st.next_start ≤ seen.now
      → seen.worker ≡ true
      → seen.start ≡ serves
      → (carried born (supervise_one hash f have seen st).effects have ≡ born ∷ [])
        × ((supervise_one hash f have seen st).state.start_failures ≡ 0)
  unfolding supervise_one
  supervise_one_ideal born have seen st unique gone tries due free success =
      let picked = pick hash none have in
      let none_picked = nobody have gone in
      let Good =
        λ (o : Outcome). (carried born o.effects have ≡ born ∷ []) × (o.state.start_failures ≡ 0) in
      let nothing_left : carried born (picked.1 ++ []) have ≡ [] =
        carried-append born picked.1 [] have
        ∙ picked-Holds born hash have none unique none_picked in
      let started : Good (restart seen st (picked.1 ++ [])) =
        holds_if Good (ltb seen.now st.next_start || not seen.worker) _ _
          (λ early. absurd (ground (arith, early, due, free)))
          (λ on_time. (
            carried-append born (picked.1 ++ []) (start ∷ []) have
                ∙ ap (λ l. born ∷ l) nothing_left,
            ap (λ s. (after_start seen s st).start_failures) success,
          )) in
      subst
        (λ b. Good (
          if b
          then record { state = st; effects = [] }
          else served f seen st (recycle f seen picked.0).0
              (picked.1 ++ (recycle f seen picked.0).1)))
        (sym tries)
        (subst
          (λ c. Good (served f seen st (recycle f seen c).0 (picked.1 ++ (recycle f seen c).1)))
          (sym none_picked) started)

  -- A function that no machine serves, dead, of an older version or gone, is served again by the
  -- first pass after its back-off that gets a worker and whose start succeeds: by the machine that
  -- was started and, but for machines that the engine failed to destroy, no other, its failures
  -- forgotten.
  pub supervise_one-Serves :
      (works : String → Bool) (born : Vm) (have : List Vm) (seen : Seen) (st : PersistentState)
      → UniqueIds have
      → ((v : Vm) → Among v have → is_current hash v ≡ false)
      → works born.id ≡ true
      → st.degraded ≡ false
      → st.next_start ≤ seen.now
      → seen.worker ≡ true
      → seen.start ≡ serves
      → (destroyable works
            (engine_carried works born (supervise_one hash f have seen st).effects have)
          ≡ born ∷ [])
        × ((supervise_one hash f have seen st).state.start_failures ≡ 0)
  unfolding destroyable
  supervise_one-Serves works born have seen st unique gone new tries due free success =
      let (left, forgotten) =
        supervise_one_ideal born have seen st unique gone tries due free success in
      (
        destroyable_same works born (supervise_one hash f have seen st).effects have have refl
            ∙ ap (destroyable works) left
            ∙ ground (arith, new),
        forgotten,
      )
