-- ===== src/Orch/Supervise/Carried.antt =====
-- The effects of a pass carried out, when no destroy fails (superviseOne of
-- orchestrator/orch/run.go).
use micro_hosted.Prelude.{
  ◌+◌, ◌-◌, ◌≤◌, ◌≡◌, refl, sym, ap, ◌∙◌, subst, not, ◌||◌, true, false, ◌&&◌, Option, none, some,
  List, [], ◌∷◌, ◌++◌, String, eq_iff, ltb, if◌then◌else◌, holds_if, length, arith,
}
use micro_hosted.Orch.{Function, Vm, VmState, running, stopped}
use micro_hosted.Orch.Plan.{is_current, is_kept}
use micro_hosted.Orch.Plan.Newest.{Among, here, there}
use micro_hosted.Orch.Plan.Performed.{
  without, has_id, UniqueIds, has_id-Among, survivors, survivors-nil, survivors-kept,
  survivors-without, survivors-none, survivors-one,
}
use micro_hosted.Orch.Supervise.{
  PersistentState, Seen, Effect, record_failure, destroy, start, Outcome, remove_in, pick, recycle,
  ended, replaced, restart, checked, served, supervise_one, with_health, healthy, health_every,
  threshold,
}

-- The effects carried out: a machine goes by its id, and a start that succeeds brings `born`.
abbrev pub carry : Vm → Effect → List Vm → List Vm
carry born (record_failure v) vms = vms
carry born (destroy v) vms = without v.id vms
carry born start vms = born ∷ vms

abbrev pub carried : Vm → List Effect → List Vm → List Vm
carried born [] vms = vms
carried born (e ∷ es) vms = carried born es (carry born e vms)

pub carried-append :
    (born : Vm) (xs ys : List Effect) (vms : List Vm)
    → carried born (xs ++ ys) vms ≡ carried born ys (carried born xs vms)
carried-append born [] ys vms = refl
carried-append born (x ∷ xs) ys vms = carried-append born xs ys (carry born x vms)

carried-remove :
    (born v : Vm) (state : VmState) (more : List Effect) (ws : List Vm)
    → carried born (remove_in v state ++ more) ws ≡ carried born more (without v.id ws)
carried-remove born v running more ws = refl
carried-remove born v (stopped s) more ws = refl

module _ (born : Vm) (hash : String) where
  pub pick-first : (c : Vm) (vs : List Vm) → (pick hash (some c) vs).0 ≡ some c
  unfolding pick
  pick-first c [] = refl
  pick-first c (v ∷ vs) = pick-first c vs

  carried-pick-some :
      (c : Vm) (vs ws : List Vm)
      → has_id c.id vs ≡ false
      → carried born (pick hash (some c) vs).1 ws ≡ survivors (some c) vs ws
  unfolding pick
  carried-pick-some c [] ws alone = sym (survivors-nil (some c) ws)
  carried-pick-some c (v ∷ vs) ws alone =
      carried-remove born v v.state (pick hash (some c) vs).1 ws
      ∙ carried-pick-some c vs (without v.id ws) (ground (arith, alone))
      ∙ survivors-without (some c) v vs ws (ground (arith, alone))

  -- The machine picked is one of the list.
  picked_of :
      (vs : List Vm) (k : Vm)
      → (pick hash none vs).0 ≡ some k
      → Among k vs × (is_current hash k ≡ true)
  unfolding pick
  picked_of [] k h = absurd (cc h)
  picked_of (v ∷ vs) k h =
      holds_if
        (λ (r : Option Vm × List Effect).
          r.0 ≡ some k → Among k (v ∷ vs) × (is_current hash k ≡ true))
        (is_current hash v) _ _
        (λ current first.
          let e : v ≡ k = cc (pick-first v vs, first) in
          subst (λ w. Among w (v ∷ vs) × (is_current hash w ≡ true)) e (here, current))
        (λ other later_one. let (a, c) = picked_of vs k later_one in (there a, c)) h

  not_kept :
      (v : Vm) (vs : List Vm) (keep : Option Vm)
      → has_id v.id vs ≡ false
      → ((k : Vm) → keep ≡ some k → Among k vs)
      → is_kept keep v ≡ false
  not_kept v vs none alone among = refl
  not_kept v vs (some k) alone among = ground (
    arith,
    alone,
    eq_iff v.id k.id,
    has_id-Among k vs (among k refl),
    ap (λ i. has_id i vs) {x = v.id} {y = k.id},
  )

  carried-pick :
      (vs ws : List Vm)
      → UniqueIds vs
      → carried born (pick hash none vs).1 ws ≡ survivors (pick hash none vs).0 vs ws
  unfolding pick
  carried-pick [] ws unique = sym (survivors-nil none ws)
  carried-pick (v ∷ vs) ws unique =
      holds_if (λ (r : Option Vm × List Effect). carried born r.1 ws ≡ survivors r.0 (v ∷ vs) ws)
        (is_current hash v) _ _
        (λ current.
          carried-pick-some v vs ws unique.0
          ∙ sym (survivors-kept (some v) v vs ws (ground (arith, eq_iff v.id v.id)))
          ∙ ap (λ k. survivors k (v ∷ vs) ws) (sym (pick-first v vs)))
        (λ other.
          carried-remove born v v.state (pick hash none vs).1 ws
          ∙ carried-pick vs (without v.id ws) unique.1
          ∙ survivors-without (pick hash none vs).0 v vs ws
              (not_kept v vs (pick hash none vs).0 unique.0 (λ k found. (picked_of vs k found).0)))

  -- One machine or none is left by the pick.
  picked_left :
      (have : List Vm) (cur : Option Vm)
      → UniqueIds have
      → (pick hash none have).0 ≡ cur
      → carried born (pick hash none have).1 have ≡ survivors cur have have
  picked_left have cur unique h = carried-pick have have unique ∙ ap (λ k. survivors k have have) h

  -- What is served from a list that holds the current machine, or none.
  abbrev pub Holds : Option Vm → List Vm → Type 0
  Holds none vms = vms ≡ []
  Holds (some k) vms = vms ≡ k ∷ []

  pub picked-Holds :
      (have : List Vm) (cur : Option Vm)
      → UniqueIds have
      → (pick hash none have).0 ≡ cur
      → Holds cur (carried born (pick hash none have).1 have)
  picked-Holds have none unique h =
      picked_left have none unique h ∙ survivors-none have have (λ w a. has_id-Among w have a)
  picked-Holds have (some k) unique h =
      picked_left have (some k) unique h
      ∙ survivors-one have k have (λ w a. has_id-Among w have a) unique (picked_of have k h).0

  module _ (f : Function) (seen : Seen) (have : List Vm) where
    abbrev AtMostOne : Outcome → Type 0
    AtMostOne o = length (carried born o.effects have) ≤ 1

    destroyed_one :
        (before : List Effect) (v : Vm)
        → carried born before have ≡ v ∷ []
        → carried born (before ++ (destroy v ∷ [])) have ≡ []
    unfolding without
    destroyed_one before v h =
        carried-append born before (destroy v ∷ []) have
        ∙ ap (without v.id) h
        ∙ ground (arith, eq_iff v.id v.id)

    failed_one :
        (before : List Effect) (v : Vm)
        → carried born before have ≡ v ∷ []
        → carried born (before ++ (record_failure v ∷ destroy v ∷ [])) have ≡ []
    unfolding without
    failed_one before v h =
        carried-append born before (record_failure v ∷ destroy v ∷ []) have
        ∙ ap (without v.id) h
        ∙ ground (arith, eq_iff v.id v.id)

    restart-AtMostOne :
        (st : PersistentState) (before : List Effect)
        → carried born before have ≡ []
        → AtMostOne (restart seen st before)
    restart-AtMostOne st before gone =
        holds_if AtMostOne (ltb seen.now st.next_start || not seen.worker) _ _
          (λ waits. omega (arith, ap length gone))
          (λ starts. omega (
            arith,
            ap length (carried-append born before (start ∷ []) have ∙ ap (carry born start) gone),
          ))

    checked-AtMostOne :
        (st : PersistentState) (v : Vm) (before : List Effect)
        → carried born before have ≡ v ∷ []
        → AtMostOne (checked f seen st v before)
    checked-AtMostOne st v before one =
        let size = ap length one in
        holds_if AtMostOne (ltb (seen.now - st.last_check) (health_every f.health)) _ _
          (λ early. omega (arith, size))
          (λ due.
            holds_if AtMostOne (healthy f seen) _ _ (λ well. omega (arith, size))
              (λ ill.
                holds_if AtMostOne (ltb (st.health_failures + 1) (threshold f.health)) _ _
                  (λ few. omega (arith, size))
                  (λ many.
                    restart-AtMostOne (with_health (st.health_failures + 1) seen.now st)
                      (before ++ (record_failure v ∷ destroy v ∷ [])) (failed_one before v one))))

    served-AtMostOne :
        (st : PersistentState) (cur : Option Vm) (before : List Effect)
        → Holds cur (carried born before have)
        → AtMostOne (served f seen st cur before)
    served-AtMostOne st none before gone = restart-AtMostOne st before gone
    served-AtMostOne st (some v) before one =
        holds_if AtMostOne (ended f seen) _ _
          (λ over. restart-AtMostOne (with_health 0 st.last_check st) (before ++ replaced seen v) (
            holds_if (λ (es : List Effect). carried born (before ++ es) have ≡ []) _ _ _
              (λ well. destroyed_one before v one) (λ ill. failed_one before v one)))
          (λ goes_on. checked-AtMostOne st v before one)

    recycled-Holds :
        (cur : Option Vm) (before : List Effect)
        → Holds cur (carried born before have)
        → Holds (recycle f seen cur).0 (carried born (before ++ (recycle f seen cur).1) have)
    recycled-Holds none before gone = carried-append born before [] have ∙ gone
    recycled-Holds (some v) before one =
        holds_if (λ (r : Option Vm × List Effect). Holds r.0 (carried born (before ++ r.1) have))
          (ltb 0 f.lifecycle.recycle && seen.expired) _ _ (λ old. destroyed_one before v one)
          (λ young. carried-append born before [] have ∙ one)

    -- When no destroy fails.
    pub supervise_one_ideal :
        (st : PersistentState)
        → UniqueIds have
        → st.degraded ≡ false
        → length (carried born (supervise_one hash f have seen st).effects have) ≤ 1
    unfolding supervise_one
    supervise_one_ideal st unique tries =
        let picked = pick hash none have in
        let kept = recycle f seen picked.0 in
        subst
          (λ b. AtMostOne (
            if b
            then record { state = st; effects = [] }
            else served f seen st kept.0 (picked.1 ++ kept.1)))
          (sym tries)
          (served-AtMostOne st kept.0 (picked.1 ++ kept.1)
            (recycled-Holds picked.0 picked.1 (picked-Holds have picked.0 unique refl)))
