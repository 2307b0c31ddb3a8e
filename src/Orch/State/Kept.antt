-- ===== src/Orch/State/Kept.antt =====
-- The failures and flags that are kept of a function (orchestrator/orch/state.go).
use micro_hosted.Prelude.{
  ℕ, ◌-◌, ◌≡◌, refl, sym, ap, ◌∙◌, subst, Bool, true, false, ◌||◌, Option, none, some, List, [],
  ◌∷◌, ◌++◌, String, str_eq, eq_iff, ltb, if◌then◌else◌, length, drop, length-append, length-drop,
  drop-drop, drop-append_left, append-nil, append_assoc, lookup, insert, lookup-insert, arith,
  Bool-cases, inl, inr,
}
use micro_hosted.Orch.State.{
  Failure, failures_kept, FunctionState, State, get, newest_failures, with_failures, record_failure,
  set_degraded, set_held, prune, cleared,
}

-- Calls that change the state.
pub data Op : Type 0 where
  fails : Failure → Op
  degrades : String → String → Bool → Op
  holds : String → String → String → Op

abbrev pub apply : Op → State → State
apply (fails f) s = record_failure f s
apply (degrades now fn b) s = set_degraded now fn b s
apply (holds now fn reason) s = set_held now fn reason s

unfoldable pub run : List Op → State → State
run [] s = s
run (o ∷ os) s = run os (apply o s)

-- The failures of a function that calls report, in order.
unfoldable pub reported : String → List Op → List Failure
reported fn [] = []
reported fn (fails f ∷ os) =
    let rest = reported fn os in if str_eq f.function fn then f ∷ rest else rest
reported fn (degrades now g b ∷ os) = reported fn os
reported fn (holds now g reason ∷ os) = reported fn os

abbrev pub last : ℕ → List Failure → List Failure
last n fs = drop (length fs - n) fs

newest_failures-last : (fs : List Failure) → newest_failures fs ≡ last failures_kept fs
newest_failures-last fs = elim (Bool-cases (ltb failures_kept (length fs))) [
  | inl more ↦ ground (arith, more)
  | inr few ↦
      let none_dropped : length fs - failures_kept ≡ 0 = ground (arith, few) in
      ground (arith, few, ap (λ n. drop n fs) none_dropped)
]

-- The newest of the newest and one more.
last-append :
    (fs : List Failure) (f : Failure)
    → last failures_kept (last failures_kept fs ++ (f ∷ [])) ≡ last failures_kept (fs ++ (f ∷ []))
last-append fs f =
    let a = length fs - failures_kept in
    let kept = drop a fs ++ (f ∷ []) in
    let all = fs ++ (f ∷ []) in
    let cut : kept ≡ drop a all = sym (drop-append_left a fs (f ∷ []) (omega arith)) in
    ap (drop (length kept - failures_kept)) cut
    ∙ drop-drop (length kept - failures_kept) a all
    ∙ ap (λ n. drop n all)
        (omega
          (arith, length-append (drop a fs) (f ∷ []), length-append fs (f ∷ []), length-drop a fs))

-- What is left of a function's state by a prune.
abbrev pub pruned : Bool → Option FunctionState → Option FunctionState
pruned kept none = none
pruned false (some st) = none
pruned true (some st) = some (if st.degraded || st.held then cleared st else st)

pruned-none : (st : Option FunctionState) → pruned false st ≡ none
pruned-none none = refl
pruned-none (some st) = refl

same_failures :
    (fn g : String) (next : FunctionState) (s : State) (before : List Failure)
    → next.failures ≡ (get g s).failures
    → (get fn s).failures ≡ last failures_kept before
    → (get fn (insert g next s)).failures ≡ last failures_kept (before ++ [])
same_failures fn g next s before keeps kept = elim (Bool-cases (str_eq g fn)) [
  | inl its ↦ ground (
    arith,
    its,
    lookup-insert g fn next s,
    keeps,
    ap (λ h. (get h s).failures) ((eq_iff g fn).0 its),
    kept,
    append-nil before,
  )
  | inr other ↦ ground (arith, other, lookup-insert g fn next s, kept, append-nil before)
]

reported-cons :
    (fn : String) (o : Op) (os : List Op)
    → reported fn (o ∷ []) ++ reported fn os ≡ reported fn (o ∷ os)
unfolding reported
reported-cons fn (fails f) os = ground arith
reported-cons fn (degrades now g b) os = refl
reported-cons fn (holds now g reason) os = refl

failures-apply :
    (fn : String) (o : Op) (s : State) (before : List Failure)
    → (get fn s).failures ≡ last failures_kept before
    → (get fn (apply o s)).failures ≡ last failures_kept (before ++ reported fn (o ∷ []))
unfolding record_failure set_degraded set_held reported
failures-apply fn (fails f) s before kept = elim (Bool-cases (str_eq f.function fn)) [
  | inl its ↦
      let e : fn ≡ f.function = sym ((eq_iff f.function fn).0 its) in
      let own : (get f.function s).failures ≡ last failures_kept before =
        subst (λ g. (get g s).failures ≡ last failures_kept before) e kept in
      let fs = (get f.function s).failures ++ (f ∷ []) in
      ground (
        arith,
        its,
        lookup-insert f.function fn (with_failures (newest_failures fs) (get f.function s)) s,
        newest_failures-last fs,
        ap (λ l. last failures_kept (l ++ (f ∷ []))) own,
        last-append before f,
      )
  | inr other ↦ ground (
    arith,
    other,
    kept,
    append-nil before,
    lookup-insert f.function fn
        (with_failures (newest_failures ((get f.function s).failures ++ (f ∷ [])))
          (get f.function s))
        s,
  )
]
failures-apply fn (degrades now g b) s before kept = same_failures fn g _ s before refl kept
failures-apply fn (holds now g reason) s before kept = same_failures fn g _ s before refl kept

failures-run :
    (fn : String) (os : List Op) (s : State) (before : List Failure)
    → (get fn s).failures ≡ last failures_kept before
    → (get fn (run os s)).failures ≡ last failures_kept (before ++ reported fn os)
unfolding run reported
failures-run fn [] s before kept = kept ∙ ap (last failures_kept) (sym (append-nil before))
failures-run fn (o ∷ os) s before kept =
    failures-run fn os (apply o s) (before ++ reported fn (o ∷ []))
      (failures-apply fn o s before kept)
    ∙ ap (last failures_kept) (
        append_assoc before (reported fn (o ∷ [])) (reported fn os)
        ∙ ap (λ l. before ++ l) (reported-cons fn o os))

-- Of the failures that are ever recorded of a function, its state holds exactly the newest five, in
-- order, whatever is recorded of other functions and whatever is held or degraded in between.
pub failures_last :
    (fn : String) (os : List Op)
    → (get fn (run os [])).failures ≡ last failures_kept (reported fn os)
unfolding lookup
failures_last fn os = failures-run fn os [] [] refl

-- After a prune a function that is kept has its failures and no flag, and nothing is left of the
-- others.
pub prune_lem :
    (keep : String → Bool) (fn : String) (s : State)
    → lookup fn (prune keep s) ≡ pruned (keep fn) (lookup fn s)
unfolding prune lookup
prune_lem keep fn [] = refl
prune_lem keep fn ((g, st) ∷ s) = elim (Bool-cases (str_eq g fn)) [
  | inl its ↦
      ground
        (arith, its, ap keep ((eq_iff g fn).0 its), prune_lem keep fn s, pruned-none (lookup fn s))
  | inr other ↦ ground (arith, other, prune_lem keep fn s)
]
