-- ===== src/Orch/Plan/Converge.antt =====
-- One round of a function's plan, and the next one (persistentActions of
-- orchestrator/orch/plan.go).
use micro_hosted.Prelude.{
  ◌≡◌, refl, ◌∙◌, sym, ap, subst, true, false, Option, none, some, List, [], ◌∷◌, ◌++◌, String,
  eq_iff, lookup, insert, Unique, insert-Unique, lookup-insert, arith, Option-cases, inl, inr,
}
use micro_hosted.Labels.{Labels, PatchMap, merge}
use micro_hosted.Orch.{
  Vm, Function, running, label, label_spec, label_generation, function_labels, later, owner,
  label_managed_by, label_project, label_function,
}
use micro_hosted.Orch.Plan.{
  newest, is_current, retire_others, relabelled, settled, label_patch, persistent_actions,
}
use micro_hosted.Orch.Plan.Newest.{Among, newest-IsNewest, newest-none}
use micro_hosted.Orch.Plan.Relabel.{Agrees, merge-Agrees, label_patch-none}
use micro_hosted.Orch.Plan.Performed.{
  with_labels, relabel_in, perform_all, perform_all-append, perform_all-retire_others, UniqueIds,
  has_id-Among, survivors, survivors-none, survivors-one,
}

-- Labels that differ in the generation only.
insert-Agrees :
    (labels : Labels) (hash a b : String)
    → Agrees
        (insert label_spec hash (insert label_generation a labels))
        (insert label_spec hash (insert label_generation b labels))
insert-Agrees labels hash a b = record {
  sets = λ k v set other. ground (
    arith,
    set,
    other,
    eq_iff label_generation k,
    eq_iff k label_generation,
    lookup-insert label_spec k hash (insert label_generation a labels),
    lookup-insert label_spec k hash (insert label_generation b labels),
    lookup-insert label_generation k a labels,
    lookup-insert label_generation k b labels,
  );
  only = λ k unset. ground (
    arith,
    unset,
    lookup-insert label_spec k hash (insert label_generation a labels),
    lookup-insert label_spec k hash (insert label_generation b labels),
    lookup-insert label_generation k a labels,
    lookup-insert label_generation k b labels,
  );
}

function_labels-Unique :
    (project name : String) (labels : Labels) (hash generation : String)
    → Unique labels
    → Unique (function_labels project name labels hash generation)
unfolding function_labels
function_labels-Unique project name labels hash generation u = insert-Unique label_spec hash _ (
    insert-Unique label_generation generation _ (
      insert-Unique label_function name _
        (insert-Unique label_project project _ (insert-Unique label_managed_by owner labels u))))

-- A machine that a round may end with: it runs the version, and no change is left.
pub record Settled (hash : String) (want : Labels) (v : Vm) : Type 0 where
  pub current : is_current hash v ≡ true
  pub agrees : Agrees want v.labels

relabelled_by :
    (born k : Vm) (patch : PatchMap)
    → perform_all born (relabelled k patch) (k ∷ []) ≡ with_labels k (merge patch k.labels) ∷ []
unfolding perform_all relabel_in merge
relabelled_by born k [] = refl
relabelled_by born k (c ∷ cs) = ground (arith, eq_iff k.id k.id)

lookup-insert_same : (k v : String) (labels : Labels) → lookup k (insert k v labels) ≡ some v
lookup-insert_same k v labels = ground (arith, lookup-insert k k v labels, eq_iff k k)

module _ (spec_hash : Function → String) (project name : String) (f : Function) where
  abbrev pub wanted : Labels
  wanted = function_labels project name f.labels (spec_hash f) "0"

  wanted_spec : lookup label_spec wanted ≡ some (spec_hash f)
  unfolding function_labels
  wanted_spec = lookup-insert_same label_spec (spec_hash f) _

  -- The next plan of a settled function is empty.
  Settled-next :
      (v : Vm)
      → Unique f.labels
      → Settled (spec_hash f) wanted v
      → persistent_actions spec_hash project name f (v ∷ []) ≡ []
  unfolding persistent_actions newest retire_others
  Settled-next v u s = ground (
    arith,
    s.current,
    eq_iff v.id v.id,
    label_patch-none wanted v.labels
        (function_labels-Unique project name f.labels (spec_hash f) "0" u) s.agrees,
  )

  round :
      (born : Vm) (have : List Vm) (keep : Option Vm)
      → newest (spec_hash f) none have ≡ keep
      → perform_all born (persistent_actions spec_hash project name f have) have
        ≡ perform_all born (settled name wanted keep) (survivors keep have have)
  unfolding persistent_actions
  round born have keep h =
      ap (λ k. perform_all born (retire_others (spec_hash f) k have ++ settled name wanted k) have)
        h
      ∙ perform_all-append born (retire_others (spec_hash f) keep have) (settled name wanted keep)
          have
      ∙ ap (perform_all born (settled name wanted keep))
          (perform_all-retire_others born (spec_hash f) keep have have)

  round-none :
      (born : Vm) (have : List Vm)
      → newest (spec_hash f) none have ≡ none
      → perform_all born (persistent_actions spec_hash project name f have) have ≡ born ∷ []
  unfolding perform_all
  round-none born have h =
      round born have none h
      ∙ ap (λ vms. vms ++ (born ∷ [])) (survivors-none have have (λ w a. has_id-Among w have a))

  round-some :
      (born k : Vm) (have : List Vm)
      → UniqueIds have
      → newest (spec_hash f) none have ≡ some k
      → Among k have
      → perform_all born (persistent_actions spec_hash project name f have) have
        ≡ with_labels k (merge (label_patch wanted k.labels) k.labels) ∷ []
  round-some born k have unique h a =
      round born have (some k) h
      ∙ ap (perform_all born (settled name wanted (some k)))
          (survivors-one have k have (λ w b. has_id-Among w have b) unique a)
      ∙ relabelled_by born k (label_patch wanted k.labels)

  kept-Settled :
      (k : Vm)
      → Unique f.labels
      → is_current (spec_hash f) k ≡ true
      → Settled (spec_hash f) wanted (with_labels k (merge (label_patch wanted k.labels) k.labels))
  kept-Settled k u current =
      let agrees =
        merge-Agrees wanted k.labels
          (function_labels-Unique project name f.labels (spec_hash f) "0" u) in
      record {
        current = ground (
          arith,
          current,
          eq_iff (label label_spec (merge (label_patch wanted k.labels) k.labels)) (spec_hash f),
          agrees.sets label_spec (spec_hash f) wanted_spec refl,
        );
        agrees = agrees;
      }

  born-Settled :
      (born : Vm) (generation : String)
      → born.state ≡ running
      → born.labels ≡ function_labels project name f.labels (spec_hash f) generation
      → Settled (spec_hash f) wanted born
  unfolding function_labels
  born-Settled born generation runs labelled =
      let agrees =
        subst (Agrees wanted) (sym labelled) (insert-Agrees _ (spec_hash f) "0" generation) in
      record {
        current = ground (
          arith,
          runs,
          eq_iff (label label_spec born.labels) (spec_hash f),
          agrees.sets label_spec (spec_hash f) wanted_spec refl,
        );
        agrees = agrees;
      }

  -- The machine that a round ends with: the newest of the running machines that were started from
  -- the version, if there was one.
  abbrev pub IsNewestOf : List Vm → Vm → Type 0
  IsNewestOf have v =
      (w : Vm)
      → Among w have
      → is_current (spec_hash f) w ≡ true
      → (k : Vm) × (Among k have × ((k.id ≡ v.id) × (later w.created_at k.created_at ≡ false)))

  -- Whatever machines a function has, once its plan is carried out it has exactly one, running and
  -- started from the version that is wanted, the newest of those that were there if there was any;
  -- and the plan after that is empty. Machines have different ids, a label stands once in the
  -- function, and a machine that is started runs with the labels that were asked for.
  pub persistent_actions-Converges :
      (born : Vm) (generation : String) (have : List Vm)
      → UniqueIds have
      → Unique f.labels
      → born.state ≡ running
      → born.labels ≡ function_labels project name f.labels (spec_hash f) generation
      → (v : Vm) × (perform_all born (persistent_actions spec_hash project name f have) have
          ≡ v ∷ [])
        × (is_current (spec_hash f) v ≡ true)
        × (persistent_actions spec_hash project name f (v ∷ []) ≡ [])
        × IsNewestOf have v
  persistent_actions-Converges born generation have unique u runs labelled =
      elim (Option-cases (newest (spec_hash f) none have)) [
        | inl nobody ↦
            let s = born-Settled born generation runs labelled in
            (
              born,
              round-none born have nobody,
              s.current,
              Settled-next born u s,
              λ w a c. absurd (cc ((newest-none (spec_hash f) none have nobody).1 w a, c)),
            )
        | inr (k, found) ↦
            let n = newest-IsNewest (spec_hash f) none have k found in
            elim n.known [
              | inl never ↦ absurd (cc never)
              | inr (a, current) ↦
                  let s = kept-Settled k u current in
                  (
                    with_labels k (merge (label_patch wanted k.labels) k.labels),
                    round-some born k have unique found a,
                    s.current,
                    Settled-next (with_labels k (merge (label_patch wanted k.labels) k.labels)) u s,
                    λ w b c. (k, (a, (refl, n.later_none w b c))),
                  )
            ]
      ]
