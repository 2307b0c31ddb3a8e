-- ===== src/Orch/Plan/Performed.antt =====
-- What the actions of a plan make of a function's machines: a machine is destroyed by its id,
-- relabelled by the engine's merge, and a start brings one more machine, `born`.
use micro_hosted.Prelude.{
  ◌≡◌, refl, sym, ap, Bool, true, false, ◌||◌, not, Option, none, some, List, [], ◌∷◌, ◌++◌, String,
  str_eq, eq_iff, arith, if◌then◌else◌, Bool-cases, inl, inr,
}
use micro_hosted.Labels.{Labels, PatchMap, merge}
use micro_hosted.Orch.{Vm, running, stopped, VmState}
use micro_hosted.Orch.Plan.{
  Action, destroy, bury, create, relabel, retire_others, is_kept, retire_in,
}
use micro_hosted.Orch.Plan.Newest.{Among, here, there}

abbrev pub with_labels : Vm → Labels → Vm
with_labels v labels = record {
  id = v.id;
  name = v.name;
  state = v.state;
  labels = labels;
  created_at = v.created_at;
  last_exit = v.last_exit;
  quarantine = v.quarantine;
}

unfoldable pub without : String → List Vm → List Vm
without id [] = []
without id (v ∷ vs) = let rest = without id vs in if str_eq v.id id then rest else v ∷ rest

unfoldable pub relabel_in : String → PatchMap → List Vm → List Vm
relabel_in id patch [] = []
relabel_in id patch (v ∷ vs) =
    (if str_eq v.id id then with_labels v (merge patch v.labels) else v) ∷ relabel_in id patch vs

abbrev pub perform : Vm → Action → List Vm → List Vm
perform born (destroy v why) vms = without v.id vms
perform born (bury v why) vms = without v.id vms
perform born (create name) vms = vms ++ (born ∷ [])
perform born (relabel v patch) vms = relabel_in v.id patch vms

unfoldable pub perform_all : Vm → List Action → List Vm → List Vm
perform_all born [] vms = vms
perform_all born (a ∷ xs) vms = perform_all born xs (perform born a vms)

pub perform_all-append :
    (born : Vm) (xs ys : List Action) (vms : List Vm)
    → perform_all born (xs ++ ys) vms ≡ perform_all born ys (perform_all born xs vms)
unfolding perform_all
perform_all-append born [] ys vms = refl
perform_all-append born (a ∷ xs) ys vms = perform_all-append born xs ys (perform born a vms)

abbrev pub has_id : String → List Vm → Bool
has_id id [] = false
has_id id (v ∷ vs) = str_eq v.id id || has_id id vs

abbrev pub UniqueIds : List Vm → Type 0
UniqueIds [] = Unit
UniqueIds (v ∷ vs) = (has_id v.id vs ≡ false) × UniqueIds vs

-- What is left of `ws` once the machines of `vs` that are not kept are gone.
abbrev pub survivors : Option Vm → List Vm → List Vm → List Vm
survivors keep vs [] = []
survivors keep vs (w ∷ ws) =
    if is_kept keep w || not (has_id w.id vs)
    then w ∷ survivors keep vs ws
    else survivors keep vs ws

pub survivors-nil : (keep : Option Vm) (ws : List Vm) → survivors keep [] ws ≡ ws
survivors-nil keep [] = refl
survivors-nil keep (w ∷ ws) = ground (arith, survivors-nil keep ws)

is_kept-id : (keep : Option Vm) (v w : Vm) → v.id ≡ w.id → is_kept keep v ≡ is_kept keep w
is_kept-id none v w e = refl
is_kept-id (some k) v w e = ap (λ i. str_eq i k.id) e

pub survivors-kept :
    (keep : Option Vm) (v : Vm) (vs ws : List Vm)
    → is_kept keep v ≡ true
    → survivors keep (v ∷ vs) ws ≡ survivors keep vs ws
survivors-kept keep v vs [] kept = refl
survivors-kept keep v vs (w ∷ ws) kept =
    ground (arith, kept, eq_iff v.id w.id, is_kept-id keep v w, survivors-kept keep v vs ws kept)

pub survivors-without :
    (keep : Option Vm) (v : Vm) (vs ws : List Vm)
    → is_kept keep v ≡ false
    → survivors keep vs (without v.id ws) ≡ survivors keep (v ∷ vs) ws
unfolding without
survivors-without keep v vs [] gone = refl
survivors-without keep v vs (w ∷ ws) gone = ground (
  arith,
  gone,
  eq_iff v.id w.id,
  eq_iff w.id v.id,
  is_kept-id keep v w,
  survivors-without keep v vs ws gone,
)

perform-retire_in :
    (born : Vm) (hash : String) (v : Vm) (state : VmState) (ws : List Vm)
    → perform born (retire_in hash v state) ws ≡ without v.id ws
perform-retire_in born hash v running ws = refl
perform-retire_in born hash v (stopped s) ws = refl

pub perform_all-retire_others :
    (born : Vm) (hash : String) (keep : Option Vm) (vs ws : List Vm)
    → perform_all born (retire_others hash keep vs) ws ≡ survivors keep vs ws
unfolding perform_all retire_others
perform_all-retire_others born hash keep [] ws = sym (survivors-nil keep ws)
perform_all-retire_others born hash keep (v ∷ vs) ws = elim (Bool-cases (is_kept keep v)) [
  | inl kept ↦ ground (
    arith,
    kept,
    survivors-kept keep v vs ws kept,
    perform_all-retire_others born hash keep vs ws,
  )
  | inr gone ↦ ground (
    arith,
    gone,
    perform-retire_in born hash v v.state ws,
    survivors-without keep v vs ws gone,
    perform_all-retire_others born hash keep vs (without v.id ws),
  )
]

pub has_id-Among : (w : Vm) (vs : List Vm) → Among w vs → has_id w.id vs ≡ true
has_id-Among w _ (here {vs}) = ground (arith, eq_iff w.id w.id)
has_id-Among w _ (there {v} {vs} a) = ground (arith, has_id-Among w vs a)

module _ (vs : List Vm) where
  abbrev pub Inside : List Vm → Type 0
  Inside ws = (w : Vm) → Among w ws → has_id w.id vs ≡ true

  pub survivors-none : (ws : List Vm) → Inside ws → survivors none vs ws ≡ []
  survivors-none [] all_in = refl
  survivors-none (w ∷ ws) all_in =
      ground (arith, all_in w here, survivors-none ws (λ x a. all_in x (there a)))

  survivors-gone :
      (k : Vm) (ws : List Vm) → Inside ws → has_id k.id ws ≡ false → survivors (some k) vs ws ≡ []
  survivors-gone k [] all_in gone = refl
  survivors-gone k (w ∷ ws) all_in gone =
      ground (arith, all_in w here, gone, survivors-gone k ws (λ x a. all_in x (there a)))

  pub survivors-one :
      (k : Vm) (ws : List Vm)
      → Inside ws
      → UniqueIds ws
      → Among k ws
      → survivors (some k) vs ws ≡ k ∷ []
  survivors-one k _ all_in unique (here {vs = ws}) =
      ground (arith, eq_iff k.id k.id, survivors-gone k ws (λ x a. all_in x (there a)) unique.0)
  survivors-one k _ all_in unique (there {v = w} {vs = ws} a) = ground (
    arith,
    all_in w here,
    eq_iff w.id k.id,
    has_id-Among k ws a,
    unique.0,
    ap (λ i. has_id i ws) {x = w.id} {y = k.id},
    survivors-one k ws (λ x b. all_in x (there b)) unique.1 a,
  )
