-- ===== src/Orch/Plan/Relabel.antt =====
-- The label patch of a machine that is kept (persistentActions of orchestrator/orch/plan.go),
-- carried out by the engine's own merge of labels.
use micro_hosted.Prelude.{
  ◌≡◌, refl, ◌∙◌, ap, true, false, ◌&&◌, ◌||◌, not, Option, none, some, [], ◌∷◌, String, str_eq,
  eq_iff, lookup, insert, Unique, insert-Unique, lookup-insert, arith, if◌then◌else◌, Bool-cases,
  inl, inr,
}
use micro_hosted.Labels.{Labels, PatchMap, merge}
use micro_hosted.Labels.Patched.{patched, lookup-merge}
use micro_hosted.Orch.{label, label_generation}
use micro_hosted.Orch.Plan.{missing_labels, extra_labels, label_patch, is_none}

abbrev lacking : Labels → Option (Option String) → String → Option String → Option (Option String)
lacking have before k none = before
lacking have before k (some v) =
    if str_eq k label_generation || str_eq (label k have) v then before else some (some v)

lookup-missing_labels :
    (have want : Labels) (p : PatchMap) (k : String)
    → Unique want
    → lookup k (missing_labels have want p) ≡ lacking have (lookup k p) k (lookup k want)
unfolding missing_labels lookup
lookup-missing_labels have [] p k u = refl
lookup-missing_labels have ((j, v) ∷ want) p k u =
    elim (Bool-cases (str_eq j label_generation || str_eq (label j have) v)) [
      | inl skips ↦ ground (arith, skips, eq_iff j k, u, lookup-missing_labels have want p k u.1)
      | inr sets ↦ ground (
        arith,
        sets,
        eq_iff j k,
        u,
        lookup-insert j k (some v) p,
        lookup-missing_labels have want (insert j (some v) p) k u.1,
      )
    ]

lookup-extra_labels :
    (want have : Labels) (p : PatchMap) (k : String)
    → lookup k (extra_labels want have p)
      ≡ (if not (is_none (lookup k have)) && is_none (lookup k want) then some none else lookup k p)
unfolding extra_labels lookup
lookup-extra_labels want [] p k = refl
lookup-extra_labels want ((j, v) ∷ have) p k = elim (Bool-cases (is_none (lookup j want))) [
  | inl extra ↦ ground (
    arith,
    extra,
    eq_iff j k,
    lookup-insert j k none p,
    lookup-extra_labels want have (insert j none p) k,
  )
  | inr wanted ↦ ground (arith, wanted, eq_iff j k, lookup-extra_labels want have p k)
]

missing_labels-Unique :
    (have want : Labels) (p : PatchMap) → Unique p → Unique (missing_labels have want p)
unfolding missing_labels
missing_labels-Unique have [] p u = u
missing_labels-Unique have ((j, v) ∷ want) p u =
    elim (Bool-cases (str_eq j label_generation || str_eq (label j have) v)) [
      | inl skips ↦ ground (arith, skips, missing_labels-Unique have want p u)
      | inr sets ↦ ground (
        arith,
        sets,
        missing_labels-Unique have want (insert j (some v) p) (insert-Unique j (some v) p u),
      )
    ]

extra_labels-Unique :
    (want have : Labels) (p : PatchMap) → Unique p → Unique (extra_labels want have p)
unfolding extra_labels
extra_labels-Unique want [] p u = u
extra_labels-Unique want ((j, v) ∷ have) p u = elim (Bool-cases (is_none (lookup j want))) [
  | inl extra ↦
      ground
        (arith, extra, extra_labels-Unique want have (insert j none p) (insert-Unique j none p u))
  | inr wanted ↦ ground (arith, wanted, extra_labels-Unique want have p u)
]

-- The machine has the wanted labels, its own generation aside, and no others.
pub record Agrees (want have : Labels) : Type 0 where
  pub sets :
      (k v : String) → lookup k want ≡ some v → str_eq k label_generation ≡ false → label k have ≡ v
  pub only : (k : String) → is_none (lookup k want) ≡ true → lookup k have ≡ none

lookup-relabelled :
    (want have : Labels) (k : String)
    → Unique want
    → lookup k (merge (label_patch want have) have)
      ≡ patched
          (if not (is_none (lookup k have)) && is_none (lookup k want)
            then some none
            else lacking have none k (lookup k want))
          (lookup k have)
unfolding label_patch lookup
lookup-relabelled want have k u =
    let wanted =
      if not (is_none (lookup k have)) && is_none (lookup k want)
      then some none
      else lacking have none k (lookup k want) in
    let patch_of_k : lookup k (label_patch want have) ≡ wanted = ground (
      arith,
      lookup-extra_labels want have (missing_labels have want []) k,
      lookup-missing_labels have want [] k u,
    ) in
    lookup-merge (label_patch want have) have k (
      extra_labels-Unique want have (missing_labels have want [])
        (missing_labels-Unique have want [] tt))
    ∙ ap (λ c. patched c (lookup k have)) patch_of_k

pub merge-Agrees :
    (want have : Labels) → Unique want → Agrees want (merge (label_patch want have) have)
merge-Agrees want have u = record {
  sets = λ k v set other.
      ground (arith, set, other, eq_iff (label k have) v, lookup-relabelled want have k u);
  only = λ k unset. ground (arith, unset, lookup-relabelled want have k u);
}

-- No patch is left.
missing_labels-none :
    (have want : Labels)
    → Unique want
    → ((k v : String)
        → lookup k want ≡ some v
        → str_eq k label_generation ≡ false
        → label k have ≡ v)
    → missing_labels have want [] ≡ []
unfolding missing_labels lookup
missing_labels-none have [] u agrees = refl
missing_labels-none have ((j, v) ∷ want) u agrees =
    let rest =
      missing_labels-none have want u.1
        (λ k w set other. agrees k w (ground (arith, eq_iff j k, set, u.0)) other) in
    elim (Bool-cases (str_eq j label_generation)) [
      | inl generation ↦ ground (arith, generation, rest)
      | inr other ↦ ground (
        arith,
        other,
        rest,
        eq_iff (label j have) v,
        agrees j v (ground (arith, eq_iff j j)) other,
      )
    ]

extra_labels-none :
    (want have : Labels)
    → ((k : String) → is_none (lookup k have) ≡ false → is_none (lookup k want) ≡ false)
    → extra_labels want have [] ≡ []
unfolding extra_labels lookup
extra_labels-none want [] only = refl
extra_labels-none want ((j, v) ∷ have) only = ground (
  arith,
  only j (ground (arith, eq_iff j j)),
  extra_labels-none want have (λ k known. only k (ground (arith, known))),
)

pub label_patch-none :
    (want have : Labels) → Unique want → Agrees want have → label_patch want have ≡ []
unfolding label_patch
label_patch-none want have u a =
    ap (extra_labels want have) (missing_labels-none have want u a.sets)
    ∙ extra_labels-none want have (λ k known. ground (arith, known, a.only k))
