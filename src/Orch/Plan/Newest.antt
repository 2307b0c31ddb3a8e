-- ===== src/Orch/Plan/Newest.antt =====
-- The machine that the plan keeps (persistentActions of orchestrator/orch/plan.go).
use micro_hosted.Prelude.{
  ℕ, ◌≡◌, refl, true, false, ◌&&◌, Option, none, some, List, [], ◌∷◌, String, codes, if◌then◌else◌,
  arith, Bool-cases, inl, inr, ◌⊎◌, subst, sym,
}
use micro_hosted.Orch.{Vm, later, is_after}
use micro_hosted.Orch.Plan.{newest, newer, is_current}

is_after_trans :
    (xs ys zs : List ℕ) → is_after xs ys ≡ false → is_after ys zs ≡ false → is_after xs zs ≡ false
unfolding is_after
is_after_trans [] ys zs h k = refl
is_after_trans (x ∷ xs) [] zs h k = cc h
is_after_trans (x ∷ xs) (y ∷ ys) [] h k = cc k
is_after_trans (x ∷ xs) (y ∷ ys) (z ∷ zs) h k = ground (arith, is_after_trans xs ys zs)

is_after-swap : (xs ys : List ℕ) → is_after xs ys ≡ true → is_after ys xs ≡ false
unfolding is_after
is_after-swap [] ys h = cc h
is_after-swap (x ∷ xs) [] h = refl
is_after-swap (x ∷ xs) (y ∷ ys) h = ground (arith, is_after-swap xs ys)

pub is_after_self : (xs : List ℕ) → is_after xs xs ≡ false
unfolding is_after
is_after_self [] = refl
is_after_self (x ∷ xs) = ground (arith, is_after_self xs)

-- One of the machines.
pub data Among (k : Vm) : List Vm → Type 0 where
  here : {vs : List Vm} → Among k (k ∷ vs)
  there : {v : Vm} {vs : List Vm} → Among k vs → Among k (v ∷ vs)

-- The machine picked from a list, after another.
pub record IsNewest (hash : String) (from : Option Vm) (vs : List Vm) (k : Vm) : Type 0 where
  pub known : (from ≡ some k) ⊎ (Among k vs × (is_current hash k ≡ true))
  pub later_from : (p : Vm) → from ≡ some p → later p.created_at k.created_at ≡ false
  pub later_none :
      (v : Vm) → Among v vs → is_current hash v ≡ true → later v.created_at k.created_at ≡ false

-- What holds of the first and of each further one holds of all.
Among-all :
    {P : Vm → Type 0} (v : Vm) (vs : List Vm)
    → P v
    → ((w : Vm) → Among w vs → P w)
    → (w : Vm) → Among w (v ∷ vs)
    → P w
Among-all v vs first rest _ here = first
Among-all v vs first rest w (there a) = rest w a

later_trans : (a b c : String) → later a b ≡ false → later b c ≡ false → later a c ≡ false
later_trans a b c = is_after_trans (codes a) (codes b) (codes c)

module _ (hash : String) (v : Vm) (vs : List Vm) (k : Vm) where
  taken :
      (from : Option Vm)
      → is_current hash v ≡ true
      → newer v from ≡ true
      → IsNewest hash (some v) vs k
      → IsNewest hash from (v ∷ vs) k
  taken from current better n = record {
    known = elim n.known [
      | inl same ↦
          let e : v ≡ k = cc same in
          inr (subst (λ w. Among w (v ∷ vs) × (is_current hash w ≡ true)) e (here, current))
      | inr (a, c) ↦ inr (there a, c)
    ];
    later_from = λ p e.
        later_trans p.created_at v.created_at k.created_at
          (is_after-swap (codes v.created_at) (codes p.created_at) (cc (better, e)))
          (n.later_from v refl);
    later_none = Among-all v vs (λ c. n.later_from v refl) n.later_none;
  }

  passed :
      (from : Option Vm)
      → (is_current hash v && newer v from) ≡ false
      → IsNewest hash from vs k
      → IsNewest hash from (v ∷ vs) k
  passed none passes n = record {
    known = elim n.known [ inl same ↦ inl same | inr (a, c) ↦ inr (there a, c) ];
    later_from = n.later_from;
    later_none = Among-all v vs (λ c. absurd (ground (arith, passes, c))) n.later_none;
  }
  passed (some p) passes n = record {
    known = elim n.known [ inl same ↦ inl same | inr (a, c) ↦ inr (there a, c) ];
    later_from = n.later_from;
    later_none =
        Among-all v vs
          (λ c.
            later_trans v.created_at p.created_at k.created_at (ground (arith, passes, c))
              (n.later_from p refl))
          n.later_none;
  }

pub newest-IsNewest :
    (hash : String) (from : Option Vm) (vs : List Vm) (k : Vm)
    → newest hash from vs ≡ some k
    → IsNewest hash from vs k
unfolding newest
newest-IsNewest hash from [] k h = record {
  known = inl h;
  later_from = λ p e.
      let same : p ≡ k = cc (h, e) in
      subst (λ w. later p.created_at w.created_at ≡ false) same
        (is_after_self (codes p.created_at));
  later_none = λ v a. elim a [ ];
}
newest-IsNewest hash from (v ∷ vs) k h = elim (Bool-cases (is_current hash v && newer v from)) [
  | inl picks ↦
      let chosen : newest hash (some v) vs ≡ some k =
        subst (λ t. newest hash (if t then some v else from) vs ≡ some k) picks h in
      taken hash v vs k from (ground (arith, picks)) (ground (arith, picks))
        (newest-IsNewest hash (some v) vs k chosen)
  | inr passes ↦
      let kept : newest hash from vs ≡ some k =
        subst (λ t. newest hash (if t then some v else from) vs ≡ some k) passes h in
      passed hash v vs k from passes (newest-IsNewest hash from vs k kept)
]

pub newest-none :
    (hash : String) (from : Option Vm) (vs : List Vm)
    → newest hash from vs ≡ none
    → (from ≡ none) × ((v : Vm) → Among v vs → is_current hash v ≡ false)
unfolding newest
newest-none hash from [] h = (h, λ v a. elim a [ ])
newest-none hash from (v ∷ vs) h = elim (Bool-cases (is_current hash v && newer v from)) [
  | inl picks ↦
      let rest =
        newest-none hash (some v) vs
          (subst (λ t. newest hash (if t then some v else from) vs ≡ none) picks h) in
      absurd (cc rest.0)
  | inr passes ↦
      let rest =
        newest-none hash from vs
          (subst (λ t. newest hash (if t then some v else from) vs ≡ none) passes h) in
      (
        rest.0,
        Among-all v vs
            (subst (λ f. (is_current hash v && newer v f) ≡ false → is_current hash v ≡ false)
              (sym rest.0) (λ e. ground (arith, e)) passes)
            rest.1,
      )
]
