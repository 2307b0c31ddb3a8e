-- ===== src/Orch/Policy/SameRules.antt =====
-- Two rule lists that sameRules of orchestrator/orch/plan.go compares.
use mathlib.Core.List.Perm
use mathlib.Core.List.{Memᴰ, Perm, Permᴰ}
use mathlib.Core.Logic.{∥∥₁_elim}
use micro_hosted.Prelude.{
  suc, ◌≡◌, refl, sym, ap, ◌∙◌, subst, ◌↔◌, Bool, true, false, none, some, List, [], ◌∷◌, length,
  arith, Option-cases, Bool-cases, inl, inr,
}
use micro_hosted.Orch.Policy.{take_unused, all_taken, unused, same_rules}

module _ {ℓ} {A : Type ℓ} where
  length-Permᴰ : {a b : List A} → Permᴰ a b → length a ≡ length b
  length-Permᴰ Permᴰ.nil = refl
  length-Permᴰ (Permᴰ.cons e p) = ap suc (length-Permᴰ p)
  length-Permᴰ (Permᴰ.swap e f) = refl
  length-Permᴰ (Permᴰ.trans p q) = length-Permᴰ p ∙ length-Permᴰ q

  length-Perm : (a b : List A) → Perm a b → length a ≡ length b
  length-Perm a b p = ∥∥₁_elim p (hlevel) length-Permᴰ

  -- The places that are not taken.
  abbrev free : List A → List Bool → List A
  free [] used = []
  free (y ∷ b) [] = []
  free (y ∷ b) (true ∷ used) = free b used
  free (y ∷ b) (false ∷ used) = y ∷ free b used

  free-unused : (b : List A) → free b (unused b) ≡ b
  free-unused [] = refl
  free-unused (y ∷ b) = ap (λ l. y ∷ l) (free-unused b)

  none_free : (l : List A) → 0 ≡ length l → Perm [] l
  none_free [] e = Perm.nil
  none_free (x ∷ xs) e = absurd (omega (arith, e))

  module _ (eq : A → A → Bool) (eq_iff : (x y : A) → (eq x y ≡ true) ↔ (x ≡ y)) where
    take_unused-Perm :
        (x : A) (b : List A) (used next : List Bool)
        → take_unused eq x b used ≡ some next
        → Perm (free b used) (x ∷ free b next)
    unfolding take_unused
    take_unused-Perm x [] used next h = absurd (cc h)
    take_unused-Perm x (y ∷ b) [] next h = absurd (cc h)
    take_unused-Perm x (y ∷ b) (true ∷ used) next h =
        elim (Option-cases (take_unused eq x b used)) [
          | inl nowhere ↦ absurd (ground (arith, h, nowhere))
          | inr (n, found) ↦
              let e : true ∷ n ≡ next = ground (arith, h, found) in
              subst (λ l. Perm (free b used) (x ∷ free (y ∷ b) l)) e
                (take_unused-Perm x b used n found)
        ]
    take_unused-Perm x (y ∷ b) (false ∷ used) next h = elim (Bool-cases (eq x y)) [
      | inl same ↦
          let e : true ∷ used ≡ next = ground (arith, h, same) in
          subst (λ l. Perm (y ∷ free b used) (x ∷ free (y ∷ b) l)) e
            (subst (λ z. Perm (y ∷ free b used) (z ∷ free b used)) (sym ((eq_iff x y).0 same))
              (Perm.refl (y ∷ free b used)))
      | inr other ↦ elim (Option-cases (take_unused eq x b used)) [
        | inl nowhere ↦ absurd (ground (arith, h, other, nowhere))
        | inr (n, found) ↦
            let e : false ∷ n ≡ next = ground (arith, h, other, found) in
            subst (λ l. Perm (y ∷ free b used) (x ∷ free (y ∷ b) l)) e
              (Perm.trans (Perm.cons y (take_unused-Perm x b used n found))
                (Perm.swap x y (free b n)))
      ]
    ]

    take_unused-Memᴰ :
        (x : A) (b : List A) (used : List Bool)
        → Memᴰ x (free b used)
        → take_unused eq x b used ≡ none
        → ⊥
    unfolding take_unused
    take_unused-Memᴰ x [] used m h = elim m [ ]
    take_unused-Memᴰ x (y ∷ b) [] m h = elim m [ ]
    take_unused-Memᴰ x (y ∷ b) (true ∷ used) m h = elim (Option-cases (take_unused eq x b used)) [
      | inl nowhere ↦ take_unused-Memᴰ x b used m nowhere
      | inr (n, found) ↦ ground (arith, h, found)
    ]
    take_unused-Memᴰ x (y ∷ b) (false ∷ used) (Memᴰ.head e) h = ground (arith, h, (eq_iff x y).1 e)
    take_unused-Memᴰ x (y ∷ b) (false ∷ used) (Memᴰ.tail m) h =
        elim (Option-cases (take_unused eq x b used)) [
          | inl nowhere ↦ take_unused-Memᴰ x b used m nowhere
          | inr (n, found) ↦ ground (arith, h, found)
        ]

    all_taken-Perm :
        (a b : List A) (used : List Bool)
        → length a ≡ length (free b used)
        → all_taken eq a b used ≡ true
        → Perm a (free b used)
    unfolding all_taken
    all_taken-Perm [] b used l h = none_free (free b used) l
    all_taken-Perm (x ∷ a) b used l h = elim (Option-cases (take_unused eq x b used)) [
      | inl nowhere ↦ absurd (ground (arith, h, nowhere))
      | inr (n, found) ↦
          let step = take_unused-Perm x b used n found in
          Perm.trans
            (Perm.cons x (
              all_taken-Perm a b n (omega (arith, l, length-Perm (free b used) (x ∷ free b n) step))
                (ground (arith, h, found))))
            (Perm.symm step)
    ]

    Perm-all_taken :
        (a b : List A) (used : List Bool) → Perm a (free b used) → all_taken eq a b used ≡ true
    unfolding all_taken
    Perm-all_taken [] b used p = refl
    Perm-all_taken (x ∷ a) b used p = elim (Option-cases (take_unused eq x b used)) [
      | inl nowhere ↦ absurd (
          ∥∥₁_elim ((Perm.mem_iff p).0 ∣ Memᴰ.head refl ∣₁) (hlevel)
            (λ m. take_unused-Memᴰ x b used m nowhere))
      | inr (n, found) ↦ ground (
        arith,
        found,
        Perm-all_taken a b n (Perm.cons_inv (Perm.trans p (take_unused-Perm x b used n found))),
      )
    ]

    -- sameRules tells exactly whether the one list is the other in some order, every rule as often
    -- as there.
    pub same_rules-Perm : (a b : List A) → (same_rules eq a b ≡ true) ↔ Perm a b
    unfolding same_rules
    same_rules-Perm a b = (
      λ h. subst (Perm a) (free-unused b) (
          all_taken-Perm a b (unused b) (ground (arith, h, ap length (free-unused b)))
            (ground (arith, h))),
      λ p. ground (
        arith,
        length-Perm a b p,
        Perm-all_taken a b (unused b) (subst (Perm a) (sym (free-unused b)) p),
      ),
    )
