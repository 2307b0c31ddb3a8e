-- ===== src/Prelude/Every.antt =====
-- What holds of every element of a list.
use mathlib.Core.Path.{◌≡◌}
use mathlib.Core.Bool.{Bool, true, false}
use mathlib.Core.List.{List, [], ◌∷◌, ◌++◌, map}
use micro_hosted.Prelude.Tests.{if◌then◌else◌, holds_if}

abbrev pub All {ℓ} : {A : Type ℓ} → (A → Type 0) → List A → Type 0
All P [] = Unit
All P (x ∷ xs) = P x × All P xs

module _ {ℓ} {A : Type ℓ} (P : A → Type 0) where
  pub All-append : (xs ys : List A) → All P xs → All P ys → All P (xs ++ ys)
  All-append [] ys p q = q
  All-append (x ∷ xs) ys p q = (p.0, All-append xs ys p.1 q)

  pub All-any : ((x : A) → P x) → (xs : List A) → All P xs
  All-any h [] = tt
  All-any h (x ∷ xs) = (h x, All-any h xs)

  pub All-if :
      (b : Bool) (xs ys : List A)
      → (b ≡ true → All P xs)
      → (b ≡ false → All P ys)
      → All P (if b then xs else ys)
  All-if b xs ys p q = holds_if (All P) b xs ys p q

pub All-map {ℓ κ} :
    {A : Type ℓ} {B : Type κ} (P : A → Type 0) (Q : B → Type 0) (f : A → B) (xs : List A)
    → ((x : A) → P x → Q (f x))
    → All P xs
    → All Q (map f xs)
All-map P Q f [] h p = tt
All-map P Q f (x ∷ xs) h p = (h x p.0, All-map P Q f xs h p.1)

module _ {ℓ} {A : Type ℓ} (P Q : A → Type 0) where
  pub All-imp : ((x : A) → P x → Q x) → (xs : List A) → All P xs → All Q xs
  All-imp h [] p = tt
  All-imp h (x ∷ xs) p = (h x p.0, All-imp h xs p.1)

  -- Two properties, the one used at each element to get from the other to a third.
  pub All-both :
      (R : A → Type 0)
      → ((x : A) → P x → Q x → R x)
      → (xs : List A) → All P xs
      → All Q xs
      → All R xs
  All-both R h [] p q = tt
  All-both R h (x ∷ xs) p q = (h x p.0 q.0, All-both R h xs p.1 q.1)

pub All-right {ℓ} : {A : Type ℓ} (P : A → Type 0) (xs ys : List A) → All P (xs ++ ys) → All P ys
All-right P [] ys p = p
All-right P (x ∷ xs) ys p = All-right P xs ys p.1
