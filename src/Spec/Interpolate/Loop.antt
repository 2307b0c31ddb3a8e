-- ===== src/Spec/Interpolate/Loop.antt =====
-- The loop of expand (orchestrator/spec/interpolate.go).
use micro_hosted.Prelude.{
  ℕ, zero, suc, ◌≤◌, ◌<◌, ◌≡◌, refl, ap, ◌&&◌, Option, none, some, [], ◌∷◌, ◌==◌, holds_if, length,
  arith, Bool-cases, inl, inr,
}
use micro_hosted.Spec.Interpolate.{
  Bytes, Lookup, Expanded, cut_open, cut_close, before_too, ends_dollar, value, with_value, closed,
  opened, expand_loop, expand,
}

abbrev Found : Bytes → Option (Bytes × Bytes) → Type 0
Found s o = (before after : Bytes) → o ≡ some (before, after) → length after < length s

before_too-Found :
    (c : ℕ) (s : Bytes) (o : Option (Bytes × Bytes)) → Found s o → Found (c ∷ s) (before_too c o)
before_too-Found c s none f before after h = absurd (cc h)
before_too-Found c s (some (b, a)) f before after h =
    let e : a ≡ after = cc h in omega (arith, f b a refl, ap length e)

cut_open-shorter : (s : Bytes) → Found s (cut_open s)
unfolding cut_open
cut_open-shorter [] = λ before after h. absurd (cc h)
cut_open-shorter (c ∷ []) = λ before after h. absurd (cc h)
cut_open-shorter (c ∷ (d ∷ cs)) =
    holds_if (Found (c ∷ (d ∷ cs))) ((c == 36) && (d == 123)) _ _
      (λ here before after h. let e : cs ≡ after = cc h in omega (arith, ap length e))
      (λ later. before_too-Found c (d ∷ cs) (cut_open (d ∷ cs)) (cut_open-shorter (d ∷ cs)))

cut_close-shorter : (s : Bytes) → Found s (cut_close s)
unfolding cut_close
cut_close-shorter [] = λ before after h. absurd (cc h)
cut_close-shorter (c ∷ cs) =
    holds_if (Found (c ∷ cs)) (c == 125) _ _
      (λ here before after h. let e : cs ≡ after = cc h in omega (arith, ap length e))
      (λ later. before_too-Found c cs (cut_close cs) (cut_close-shorter cs))

-- A round needs the rounds after it on shorter texts only.
closed-agree :
    (find : Lookup) (before after : Bytes) (o : Option (Bytes × Bytes))
    (more further : Bytes → Expanded)
    → Found after o
    → ((rest : Bytes) → length rest < length after → more rest ≡ further rest)
    → closed find before after o more ≡ closed find before after o further
closed-agree find before after none more further shorter agree = refl
closed-agree find before after (some (expr, rest)) more further shorter agree =
    ap (with_value before (value find expr)) (agree rest (shorter expr rest refl))

opened-agree :
    (find : Lookup) (s : Bytes) (o : Option (Bytes × Bytes)) (more further : Bytes → Expanded)
    → Found s o
    → ((rest : Bytes) → length rest < length s → more rest ≡ further rest)
    → opened find s o more ≡ opened find s o further
opened-agree find s none more further shorter agree = refl
opened-agree find s (some (before, after)) more further shorter agree =
    let less = shorter before after refl in
    elim (Bool-cases (ends_dollar before)) [
      | inl escaped ↦ ground (arith, escaped, agree after less)
      | inr expression ↦ ground (
        arith,
        expression,
        closed-agree find before after (cut_close after) more further (cut_close-shorter after)
            (λ rest shorter_still. agree rest (omega (arith, less, shorter_still))),
      )
    ]

expand_fuel :
    (find : Lookup) (f g : ℕ) (s : Bytes)
    → length s ≤ f
    → length s ≤ g
    → expand_loop find f s ≡ expand_loop find g s
unfolding expand_loop cut_open
expand_fuel find zero zero s hf hg = refl
expand_fuel find zero (suc g) [] hf hg = refl
expand_fuel find zero (suc g) (c ∷ s) hf hg = absurd (omega (arith, hf))
expand_fuel find (suc f) zero [] hf hg = refl
expand_fuel find (suc f) zero (c ∷ s) hf hg = absurd (omega (arith, hg))
expand_fuel find (suc f) (suc g) s hf hg =
    opened-agree find s (cut_open s) (λ rest. expand_loop find f rest)
      (λ rest. expand_loop find g rest) (cut_open-shorter s)
      (λ rest shorter.
        expand_fuel find f g rest (omega (arith, hf, shorter)) (omega (arith, hg, shorter)))

-- The loop of expand ends on every text: a round writes what stands before the first `${` and what
-- that stands for, and goes on with a shorter text, with fuel enough for all.
pub expand_lem :
    (find : Lookup) (s : Bytes) → expand find s ≡ opened find s (cut_open s) (expand find)
unfolding expand expand_loop cut_open
expand_lem find [] = refl
expand_lem find (c ∷ s) =
    opened-agree find (c ∷ s) (cut_open (c ∷ s)) (λ rest. expand_loop find (length s) rest)
      (expand find) (cut_open-shorter (c ∷ s))
      (λ rest shorter.
        expand_fuel find (length s) (length rest) rest (omega (arith, shorter)) (omega arith))
