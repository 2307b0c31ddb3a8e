-- ===== src/Spec/Interpolate/Values.antt =====
-- Texts with variables and texts without (expand of orchestrator/spec/interpolate.go).
use micro_hosted.Prelude.{
  ℕ, zero, suc, ◌≤◌, ◌≡◌, refl, sym, ap, ◌∙◌, true, false, ◌&&◌, Option, none, some, [], ◌∷◌, ◌++◌,
  ◌==◌, if◌then◌else◌, length, arith, Option-cases, Bool-cases, inl, inr, ok, append_assoc,
  length-append,
}
use micro_hosted.Spec.Interpolate.{
  Bytes, Lookup, dollar, open_brace, cut_open, cut_close, before_too, ends_dollar, value, written,
  with_value, closed, opened, expand,
}
use micro_hosted.Spec.Interpolate.Loop.{expand_lem}

too_none : (c : ℕ) (o : Option (Bytes × Bytes)) → before_too c o ≡ none → o ≡ none
too_none c none h = refl
too_none c (some (b, a)) h = absurd (cc h)

too_some :
    (c : ℕ) (o : Option (Bytes × Bytes)) (before after : Bytes)
    → before_too c o ≡ some (before, after)
    → (b : Bytes) × ((o ≡ some (b, after)) × (before ≡ c ∷ b))
too_some c none before after h = absurd (cc h)
too_some c (some (b, a)) before after h =
    let e : a ≡ after = cc h in let f : c ∷ b ≡ before = cc h in (b, (cc e, sym f))

-- A text before a `${` that it does not contain.
cut_open-append :
    (before after : Bytes)
    → cut_open before ≡ none
    → cut_open (before ++ (dollar ∷ open_brace ∷ after)) ≡ some (before, after)
unfolding cut_open
cut_open-append [] after plain = refl
cut_open-append (c ∷ []) after plain = ground arith
cut_open-append (c ∷ (d ∷ cs)) after plain =
    let rest =
      cut_open-append (d ∷ cs) after (too_none c (cut_open (d ∷ cs)) (ground (arith, plain))) in
    ground (arith, plain, rest)

cut_close-append :
    (expr rest : Bytes)
    → cut_close expr ≡ none
    → cut_close (expr ++ (125 ∷ rest)) ≡ some (expr, rest)
unfolding cut_close
cut_close-append [] rest plain = refl
cut_close-append (c ∷ cs) rest plain =
    let rest = cut_close-append cs rest (too_none c (cut_close cs) (ground (arith, plain))) in
    ground (arith, plain, rest)

-- A text in which every `${` is written `$${`.
unfoldable pub escape : Bytes → Bytes
escape [] = []
escape (c ∷ []) = c ∷ []
escape (c ∷ (d ∷ cs)) =
    let rest = escape (d ∷ cs) in
    if (c == dollar) && (d == open_brace) then dollar ∷ dollar ∷ rest else c ∷ rest

skipped :
    (c d : ℕ) (cs : Bytes)
    → ((c == dollar) && (d == open_brace)) ≡ false
    → cut_open (c ∷ (d ∷ cs)) ≡ before_too c (cut_open (d ∷ cs))
unfolding cut_open
skipped c d cs other = ground (arith, other)

escape-head : (d : ℕ) (cs : Bytes) → (t : Bytes) × (escape (d ∷ cs) ≡ d ∷ t)
unfolding escape
escape-head d [] = ([], refl)
escape-head d (e ∷ cs) = elim (Bool-cases ((d == dollar) && (e == open_brace))) [
  | inl opens ↦ (dollar ∷ escape (e ∷ cs), ground (arith, opens))
  | inr other ↦ (escape (e ∷ cs), ground (arith, other))
]

escape-brace : (cs : Bytes) → escape (open_brace ∷ cs) ≡ open_brace ∷ escape cs
unfolding escape
escape-brace [] = refl
escape-brace (c ∷ cs) = refl

escape-plain : (s : Bytes) → cut_open s ≡ none → escape s ≡ s
unfolding cut_open escape
escape-plain [] h = refl
escape-plain (c ∷ []) h = refl
escape-plain (c ∷ (d ∷ cs)) h =
    let rest = escape-plain (d ∷ cs) (too_none c (cut_open (d ∷ cs)) (ground (arith, h))) in
    ground (arith, h, rest)

escaped_here :
    (cs : Bytes) → cut_open (escape (dollar ∷ open_brace ∷ cs)) ≡ some (dollar ∷ [], escape cs)
unfolding escape cut_open
escaped_here cs = ap (λ l. cut_open (dollar ∷ dollar ∷ l)) (escape-brace cs)

escaped_later :
    (c d : ℕ) (cs t : Bytes)
    → ((c == dollar) && (d == open_brace)) ≡ false
    → escape (d ∷ cs) ≡ d ∷ t
    → cut_open (escape (c ∷ (d ∷ cs))) ≡ before_too c (cut_open (escape (d ∷ cs)))
unfolding escape
escaped_later c d cs t other head =
    let first : escape (c ∷ (d ∷ cs)) ≡ c ∷ (d ∷ t) = ground (arith, other, head) in
    ap cut_open first ∙ skipped c d t other ∙ ap (λ l. before_too c (cut_open l)) (sym head)

-- What stands before the first of them.
escape-cut :
    (s before after : Bytes)
    → cut_open s ≡ some (before, after)
    → (cut_open (escape s) ≡ some (before ++ (dollar ∷ []), escape after))
      × (s ≡ before ++ (dollar ∷ open_brace ∷ after))
unfolding cut_open
escape-cut [] before after h = absurd (cc h)
escape-cut (c ∷ []) before after h = absurd (cc h)
escape-cut (c ∷ (d ∷ cs)) before after h = elim (Bool-cases ((c == dollar) && (d == open_brace))) [
  | inl opens ↦
      let same : ◌≡◌ {A = Bytes} (c ∷ (d ∷ cs)) (dollar ∷ open_brace ∷ cs) =
        ground (arith, opens) in
      let nothing : before ≡ [] = ground (arith, h, opens) in
      let rest : cs ≡ after = ground (arith, h, opens) in
      (
        ap (λ l. cut_open (escape l)) same ∙ escaped_here cs ∙ cc (nothing, rest),
        same ∙ cc (nothing, rest),
      )
  | inr other ↦
      let (b, (found, before_is)) =
        too_some c (cut_open (d ∷ cs)) before after (ground (arith, h, other)) in
      let (t, head) = escape-head d cs in
      let ih = escape-cut (d ∷ cs) b after found in
      (
        escaped_later c d cs t other head
            ∙ ap (before_too c) ih.0
            ∙ ap (λ l. some (l ++ (dollar ∷ []), escape after)) (sym before_is),
        ap (λ l. c ∷ l) ih.1 ∙ ap (λ l. l ++ (dollar ∷ open_brace ∷ after)) (sym before_is),
      )
]

ends_dollar-append : (before : Bytes) → ends_dollar (before ++ (dollar ∷ [])) ≡ true
unfolding ends_dollar
ends_dollar-append [] = refl
ends_dollar-append (c ∷ []) = refl
ends_dollar-append (c ∷ (d ∷ cs)) = ends_dollar-append (d ∷ cs)

written_back :
    (before after : Bytes)
    → ((before ++ (dollar ∷ [])) ++ (open_brace ∷ [])) ++ after
      ≡ before ++ (dollar ∷ open_brace ∷ after)
written_back before after =
    append_assoc (before ++ (dollar ∷ [])) (open_brace ∷ []) after
    ∙ append_assoc before (dollar ∷ []) (open_brace ∷ after)

-- From the first `${`, when the text after it comes back.
escape_rest :
    (find : Lookup) (s before after : Bytes)
    → cut_open s ≡ some (before, after)
    → expand find (escape after) ≡ ok (after, [])
    → expand find (escape s) ≡ ok (s, [])
escape_rest find s before after found back =
    let (cut, whole) = escape-cut s before after found in
    let start = before ++ (dollar ∷ []) in
    expand_lem find (escape s)
    ∙ ap (λ o. opened find (escape s) o (expand find)) cut
    ∙ ap
        (λ b.
          if b
          then written (start ++ (open_brace ∷ [])) [] (expand find (escape after))
          else closed find start (escape after) (cut_close (escape after)) (expand find))
        (ends_dollar-append before)
    ∙ ap (written (start ++ (open_brace ∷ [])) []) back
    ∙ ap (λ l. ok (l, [])) (written_back before after ∙ sym whole)

escape_round :
    (find : Lookup) (n : ℕ) (s : Bytes) → length s ≤ n → expand find (escape s) ≡ ok (s, [])
unfolding cut_open escape
escape_round find zero [] h = expand_lem find []
escape_round find zero (c ∷ s) h = absurd (omega (arith, h))
escape_round find (suc n) s h = elim (Option-cases (cut_open s)) [
  | inl plain ↦
      ap (expand find) (escape-plain s plain)
      ∙ expand_lem find s
      ∙ ap (λ o. opened find s o (expand find)) plain
  | inr ((before, after), found) ↦
      let shorter =
        ap length (escape-cut s before after found).1
        ∙ length-append before (dollar ∷ open_brace ∷ after) in
      escape_rest find s before after found (escape_round find n after (omega (arith, h, shorter)))
]

-- A text whose every `${` is written `$${` expands to that text, whatever the variables, and uses
-- none.
pub expand-escape : (find : Lookup) (s : Bytes) → expand find (escape s) ≡ ok (s, [])
expand-escape find s = escape_round find (length s) s (omega arith)

-- After a text without `${` that does not end in a dollar sign, an expression in braces stands for
-- its value, which is written as it is and never read again, and the rest of the text is expanded
-- on its own.
pub expand-value :
    (find : Lookup) (before expr rest : Bytes)
    → cut_open before ≡ none
    → ends_dollar before ≡ false
    → cut_close expr ≡ none
    → expand find (before ++ (dollar ∷ open_brace ∷ (expr ++ (125 ∷ rest))))
      ≡ with_value before (value find expr) (expand find rest)
expand-value find before expr rest plain clear whole =
    expand_lem find (before ++ (dollar ∷ open_brace ∷ (expr ++ (125 ∷ rest))))
    ∙ ap
        (λ o.
          opened find (before ++ (dollar ∷ open_brace ∷ (expr ++ (125 ∷ rest)))) o (expand find))
        (cut_open-append before (expr ++ (125 ∷ rest)) plain)
    ∙ ap
        (λ b.
          if b
          then written (before ++ (open_brace ∷ [])) [] (expand find (expr ++ (125 ∷ rest)))
          else closed find before (expr ++ (125 ∷ rest)) (cut_close (expr ++ (125 ∷ rest)))
              (expand find))
        clear
    ∙ ap (λ o. closed find before (expr ++ (125 ∷ rest)) o (expand find))
        (cut_close-append expr rest whole)
