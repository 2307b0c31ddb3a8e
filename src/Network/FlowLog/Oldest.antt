-- ===== src/Network/FlowLog/Oldest.antt =====
-- The search of forgetOldestSource.
use micro_hosted.Prelude.{
  ℕ, ◌≤◌, false, ◌≡◌, refl, subst, none, some, [], ◌∷◌, String, str_eq, eq_iff, ltb, Dict, lookup,
  Unique, arith, Bool-cases, inl, inr, ◌⊎◌,
}
use micro_hosted.Network.FlowLog.{FlowSource, oldest_from}

-- A source with its key among sources.
abbrev pub Holds : String → FlowSource → Dict FlowSource → Type 0
Holds k s sources = lookup k sources ≡ some s

abbrev pub NoneBefore : ℕ → Dict FlowSource → Type 0
NoneBefore at sources = (k : String) (s : FlowSource) → Holds k s sources → at ≤ s.last

-- The loop's result `r`: the oldest so far, or a source that is no newer, and none is older.
abbrev Found : String → String → ℕ → Dict FlowSource → Type 0
Found r oldest at sources =
    ((r ≡ oldest) × NoneBefore at sources)
    ⊎ ((o : FlowSource) × (Holds r o sources × ((o.last ≤ at) × NoneBefore o.last sources)))

NoneBefore-cons :
    (at : ℕ) (j : String) (t : FlowSource) (rest : Dict FlowSource)
    → at ≤ t.last
    → NoneBefore at rest
    → NoneBefore at ((j, t) ∷ rest)
unfolding lookup
NoneBefore-cons at j t rest h all k s held = ground (arith, all k s)

Holds-cons :
    (r j : String) (o t : FlowSource) (rest : Dict FlowSource)
    → lookup j rest ≡ none
    → Holds r o rest
    → Holds r o ((j, t) ∷ rest)
unfolding lookup
Holds-cons r j o t rest absent held = ground (arith, eq_iff j r)

Found-here :
    (r j oldest : String) (at : ℕ) (t : FlowSource) (rest : Dict FlowSource)
    → lookup j rest ≡ none
    → t.last ≤ at
    → Found r j t.last rest
    → Found r oldest at ((j, t) ∷ rest)
unfolding lookup
Found-here r j oldest at t rest absent h (inl (same, all)) =
    inr (t, (ground (arith, eq_iff j r), (h, NoneBefore-cons t.last j t rest (omega arith) all)))
Found-here r j oldest at t rest absent h (inr (o, (held, (le, all)))) = inr (
  o,
  (
    Holds-cons r j o t rest absent held,
    (omega (arith, le, h), NoneBefore-cons o.last j t rest le all),
  ),
)

Found-later :
    (r j oldest : String) (at : ℕ) (t : FlowSource) (rest : Dict FlowSource)
    → lookup j rest ≡ none
    → at ≤ t.last
    → Found r oldest at rest
    → Found r oldest at ((j, t) ∷ rest)
Found-later r j oldest at t rest absent h (inl (same, all)) =
    inl (same, NoneBefore-cons at j t rest h all)
Found-later r j oldest at t rest absent h (inr (o, (held, (le, all)))) = inr (
  o,
  (
    Holds-cons r j o t rest absent held,
    (le, NoneBefore-cons o.last j t rest (omega (arith, le, h)) all),
  ),
)

oldest_from_lem :
    (oldest : String) (at : ℕ) (sources : Dict FlowSource)
    → str_eq oldest "" ≡ false
    → Unique sources
    → lookup "" sources ≡ none
    → Found (oldest_from oldest at sources) oldest at sources
unfolding oldest_from lookup
oldest_from_lem oldest at [] ne u keyed = inl (refl, λ k s h. cc h)
oldest_from_lem oldest at ((j, t) ∷ rest) ne (absent, u) keyed =
    let named : str_eq j "" ≡ false = ground arith in
    let others : lookup "" rest ≡ none = ground arith in
    elim (Bool-cases (ltb t.last at)) [
      | inl earlier ↦
          subst (λ r. Found r oldest at ((j, t) ∷ rest)) {x = oldest_from j t.last rest}
            (ground (arith, earlier))
            (Found-here _ j oldest at t rest absent (ground (arith, earlier))
              (oldest_from_lem j t.last rest named u others))
      | inr later ↦
          subst (λ r. Found r oldest at ((j, t) ∷ rest)) {x = oldest_from oldest at rest}
            (ground (arith, later))
            (Found-later _ j oldest at t rest absent (ground (arith, later))
              (oldest_from_lem oldest at rest ne u others))
    ]

-- Of the sources there are, the one that is forgotten was heard from no later than any other.
pub oldest_lem :
    (j : String) (t : FlowSource) (rest : Dict FlowSource)
    → Unique ((j, t) ∷ rest)
    → lookup "" ((j, t) ∷ rest) ≡ none
    → (o : FlowSource) × (Holds (oldest_from "" 0 ((j, t) ∷ rest)) o ((j, t) ∷ rest)
        × NoneBefore o.last ((j, t) ∷ rest))
unfolding oldest_from lookup
oldest_lem j t rest (absent, u) keyed =
    let named : str_eq j "" ≡ false = ground arith in
    let others : lookup "" rest ≡ none = ground arith in
    elim (Found-here (oldest_from j t.last rest) j j t.last t rest absent (omega arith)
      (oldest_from_lem j t.last rest named u others)) [
        | inl (same, all) ↦ (t, (ground (arith, eq_iff j j, same), all))
        | inr (o, (held, (le, all))) ↦ (o, (held, all))
      ]
