-- ===== src/Network/Firewall/Chain.antt =====
-- How a chain decides: rule by rule, section by section.
use micro_hosted.Prelude.{
  Bool, true, false, ◌≡◌, ◌⊎◌, inl, inr, refl, Option, none, some, List, [], ◌∷◌, ◌++◌, String,
  arith, ◌||◌, if◌then◌else◌, Option-cases, ◌&&◌,
}
use micro_hosted.Network.Firewall.{Packet, Match, Sets, Rule, Verdict, drop, all_hold, decide}
use micro_hosted.Network.Firewall.Rules.{flow_log, logged_drop, each}

abbrev pub or_else : Option Verdict → Option Verdict → Option Verdict
or_else none rest = rest
or_else (some v) rest = some v

module _ (s : Sets) (p : Packet) where
  pub decide_skip :
      (rs ss : List Rule) → decide s p rs ≡ none → decide s p (rs ++ ss) ≡ decide s p ss
  unfolding decide
  decide_skip [] ss h = refl
  decide_skip (r ∷ rs) ss h = ground (arith, decide_skip rs ss)

  pub decide_stop :
      (rs ss : List Rule) (v : Verdict) → decide s p rs ≡ some v → decide s p (rs ++ ss) ≡ some v
  unfolding decide
  decide_stop [] ss v h = ground arith
  decide_stop (r ∷ rs) ss v h = ground (arith, decide_stop rs ss v)

  -- A packet that a chain of two sections does not drop passes the first, and is decided there or
  -- by the second.
  pub append_cases :
      (rs ss : List Rule)
      → ((v : Verdict) × (decide s p rs ≡ some v) × (decide s p (rs ++ ss) ≡ some v))
        ⊎ ((decide s p rs ≡ none) × (decide s p (rs ++ ss) ≡ decide s p ss))
  append_cases rs ss = elim (Option-cases (decide s p rs)) [
    | inl none_yet ↦ inr (none_yet, decide_skip rs ss none_yet)
    | inr (v, found) ↦ inl (v, found, decide_stop rs ss v found)
  ]

  -- To record changes no verdict.
  pub decide-logged_drop :
      (on : Bool) (ms : List Match) (reason : String)
      → decide s p (logged_drop on ms reason) ≡ (if all_hold s p ms then some drop else none)
  unfolding decide
  decide-logged_drop true ms reason = ground arith
  decide-logged_drop false ms reason = ground arith

  pub decide-flow_log :
      (on : Bool) (ms : List Match) (reason : String) → decide s p (flow_log on ms reason) ≡ none
  unfolding decide
  decide-flow_log true ms reason = ground arith
  decide-flow_log false ms reason = refl

  -- Two sections decide as the first that decides.
  pub decide-append :
      (rs ss : List Rule) → decide s p (rs ++ ss) ≡ or_else (decide s p rs) (decide s p ss)
  decide-append rs ss = ground (arith, append_cases rs ss)

module _ {ℓ} {A : Type ℓ} where
  unfoldable pub any_of : (A → Bool) → List A → Bool
  any_of g [] = false
  any_of g (x ∷ xs) = g x || any_of g xs

  -- A section in which each item has rules of one verdict.
  pub decide-each :
      (s : Sets) (p : Packet) (f : A → List Rule) (g : A → Bool) (v : Verdict)
      → ((x : A) → decide s p (f x) ≡ (if g x then some v else none))
      → (xs : List A) → decide s p (each f xs) ≡ (if any_of g xs then some v else none)
  unfolding each any_of decide
  decide-each s p f g v h [] = refl
  decide-each s p f g v h (x ∷ xs) =
      ground (arith, h x, decide-each s p f g v h xs, decide-append s p (f x) (each f xs))

  -- Tests that agree where a third fails agree on a list on which the third fails.
  pub any_of_ext :
      (h f g : A → Bool)
      → ((x : A) → h x ≡ false → f x ≡ g x)
      → (xs : List A) → any_of h xs ≡ false
      → any_of f xs ≡ any_of g xs
  unfolding any_of
  any_of_ext h f g same [] none_h = refl
  any_of_ext h f g same (x ∷ xs) none_h = ground (arith, same x, any_of_ext h f g same xs)

  pub any_of_none : (f : A → Bool) → ((x : A) → f x ≡ false) → (xs : List A) → any_of f xs ≡ false
  unfolding any_of
  any_of_none f never [] = refl
  any_of_none f never (x ∷ xs) = ground (arith, never x, any_of_none f never xs)

  pub any_of_or :
      (f g : A → Bool) (xs : List A) → any_of (λ x. f x || g x) xs ≡ (any_of f xs || any_of g xs)
  unfolding any_of
  any_of_or f g [] = refl
  any_of_or f g (x ∷ xs) = ground (arith, any_of_or f g xs)

  pub any_of_guard :
      (b : Bool) (f : A → Bool) (xs : List A) → any_of (λ x. b && f x) xs ≡ (b && any_of f xs)
  any_of_guard true f xs = refl
  any_of_guard false f xs = any_of_none (λ _. false) (λ _. refl) xs
