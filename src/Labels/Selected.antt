-- ===== src/Labels/Selected.antt =====
-- Selectors and the labels that they match.
use micro_hosted.Prelude.{
  Bool, true, false, ◌&&◌, ◌||◌, ◌≡◌, Option, none, some, List, [], ◌∷◌, String, str_eq, eq_iff, ok,
  lookup, insert, arith, Result-cases, Bool-cases, ok-injective, inl, inr,
}
use micro_hosted.Labels.{
  Labels, cut, add_pair, add_term, add_terms, all_terms, parse_selector, has, matches, conflicts,
}

-- What one term asks of labels: the label that it names has the value that it gives. An empty term
-- asks nothing.
abbrev pub pair_holds : Option (String × String) → Labels → Bool
pair_holds none labels = false
pair_holds (some (k, v)) labels = has (lookup k labels) v

unfoldable pub term_holds : String → Labels → Bool
unfolding cut
term_holds term labels = str_eq term "" || pair_holds (cut 61 term) labels

unfoldable pub all_hold : List String → Labels → Bool
all_hold [] labels = true
all_hold (t ∷ ts) labels = term_holds t labels && all_hold ts labels

matches-insert :
    (k v : String) (sel labels : Labels)
    → conflicts v (lookup k sel) ≡ false
    → matches (insert k v sel) labels ≡ (matches sel labels && has (lookup k labels) v)
unfolding matches insert lookup
matches-insert k v [] labels h = ground arith
matches-insert k v ((j, w) ∷ rest) labels h =
    ground (arith, eq_iff j k, eq_iff w v, matches-insert k v rest labels)

matches-add_pair :
    (pair : Option (String × String)) (sel next labels : Labels)
    → add_pair sel pair ≡ ok next
    → matches next labels ≡ (matches sel labels && pair_holds pair labels)
matches-add_pair none sel next labels h = cc h
matches-add_pair (some (k, v)) sel next labels h = ground (arith, matches-insert k v sel labels)

matches-add_term :
    (term : String) (sel next labels : Labels)
    → add_term term sel ≡ ok next
    → matches next labels ≡ (matches sel labels && term_holds term labels)
unfolding add_term term_holds
matches-add_term term sel next labels h = elim (Bool-cases (str_eq term "")) [
  | inl empty ↦ ground (arith, empty)
  | inr given ↦ ground (arith, given, matches-add_pair (cut 61 term) sel next labels)
]

matches-add_terms :
    (ts : List String) (sel next labels : Labels)
    → add_terms ts sel ≡ ok next
    → matches next labels ≡ (matches sel labels && all_hold ts labels)
unfolding add_terms all_hold
matches-add_terms [] sel next labels h = ground (arith, ok-injective h)
matches-add_terms (t ∷ ts) sel next labels h = elim (Result-cases (add_term t sel)) [
  | inl (e, failed) ↦ ground (arith, failed)
  | inr (mid, added) ↦
      ground (arith, added, matches-add_term t sel mid labels, matches-add_terms ts mid next labels)
]

-- A selector that is read from terms (one to an element, or several with commas between) matches
-- exactly the labels that have, for every term k=v, the value v at the key k.
pub matches-parse_selector :
    (ts : List String) (sel labels : Labels)
    → parse_selector ts ≡ ok sel
    → matches sel labels ≡ all_hold (all_terms ts) labels
unfolding parse_selector matches
matches-parse_selector ts sel labels h = matches-add_terms (all_terms ts) [] sel labels h
