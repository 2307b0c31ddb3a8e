-- ===== src/Labels/Tests.antt =====
-- Labels that a patch may set, and a selector of two terms.
use micro_hosted.Prelude.{
  true, false, ◌≡◌, refl, none, some, [], ◌∷◌, String, ok, err, lookup, insert, erase,
}
use micro_hosted.Labels.{
  Labels, PatchMap, invalid, managed_by, validate, validate_each, validate_key, validate_value,
  validate_name, validate_patch, merge, patch, parse_selector, add_terms, add_term, all_terms,
  matches,
}
use micro_hosted.Labels.Patched.{patched, patch_lem}
use micro_hosted.Labels.Selected.{all_hold, matches-parse_selector}

abbrev owned : Labels
owned = ("managed-by", "orch") ∷ ("zone", "a") ∷ []

abbrev changes : PatchMap
changes = ("zone", none) ∷ ("app", some "web-1") ∷ []

names : (validate_name "web-1" ≡ true) × (validate_name "web-" ≡ false)
unfolding validate_name
names = (refl, refl)

patched_labels : patch owned changes ≡ ok (("managed-by", "orch") ∷ ("app", "web-1") ∷ [])
unfolding patch validate_patch validate validate_each validate_key validate_value merge lookup
    insert erase
patched_labels = refl

stolen : patch owned (("managed-by", some "mine") ∷ []) ≡ err invalid
unfolding patch validate_patch validate validate_each validate_key validate_value merge lookup
    insert erase
stolen = refl

patch_lem_example :
    ((k : String)
      → lookup k (("managed-by", "orch") ∷ ("app", "web-1") ∷ [])
        ≡ patched (lookup k changes) (lookup k owned))
    × ((validate (("managed-by", "orch") ∷ ("app", "web-1") ∷ []) ≡ true)
        × (lookup managed_by (("managed-by", "orch") ∷ ("app", "web-1") ∷ [])
            ≡ lookup managed_by owned))
unfolding lookup
patch_lem_example =
    patch_lem owned changes (("managed-by", "orch") ∷ ("app", "web-1") ∷ []) (refl, (refl, tt))
      patched_labels

abbrev selector : Labels
selector = ("zone", "a") ∷ ("app", "web") ∷ []

read : parse_selector ("zone=a,app=web" ∷ "zone=a" ∷ []) ≡ ok selector
unfolding parse_selector add_terms add_term all_terms validate validate_each validate_key
    validate_value lookup insert
read = refl

matches-parse_selector_example :
    matches selector owned ≡ all_hold (all_terms ("zone=a,app=web" ∷ "zone=a" ∷ [])) owned
matches-parse_selector_example =
    matches-parse_selector ("zone=a,app=web" ∷ "zone=a" ∷ []) selector owned read
