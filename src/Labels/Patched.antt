-- ===== src/Labels/Patched.antt =====
-- Labels before and after a patch.
use micro_hosted.Prelude.{
  true, false, ◌≡◌, refl, Option, none, some, [], ◌∷◌, String, eq_iff, ok, lookup, insert, erase,
  Unique, lookup-insert, lookup-erase, arith, ◌∙◌, ap, sym,
}
use micro_hosted.Labels.{Labels, PatchMap, managed_by, validate, owner_change, merge, patch}

-- The label of a key after a patch, from its part of the patch and its label before.
abbrev pub patched : Option (Option String) → Option String → Option String
patched none prev = prev
patched (some change) prev = change

pub lookup-merge :
    (changes : PatchMap) (prev : Labels) (k : String)
    → Unique changes
    → lookup k (merge changes prev) ≡ patched (lookup k changes) (lookup k prev)
unfolding merge lookup
lookup-merge [] prev k u = refl
lookup-merge ((j, none) ∷ rest) prev k u =
    ground (arith, eq_iff j k, lookup-merge rest (erase j prev) k, lookup-erase j k prev)
lookup-merge ((j, some v) ∷ rest) prev k u =
    ground (arith, eq_iff j k, lookup-merge rest (insert j v prev) k, lookup-insert j k v prev)

accepted :
    (prev : Labels) (changes : PatchMap) (next : Labels)
    → patch prev changes ≡ ok next
    → (merge changes prev ≡ next)
      × ((validate (merge changes prev) ≡ true)
          × (owner_change (lookup managed_by prev) (lookup managed_by changes) ≡ false))
unfolding patch
accepted prev changes next h = ground arith

unchanged :
    (cur : Option String) (change : Option (Option String))
    → owner_change cur change ≡ false
    → patched change cur ≡ cur
unchanged cur none h = refl
unchanged none (some none) h = refl
unchanged (some cur) (some none) h = cc h
unchanged none (some (some v)) h = cc h
unchanged (some cur) (some (some v)) h = ground (arith, eq_iff cur v)

-- A patch that is accepted sets the labels that it gives a value, removes those that it gives none
-- and leaves the others; the result is a valid set of labels, and the owner label is what it was.
pub patch_lem :
    (prev : Labels) (changes : PatchMap) (next : Labels)
    → Unique changes
    → patch prev changes ≡ ok next
    → ((k : String) → lookup k next ≡ patched (lookup k changes) (lookup k prev))
      × ((validate next ≡ true) × (lookup managed_by next ≡ lookup managed_by prev))
patch_lem prev changes next u h =
    let (same, (valid, kept)) = accepted prev changes next h in
    (
      λ k. ap (lookup k) (sym same) ∙ lookup-merge changes prev k u,
      (
        ap validate (sym same) ∙ valid,
        ap (lookup managed_by) (sym same)
            ∙ (lookup-merge changes prev managed_by u
                ∙ unchanged (lookup managed_by prev) (lookup managed_by changes) kept),
      ),
    )
