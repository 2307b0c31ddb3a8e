-- ===== src/Labels.antt =====
-- The labels of machines and networks: internal/labels/labels.go. A key or value is a text; its
-- length is counted in characters, which is Go's count of bytes for every text that the patterns
-- accept. The only error is ErrInvalid.
pub mod Patched
pub mod Selected
mod Tests
use Prim.Native.Char.{code}
use micro_hosted.Prelude.{
  ℕ, Bool, true, false, not, ◌&&◌, ◌||◌, Option, none, some, List, [], ◌∷◌, ◌++◌, String, str_eq,
  ◌==◌, ltb, leb, if◌then◌else◌, Result, ok, err, Dict, lookup, insert, erase, length, codes,
}

pub data Error : Type 0 where
  invalid : Error

abbrev pub Labels : Type 0
Labels = Dict String

abbrev pub managed_by : String
managed_by = "managed-by"

abbrev pub max_labels : ℕ
max_labels = 32

-- maxLabelKey, maxLabelValue and maxNameLength.
abbrev pub max_length : ℕ
max_length = 63

abbrev between : ℕ → ℕ → ℕ → Bool
between low high c = leb low c && leb c high

abbrev lower : ℕ → Bool
lower c = between 97 122 c || between 48 57 c

abbrev alphanumeric : ℕ → Bool
alphanumeric c = lower c || between 65 90 c

-- The characters inside a name, a key and a value, besides those of its ends.
abbrev in_name : ℕ → Bool
in_name c = lower c || (c == 45)

abbrev in_key : ℕ → Bool
in_key c = lower c || ((c == 46) || ((c == 95) || ((c == 47) || (c == 45))))

abbrev in_value : ℕ → Bool
in_value c = alphanumeric c || ((c == 46) || ((c == 95) || (c == 45)))

-- `edge(inner*edge)?`: the rest after the first character, then the whole.
unfoldable pub ends : (ℕ → Bool) → (ℕ → Bool) → List ℕ → Bool
ends edge inner [] = true
ends edge inner (c ∷ []) = edge c
ends edge inner (c ∷ (d ∷ cs)) = inner c && ends edge inner (d ∷ cs)

unfoldable pub fits_pattern : (ℕ → Bool) → (ℕ → Bool) → List ℕ → Bool
unfolding ends
fits_pattern edge inner [] = false
fits_pattern edge inner (c ∷ cs) = edge c && ends edge inner cs

abbrev pub is_short : String → Bool
is_short s = leb (length (codes s)) max_length

unfoldable pub validate_name : String → Bool
unfolding fits_pattern
validate_name name = is_short name && fits_pattern lower in_name (codes name)

unfoldable pub validate_key : String → Bool
unfolding fits_pattern
validate_key k = is_short k && fits_pattern lower in_key (codes k)

-- A value may be empty.
unfoldable pub validate_value : String → Bool
unfolding fits_pattern
validate_value v = is_short v && (str_eq v "" || fits_pattern alphanumeric in_value (codes v))

-- The loop of `Validate`, and the whole.
unfoldable pub validate_each : Labels → Bool
validate_each [] = true
validate_each ((k, v) ∷ rest) = validate_key k && (validate_value v && validate_each rest)

unfoldable pub validate : Labels → Bool
validate labels = leb (length labels) max_labels && validate_each labels

-- A patch: a key with a value sets it, a key with none (nil) removes it.
abbrev pub PatchMap : Type 0
PatchMap = Dict (Option String)

unfoldable pub validate_patch : PatchMap → Bool
unfolding validate
validate_patch [] = true
validate_patch ((k, none) ∷ rest) = validate_key k && validate_patch rest
validate_patch ((k, some v) ∷ rest) =
    validate_key k && (validate ((k, v) ∷ []) && validate_patch rest)

-- Whether a patch would set the owner label to something else, or remove it.
abbrev pub owner_change : Option String → Option (Option String) → Bool
owner_change cur none = false
owner_change none (some none) = false
owner_change (some cur) (some none) = true
owner_change none (some (some v)) = true
owner_change (some cur) (some (some v)) = not (str_eq cur v)

unfoldable pub merge : PatchMap → Labels → Labels
merge [] next = next
merge ((k, none) ∷ rest) next = merge rest (erase k next)
merge ((k, some v) ∷ rest) next = merge rest (insert k v next)

unfoldable pub patch : Labels → PatchMap → Result Error Labels
patch prev changes =
    if not (validate_patch changes)
    then err invalid
    else if owner_change (lookup managed_by prev) (lookup managed_by changes)
    then err invalid
    else if not (validate (merge changes prev))
    then err invalid
    else ok (merge changes prev)

-- `strings.Cut` at a character: what stands before and after its first occurrence.
unfoldable pub cut : ℕ → String → Option (String × String)
cut sep String.[] = none
cut sep (String.◌∷◌ c s) =
    let rest = cut sep s in
    if code c == sep
    then some (String.[], s)
    else elim rest [ none ↦ none | some (before, after) ↦ some (String.◌∷◌ c before, after) ]

-- `strings.Split` at a character.
unfoldable pub split : ℕ → String → List String
split sep String.[] = String.[] ∷ []
split sep (String.◌∷◌ c s) =
    let rest = split sep s in
    if code c == sep
    then String.[] ∷ rest
    else elim rest [ [] ↦ String.◌∷◌ c String.[] ∷ [] | p ∷ ps ↦ String.◌∷◌ c p ∷ ps ]

-- One term of a selector, added to what is read.
abbrev pub conflicts : String → Option String → Bool
conflicts v none = false
conflicts v (some prev) = not (str_eq prev v)

abbrev pub add_pair : Labels → Option (String × String) → Result Error Labels
add_pair sel none = err invalid
add_pair sel (some (k, v)) =
    if not (validate ((k, v) ∷ []))
    then err invalid
    else if conflicts v (lookup k sel)
    then err invalid
    else ok (insert k v sel)

unfoldable pub add_term : String → Labels → Result Error Labels
unfolding cut
add_term term sel = if str_eq term "" then ok sel else add_pair sel (cut 61 term)

unfoldable pub add_terms : List String → Labels → Result Error Labels
add_terms [] sel = ok sel
add_terms (t ∷ ts) sel = elim (add_term t sel) [ err e ↦ err e | ok next ↦ add_terms ts next ]

unfoldable pub all_terms : List String → List String
unfolding split
all_terms [] = []
all_terms (t ∷ ts) = split 44 t ++ all_terms ts

unfoldable pub parse_selector : List String → Result Error Labels
parse_selector ts = add_terms (all_terms ts) []

abbrev pub has : Option String → String → Bool
has none v = false
has (some got) v = str_eq got v

unfoldable pub matches : Labels → Labels → Bool
matches [] labels = true
matches ((k, v) ∷ rest) labels = has (lookup k labels) v && matches rest labels
