-- ===== src/Spec/Interpolate.antt =====
-- The variables of a specification (orchestrator/spec/interpolate.go). A text is the list of its
-- bytes. `find` looks a name up, with where its value came from; the walk over the YAML nodes is
-- not modelled. The loop of expand runs on fuel, the number of bytes left.
pub mod Loop
pub mod Values
mod Tests
use micro_hosted.Prelude.{
  ℕ, zero, suc, Bool, true, false, not, ◌&&◌, ◌||◌, Option, none, some, List, [], ◌∷◌, ◌++◌, leb,
  ltb, ◌==◌, if◌then◌else◌, length, Result, ok, err,
}

abbrev pub Bytes : Type 0
Bytes = List ℕ

pub data Source : Type 0 where
  from_environment from_env_file from_default : Source

pub data Error : Type 0 where
  unclosed : Bytes → Error
  not_a_name : Bytes → Error
  required : Bytes → Bytes → Error
  unset : Bytes → Error

abbrev pub Lookup : Type 0
Lookup = Bytes → Option (Bytes × Source)

-- The text that is written, and the names used with their sources, in order.
abbrev pub Expanded : Type 0
Expanded = Result Error (Bytes × List (Bytes × Source))

-- `EnvLookup`, from the process environment and the variables of the file.
abbrev or_file : Option Bytes → Option Bytes → Option (Bytes × Source)
or_file (some v) file = some (v, from_environment)
or_file none (some v) = some (v, from_env_file)
or_file none none = none

abbrev pub env_lookup : (Bytes → Option Bytes) → (Bytes → Option Bytes) → Lookup
env_lookup process file name = or_file (process name) (file name)

abbrev pub dollar : ℕ
dollar = 36

abbrev pub open_brace : ℕ
open_brace = 123

abbrev between : ℕ → ℕ → ℕ → Bool
between low high c = leb low c && leb c high

abbrev pub is_digit : ℕ → Bool
is_digit c = between 48 57 c

abbrev pub in_name : ℕ → Bool
in_name c = (c == 95) || (between 65 90 c || (between 97 122 c || is_digit c))

unfoldable pub all_in_name : Bytes → Bool
all_in_name [] = true
all_in_name (c ∷ cs) = in_name c && all_in_name cs

unfoldable pub valid_var_name : Bytes → Bool
valid_var_name [] = false
valid_var_name (c ∷ cs) = not (is_digit c) && all_in_name (c ∷ cs)

-- What stands before and after the first `${`.
abbrev pub before_too : ℕ → Option (Bytes × Bytes) → Option (Bytes × Bytes)
before_too c none = none
before_too c (some (before, after)) = some (c ∷ before, after)

unfoldable pub cut_open : Bytes → Option (Bytes × Bytes)
cut_open [] = none
cut_open (c ∷ []) = none
cut_open (c ∷ (d ∷ cs)) =
    let rest = cut_open (d ∷ cs) in
    if (c == dollar) && (d == open_brace) then some ([], cs) else before_too c rest

-- What stands before and after the first `}`.
unfoldable pub cut_close : Bytes → Option (Bytes × Bytes)
cut_close [] = none
cut_close (c ∷ cs) =
    let rest = cut_close cs in if c == 125 then some ([], cs) else before_too c rest

unfoldable pub ends_dollar : Bytes → Bool
ends_dollar [] = false
ends_dollar (c ∷ []) = c == dollar
ends_dollar (c ∷ (d ∷ cs)) = ends_dollar (d ∷ cs)

-- The operator of an expression: `-` or `?`, and whether a colon stands before it.
pub data Kind : Type 0 where
  plain default_to require : Kind

pub record Expr : Type 0 where
  pub name : Bytes
  pub colon : Bool
  pub kind : Kind
  pub arg : Bytes

abbrev pub kind_of : ℕ → Kind
kind_of c = if c == 45 then default_to else require

abbrev after_colon : Bytes → Bytes → Expr
after_colon name [] = record { name = name; colon = true; kind = plain; arg = [] }
after_colon name (c ∷ cs) =
    if (c == 45) || (c == 63)
    then record { name = name; colon = true; kind = kind_of c; arg = cs }
    else record { name = name; colon = true; kind = plain; arg = c ∷ cs }

abbrev with_op : Bytes → ℕ → Bytes → Expr
with_op name c cs =
    if c == 58
    then after_colon name cs
    else record { name = name; colon = false; kind = kind_of c; arg = cs }

abbrev pub is_op : ℕ → Bool
is_op c = (c == 58) || ((c == 45) || (c == 63))

-- `name` is what has been read, in order, before the first of `:-?`, which may not come first.
unfoldable pub scan_expr : Bytes → Bytes → Bytes → Expr
scan_expr whole name [] = record { name = whole; colon = false; kind = plain; arg = [] }
scan_expr whole name (c ∷ cs) =
    let further = scan_expr whole (name ++ (c ∷ [])) cs in
    if is_op c
    then (if length name == 0
        then record { name = whole; colon = false; kind = plain; arg = [] }
        else with_op name c cs)
    else further

unfoldable pub parse_expr : Bytes → Expr
parse_expr expr = scan_expr expr [] expr

abbrev is_empty : Bytes → Bool
is_empty [] = true
is_empty (c ∷ cs) = false

-- Nothing was found, or with a colon the empty text.
abbrev pub unusable : Bool → Option (Bytes × Source) → Option (Bytes × Source)
unusable colon none = none
unusable colon (some (v, src)) = if colon && is_empty v then none else some (v, src)

abbrev or_required : Bytes → Bytes
or_required [] = 114 ∷ 101 ∷ 113 ∷ 117 ∷ 105 ∷ 114 ∷ 101 ∷ 100 ∷ []
or_required (c ∷ cs) = c ∷ cs

abbrev pub missing : Kind → Bytes → Bytes → Expanded
missing plain name arg = err (unset name)
missing default_to name arg = ok (arg, (name, from_default) ∷ [])
missing require name arg = err (required name (or_required arg))

abbrev found : Expr → Option (Bytes × Source) → Expanded
found e none = missing e.kind e.name e.arg
found e (some (v, src)) = ok (v, (e.name, src) ∷ [])

-- The value of `${expr}`.
unfoldable pub value : Lookup → Bytes → Expanded
value find expr =
    let e = parse_expr expr in
    if not (valid_var_name e.name)
    then err (not_a_name expr)
    else found e (unusable e.colon (find e.name))

-- What is written before the rest.
abbrev pub written : Bytes → List (Bytes × Source) → Expanded → Expanded
written text used (err e) = err e
written text used (ok (rest, later_used)) = ok (text ++ rest, used ++ later_used)

abbrev pub with_value : Bytes → Expanded → Expanded → Expanded
with_value before (err e) more = err e
with_value before (ok (v, used)) more = written (before ++ v) used more

abbrev pub closed : Lookup → Bytes → Bytes → Option (Bytes × Bytes) → (Bytes → Expanded) → Expanded
closed find before after none more = err (unclosed (dollar ∷ open_brace ∷ after))
closed find before after (some (expr, rest)) more = with_value before (value find expr) (more rest)

-- A round of the loop, from the first `${`; `more` is the rounds after it.
abbrev pub opened : Lookup → Bytes → Option (Bytes × Bytes) → (Bytes → Expanded) → Expanded
opened find s none more = ok (s, [])
opened find s (some (before, after)) more =
    if ends_dollar before
    then written (before ++ (open_brace ∷ [])) [] (more after)
    else closed find before after (cut_close after) more

unfoldable pub expand_loop : Lookup → ℕ → Bytes → Expanded
expand_loop find zero s = ok (s, [])
expand_loop find (suc fuel) s = opened find s (cut_open s) (λ rest. expand_loop find fuel rest)

unfoldable pub expand : Lookup → Bytes → Expanded
expand find s = expand_loop find (length s) s
