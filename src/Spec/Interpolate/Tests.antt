-- ===== src/Spec/Interpolate/Tests.antt =====
-- Texts with one variable, X, whose value looks like a variable itself.
use micro_hosted.Prelude.{
  ◌≡◌, refl, none, some, [], ◌∷◌, ◌++◌, Bool, false, ◌&&◌, ◌==◌, if◌then◌else◌, ok, err, length,
}
use micro_hosted.Spec.Interpolate.{
  Bytes, Lookup, from_environment, from_default, required, dollar, open_brace, cut_open, cut_close,
  ends_dollar, value, with_value, parse_expr, scan_expr, valid_var_name, all_in_name, expand,
  expand_loop,
}
use micro_hosted.Spec.Interpolate.Values.{escape, expand-escape, expand-value}

abbrev is_x : Bytes → Bool
is_x [] = false
is_x (c ∷ cs) = (c == 88) && (length cs == 0)

-- X is `${Y}`.
abbrev find : Lookup
find name = if is_x name then some (dollar ∷ open_brace ∷ 89 ∷ 125 ∷ [], from_environment) else none

x_value :
    value find (88 ∷ [])
    ≡ ok (dollar ∷ open_brace ∷ 89 ∷ 125 ∷ [], (88 ∷ [], from_environment) ∷ [])
unfolding value parse_expr scan_expr valid_var_name all_in_name
x_value = refl

-- `Y:-d` and `Y:?`.
y_default : value find (89 ∷ 58 ∷ 45 ∷ 100 ∷ []) ≡ ok (100 ∷ [], (89 ∷ [], from_default) ∷ [])
unfolding value parse_expr scan_expr valid_var_name all_in_name
y_default = refl

y_required :
    value find (89 ∷ 58 ∷ 63 ∷ [])
    ≡ err (required (89 ∷ []) (114 ∷ 101 ∷ 113 ∷ 117 ∷ 105 ∷ 114 ∷ 101 ∷ 100 ∷ []))
unfolding value parse_expr scan_expr valid_var_name all_in_name
y_required = refl

-- `a${X}b`.
abbrev text : Bytes
text = (97 ∷ []) ++ (dollar ∷ open_brace ∷ ((88 ∷ []) ++ (125 ∷ (98 ∷ []))))

text_expanded :
    expand find text
    ≡ ok (97 ∷ dollar ∷ open_brace ∷ 89 ∷ 125 ∷ 98 ∷ [], (88 ∷ [], from_environment) ∷ [])
unfolding expand expand_loop cut_open cut_close ends_dollar value parse_expr scan_expr
    valid_var_name all_in_name
text_expanded = refl

expand-value_example :
    expand find text ≡ with_value (97 ∷ []) (value find (88 ∷ [])) (expand find (98 ∷ []))
unfolding cut_open cut_close ends_dollar
expand-value_example = expand-value find (97 ∷ []) (88 ∷ []) (98 ∷ []) refl refl refl

expand-escape_example : expand find (escape text) ≡ ok (text, [])
expand-escape_example = expand-escape find text
