-- ===== src/Text.antt =====
-- lib/util/string_utils.hpp and .cpp: `fmt`, which puts values in the place of `{}`. A value is what
-- `operator<<` writes of it.
pub mod Template
pub mod Literal
pub mod Plain
use occa_transpiler.Base.{
  ℕ, zero, suc, Bool, true, false, not, ◌&&◌, Option, none, some, List, [], ◌∷◌, ◌++◌, ◌==◌, ◌≡◌,
  refl, if◌then◌else◌, length,
}
use occa_transpiler.Ast.{Bytes}
use occa_transpiler.Result.{Result, ok, err, bad_formatting, not_enough_values, too_much_values}

abbrev pub open_bracket : ℕ
open_bracket = 123

abbrev pub close_bracket : ℕ
close_bracket = 125

abbrev pub starts_closed : Bytes → Bool
starts_closed [] = false
starts_closed (c ∷ s) = c == close_bracket

abbrev pub later : Result (Option ℕ) → Result (Option ℕ)
later (err e) = err e
later (ok none) = ok none
later (ok (some i)) = ok (some (suc i))

-- `getCurlyBracketIdx`; `none` is -1.
unfoldable pub get_curly_bracket_idx : Bytes → Result (Option ℕ)
get_curly_bracket_idx [] = ok none
get_curly_bracket_idx (c ∷ s) =
    let rest = later (get_curly_bracket_idx s) in
    if c == open_bracket
    then (if starts_closed s then ok (some 0) else err bad_formatting)
    else rest

-- `str.replace(i, n, value)`
abbrev pub drop : ℕ → Bytes → Bytes
drop zero s = s
drop (suc n) [] = []
drop (suc n) (c ∷ s) = drop n s

unfoldable pub replace_at : Bytes → ℕ → ℕ → Bytes → Bytes
replace_at s zero n value = value ++ drop n s
replace_at [] (suc i) n value = value
replace_at (c ∷ s) (suc i) n value = c ∷ replace_at s i n value

-- `insertFmtValue`
abbrev pub insert_fmt_value : Bytes → ℕ → Bytes → Bytes
insert_fmt_value s i value = replace_at s i 2 value

-- Both overloads of `fmt`: the base case, and the first of the values.
abbrev pub fmt_end : Bytes → Result (Option ℕ) → Result Bytes
fmt_end s (err e) = err e
fmt_end s (ok (some i)) = err not_enough_values
fmt_end s (ok none) = ok s

unfoldable pub fmt : Bytes → List Bytes → Result Bytes
unfolding get_curly_bracket_idx
fmt s [] = fmt_end s (get_curly_bracket_idx s)
fmt s (v ∷ vs) = elim (get_curly_bracket_idx s) [
  | err e ↦ err e
  | ok o ↦ elim o [ none ↦ err too_much_values | some i ↦ fmt (insert_fmt_value s i v) vs ]
]
