-- ===== src/Tests/Words.antt =====
-- Tokens, formats and accesses to `@dim` variables.
use occa_transpiler.Base.{
  Bool, ℕ, zero, suc, ◌+◌, true, none, some, List, [], ◌∷◌, ◌++◌, ◌≡◌, refl, arith, is_some, length,
}
use occa_transpiler.Result.{ok}
use occa_transpiler.Traverser.{
  Token, TokenKind, at_sign, identifier, l_paren, r_paren, numeric_constant, other_token,
  OklAttribute, Visitor, visit_okl_attributes,
}
use occa_transpiler.Traverser.Step.{last_index}
use occa_transpiler.Traverser.Attribute.{spelled, visit_at}
use occa_transpiler.Traverser.Total.{visit-returns}
use occa_transpiler.Traverser.First.{left, visit-first}
use occa_transpiler.Traverser.Dangling.{visit-dangling}
use occa_transpiler.Text.{fmt, get_curly_bracket_idx, replace_at}
use occa_transpiler.Text.Template.{clean, fmt-template, fmt-clean}
use occa_transpiler.Attrs.{OklAttrParam, OklParsedAttr, parse_dim_order_attr_params, read_order}
use occa_transpiler.Attrs.Order.{Distinct, parse-Distinct}
use occa_transpiler.Dim.Handle.{access_text, handle-nested}
use occa_transpiler.Dim.{
  SubExpr, call, handle_dim_stmt_attribute, get_dim_order, build_index_calculation,
}
use occa_transpiler.Dim.Print.{nested, build-nested}

abbrev token : TokenKind → ℕ → Token
token k c = record { kind = k; spelling = c ∷ [] }

-- `; @ a ( 1 ) ;`
abbrev marker : Token
marker = token at_sign 64

abbrev name : Token
name = token identifier 97

abbrev open_paren : Token
open_paren = token l_paren 40

abbrev semicolon : Token
semicolon = token other_token 59

abbrev body : List Token
body = token numeric_constant 49 ∷ token r_paren 41 ∷ []

-- A visitor that collects what it is called with, and goes on.
abbrev collect : Visitor (List OklAttribute)
collect s a = (s ++ (a ∷ []), true)

abbrev source : List Token
source = semicolon ∷ marker ∷ name ∷ open_paren ∷ (body ++ (semicolon ∷ []))

visit-returns_example : is_some (visit_okl_attributes source collect []) ≡ true
visit-returns_example = visit-returns source collect []

visit-first_example :
    visit_okl_attributes source collect []
    ≡ visit_at source collect (left source 6) 5 (spelled 1 name open_paren body) []
unfolding last_index
visit-first_example =
    visit-first collect (semicolon ∷ []) body (semicolon ∷ []) marker name open_paren []
      ((λ e. cc), tt) refl refl refl refl (omega arith)

visit-dangling_example :
    visit_okl_attributes (semicolon ∷ marker ∷ name ∷ []) collect [] ≡ some ([], ok tt)
visit-dangling_example =
    visit-dangling collect (semicolon ∷ []) marker name [] ((λ e. cc), tt) refl refl

-- "a{}b{}" with "x" and "y".
abbrev holes : List (List ℕ × List ℕ)
holes = (120 ∷ [], 98 ∷ []) ∷ (121 ∷ [], []) ∷ []

fmt-template_example :
    fmt (97 ∷ 123 ∷ 125 ∷ 98 ∷ 123 ∷ 125 ∷ []) ((120 ∷ []) ∷ (121 ∷ []) ∷ [])
    ≡ ok (97 ∷ 120 ∷ 98 ∷ 121 ∷ [])
fmt-template_example = fmt-template (97 ∷ []) holes refl ((refl, refl), ((refl, refl), tt))

fmt-clean_example : clean (97 ∷ 120 ∷ []) ≡ true
unfolding fmt get_curly_bracket_idx replace_at
fmt-clean_example = fmt-clean (97 ∷ 123 ∷ 125 ∷ []) ((120 ∷ []) ∷ []) (97 ∷ 120 ∷ []) refl

abbrev index_arg : ℕ → OklAttrParam (Unit {0})
index_arg n = record {
  raw = [];
  get_int = none;
  get_size_t = some n;
  get_string = none;
  get_bool = none;
  get_attr = none;
}

-- `@dimOrder(1, 0)`
abbrev dim_order : OklParsedAttr (Unit {0})
dim_order = record { args = index_arg 1 ∷ index_arg 0 ∷ []; kwargs = [] }

abbrev swapped : List ℕ
swapped = 1 ∷ 0 ∷ []

parse-Distinct_example : Distinct swapped × (length swapped ≡ length dim_order.args)
unfolding parse_dim_order_attr_params read_order
parse-Distinct_example = parse-Distinct dim_order swapped refl

-- Two arguments, `i` and `j`, and two dimensions, `N` and `M`.
abbrev arg_text : ℕ → List ℕ
arg_text n = (105 + n) ∷ []

abbrev dim_text : ℕ → List ℕ
dim_text zero = 78 ∷ []
dim_text (suc n) = 77 ∷ []

build-nested_example :
    build_index_calculation ((105 ∷ []) ∷ (106 ∷ []) ∷ []) ((78 ∷ []) ∷ (77 ∷ []) ∷ []) (1 ∷ 0 ∷ [])
    ≡ ok (nested dim_text arg_text 1 (0 ∷ []))
build-nested_example =
    build-nested ((105 ∷ []) ∷ (106 ∷ []) ∷ []) (78 ∷ []) ((77 ∷ []) ∷ []) arg_text dim_text 1
      (0 ∷ []) ((refl, refl, refl, refl), ((refl, refl, refl, refl), tt)) refl

-- `x(i, j)` with `@dim(N, M) @dimOrder(1, 0)`.
abbrev written : ℕ → Bool → SubExpr
written c is_var = record { source_text = c ∷ []; latest_text = c ∷ []; is_decl_ref = is_var }

handle-nested_example :
    handle_dim_stmt_attribute
      ((78 ∷ []) ∷ (77 ∷ []) ∷ [])
      (some (ok (some swapped)))
      (call (written 120 true) (written 105 true ∷ written 106 true ∷ []))
    ≡ ok (some (access_text (120 ∷ []) (nested dim_text arg_text 1 (0 ∷ []))))
unfolding get_dim_order
handle-nested_example =
    handle-nested (78 ∷ []) ((77 ∷ []) ∷ []) (some (ok (some swapped))) (written 120 true)
      (written 105 true) (written 106 true ∷ []) arg_text dim_text 1 (0 ∷ []) refl refl refl
      ((refl, refl, refl, refl), ((refl, refl, refl, refl), tt)) refl
