-- ===== src/Rewrite.antt =====
-- lib/attributes/utils/code_gen.cpp, with the calls of lib/core/rewriter/rewriter_proxy.h that the
-- handlers of the backends make. What a handler does to the source is the list of its calls, in
-- their order; a place in the source is named by the node that it belongs to.
use occa_transpiler.Base.{
  ℕ, zero, suc, Bool, true, false, List, [], ◌∷◌, ◌++◌, if◌then◌else◌, is_nil, ℤ, pos, Option, none,
  some,
}
use occa_transpiler.Ast.{Bytes, Expr}
use occa_transpiler.Result.{Result, ok, err, undefined_behaviour}
use occa_transpiler.Text.Literal.{codes}
use occa_transpiler.Loop.{
  BinOp, le, lt, ge, gt, UnOp, pre_inc, post_inc, pre_dec, post_dec, Inc, unary, assign,
}

-- `clang::SourceLocation`. A `ForStmt`, an attribute or a declaration is its number; the two
-- braces are those of the body of a `ForStmt`.
pub data Location : Type 0 where
  for_loc l_paren_loc r_paren_loc begin_loc end_loc : ℕ → Location
  l_brac_loc r_brac_loc : ℕ → Location
  attr_begin attr_end : ℕ → Location
  decl_loc decl_begin decl_end init_begin : ℕ → Location
  with_offset : Location → ℤ → Location

-- The methods of `Rewriter` that change the text. `insert_text` is with `insertAfter` and
-- `indentNewLines`.
pub data Edit : Type 0 where
  remove_text : Location → Location → Edit
  replace_text : Location → Location → Bytes → Edit
  insert_text : Location → Bytes → Bool → Bool → Edit
  insert_text_after_token : Location → Bytes → Edit

abbrev pub insert_text_after : Location → Bytes → Edit
insert_text_after l s = insert_text l s true false

abbrev pub insert_text_before : Location → Bytes → Edit
insert_text_before l s = insert_text l s false false

-- `getAttrFullSourceRange(a)`
abbrev pub remove_attribute : ℕ → Edit
remove_attribute a = remove_text (attr_begin a) (attr_end a)

abbrev pub get_cond_comp_str : BinOp → Bytes
get_cond_comp_str le = codes "<="
get_cond_comp_str lt = codes "<"
get_cond_comp_str ge = codes ">="
get_cond_comp_str gt = codes ">"
get_cond_comp_str _ = codes "<error>"

abbrev pub get_unary_str : UnOp → Bytes → Bytes
get_unary_str pre_inc var = codes "++" ++ var
get_unary_str post_inc var = var ++ codes "++"
get_unary_str pre_dec var = codes "--" ++ var
get_unary_str post_dec var = var ++ codes "--"
get_unary_str _ var = codes "<error>"

-- `buildCloseScopes`; the counter, which is -1 after the loop, is read no more.
abbrev pub build_close_scopes : ℕ → Bytes
build_close_scopes zero = []
build_close_scopes (suc n) = codes "}\n" ++ build_close_scopes n

abbrev pub after_r_brace : ℕ → Bytes → List Edit
after_r_brace f s =
    if is_nil s then [] else insert_text_after (with_offset (end_loc f) (pos 1)) s ∷ []

-- The edits inside of `replaceAttributedLoop`; `compound` is whether the body is a `CompoundStmt`.
abbrev pub replace_inside : ℕ → Bool → Bytes → Bytes → List Edit
replace_inside f true suffix prefix =
    remove_text (for_loc f) (r_paren_loc f)
    ∷ insert_text (with_offset (l_brac_loc f) (pos 1)) (codes "\n" ++ prefix) true true
    ∷ insert_text (end_loc f) suffix true true
    ∷ []
replace_inside f false suffix prefix =
    replace_text (for_loc f) (r_paren_loc f) (codes "{\n" ++ prefix)
    ∷ insert_text_after_token (with_offset (end_loc f) (pos 1)) (suffix ++ codes "\n}")
    ∷ []

abbrev pub replace_outside : ℕ → Bytes → Bytes → List Edit
replace_outside f suffix prefix =
    replace_text (for_loc f) (r_paren_loc f) prefix ∷ insert_text (end_loc f) suffix true true ∷ []

-- `replaceAttributedLoop`, for the loop `f` and the attribute `a`.
abbrev pub replace_attributed_loop : (f a : ℕ) → Bool → Bytes → Bytes → Bytes → Bool → List Edit
replace_attributed_loop f a compound suffix after prefix inside =
    remove_attribute a
    ∷ ((if inside then replace_inside f compound suffix prefix else replace_outside f suffix prefix)
        ++ after_r_brace f after)

-- What the builders of code read of a loop through the rewriter: `getLatestSourceText` of its bounds
-- and of its step, where a null pointer is read as it stands.
module _ (latest : Expr → Bytes) where
  abbrev pub text_of : Option Expr → Result Bytes
  text_of none = err undefined_behaviour
  text_of (some e) = ok (latest e)

  abbrev pub step_text : Inc → Result Bytes
  step_text (unary op) = err undefined_behaviour
  step_text (assign op e) = ok (latest e)
