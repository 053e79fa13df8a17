-- ===== src/Dim/Handle.antt =====
-- An access to a `@dim` variable, from the statement to the text that replaces it.
use occa_transpiler.Base.{
  ℕ, Bool, true, false, Option, some, List, [], ◌∷◌, ◌++◌, ◌≡◌, refl, ap, ◌∙◌, sym, arith, All,
  length, ◌==◌, ==_iff,
}
use occa_transpiler.Ast.{Bytes}
use occa_transpiler.Result.{
  Result, ok, >>=-eq-ok, guard, wrong_number_of_arguments, dimensions_out_of_range,
}
use occa_transpiler.Text.{fmt}
use occa_transpiler.Text.Template.{clean, clean-append, fmt-template}
use occa_transpiler.Dim.{
  SubExpr, call, get_dim_order, chosen_order, all_below, check_count, validate_dim, latest_texts,
  access_format, replace_access, handle_dim_stmt_attribute, build_index_calculation, close_paren,
}
use occa_transpiler.Dim.Print.{nested, Named, plus_text, times_text, build-nested}

check_count_fits :
    (n : ℕ) (var : SubExpr) (args : List SubExpr)
    → length args ≡ n
    → check_count n (var ∷ args) ≡ ok (var ∷ args)
check_count_fits n var args h = ground arith

guarded : (b : Bool) (e : _) {u : Unit {0}} → guard b e ≡ ok u → b ≡ true
guarded true e h = refl
guarded false e h = cc

pub get_dim_order-bounds :
    (n : ℕ) (attr : Option (Result (Option (List ℕ)))) (order : List ℕ)
    → get_dim_order n attr ≡ ok order
    → (length order ≡ n) × (all_below n order ≡ true)
unfolding get_dim_order
get_dim_order-bounds n attr order h =
    let (chosen, c, h1) = >>=-eq-ok (chosen_order n attr) _ h in
    let (u, g, h2) = >>=-eq-ok (guard (length chosen == n) wrong_number_of_arguments) _ h1 in
    let (v, b, h3) = >>=-eq-ok (guard (all_below n chosen) dimensions_out_of_range) _ h2 in
    let same : chosen ≡ order = cc h3 in
    (
      sym (ap length same) ∙ (==_iff (length chosen) n).0 (guarded (length chosen == n) _ g),
      sym (ap (all_below n) same) ∙ guarded (all_below n chosen) _ b,
    )

clean-nested :
    (args dims : List Bytes) (arg dim : ℕ → Bytes) (o : ℕ) (ps : List ℕ)
    → All (Named args dims arg dim) (o ∷ ps)
    → clean (nested dim arg o ps) ≡ true
clean-nested args dims arg dim o [] h = h.0.2
clean-nested args dims arg dim o (p ∷ ps) h =
    let closing : Bytes = close_paren ∷ close_paren ∷ [] in
    let inside = nested dim arg p ps ++ closing in
    let inside-clean : clean inside ≡ true =
      clean-append (nested dim arg p ps) closing (clean-nested args dims arg dim p ps h.1) refl in
    let times-clean : clean (dim o ++ (times_text ++ inside)) ≡ true =
      clean-append (dim o) (times_text ++ inside) h.0.3 inside-clean in
    clean-append (arg o) (plus_text ++ (dim o ++ (times_text ++ inside))) h.0.2 times-clean

-- "x[index]"
abbrev pub access_text : Bytes → Bytes → Bytes
access_text name index = name ++ (91 ∷ (index ++ (93 ∷ [])))

-- For a call of a `@dim` variable with as many arguments as dimensions, an order that `get_dim_order`
-- accepts, and no `{` in the texts: the statement is replaced by the name with the nested index of
-- the arguments in that order between square brackets.
pub handle-nested :
    (first : Bytes) (more : List Bytes) (attr : Option (Result (Option (List ℕ)))) (var a : SubExpr)
    (args : List SubExpr) (arg dim : ℕ → Bytes) (o : ℕ) (ps : List ℕ)
    → var.is_decl_ref ≡ true
    → length (a ∷ args) ≡ length (first ∷ more)
    → get_dim_order (length (first ∷ more)) attr ≡ ok (o ∷ ps)
    → All (Named (latest_texts (a ∷ args)) (first ∷ more) arg dim) (o ∷ ps)
    → clean var.source_text ≡ true
    → handle_dim_stmt_attribute (first ∷ more) attr (call var (a ∷ args))
      ≡ ok (some (access_text var.source_text (nested dim arg o ps)))
unfolding handle_dim_stmt_attribute validate_dim replace_access
handle-nested first more attr var a args arg dim o ps r n g h c =
    let texts = latest_texts (a ∷ args) in
    let dims = first ∷ more in
    let m : length ps ≡ length more =
      omega (arith, (get_dim_order-bounds (length dims) attr (o ∷ ps) g).0) in
    let index = nested dim arg o ps in
    let built : build_index_calculation texts dims (o ∷ ps) ≡ ok index =
      build-nested texts first more arg dim o ps h m in
    let put : fmt access_format (var.source_text ∷ index ∷ [])
        ≡ ok (access_text var.source_text index) =
      fmt-template [] ((var.source_text, 91 ∷ []) ∷ (index, 93 ∷ []) ∷ []) refl
        ((c, refl), ((clean-nested texts dims arg dim o ps h, refl), tt)) in
    rw
      (
        handle_dim_stmt_attribute,
        validate_dim,
        check_count_fits (length dims) var (a ∷ args) n,
        replace_access,
        r,
        g,
        built,
        put,
      )
      refl
