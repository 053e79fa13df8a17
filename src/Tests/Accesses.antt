-- ===== src/Tests/Accesses.antt =====
-- `x(i + 1, j)` and `x(k, l)` with `@dim(N, M) @dimOrder(1, 0)`, where `i + 1` is `k` and `j` is `l`.
use occa_transpiler.Base.{
  ℕ, zero, suc, ◌<◌, Bool, true, false, some, List, [], ◌∷◌, ◌≡◌, refl, arith, if◌then◌else◌,
}
use occa_transpiler.Ast.{Bytes}
use occa_transpiler.Result.{ok}
use occa_transpiler.ForStmt.{bytes_eq}
use occa_transpiler.Text.Literal.{codes}
use occa_transpiler.Dim.{SubExpr, get_dim_order}
use occa_transpiler.Dim.Bounds.{index_expr}
use occa_transpiler.Dim.Access.{Arguments, IsWritten, access-injective}

abbrev expression : Bytes → Bool → SubExpr
expression s is_var = record { source_text = s; latest_text = s; is_decl_ref = is_var }

abbrev dim_text : ℕ → Bytes
dim_text zero = codes "N"
dim_text (suc n) = codes "M"

abbrev arg_text : ℕ → Bytes
arg_text zero = codes "i + 1"
arg_text (suc n) = codes "j"

abbrev other_text : ℕ → Bytes
other_text zero = codes "k"
other_text (suc n) = codes "l"

abbrev values : Bytes → ℕ
values s =
    if bytes_eq s (codes "N")
    then 10
    else if bytes_eq s (codes "M")
    then 7
    else if bytes_eq s (codes "j")
    then 5
    else if bytes_eq s (codes "l")
    then 5
    else 3

below_two : (P : ℕ → Type 0) → P 0 → P 1 → (j : ℕ) → j < 2 → P j
below_two P a b zero h = a
below_two P a b (suc zero) h = b
below_two P a b (suc (suc j)) h = absurd (omega (arith, h))

abbrev dims : List Bytes
dims = codes "N" ∷ codes "M" ∷ []

abbrev args : List SubExpr
args = expression (codes "i + 1") false ∷ expression (codes "j") true ∷ []

abbrev others : List SubExpr
others = expression (codes "k") true ∷ expression (codes "l") true ∷ []

args-Arguments : Arguments dims dim_text args arg_text values
args-Arguments = record {
  count = refl;
  named = below_two _ (refl, refl, refl, refl) (refl, refl, refl, refl);
  read = below_two _ (refl, refl) (refl, refl);
  range = below_two _ (omega arith) (omega arith);
}

others-Arguments : Arguments dims dim_text others other_text values
others-Arguments = record {
  count = refl;
  named = below_two _ (refl, refl, refl, refl) (refl, refl, refl, refl);
  read = below_two _ (refl, refl) (refl, refl);
  range = below_two _ (omega arith) (omega arith);
}

abbrev order : List ℕ
order = 1 ∷ 0 ∷ []

access-injective_example :
    IsWritten dims
      (some (ok (some order)))
      (expression (codes "x") true)
      args
      (index_expr dim_text arg_text 1 (0 ∷ []))
    × IsWritten dims
        (some (ok (some order)))
        (expression (codes "x") true)
        others
        (index_expr dim_text other_text 1 (0 ∷ []))
    × (values (codes "i + 1") ≡ values (codes "k"))
unfolding get_dim_order
access-injective_example =
    access-injective (codes "N") (codes "M" ∷ []) dim_text (some (ok (some order))) 1 (0 ∷ [])
      (expression (codes "x") true) refl refl refl (expression (codes "i + 1") false)
      (expression (codes "k") true) (expression (codes "j") true ∷ [])
      (expression (codes "l") true ∷ []) arg_text other_text values values 0 (refl, (refl, tt))
      args-Arguments others-Arguments (λ j l. refl) refl (omega arith)
