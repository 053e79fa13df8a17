-- ===== src/Dim.antt =====
-- lib/attributes/backend/common/dim.cpp: an access `x(i, j, …)` to a variable with `@dim` becomes
-- `x[…]`, with one index computed from all the arguments. An expression is what the code reads of
-- it: its text in the source, its text after the rewrites so far, and whether it is a
-- `DeclRefExpr`.
pub mod Print
pub mod Bounds
pub mod Handle
pub mod Access
pub mod Order
use occa_transpiler.Base.{
  ℕ, zero, suc, ◌+◌, ◌-◌, ◌*◌, Bool, true, false, not, ◌&&◌, Option, none, some, List, [], ◌∷◌,
  ◌++◌, ◌==◌, if◌then◌else◌, length, get_elem?, ltb, leb,
}
use occa_transpiler.Ast.{Bytes}
use occa_transpiler.Result.{
  Result, ok, err, ◌>>=◌, ◌>>◌, guard, undefined_behaviour, wrong_number_of_arguments,
  dimensions_out_of_range, cast_failed, missing_dimensions, too_many_dimensions, not_a_declaration,
}
use occa_transpiler.Text.{fmt}

pub record SubExpr : Type 0 where
  pub source_text : Bytes
  pub latest_text : Bytes
  pub is_decl_ref : Bool

-- `RecoveryExpr` with its sub-expressions, `CallExpr` with the callee and the arguments, or another.
pub data DimStmt : Type 0 where
  recovery : List SubExpr → DimStmt
  call : SubExpr → List SubExpr → DimStmt
  other_stmt : DimStmt

-- `std::iota`
abbrev pub iota : ℕ → ℕ → List ℕ
iota i zero = []
iota i (suc n) = i ∷ iota (suc i) n

abbrev pub all_below : ℕ → List ℕ → Bool
all_below n [] = true
all_below n (i ∷ is') = ltb i n && all_below n is'

-- `getDimOrder`: with no `@dimOrder` on the type, or with one, what its parser returns, `none` for
-- parameters of another kind.
abbrev pub chosen_order : ℕ → Option (Result (Option (List ℕ))) → Result (List ℕ)
chosen_order n none = ok (iota 0 n)
chosen_order n (some (err e)) = err e
chosen_order n (some (ok none)) = err cast_failed
chosen_order n (some (ok (some idx))) = ok idx

unfoldable pub get_dim_order : ℕ → Option (Result (Option (List ℕ))) → Result (List ℕ)
get_dim_order n attr = do
  order ← chosen_order n attr
  guard (length order == n) wrong_number_of_arguments
  guard (all_below n order) dimensions_out_of_range
  ok order

-- The end of both `validateDim`.
abbrev pub check_count : ℕ → List SubExpr → Result (List SubExpr)
check_count n expressions =
    let n_args = length expressions - 1 in
    if ltb n_args n
    then err missing_dimensions
    else if ltb n n_args
    then err too_many_dimensions
    else ok expressions

unfoldable pub validate_dim : ℕ → DimStmt → Result (List SubExpr)
validate_dim n (recovery sub) =
    if leb (length sub) 1 then err missing_dimensions else check_count n sub
validate_dim n (call callee []) = err missing_dimensions
validate_dim n (call callee (a ∷ args)) = check_count n (callee ∷ a ∷ args)
validate_dim n other_stmt = err undefined_behaviour

-- The format "{} + ({} * (" and the closing brackets.
abbrev pub open_format : Bytes
open_format = 123 ∷ 125 ∷ 32 ∷ 43 ∷ 32 ∷ 40 ∷ 123 ∷ 125 ∷ 32 ∷ 42 ∷ 32 ∷ 40 ∷ []

abbrev pub close_paren : ℕ
close_paren = 41

abbrev pub repeat : ℕ → Bytes
repeat zero = []
repeat (suc n) = close_paren ∷ repeat n

-- `vector[i]`, undefined out of range.
abbrev pub item : {A : Type 0} → List A → ℕ → Result A
item xs i = elim (get_elem? xs i) [ none ↦ err undefined_behaviour | some x ↦ ok x ]

-- The first loop of `buildIndexCalculation`, over `n` entries of the order, and the text of the last
-- argument after it.
unfoldable pub open_text : List Bytes → List Bytes → ℕ → List ℕ → Result Bytes
open_text args dims n [] = err undefined_behaviour
open_text args dims zero (idx ∷ more) = item args idx
open_text args dims (suc n) (idx ∷ more) = do
  a ← item args idx
  d ← item dims idx
  s ← fmt open_format (a ∷ d ∷ [])
  rest ← open_text args dims n more
  ok (s ++ rest)

-- `buildIndexCalculation`; with no dimension at all it reads `dimOrder[-1]`.
unfoldable pub build_index_calculation : List Bytes → List Bytes → List ℕ → Result Bytes
unfolding open_text
build_index_calculation args [] order = err undefined_behaviour
build_index_calculation args (d ∷ ds) order = do
  s ← open_text args (d ∷ ds) (length ds) order
  ok (s ++ repeat (2 * length ds))

abbrev pub latest_texts : List SubExpr → List Bytes
latest_texts [] = []
latest_texts (e ∷ es) = e.latest_text ∷ latest_texts es

-- "{}[{}]"
abbrev pub access_format : Bytes
access_format = 123 ∷ 125 ∷ 91 ∷ 123 ∷ 125 ∷ 93 ∷ []

abbrev pub is_access : DimStmt → Bool
is_access other_stmt = false
is_access (recovery sub) = true
is_access (call callee args) = true

-- `handleDimStmtAttribute`: the text that replaces the statement, if any. `attr` is the
-- `@dimOrder` on the type of the variable.
unfoldable pub replace_access :
    List Bytes → Option (Result (Option (List ℕ))) → List SubExpr → Result (Option Bytes)
unfolding get_dim_order build_index_calculation
replace_access dims attr [] = err undefined_behaviour
replace_access dims attr (var ∷ args) = do
  guard var.is_decl_ref not_a_declaration
  order ← get_dim_order (length dims) attr
  index ← build_index_calculation (latest_texts args) dims order
  s ← fmt access_format (var.source_text ∷ index ∷ [])
  ok (some s)

unfoldable pub handle_dim_stmt_attribute :
    List Bytes → Option (Result (Option (List ℕ))) → DimStmt → Result (Option Bytes)
unfolding validate_dim replace_access
handle_dim_stmt_attribute dims attr stmt =
    if not (is_access stmt)
    then ok none
    else (validate_dim (length dims) stmt >>= λ es. replace_access dims attr es)
