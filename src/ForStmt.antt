-- ===== src/ForStmt.antt =====
-- lib/core/utils/for_stmt_parser.cpp: what the transpiler reads off a `for` statement. Clang's
-- services and the attribute manager are parameters. `start` and `end` are null or uninitialised
-- pointers where the source leaves them so, and reading one is `undefined_behaviour`.
pub mod Range
use occa_transpiler.Base.{
  ℕ, ◌+◌, ◌-◌, ◌%◌, ◌^◌, Bool, true, false, not, ◌&&◌, ◌||◌, Option, none, some, List, [], ◌∷◌, ltb,
  leb, ◌==◌, if◌then◌else◌, ℤ, pos, negsuc,
}
use occa_transpiler.Ast.{
  Bytes, BinaryOperatorKind, UnaryOperatorKind, other_binary, other_unary, Expr, cast_expr,
  decl_ref_expr, recovery_expr, other_expr, Init, several_decls, other_decl, var_decl, other_init,
  no_stmt, Cond, binary_operator, other_cond, null_cond, Increment, unary_operator, compound_assign,
  other_inc, null_inc, ForStmt, Clang,
}
use occa_transpiler.Result.{
  Result, ok, err, ◌>>=◌, undefined_behaviour, multi_declaration, no_init, not_comparison,
  cond_without_init_var, decl_not_inc,
}
use occa_transpiler.Loop.{
  BinOp, UnOp, Inc, unary, assign, add_assign, remove_assign, other_bin, other_un, LoopInfo, is_inc,
  regular, auto, is_inc_op, is_upper_bound, AttributedTypeInfo,
}
use occa_transpiler.Params.{AttrParams, tile_params}

-- `toOkl`, on binary and on unary operators.
unfoldable pub to_okl_binary : BinaryOperatorKind → BinOp
to_okl_binary BinaryOperatorKind.eq = BinOp.eq
to_okl_binary BinaryOperatorKind.le = BinOp.le
to_okl_binary BinaryOperatorKind.lt = BinOp.lt
to_okl_binary BinaryOperatorKind.gt = BinOp.gt
to_okl_binary BinaryOperatorKind.ge = BinOp.ge
to_okl_binary BinaryOperatorKind.add_assign = add_assign
to_okl_binary BinaryOperatorKind.rem_assign = remove_assign
to_okl_binary _ = other_bin

unfoldable pub to_okl_unary : UnaryOperatorKind → UnOp
to_okl_unary UnaryOperatorKind.pre_inc = UnOp.pre_inc
to_okl_unary UnaryOperatorKind.post_inc = UnOp.post_inc
to_okl_unary UnaryOperatorKind.pre_dec = UnOp.pre_dec
to_okl_unary UnaryOperatorKind.post_dec = UnOp.post_dec
to_okl_unary _ = other_un

abbrev pub bytes_eq : Bytes → Bytes → Bool
bytes_eq [] [] = true
bytes_eq (a ∷ s) (b ∷ t) = a == b && bytes_eq s t
bytes_eq _ _ = false

-- `while (auto rsh = dyn_cast_or_null<CastExpr>(start)) start = rsh->getSubExpr();`
abbrev pub strip_casts : Expr → Expr
strip_casts (cast_expr e) = strip_casts e
strip_casts (decl_ref_expr n) = decl_ref_expr n
strip_casts (recovery_expr n) = recovery_expr n
strip_casts (other_expr n) = other_expr n

abbrev pub is_ref : Bytes → Expr → Bool
is_ref name (decl_ref_expr n) = bytes_eq n name
is_ref name _ = false

-- A side of the condition is a cast, and below its casts it is the loop variable.
abbrev pub names_var : Bytes → Expr → Bool
names_var name (cast_expr e) = is_ref name (strip_casts e)
names_var name _ = false

abbrev pub is_recovery : Expr → Bool
is_recovery (recovery_expr n) = true
is_recovery _ = false

-- What the init statement gives.
pub record Start : Type 0 where
  pub name : Bytes
  pub type_name : Bytes
  pub start : Option Expr

pub parse_init : Init → Result Start
parse_init several_decls = err multi_declaration
parse_init other_decl = err no_init
parse_init (var_decl name type_name (some e)) =
    ok (record { name = name; type_name = type_name; start = some (strip_casts e) })
parse_init (var_decl name type_name none) = err undefined_behaviour
parse_init other_init = ok (record { name = []; type_name = []; start = none })
parse_init no_stmt = err undefined_behaviour

module _ (clang : Clang) (parse_attr : ℕ → Result AttrParams) where
  -- The end of the range and the comparison: the left side, then the right side, then a recovery
  -- expression on the right side.
  parse_comparison : Bytes → BinaryOperatorKind → Expr → Expr → Result (Option Expr × BinOp)
  parse_comparison name k lhs rhs =
      let straight = to_okl_binary k in
      let reversed = to_okl_binary (clang.reverse_comparison_op k) in
      if names_var name rhs
      then ok (some lhs, reversed)
      else if is_recovery rhs
      then ok (some rhs, reversed)
      else if names_var name lhs
      then ok (some rhs, straight)
      else err cond_without_init_var

  unfoldable pub parse_cond : Bytes → Cond → Result (Option Expr × BinOp)
  unfolding parse_comparison
  parse_cond name (binary_operator k lhs rhs) =
      if not (clang.is_comparison_op k) then err not_comparison else parse_comparison name k lhs rhs
  parse_cond name other_cond = ok (none, BinOp.eq)
  parse_cond name null_cond = err undefined_behaviour

  parse_compound : Bytes → BinaryOperatorKind → Expr → Expr → Result Inc
  parse_compound name k (decl_ref_expr n) rhs =
      if not (bytes_eq n name) then err decl_not_inc else ok (assign (to_okl_binary k) rhs)
  parse_compound name k _ rhs = ok (assign (to_okl_binary k) rhs)

  -- With another increment `inc` keeps its zeros: no value, and the first enumerator.
  unfoldable pub parse_inc : Bytes → Increment → Result Inc
  unfolding parse_compound
  parse_inc name (unary_operator k) = ok (unary (to_okl_unary k))
  parse_inc name (compound_assign k lhs rhs) = parse_compound name k lhs rhs
  parse_inc name other_inc = ok (unary UnOp.pre_inc)
  parse_inc name null_inc = err undefined_behaviour

  size_t_of : Option ℤ → Option ℕ
  size_t_of none = none
  size_t_of (some (negsuc n)) = none
  size_t_of (some (pos n)) = if ltb n (2 ^ clang.bits_in_size_t) then some n else none

  -- `EvaluateAsSizeT`
  unfoldable pub evaluate_as_size_t : Option Expr → Result (Option ℕ)
  unfolding size_t_of
  evaluate_as_size_t none = err undefined_behaviour
  evaluate_as_size_t (some e) = ok (size_t_of (clang.evaluate_as_int e))

  -- `end_i -= start_i` or `start_i -= end_i`, of the width of `size_t`.
  abbrev distance : Bool → ℕ → ℕ → ℕ
  distance true start_i end_i =
      (end_i + 2 ^ clang.bits_in_size_t - start_i) % 2 ^ clang.bits_in_size_t
  distance false start_i end_i =
      (start_i + 2 ^ clang.bits_in_size_t - end_i) % 2 ^ clang.bits_in_size_t

  end_size : Bool → ℕ → Option ℕ → ℕ
  end_size inc start_i none = 0
  end_size inc start_i (some end_i) = distance inc start_i end_i

  -- `EvaluateAsSizeT(start, …) && EvaluateAsSizeT(end, …)`; 0 is unknown.
  size_from : Bool → Option ℕ → Result (Option ℕ) → Result ℕ
  unfolding end_size
  size_from inc none end_value = ok 0
  size_from inc (some start_i) end_value = end_value >>= λ e. ok (end_size inc start_i e)

  unfoldable pub range_size_of : Bool → Option Expr → Option Expr → Result ℕ
  unfolding size_from
  range_size_of inc start end = do
    s ← evaluate_as_size_t start
    size_from inc s (evaluate_as_size_t end)

  unfoldable pub tile_size_of : Option ℕ → Bytes
  tile_size_of none = []
  tile_size_of (some a) = elim (parse_attr a) [
    | ok p ↦ elim p [ tile_params t ↦ t.tile_size | _ ↦ [] ]
    | err e ↦ []
  ]

  abbrev pub no_type_info : AttributedTypeInfo
  no_type_info = record { declared = false; used = false; nobarrier_applied = false }

  -- `parseForStmt`
  unfoldable pub parse_for_stmt : ForStmt → Option ℕ → Result LoopInfo
  unfolding parse_init
  parse_for_stmt s a = do
    init ← parse_init s.init
    cond ← parse_cond init.name s.cond
    inc ← parse_inc init.name s.inc
    size ← range_size_of (is_inc_op inc && is_upper_bound cond.1) init.start cond.0
    ok (record {
      attr = a;
      stmt = s.id;
      type = regular ∷ [];
      axis = auto ∷ [];
      tile_size = tile_size_of a;
      shared_info = no_type_info;
      exclusive_info = no_type_info;
      overriden_inner_sizes = none;
      simd_length = none;
      var_type_name = init.type_name;
      var_name = init.name;
      range_start = init.start;
      range_end = cond.0;
      range_size = size;
      condition_op = cond.1;
      inc = inc;
    })
