-- ===== src/Tests/Data.antt =====
-- The loops and services that the tests share.
use occa_transpiler.Base.{ℕ, Bool, true, false, Option, none, some, List, [], ◌∷◌, ℤ, pos}
use occa_transpiler.Ast.{Bytes, BinaryOperatorKind, Expr, other_expr, Clang}
use occa_transpiler.Result.{Result, ok}
use occa_transpiler.Params.{AttrParams, other_params}
use occa_transpiler.Loop.{
  LoopType, regular, inner, outer, Axis, auto, x, y, BinOp, UnOp, unary, LoopInfo, Loop, node, nil,
  cons, AttributedTypeInfo,
}

abbrev pub unused : AttributedTypeInfo
unused = record { declared = false; used = false; nobarrier_applied = false }

abbrev pub info_of : ℕ → List LoopType → List Axis → ℕ → LoopInfo
info_of stmt types axes size = record {
  attr = none;
  stmt = stmt;
  type = types;
  axis = axes;
  tile_size = 49 ∷ 54 ∷ [];
  shared_info = unused;
  exclusive_info = unused;
  overriden_inner_sizes = none;
  simd_length = none;
  var_type_name = 105 ∷ 110 ∷ 116 ∷ [];
  var_name = 105 ∷ [];
  range_start = none;
  range_end = none;
  range_size = size;
  condition_op = BinOp.lt;
  inc = unary UnOp.post_inc;
}

abbrev pub leaf : ℕ → Axis → ℕ → Loop
leaf stmt a size = node (info_of stmt (inner ∷ []) (a ∷ []) size) nil

-- `@outer` around a plain loop around `@inner`, with automatic axes.
abbrev pub kernel : Loop
kernel =
    node (info_of 1 (outer ∷ []) (auto ∷ []) 4)
      (cons (node (info_of 2 (regular ∷ []) (auto ∷ []) 3) (cons (leaf 3 auto 8) nil)) nil)

-- `@outer` around `@outer` around `@inner`.
abbrev pub second_outer : Loop
second_outer = node (info_of 2 (outer ∷ []) (auto ∷ []) 3) (cons (leaf 3 auto 8) nil)

abbrev pub two_outers : Loop
two_outers = node (info_of 1 (outer ∷ []) (auto ∷ []) 4) (cons second_outer nil)

-- A tiled loop around `@inner`, with the axes resolved.
abbrev pub resolved : Loop
resolved = node (info_of 1 (outer ∷ inner ∷ []) (x ∷ y ∷ []) 64) (cons (leaf 3 x 8) nil)

-- `strtoll` reads 16 to the end of the text.
abbrev pub reads_16 : Bytes → ℕ × Bool
reads_16 s = (16, false)

abbrev is_comparison : BinaryOperatorKind → Bool
is_comparison BinaryOperatorKind.lt = true
is_comparison BinaryOperatorKind.le = true
is_comparison BinaryOperatorKind.gt = true
is_comparison BinaryOperatorKind.ge = true
is_comparison _ = false

abbrev reverse : BinaryOperatorKind → BinaryOperatorKind
reverse BinaryOperatorKind.lt = BinaryOperatorKind.gt
reverse BinaryOperatorKind.gt = BinaryOperatorKind.lt
reverse BinaryOperatorKind.le = BinaryOperatorKind.ge
reverse BinaryOperatorKind.ge = BinaryOperatorKind.le
reverse k = k

-- An expression that is its own value.
abbrev value_of : Expr → Option ℤ
value_of (other_expr n) = some (pos n)
value_of _ = none

abbrev pub clang : Clang
clang = record {
  bits_in_size_t = 64;
  evaluate_as_int = value_of;
  is_comparison_op = is_comparison;
  reverse_comparison_op = reverse;
}

abbrev pub no_params : ℕ → Result AttrParams
no_params n = ok other_params
