-- ===== src/Atomic.antt =====
-- @atomic: lib/attributes/utils/cuda_subset/atomic.cpp, for CUDA and HIP, and
-- lib/attributes/backend/dpcpp/atomic.cpp. An expression is its text, its type and whether it is an lvalue;
-- the messages of the errors are left out.
pub mod Stores
use occa_transpiler.Base.{
  ℕ, Bool, true, false, not, List, [], ◌∷◌, ◌++◌, if◌then◌else◌, Option, none, some,
}
use occa_transpiler.Ast.{
  Bytes, UnaryOperatorKind, pre_inc, post_inc, pre_dec, post_dec, other_unary,
}
use occa_transpiler.Result.{
  Result, ok, err, ◌>>=◌, atomic_not_supported_op, atomic_non_lvalue_expr, unable_to_transform,
}
use occa_transpiler.Text.{fmt}
use occa_transpiler.Text.Literal.{codes}
use occa_transpiler.Rewrite.{Edit, replace_text, attr_begin, end_loc}

-- `BinaryOperatorKind`, as far as the handlers tell operators apart.
pub data AssignKind : Type 0 where
  assign add_assign sub_assign and_assign or_assign xor_assign other_kind : AssignKind

pub record Operand : Type 0 where
  pub text : Bytes
  pub is_lvalue : Bool

-- The statement; an operator comes with its spelling, and an expression with the name of its type.
mutual
  pub data AtomicStmt : Type 0 where
    binary_operator : AssignKind → Bytes → Bytes → Operand → Operand → AtomicStmt
    unary_operator : UnaryOperatorKind → Bytes → Bytes → Operand → AtomicStmt
    operator_call : Bool → Bytes → List Operand → AtomicStmt
    compound : AtomicStmts → AtomicStmt
    other_stmt : AtomicStmt

  pub data AtomicStmts : Type 0 where
    nil : AtomicStmts
    cons : AtomicStmt → AtomicStmts → AtomicStmts

-- `atomicBinaryMap` and `atomicUnaryMap`
abbrev pub atomic_binary : AssignKind → Option Bytes
atomic_binary assign = some (codes "atomicExch")
atomic_binary add_assign = some (codes "atomicAdd")
atomic_binary sub_assign = some (codes "atomicSub")
atomic_binary and_assign = some (codes "atomicAnd")
atomic_binary or_assign = some (codes "atomicOr")
atomic_binary xor_assign = some (codes "atomicXor")
atomic_binary other_kind = none

abbrev pub atomic_unary : UnaryOperatorKind → Option Bytes
atomic_unary pre_dec = some (codes "atomicDec")
atomic_unary post_dec = some (codes "atomicDec")
atomic_unary pre_inc = some (codes "atomicInc")
atomic_unary post_inc = some (codes "atomicInc")
atomic_unary (other_unary n) = none

abbrev pub atomic_call : Bytes → Bytes → Bytes → Bytes
atomic_call name target value =
    name ++ (codes "(&(" ++ (target ++ (codes "), " ++ (value ++ codes ")"))))

-- `handleBinOp`, `handleUnOp` and `handleCXXCopyOp`: the text that replaces the statement.
abbrev pub handle_bin_op : AssignKind → Operand → Operand → Result Bytes
handle_bin_op k left right = elim (atomic_binary k) [
  | none ↦ err atomic_not_supported_op
  | some name ↦
      if not left.is_lvalue
      then err atomic_non_lvalue_expr
      else ok (atomic_call name left.text right.text)
]

abbrev pub handle_un_op : UnaryOperatorKind → Operand → Result Bytes
handle_un_op k e = elim (atomic_unary k) [
  | none ↦ err atomic_not_supported_op
  | some name ↦ ok (atomic_call name e.text (codes "1"))
]

abbrev pub handle_cxx_copy_op : Bool → List Operand → Result Bytes
handle_cxx_copy_op true (left ∷ right ∷ []) =
    if not left.is_lvalue
    then err atomic_non_lvalue_expr
    else ok (atomic_call (codes "atomicExch") left.text right.text)
handle_cxx_copy_op _ _ = err atomic_not_supported_op

abbrev pub atomic_text : AtomicStmt → Result Bytes
atomic_text (binary_operator k spelling type left right) = handle_bin_op k left right
atomic_text (unary_operator k spelling type e) = handle_un_op k e
atomic_text (operator_call is_equal type operands) = handle_cxx_copy_op is_equal operands
atomic_text _ = err atomic_not_supported_op

-- `handleAtomicAttribute`, for the attribute and the statement of these numbers.
abbrev pub replaced : ℕ → ℕ → Result Bytes → Result Edit
replaced attr stmt text = text >>= λ s. ok (replace_text (attr_begin attr) (end_loc stmt) s)

unfoldable pub handle_atomic_attribute : ℕ → ℕ → AtomicStmt → Result Edit
handle_atomic_attribute attr stmt s = replaced attr stmt (atomic_text s)

abbrev pub atomic_ref : Bytes
atomic_ref =
    codes "sycl::atomic_ref<{},sycl::memory_order::relaxed,sycl::memory_scope::device,sycl::"
    ++ codes "access::address_space::global_space>({})"

-- `buildBinOp`, `buildUnOp` and `buildCXXCopyOp` for DPC++
abbrev pub build_bin_op : Bytes → Bytes → Operand → Operand → Result Bytes
build_bin_op spelling type left right =
    fmt (atomic_ref ++ codes " {} {}") (type ∷ left.text ∷ spelling ∷ right.text ∷ [])

abbrev pub build_un_op : Bytes → Bytes → Operand → Result Bytes
build_un_op spelling type e = fmt (atomic_ref ++ codes "{}") (type ∷ e.text ∷ spelling ∷ [])

abbrev pub build_cxx_copy_op : Bool → Bytes → List Operand → Result Bytes
build_cxx_copy_op true type (left ∷ right ∷ []) =
    if not left.is_lvalue
    then err atomic_non_lvalue_expr
    else fmt (atomic_ref ++ codes " = {}") (type ∷ left.text ∷ right.text ∷ [])
build_cxx_copy_op _ type _ = err atomic_not_supported_op

-- `buildNewExpression` and the loop of `buildCompoundStmt`
unfoldable mutual
  pub build_new_expression : AtomicStmt → Result Bytes
  build_new_expression (binary_operator k spelling type left right) =
      build_bin_op spelling type left right
  build_new_expression (unary_operator k spelling type e) = build_un_op spelling type e
  build_new_expression (operator_call is_equal type operands) =
      build_cxx_copy_op is_equal type operands
  build_new_expression (compound body) =
      build_compound_stmt body >>= λ s. ok (codes "{" ++ (s ++ codes "}"))
  build_new_expression other_stmt = err unable_to_transform

  pub build_compound_stmt : AtomicStmts → Result Bytes
  build_compound_stmt nil = ok []
  build_compound_stmt (cons s more) = do
    first ← build_new_expression s
    others ← build_compound_stmt more
    ok (first ++ (codes ";\n" ++ others))

unfoldable pub dpcpp_handle_atomic_attribute : ℕ → ℕ → AtomicStmt → Result Edit
unfolding build_new_expression
dpcpp_handle_atomic_attribute attr stmt s = replaced attr stmt (build_new_expression s)
