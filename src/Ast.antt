-- ===== src/Ast.antt =====
-- What the loop analysis reads of Clang's tree of a `for` statement. A pointer into the tree that
-- is only compared or stored (`ForStmt*`, `Attr*`) is a number, its address.
use occa_transpiler.Base.{ℕ, List, Bool, Option}
use occa_transpiler.Base.{ℤ}

-- The bytes of a `std::string`.
abbrev pub Bytes : Type 0
Bytes = List ℕ

-- Clang's `BinaryOperatorKind`, as far as the parser tells kinds apart.
pub data BinaryOperatorKind : Type 0 where
  eq ne le lt gt ge : BinaryOperatorKind
  add_assign sub_assign rem_assign : BinaryOperatorKind
  other_binary : ℕ → BinaryOperatorKind

pub data UnaryOperatorKind : Type 0 where
  pre_inc post_inc pre_dec post_dec : UnaryOperatorKind
  other_unary : ℕ → UnaryOperatorKind

-- `CastExpr`, `DeclRefExpr`, `RecoveryExpr`, or any other expression node.
pub data Expr : Type 0 where
  cast_expr : Expr → Expr
  decl_ref_expr : Bytes → Expr
  recovery_expr : ℕ → Expr
  other_expr : ℕ → Expr

-- The init statement: a `DeclStmt` of several declarations, of one that is no `VarDecl`, of one
-- variable with its name, type and initialiser (possibly null); another statement; none.
pub data Init : Type 0 where
  several_decls other_decl : Init
  var_decl : Bytes → Bytes → Option Expr → Init
  other_init no_stmt : Init

pub data Cond : Type 0 where
  binary_operator : BinaryOperatorKind → Expr → Expr → Cond
  other_cond null_cond : Cond

pub data Increment : Type 0 where
  unary_operator : UnaryOperatorKind → Increment
  compound_assign : BinaryOperatorKind → Expr → Expr → Increment
  other_inc null_inc : Increment

pub record ForStmt : Type 0 where
  pub id : ℕ
  pub init : Init
  pub cond : Cond
  pub inc : Increment

-- The services of Clang that the parser calls. `evaluate_as_int` is `Expr::EvaluateAsInt`.
pub record Clang : Type 0 where
  pub bits_in_size_t : ℕ
  pub evaluate_as_int : Expr → Option ℤ
  pub is_comparison_op : BinaryOperatorKind → Bool
  pub reverse_comparison_op : BinaryOperatorKind → BinaryOperatorKind
