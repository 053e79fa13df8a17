-- ===== src/Loop.antt =====
-- lib/core/sema/okl_sema_info.h and .cpp, with the enumerations of
-- include/oklt/core/kernel_metadata.h and lib/attributes/frontend/params/loop.h. A loop is its own
-- fields and the list of its children; the `parent` pointer of the C++ is the place of the loop in
-- the tree (see Sema).
pub mod Search
pub mod Height
pub mod Sizes
use occa_transpiler.Base.{
  ℕ, suc, ◌+◌, Bool, true, false, not, ◌&&◌, ◌||◌, Option, none, some, List, [], ◌∷◌, ◌++◌, ◌==◌,
  if◌then◌else◌, length, get_or, ℤ,
}
use occa_transpiler.Ast.{Bytes, Expr}

pub data LoopType : Type 0 where
  regular inner outer : LoopType

abbrev pub type_eq : LoopType → LoopType → Bool
type_eq regular regular = true
type_eq inner inner = true
type_eq outer outer = true
type_eq _ _ = false

pub data Axis : Type 0 where
  x y z auto : Axis

abbrev pub is_auto : Axis → Bool
is_auto auto = true
is_auto _ = false

-- `MAX_AXIS_SZ`, `N_AXIS`
abbrev pub max_axis_sz : ℕ
max_axis_sz = 2

-- `static_cast<size_t>(axis)` and `static_cast<Axis>(n)`, which is called on 0, 1 and 2 only.
abbrev pub axis_index : Axis → ℕ
axis_index x = 0
axis_index y = 1
axis_index z = 2
axis_index auto = 3

abbrev pub to_axis : ℕ → Axis
to_axis n = if n == 0 then x else if n == 1 then y else if n == 2 then z else auto

pub data BinOp : Type 0 where
  eq le lt gt ge add_assign remove_assign other_bin : BinOp

pub data UnOp : Type 0 where
  pre_inc post_inc pre_dec post_dec other_un : UnOp

-- `inc`: with no `val` the union holds `op.uo`, with one `op.bo`.
pub data Inc : Type 0 where
  unary : UnOp → Inc
  assign : BinOp → Expr → Inc

pub record AttributedTypeInfo : Type 0 where
  pub declared : Bool
  pub used : Bool
  pub nobarrier_applied : Bool

-- `OptSizes`: the array of `N_AXIS` sizes; `none` is a size unknown at compile time.
pub record OptSizes : Type 0 where
  pub size_x : Option ℕ
  pub size_y : Option ℕ
  pub size_z : Option ℕ

pub record LoopInfo : Type 0 where
  pub attr : Option ℕ
  pub stmt : ℕ
  pub type : List LoopType
  pub axis : List Axis
  pub tile_size : Bytes
  pub shared_info : AttributedTypeInfo
  pub exclusive_info : AttributedTypeInfo
  pub overriden_inner_sizes : Option OptSizes
  pub simd_length : Option ℤ
  pub var_type_name : Bytes
  pub var_name : Bytes
  pub range_start : Option Expr
  pub range_end : Option Expr
  pub range_size : ℕ
  pub condition_op : BinOp
  pub inc : Inc

mutual
  pub data Loop : Type 0 where
    node : LoopInfo → Loops → Loop

  pub data Loops : Type 0 where
    nil : Loops
    cons : Loop → Loops → Loops

abbrev pub info : Loop → LoopInfo
info (node i cs) = i

abbrev pub children : Loop → Loops
children (node i cs) = cs

abbrev pub to_list : Loops → List Loop
to_list nil = []
to_list (cons l ls) = l ∷ to_list ls

abbrev pub no_loops : Loops → Bool
no_loops nil = true
no_loops (cons l ls) = false

-- `has(LoopType)` and `isRegular()`, on the list of types.
abbrev pub has : LoopType → List LoopType → Bool
has t [] = false
has t (u ∷ us) = type_eq u t || has t us

abbrev pub is_regular : List LoopType → Bool
is_regular [] = true
is_regular (u ∷ us) = type_eq u regular && is_regular us

-- `is(LoopType)`, `is(LoopType, LoopType)`
abbrev pub is_one : LoopType → List LoopType → Bool
is_one t (u ∷ []) = type_eq u t
is_one t _ = false

abbrev pub is_two : LoopType → LoopType → List LoopType → Bool
is_two t t' (u ∷ u' ∷ []) = type_eq u t && type_eq u' t'
is_two t t' _ = false

abbrev pub is_tiled : List LoopType → Bool
is_tiled ts = length ts == 2

-- `has(Axis::Auto)`
abbrev pub has_auto : List Axis → Bool
has_auto [] = false
has_auto (a ∷ rest) = is_auto a || has_auto rest

abbrev pub is_inc_op : Inc → Bool
is_inc_op (unary pre_inc) = true
is_inc_op (unary post_inc) = true
is_inc_op (assign add_assign e) = true
is_inc_op _ = false

abbrev pub is_upper_bound : BinOp → Bool
is_upper_bound le = true
is_upper_bound lt = true
is_upper_bound _ = false

unfoldable pub is_inc : LoopInfo → Bool
is_inc l = is_inc_op l.inc && is_upper_bound l.condition_op

abbrev is_unary_inc : Inc → Bool
is_unary_inc (unary other_un) = false
is_unary_inc (unary _) = true
is_unary_inc (assign _ _) = false

unfoldable pub is_unary : LoopInfo → Bool
is_unary l = is_unary_inc l.inc

-- The number of nodes.
unfoldable mutual
  pub size : Loop → ℕ
  size (node i cs) = suc (size_loops cs)

  pub size_loops : Loops → ℕ
  size_loops nil = 0
  size_loops (cons l ls) = size l + size_loops ls
