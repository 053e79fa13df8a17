-- ===== src/Local.antt =====
-- The variables of a kernel that threads share or keep: the handlers of @shared and @exclusive in
-- lib/attributes/utils (default_handlers.cpp, cuda_subset, serial_subset) and
-- lib/attributes/backend/dpcpp/shared.cpp, and those of @barrier. A warning has no effect here.
pub mod Bounds
use occa_transpiler.Base.{
  ℕ, zero, suc, ◌+◌, ◌/◌, ◌%◌, Bool, true, false, not, ◌&&◌, ◌||◌, List, [], ◌∷◌, ◌++◌,
  if◌then◌else◌, Option, none, some, ltb, length, is_nil, ℤ, pos,
}
use occa_transpiler.Ast.{Bytes}
use occa_transpiler.Attrs.{BarrierType, sync_default, sync_warp}
use occa_transpiler.Result.{
  Result, ok, err, ◌>>=◌, null_params, no_loop_meta_data, inside_inner_loop, not_between_loops,
}
use occa_transpiler.Text.{fmt}
use occa_transpiler.Text.Literal.{codes}
use occa_transpiler.Loop.{
  LoopType, inner, outer, LoopInfo, Loop, Loops, nil, cons, info, children, has, is_regular,
}
use occa_transpiler.Loop.Search.{get_first_attributed_child}
use occa_transpiler.Loop.Sizes.{product, has_null_opts, get_inner_sizes}
use occa_transpiler.Sema.{LoopPath, loop_at, update_at}
use occa_transpiler.Sema.Marks.{get_attributed_parent, mark_shared_used, mark_exclusive_used}
use occa_transpiler.Rewrite.{
  Edit, remove_attribute, remove_text, replace_text, insert_text_after, insert_text_before,
  attr_begin, attr_end, decl_loc, decl_end, init_begin, end_loc, begin_loc, with_offset,
}
use occa_transpiler.Stage.{Stage, push, set_loop}
use occa_transpiler.Device.Handle.{cuda_sync_threads_barrier, dpcpp_sync_threads_barrier}

-- A declaration: whether it declares a type, and for a variable its name, the text of its type without
-- sugar, and whether it has an initialiser.
pub record Decl : Type 0 where
  pub id : ℕ
  pub is_type : Bool
  pub name : Bytes
  pub type_text : Bytes
  pub has_init : Bool

abbrev pub with_loop : Stage → LoopPath → (Loop → LoopPath) → LoopPath
with_loop s p next = elim (loop_at s.kernel.top_level_loops p) [ none ↦ [] | some l ↦ next l ]

-- The current loop, or its attributed parent where it is regular; `[]` is the null pointer.
unfoldable pub local_loop : Stage → LoopPath
unfolding loop_at
local_loop s = with_loop s s.kernel.current_loop λ l.
    if is_regular (info l).type
    then get_attributed_parent s.kernel.current_loop s.kernel.top_level_loops
    else s.kernel.current_loop

abbrev pub is_inner_child : Option Loop → Bool
is_inner_child none = false
is_inner_child (some c) = has inner (info c).type

abbrev pub is_between : Loop → Bool
is_between l = has outer (info l).type && is_inner_child (get_first_attributed_child l)

-- The checks that all the handlers make; `is_type` leaves the second out.
abbrev pub check_place : Bool → Option Loop → Result (Option Loop)
check_place is_type none = if is_type then ok none else err not_between_loops
check_place is_type (some l) =
    if has inner (info l).type
    then err inside_inner_loop
    else if not is_type && not (is_between l)
    then err not_between_loops
    else ok (some l)

-- `sharedInfo.declared = true` and `exclusiveInfo.declared = true`
abbrev pub declare_shared : LoopInfo → LoopInfo
declare_shared i = record i { shared_info = record i.shared_info { declared = true } }

abbrev pub declare_exclusive : LoopInfo → LoopInfo
declare_exclusive i = record i { exclusive_info = record i.exclusive_info { declared = true } }

abbrev pub change_local : (LoopInfo → LoopInfo) → Stage → Stage
change_local change s = elim (loop_at s.kernel.top_level_loops (local_loop s)) [
  | none ↦ s
  | some l ↦ set_loop s (local_loop s) (change (info l))
]

-- `defaultHandleSharedDeclAttribute` and `defaultHandleExclusiveDeclAttribute`
unfoldable pub default_shared_decl : Stage → Stage
unfolding local_loop update_at
default_shared_decl = change_local declare_shared

unfoldable pub default_exclusive_decl : Stage → Stage
unfolding local_loop update_at
default_exclusive_decl = change_local declare_exclusive

-- `defaultHandleSharedStmtAttribute` and `defaultHandleExclusiveStmtAttribute`
abbrev pub with_loops : Stage → Loops → Stage
with_loops s ls = record s { kernel = record s.kernel { top_level_loops = ls } }

abbrev pub default_shared_stmt : Stage → Stage
default_shared_stmt s =
    with_loops s (mark_shared_used s.kernel.current_loop s.kernel.top_level_loops)

abbrev pub default_exclusive_stmt : Stage → Stage
default_exclusive_stmt s =
    with_loops s (mark_exclusive_used s.kernel.current_loop s.kernel.top_level_loops)

abbrev pub placed : Bool → Stage → Result (Option Loop)
placed is_type s = check_place is_type (loop_at s.kernel.top_level_loops (local_loop s))

-- `handleSharedAttribute` and `handleExclusiveAttribute` for CUDA
abbrev pub cuda_handle_shared : ℕ → Decl → Stage → Result Stage
cuda_handle_shared a d s = placed d.is_type s >>= λ l. ok (
    default_shared_decl
      (push s (replace_text (attr_begin a) (attr_end a) (codes " __shared__ ") ∷ [])))

abbrev pub cuda_handle_exclusive : ℕ → Decl → Stage → Result Stage
cuda_handle_exclusive a d s =
    placed d.is_type s >>= λ l. ok (default_exclusive_decl (push s (remove_attribute a ∷ [])))

-- `handleSharedAttribute` for DPC++, on variables only
abbrev pub dpcpp_handle_shared : ℕ → Decl → Stage → Result Stage
dpcpp_handle_shared a d s = do
  l ← placed false s
  declaration ←
      fmt
        (codes "auto & {} = "
          ++ codes "*(sycl::ext::oneapi::group_local_memory_for_overwrite<{}>(item_.get_group()))")
        (d.name ∷ d.type_text ∷ [])
  ok (default_shared_decl (push s (replace_text (attr_begin a) (decl_end d.id) declaration ∷ [])))

-- `handleSharedAttribute` for serial code
abbrev pub serial_handle_shared : ℕ → Decl → Stage → Result Stage
serial_handle_shared a d s =
    placed d.is_type s >>= λ l. ok (default_shared_decl (push s (remove_attribute a ∷ [])))

-- `std::to_string`, on fuel for the digits.
abbrev pub digits : ℕ → ℕ → Bytes
digits zero n = []
digits (suc fuel) n =
    let front = digits fuel (n / 10) in
    if ltb n 10 then (48 + n) ∷ [] else front ++ ((48 + n % 10) ∷ [])

abbrev pub max_of : ℕ → ℕ → ℕ
max_of a b = if ltb a b then b else a

module _ (strtoll : Bytes → ℕ × Bool) where
  -- The number of elements of an @exclusive variable: the loop over the children, with `sz`.
  unfoldable pub exclusive_size : Loops → ℕ → Result ℕ
  unfolding product has_null_opts
  exclusive_size nil size = ok size
  exclusive_size (cons c cs) size = get_inner_sizes strtoll c >>= λ v.
      let further = exclusive_size cs (max_of (product v) size) in
      if has_null_opts v then ok 1024 else further

  abbrev pub init_edits : Decl → List Edit
  init_edits d =
      if d.has_init
      then insert_text_before (init_begin d.id) (codes "{")
        ∷ insert_text_after (with_offset (decl_end d.id) (pos 1)) (codes "}")
        ∷ []
      else []

  -- `handleExclusiveDeclAttribute`
  abbrev pub sized : ℕ → Decl → Stage → Option Loop → Result Stage
  sized a d s none = err not_between_loops
  sized a d s (some l) = exclusive_size (children l) 0 >>= λ n. ok (
      default_exclusive_decl (
        push s (
          remove_attribute a
          ∷ insert_text_after (with_offset (decl_loc d.id) (pos (length d.name)))
              (codes "[" ++ (digits 20 n ++ codes "]"))
          ∷ init_edits d)))

  abbrev pub serial_handle_exclusive : ℕ → Decl → Stage → Result Stage
  serial_handle_exclusive a d s = placed false s >>= λ l. sized a d s l

-- `handleExclusiveExprAttribute`, for a reference of this name.
abbrev pub serial_handle_exclusive_expr : ℕ → Bytes → Stage → Result Stage
serial_handle_exclusive_expr e name s =
    if is_nil s.kernel.current_loop
    then err no_loop_meta_data
    else ok (
        default_exclusive_stmt (
          push s (
            insert_text_after (with_offset (begin_loc e) (pos (length name)))
              (codes "[_occa_exclusive_index]")
            ∷ [])))

-- `handleBarrierAttribute` for CUDA and for DPC++
abbrev pub barrier_text : BarrierType → Bytes
barrier_text sync_default = cuda_sync_threads_barrier
barrier_text sync_warp = codes "__syncwarp()"

abbrev pub cuda_handle_barrier : ℕ → Option BarrierType → Stage → Result Stage
cuda_handle_barrier a none s = err null_params
cuda_handle_barrier a (some t) s =
    ok (push s (replace_text (attr_begin a) (attr_end a) (barrier_text t) ∷ []))

abbrev pub dpcpp_handle_barrier : ℕ → ℕ → Stage → Result Stage
dpcpp_handle_barrier a stmt s =
    ok (push s (replace_text (attr_begin a) (end_loc stmt) dpcpp_sync_threads_barrier ∷ []))
