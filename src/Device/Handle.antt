-- ===== src/Device/Handle.antt =====
-- The handlers of the loop attributes in the code for a device: handleTileAttribute, handleInnerAttribute
-- and handleOuterAttribute of lib/attributes/utils/cuda_subset and of lib/attributes/backend/dpcpp; with
-- the handler of @nobarrier that they run before or after.
pub mod Barrier
use occa_transpiler.Base.{
  ℕ, Bool, true, false, not, Option, none, some, List, [], ◌∷◌, ◌++◌, if◌then◌else◌, ◌≡◌, refl,
}
use occa_transpiler.Ast.{Bytes, Expr}
use occa_transpiler.Result.{
  Result, ok, err, Error, ◌>>=◌, undefined_behaviour, no_loop_meta_data, null_params,
}
use occa_transpiler.Loop.{Axis, LoopInfo, Loop, info}
use occa_transpiler.Params.{AttributedLoop, TileParams}
use occa_transpiler.ForStmt.{bytes_eq}
use occa_transpiler.Sema.{LoopPath, KernelInfo, get_loop_info, loop_at, update_at}
use occa_transpiler.Sema.Marks.{should_sync}
use occa_transpiler.Text.Literal.{codes}
use occa_transpiler.Rewrite.{Edit, remove_attribute, build_close_scopes, replace_attributed_loop}
use occa_transpiler.Stage.{
  StmtAttr, ForNode, Stage, push, loop_of, info_of, handle_no_barrier, handle_child_attr, ignored,
  given,
}
use occa_transpiler.Device.{
  get_idx_variable, cuda_unary_format, dpcpp_get_idx_variable, dpcpp_unary_format,
  build_inner_outer_line, build_preffix_tiled_code,
}

abbrev pub no_barrier_name : Bytes
no_barrier_name = codes "okl_nobarrier"

-- `AttributedLoop` and `TileParams` with the axes of the loop.
abbrev pub set_axis : Axis → AttributedLoop → AttributedLoop
set_axis a l = record l { axis = a }

abbrev pub front_axis : List Axis → AttributedLoop → Result AttributedLoop
front_axis [] l = err undefined_behaviour
front_axis (a ∷ more) l = ok (set_axis a l)

abbrev pub set_axes : List Axis → TileParams → Result TileParams
set_axes (a ∷ b ∷ more) p =
    ok (record p { first_loop = set_axis a p.first_loop; second_loop = set_axis b p.second_loop })
set_axes _ p = err undefined_behaviour

abbrev pub cuda_sync_threads_barrier : Bytes
cuda_sync_threads_barrier = codes "__syncthreads()"

abbrev pub dpcpp_sync_threads_barrier : Bytes
dpcpp_sync_threads_barrier = codes "item_.barrier(sycl::access::fence_space::local_space)"

module _ (latest : Expr → Bytes) {P : Type 0} (parse : StmtAttr → Result P) where
  abbrev pub handle_nested_no_barrier : ForNode → Stage → Stage
  handle_nested_no_barrier f s =
      ignored s (handle_child_attr parse (λ a p. handle_no_barrier f a) f no_barrier_name s)

  -- The barrier after the loop, with the text that ends it.
  abbrev pub after_loop : Bytes → Bytes → LoopPath → Stage → Bytes
  after_loop barrier end p s = if should_sync p s.kernel.top_level_loops then barrier ++ end else []

  module _ (idx_variable : AttributedLoop → Result Bytes) (unary_format barrier : Bytes) where
    -- `handleTileAttribute` from the loop on: whether a barrier follows is read before @nobarrier is.
    unfoldable pub tile_edits : ForNode → ℕ → TileParams → LoopPath → Stage → Result (List Edit)
    unfolding should_sync
    tile_edits f a params p s = do
      i ← info_of s p
      updated ← set_axes i.axis params
      code ← build_preffix_tiled_code latest idx_variable unary_format f.compound i updated
      ok (
          replace_attributed_loop f.id a f.compound (build_close_scopes code.1)
            (after_loop barrier (codes ";") p s) code.0 false)

    abbrev pub tile_found : ForNode → ℕ → TileParams → LoopPath → Stage → Result Stage
    tile_found f a params p s =
        tile_edits f a params p s >>= λ es. ok (push (handle_nested_no_barrier f s) es)

    -- `handleInnerAttribute` from the loop on.
    abbrev pub inner_found : ForNode → ℕ → AttributedLoop → LoopPath → Stage → Result Stage
    inner_found f a params p s = do
      i ← info_of s p
      updated ← front_axis i.axis params
      line ← build_inner_outer_line latest idx_variable i updated
      ok (
          push s (
            replace_attributed_loop f.id a f.compound (build_close_scopes 0)
              (after_loop barrier (codes ";\n") p s) line true))

    -- `handleOuterAttribute` from the loop on.
    abbrev pub outer_found : ForNode → ℕ → AttributedLoop → LoopPath → Stage → Result Stage
    outer_found f a params p s = do
      i ← info_of s p
      updated ← front_axis i.axis params
      line ← build_inner_outer_line latest idx_variable i updated
      ok (push s (replace_attributed_loop f.id a f.compound (build_close_scopes 0) [] line true))

  -- lib/attributes/utils/cuda_subset: a null `params` is read after the loop is found.
  unfoldable pub handle_tile_attribute : ForNode → ℕ → Option TileParams → Stage → Result Stage
  unfolding get_loop_info loop_at
  handle_tile_attribute f a params s = do
    p ← loop_of s f.id
    given_params ← given params undefined_behaviour
    tile_found get_idx_variable cuda_unary_format cuda_sync_threads_barrier f a given_params p s

  unfoldable pub handle_inner_attribute : ForNode → ℕ → Option AttributedLoop → Stage → Result Stage
  unfolding get_loop_info loop_at
  handle_inner_attribute f a params s =
      let t = handle_nested_no_barrier f s in
      loop_of t f.id >>= λ p. given params undefined_behaviour >>= λ q.
      inner_found get_idx_variable cuda_unary_format cuda_sync_threads_barrier f a q p t

  unfoldable pub handle_outer_attribute : ForNode → ℕ → Option AttributedLoop → Stage → Result Stage
  unfolding get_loop_info loop_at
  handle_outer_attribute f a params s = do
    p ← loop_of s f.id
    q ← given params undefined_behaviour
    outer_found get_idx_variable cuda_unary_format cuda_sync_threads_barrier f a q p s

  -- lib/attributes/backend/dpcpp: a null `params` is an error, found before the loop.
  unfoldable pub dpcpp_handle_tile_attribute :
      ForNode → ℕ → Option TileParams → Stage → Result Stage
  unfolding get_loop_info loop_at
  dpcpp_handle_tile_attribute f a params s = do
    q ← given params null_params
    p ← loop_of s f.id
    tile_found dpcpp_get_idx_variable dpcpp_unary_format dpcpp_sync_threads_barrier f a q p s

  unfoldable pub dpcpp_handle_inner_attribute :
      ForNode → ℕ → Option AttributedLoop → Stage → Result Stage
  unfolding get_loop_info loop_at
  dpcpp_handle_inner_attribute f a params s =
      let t = handle_nested_no_barrier f s in
      given params null_params >>= λ q. loop_of t f.id >>= λ p.
      inner_found dpcpp_get_idx_variable dpcpp_unary_format dpcpp_sync_threads_barrier f a q p t

  unfoldable pub dpcpp_handle_outer_attribute :
      ForNode → ℕ → Option AttributedLoop → Stage → Result Stage
  unfolding get_loop_info loop_at
  dpcpp_handle_outer_attribute f a params s = do
    q ← given params null_params
    p ← loop_of s f.id
    outer_found dpcpp_get_idx_variable dpcpp_unary_format dpcpp_sync_threads_barrier f a q p s
