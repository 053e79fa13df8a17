-- ===== src/Device/Handle/Barrier.antt =====
-- The barrier after a loop of threads, and @nobarrier on it.
use occa_transpiler.Base.{ℕ, none, some, List, ◌≡◌, refl}
use occa_transpiler.Ast.{Bytes, Expr}
use occa_transpiler.Result.{Result, ok, >>=-eq-ok}
use occa_transpiler.Params.{TileParams}
use occa_transpiler.Sema.{LoopPath}
use occa_transpiler.Rewrite.{Edit}
use occa_transpiler.Device.{get_idx_variable, cuda_unary_format}
use occa_transpiler.Stage.{ForNode, StmtAttr, Stage, push, loop_of}
use occa_transpiler.Device.Handle.{
  tile_edits, tile_found, handle_nested_no_barrier, handle_tile_attribute,
  cuda_sync_threads_barrier,
}

abbrev pub without_attrs : ForNode → ForNode
without_attrs f = record f { attrs = none }

module _ (latest : Expr → Bytes) {P : Type 0} (parse : StmtAttr → Result P) where
  tile_found-attrs :
      (f : ForNode) (a : ℕ) (q : TileParams) (p : LoopPath) (s t : Stage)
      → tile_found latest parse get_idx_variable cuda_unary_format cuda_sync_threads_barrier
          (without_attrs f)
          a
          q
          p
          s
        ≡ ok t
      → (es : List Edit) × (push s es ≡ t)
        × (tile_found latest parse get_idx_variable cuda_unary_format cuda_sync_threads_barrier f a
              q p s
            ≡ ok (push (handle_nested_no_barrier latest parse f s) es))
  unfolding tile_edits
  tile_found-attrs f a q p s t h =
      let (es, e, k) =
        >>=-eq-ok
          (tile_edits latest parse get_idx_variable cuda_unary_format cuda_sync_threads_barrier f a
            q p s)
          (λ es. ok (push s es)) h in
      (es, cc k, rw e refl)

  -- A tiled loop for CUDA that is written without other attributes: with attributes around it, @nobarrier
  -- among them, the same code is written, and so the same barrier after the loop.
  pub handle_tile-attrs :
      (f : ForNode) (a : ℕ) (params : TileParams) (s t : Stage)
      → handle_tile_attribute latest parse (without_attrs f) a (some params) s ≡ ok t
      → (es : List Edit) × (push s es ≡ t)
        × (handle_tile_attribute latest parse f a (some params) s
            ≡ ok (push (handle_nested_no_barrier latest parse f s) es))
  unfolding handle_tile_attribute
  handle_tile-attrs f a params s t h =
      let (p, e, k) =
        >>=-eq-ok (loop_of s f.id)
          (λ p.
            tile_found latest parse get_idx_variable cuda_unary_format cuda_sync_threads_barrier
              (without_attrs f) a params p s)
          h in
      rw (handle_tile_attribute, e) (tile_found-attrs f a params p s t k)
