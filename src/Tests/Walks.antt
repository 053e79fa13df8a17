-- ===== src/Tests/Walks.antt =====
-- A traversal of `@outer` around `@inner`.
use occa_transpiler.Base.{true, ℕ, Option, some, [], ◌∷◌, ◌≡◌, refl}
use occa_transpiler.Ast.{
  other_expr, cast_expr, decl_ref_expr, ForStmt, var_decl, binary_operator, unary_operator,
  BinaryOperatorKind, UnaryOperatorKind,
}
use occa_transpiler.Loop.{LoopType, outer, inner, auto, size}
use occa_transpiler.Params.{AttrParams, attributed_loop}
use occa_transpiler.Sema.{
  KernelInfo, new_kernel, start_loop, is_legal_loop_level, types_at, get_loop_axis_type, add_parsed,
  add_loop, append_at, children_at, stop_loop, get_loop_info, loop_at, all_regular, parent_of,
  scan_level, update_at,
}
use occa_transpiler.ForStmt.{
  parse_for_stmt, parse_cond, parse_inc, range_size_of, evaluate_as_size_t, tile_size_of,
  to_okl_binary, to_okl_unary,
}
use occa_transpiler.Loop.Height.{get_height_same_type, height_loop, update_auto_with_specific_axis}
use occa_transpiler.Loop.Search.{get_first_child, search_queue}
use occa_transpiler.Sema.Walk.{Nest, nest, done, also, traverse}
use occa_transpiler.Sema.Edges.{legal_loops}
use occa_transpiler.Sema.Edges.Walks.{edges_legal, edges_legal-traverse}
use occa_transpiler.Sema.Walk.Nesting.{traverse-current_loop}
use occa_transpiler.Tests.Data.{clang, no_params}

abbrev counted : ℕ → ForStmt
counted n = record {
  id = n;
  init = var_decl (105 ∷ []) (105 ∷ 110 ∷ 116 ∷ []) (some (other_expr 0));
  cond =
      binary_operator BinaryOperatorKind.lt (cast_expr (decl_ref_expr (105 ∷ []))) (other_expr 8);
  inc = unary_operator UnaryOperatorKind.pre_inc;
}

abbrev loop_params : LoopType → Option AttrParams
loop_params t = some (attributed_loop (record { type = t; axis = auto }))

abbrev walked : Nest
walked =
    nest (counted 1) (some 1) (loop_params outer)
      (also (nest (counted 2) (some 2) (loop_params inner) done) done)

abbrev after : KernelInfo
after = (traverse clang no_params walked (new_kernel 9)).0

traverse-current_loop_example : after.current_loop ≡ []
unfolding traverse start_loop is_legal_loop_level types_at get_loop_axis_type add_parsed add_loop
    append_at children_at stop_loop get_loop_info loop_at all_regular parent_of scan_level update_at
    parse_for_stmt parse_cond parse_inc range_size_of evaluate_as_size_t tile_size_of to_okl_binary
    to_okl_unary get_height_same_type height_loop update_auto_with_specific_axis get_first_child
    search_queue size
traverse-current_loop_example =
    traverse-current_loop clang no_params walked (new_kernel 9) after refl

new_kernel-legal : edges_legal (new_kernel 9) ≡ true
unfolding legal_loops
new_kernel-legal = refl

edges_legal-traverse_example : edges_legal (traverse clang no_params walked (new_kernel 9)).0 ≡ true
edges_legal-traverse_example =
    edges_legal-traverse clang no_params walked (new_kernel 9) new_kernel-legal
