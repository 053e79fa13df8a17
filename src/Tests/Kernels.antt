-- ===== src/Tests/Kernels.antt =====
-- Kernels: the parsing of a `for`, the legality of a nest, and the checks on it.
use occa_transpiler.Base.{
  ◌+◌, true, false, none, some, List, [], ◌∷◌, ◌≡◌, refl, inl, arith, is_some, All, ◌↔◌, is_nil,
}
use occa_transpiler.Ast.{
  other_expr, recovery_expr, BinaryOperatorKind, UnaryOperatorKind, unary_operator,
}
use occa_transpiler.Result.{ok}
use occa_transpiler.Loop.{LoopType, outer, inner, BinOp, LoopInfo, is_inc}
use occa_transpiler.ForStmt.{parse_for_stmt}
use occa_transpiler.ForStmt.Range.{
  stop, again, IsConstantRange, counted_for, parse-lt-Runs, parse-le-Runs, parse-recovery-is_inc,
}
use occa_transpiler.Sema.{is_legal_loop_level}
use occa_transpiler.Sema.Legal.{no_outer_after_inner, is_legal_loop_level_lem}
use occa_transpiler.Verify.{fine, verify_loop_structure, verify_loops, start_nodes}
use occa_transpiler.Verify.Sound.{Reads}
use occa_transpiler.Verify.Total.{verify_loop_structure-total}
use occa_transpiler.Verify.Decides.{HasInner, verify_loop_structure-Reads, verify_loops-accepts}
use occa_transpiler.Tests.Data.{clang, no_params, kernel, two_outers}

range :
    IsConstantRange clang no_params 7
      (105 ∷ [])
      (105 ∷ 110 ∷ 116 ∷ [])
      (other_expr 3)
      (other_expr 5)
      3
      5
range = record {
  start_value = refl;
  end_value = refl;
  not_var = refl;
  not_recovery = refl;
  fits = omega arith;
  ordered = omega arith;
}

parse-lt-Runs_example :
    (i : LoopInfo) × (parse_for_stmt clang no_params
        (counted_for clang no_params 7
          (105 ∷ [])
          (105 ∷ 110 ∷ 116 ∷ [])
          (other_expr 3)
          (other_expr 5)
          BinaryOperatorKind.lt
          (unary_operator UnaryOperatorKind.pre_inc))
        none
      ≡ ok i)
    × (i.range_size ≡ 2)
parse-lt-Runs_example =
    parse-lt-Runs clang no_params 7 (105 ∷ []) (105 ∷ 110 ∷ 116 ∷ []) (other_expr 3) (other_expr 5)
      none 3 5 2 UnaryOperatorKind.pre_inc range refl (inl refl)
      (again {m = 1} refl (again {m = 0} refl (stop refl refl) refl) refl)

parse-le-Runs_example :
    (i : LoopInfo) × (parse_for_stmt clang no_params
        (counted_for clang no_params 7
          (105 ∷ [])
          (105 ∷ 110 ∷ 116 ∷ [])
          (other_expr 3)
          (other_expr 5)
          BinaryOperatorKind.le
          (unary_operator UnaryOperatorKind.pre_inc))
        none
      ≡ ok i)
    × (i.range_size + 1 ≡ 3)
parse-le-Runs_example =
    parse-le-Runs clang no_params 7 (105 ∷ []) (105 ∷ 110 ∷ 116 ∷ []) (other_expr 3) (other_expr 5)
      none 3 5 3 UnaryOperatorKind.pre_inc range refl (inl refl)
      (again {m = 2} refl (again {m = 1} refl (again {m = 0} refl (stop refl refl) refl) refl) refl)

parse-recovery-is_inc_example :
    (i : LoopInfo) × (parse_for_stmt clang no_params
        (counted_for clang no_params 7
          (105 ∷ [])
          (105 ∷ 110 ∷ 116 ∷ [])
          (other_expr 3)
          (recovery_expr 5)
          BinaryOperatorKind.lt
          (unary_operator UnaryOperatorKind.pre_inc))
        none
      ≡ ok i)
    × (i.condition_op ≡ BinOp.gt)
    × (is_inc i ≡ false)
parse-recovery-is_inc_example =
    parse-recovery-is_inc clang no_params 7 (105 ∷ []) (105 ∷ 110 ∷ 116 ∷ []) (other_expr 3)
      (recovery_expr 5) none 5 UnaryOperatorKind.pre_inc refl refl refl

is_legal_loop_level_example :
    is_legal_loop_level (outer ∷ []) (outer ∷ inner ∷ [])
    ≡ no_outer_after_inner false (outer ∷ inner ∷ outer ∷ [])
is_legal_loop_level_example = is_legal_loop_level_lem (outer ∷ []) (outer ∷ inner ∷ [])

verify_loop_structure-total_example : is_some (verify_loop_structure (two_outers ∷ [])) ≡ true
verify_loop_structure-total_example =
    verify_loop_structure-total (two_outers ∷ []) (omega arith, tt)

verify_loop_structure-Reads_example :
    (verify_loop_structure (two_outers ∷ []) ≡ some (fine tt))
    ↔ ((ts : List LoopType) × All (Reads ts) (start_nodes (two_outers ∷ [])))
verify_loop_structure-Reads_example =
    verify_loop_structure-Reads (two_outers ∷ []) (omega arith, tt)

verify_loops-accepts_example : (verify_loops (kernel ∷ []) (kernel ∷ []) ≡ none) ↔ (
    (is_nil (kernel ∷ []) ≡ false)
    × All HasInner (kernel ∷ [])
    × ((ts : List LoopType) × All (Reads ts) (start_nodes (kernel ∷ []))))
verify_loops-accepts_example = verify_loops-accepts (kernel ∷ []) (kernel ∷ []) (omega arith, tt)
