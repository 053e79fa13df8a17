-- ===== src/Tests/Code.antt =====
-- A tiled loop, the code written for it, and the arguments of an attribute.
use occa_transpiler.Base.{
  ℕ, ◌+◌, Bool, true, false, some, List, [], ◌∷◌, ◌++◌, ◌≡◌, refl, inl, inr, if◌then◌else◌, arith,
}
use occa_transpiler.Ast.{Bytes, Expr, other_expr}
use occa_transpiler.Result.{Result, ok, err}
use occa_transpiler.Loop.{
  inner, outer, x, LoopInfo, node, nil, cons, Inc, unary, assign, post_inc, add_assign, is_unary,
  is_inc,
}
use occa_transpiler.Params.{TileParams}
use occa_transpiler.ForStmt.{bytes_eq}
use occa_transpiler.Text.Literal.{codes}
use occa_transpiler.Text.{fmt, get_curly_bracket_idx, replace_at}
use occa_transpiler.Sema.{loop_at}
use occa_transpiler.Stage.{StmtAttr, ForNode, Stage, push}
use occa_transpiler.Rewrite.{Edit}
use occa_transpiler.Device.{
  get_idx_variable, dpcpp_get_idx_variable, cuda_unary_format, dpcpp_unary_format,
  get_tiled_variable_name, build_inner_outer_first, build_inner_outer_second,
  build_preffix_tiled_code,
}
use occa_transpiler.Device.Dpcpp.{dpcpp_build_preffix_tiled_code}
use occa_transpiler.Device.Lines.{PlainTexts}
use occa_transpiler.Device.Scopes.{Wraps, prefix-Wraps}
use occa_transpiler.Reading.{CExpr, eval, is_read, alone}
use occa_transpiler.Device.Index.{first_expr, second_expr, declaration, build-index}
use occa_transpiler.Serial.{build_first_loop_string, build_second_loop_string, build_check_string}
use occa_transpiler.Serial.Iterations.{below, each_tile}
use occa_transpiler.Serial.Nest.{
  header_text, header_read, outer_header, inner_header, run_header, nest-original,
}
use occa_transpiler.Serial.Skips.{outer_step_header, inner_step_header, nest_skips}
use occa_transpiler.Attrs.{contains}
use occa_transpiler.Serial.Scopes.{inserted}
use occa_transpiler.Serial.Handle.{tile_edits}
use occa_transpiler.Serial.Handle.Balance.{tile_edits-Balanced}
use occa_transpiler.Text.Plain.{opens, closes}
use occa_transpiler.Device.Handle.{handle_tile_attribute, handle_nested_no_barrier}
use occa_transpiler.Device.Handle.Barrier.{without_attrs, handle_tile-attrs}
use occa_transpiler.Tests.Data.{info_of}

abbrev printed : Expr → Bytes
printed (other_expr n) = (48 + n) ∷ []
printed _ = []

abbrev ranged : Inc → LoopInfo
ranged step = record (info_of 1 (outer ∷ inner ∷ []) (x ∷ x ∷ []) 9) {
  range_start = some (other_expr 0);
  range_end = some (other_expr 9);
  inc = step;
}

-- `for (int i = 0; i < 9; i++)` and `for (int i = 0; i < 9; i += 3)`
abbrev counting : LoopInfo
counting = ranged (unary post_inc)

abbrev by_three : LoopInfo
by_three = ranged (assign add_assign (other_expr 3))

abbrev by_4 : TileParams
by_4 = record {
  tile_size = codes "4";
  first_loop = record { type = outer; axis = x };
  second_loop = record { type = inner; axis = x };
  check = true;
}

counting-PlainTexts : PlainTexts printed counting by_4
unfolding is_unary
counting-PlainTexts = record {
  type_name = refl;
  name = refl;
  tile = refl;
  start = (_, refl, refl);
  end = (_, refl, refl);
  step = inl refl;
}

prefix-Wraps_example :
    Wraps (build_preffix_tiled_code printed get_idx_variable cuda_unary_format true counting by_4)
    × Wraps (dpcpp_build_preffix_tiled_code printed true counting by_4)
prefix-Wraps_example = prefix-Wraps printed counting by_4 true counting-PlainTexts

-- Where block 2 has thread 1 of its tile of 4, with the step 3.
abbrev at_thread : Bytes → ℕ
at_thread name =
    if bytes_eq name (codes "_occa_tiled_i")
    then 24
    else if bytes_eq name (codes "4")
    then 4
    else if bytes_eq name (codes "3")
    then 3
    else if bytes_eq name (codes "blockIdx.x")
    then 2
    else if bytes_eq name (codes "threadIdx.x")
    then 1
    else 0

abbrev block_expr : CExpr
block_expr = first_expr (codes "0") (codes "4") (codes "blockIdx.x") (some (codes "3"))

abbrev thread_expr : CExpr
thread_expr = second_expr (codes "_occa_tiled_i") (codes "threadIdx.x") (some (codes "3"))

build-index_example :
    (build_inner_outer_first printed get_idx_variable by_three by_4.first_loop by_4 0
      ≡ ok (codes " {\n" ++ declaration (codes "int") (codes "_occa_tiled_i") block_expr, 1))
    × (is_read alone block_expr ≡ true)
    × (build_inner_outer_second printed get_idx_variable cuda_unary_format by_three by_4.second_loop
          1
        ≡ ok (codes " {\n" ++ declaration (codes "int") (codes "i") thread_expr, 2))
    × (is_read alone thread_expr ≡ true)
    × (eval at_thread thread_expr ≡ 27)
unfolding get_idx_variable fmt get_curly_bracket_idx is_unary is_inc replace_at
build-index_example =
    build-index printed by_three by_4 (codes "0") (codes "blockIdx.x") (codes "threadIdx.x")
      (some (codes "3")) 0 at_thread
      (record {
        increasing = refl;
        type_clean = refl;
        name_clean = refl;
        tile_clean = refl;
        start_is = refl;
        start_clean = refl;
        name_whole = refl;
        start_balanced = refl;
        tile_balanced = refl;
      })
      (refl, refl, refl, refl) refl refl (refl, refl) (refl, refl) refl

-- Every text is worth what it says, the variable of the tile the start of the tile.
abbrev in_tile : ℕ → Bytes → ℕ
in_tile t name =
    if bytes_eq name (codes "_occa_tiled_i")
    then t
    else if bytes_eq name (codes "4")
    then 4
    else if bytes_eq name (codes "9")
    then 9
    else if bytes_eq name (codes "3")
    then 3
    else 0

nest-original_example :
    (build_first_loop_string printed counting by_4 0
      ≡ ok (
        (codes " " ++ header_text (outer_header counting by_4 (codes "0") (codes "9")))
            ++ codes " {\n",
        1,
      ))
    × (build_second_loop_string printed true counting by_4 1
        ≡ ok (
          (codes "for " ++ header_text (inner_header counting by_4 post_inc)) ++ codes " {\n",
          2,
        ))
    × (build_check_string printed true counting 1
        ≡ ok (codes "if (" ++ (codes "i" ++ (codes " < " ++ (codes "9" ++ codes ")"))), 1))
    × (each_tile
          (λ t. below 9 (run_header 4 (in_tile t) (inner_header counting by_4 post_inc)))
          (run_header 9 (in_tile 0) (outer_header counting by_4 (codes "0") (codes "9")))
        ≡ 0 ∷ 1 ∷ 2 ∷ 3 ∷ 4 ∷ 5 ∷ 6 ∷ 7 ∷ 8 ∷ [])
nest-original_example =
    nest-original printed counting by_4 (codes "0") (codes "9") post_inc
      (record {
        cond = refl;
        inc = refl;
        up = inr refl;
        start_is = refl;
        end_is = refl;
        type_clean = refl;
        name_clean = refl;
        start_clean = refl;
        end_clean = refl;
        tile_clean = refl;
      })
      0 9 4 0 1 in_tile refl (omega arith) (λ t. refl) (λ t. refl) (λ t. refl) (λ t. refl)

-- Iteration 2 of the loop with step 3, where `i` is 6.
nest_skips_example :
    (build_first_loop_string printed by_three by_4 0
      ≡ ok (
        (codes " "
              ++ header_text (outer_step_header by_three by_4 (codes "0") (codes "9") (codes "3")))
            ++ codes " {\n",
        1,
      ))
    × (header_read (outer_step_header by_three by_4 (codes "0") (codes "9") (codes "3")) ≡ true)
    × (build_second_loop_string printed true by_three by_4 1
        ≡ ok (
          (codes "for " ++ header_text (inner_step_header by_three by_4 (codes "3")))
              ++ codes " {\n",
          2,
        ))
    × (header_read (inner_step_header by_three by_4 (codes "3")) ≡ true)
    × (contains 6 (
          each_tile
            (λ t. below 9 (run_header 4 (in_tile t) (inner_step_header by_three by_4 (codes "3"))))
            (run_header 9
              (in_tile 0)
              (outer_step_header by_three by_4 (codes "0") (codes "9") (codes "3"))))
        ≡ false)
nest_skips_example =
    nest_skips printed by_three by_4 (codes "0") (codes "9") (other_expr 3)
      (record {
        cond = refl;
        inc = refl;
        start_is = refl;
        end_is = refl;
        type_clean = refl;
        name_clean = refl;
        start_clean = refl;
        end_clean = refl;
        tile_clean = refl;
        step_clean = refl;
        start_balanced = refl;
        name_whole = refl;
        end_sum = refl;
        tile_whole = refl;
        step_whole = refl;
      })
      0 9 4 3 0 1 2 in_tile refl (omega arith) (omega arith) (λ t. refl) (λ t. refl) (λ t. refl)
      (λ t. refl) (λ t. refl)

-- The loop in a kernel, with @nobarrier on it.
abbrev stage : Stage
stage = record {
  kernel = record {
    decl = 0;
    top_level_outer_loops = (0 ∷ []) ∷ [];
    top_level_loops = cons (node counting nil) nil;
    current_loop = [];
    loop_map = (1, 0 ∷ []) ∷ [];
  };
  edits = [];
}

abbrev loop_node : ForNode
loop_node = record {
  id = 1;
  compound = true;
  attrs = some (some (record { id = 7; name = codes "okl_nobarrier" }) ∷ []);
}

tile_edits-Balanced_example :
    (es : List Edit) × (tile_edits printed loop_node 5 by_4 (0 ∷ []) stage ≡ ok es)
    × (opens (inserted es) ≡ closes (inserted es))
unfolding loop_at
tile_edits-Balanced_example =
    tile_edits-Balanced printed loop_node 5 by_4 (0 ∷ []) stage counting outer inner refl refl
      counting-PlainTexts

abbrev stage_of : Result Stage → Stage
stage_of (err e) = stage
stage_of (ok s) = s

parse_nothing : StmtAttr → Result Bool
parse_nothing a = ok true

abbrev tiled_stage : Stage
tiled_stage =
    stage_of
      (handle_tile_attribute printed parse_nothing (without_attrs loop_node) 5 (some by_4) stage)

handle_tile-attrs_example :
    (es : List Edit) × (push stage es ≡ tiled_stage)
    × (handle_tile_attribute printed parse_nothing loop_node 5 (some by_4) stage
        ≡ ok (push (handle_nested_no_barrier printed parse_nothing loop_node stage) es))
unfolding handle_tile_attribute occa_transpiler.Device.Handle.tile_edits build_preffix_tiled_code
    get_idx_variable fmt replace_at is_inc
handle_tile-attrs_example =
    handle_tile-attrs printed parse_nothing loop_node 5 by_4 stage tiled_stage refl
