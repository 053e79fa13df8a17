-- ===== src/Device.antt =====
-- The loops with attributes in the code for a device: lib/attributes/utils/cuda_subset/loop_code_gen.cpp
-- and tile.cpp, which CUDA and HIP share, and lib/attributes/backend/dpcpp/tile.cpp and common.cpp, a
-- copy of them with other names for the index of a thread. The functions take those names as a
-- parameter.
pub mod Dpcpp
pub mod Handle
pub mod Lines
pub mod Index
pub mod Scopes
use occa_transpiler.Base.{
  ℕ, suc, Bool, true, false, not, ◌||◌, List, [], ◌∷◌, ◌++◌, if◌then◌else◌, Option, none, some,
}
use occa_transpiler.Ast.{Bytes, Expr}
use occa_transpiler.Result.{Result, ok, err, ◌>>=◌}
use occa_transpiler.Loop.{
  LoopType, regular, inner, outer, Axis, x, y, z, auto, LoopInfo, Inc, unary, assign, UnOp, is_inc,
  is_unary,
}
use occa_transpiler.Params.{AttributedLoop, TileParams}
use occa_transpiler.Text.{fmt}
use occa_transpiler.Text.Literal.{codes}
use occa_transpiler.Rewrite.{get_cond_comp_str, get_unary_str, text_of, step_text}

-- A missing key of the map is an empty text.
abbrev pub axis_to_str : Axis → Bytes
axis_to_str x = codes "x"
axis_to_str y = codes "y"
axis_to_str z = codes "z"
axis_to_str auto = []

unfoldable pub get_idx_variable : AttributedLoop → Result Bytes
get_idx_variable loop = elim loop.type [
  | inner ↦ fmt (codes "threadIdx.{}") (axis_to_str loop.axis ∷ [])
  | outer ↦ fmt (codes "blockIdx.{}") (axis_to_str loop.axis ∷ [])
  | regular ↦ ok []
]

abbrev pub get_tiled_variable_name : LoopInfo → Bytes
get_tiled_variable_name l = codes "_occa_tiled_" ++ l.var_name

abbrev pub sign_of : LoopInfo → Bytes
sign_of l = if is_inc l then codes "+" else codes "-"

abbrev pub update_of : LoopInfo → Bytes
update_of l = if is_inc l then codes "+=" else codes "-="

abbrev pub compare_of : LoopInfo → Bytes
compare_of l = if is_inc l then codes "<" else codes ">"

-- `inc.op.uo`, read where the increment is a unary operator.
abbrev pub unary_text : Inc → Bytes → Bytes
unary_text (unary op) var = get_unary_str op var
unary_text (assign op e) var = codes "<error>"

-- `" {\n" + res`, and `res + " {\n"` if a scope opens after the line; both count the scope.
abbrev pub scope_before : ℕ → Bytes → Result (Bytes × ℕ)
scope_before n line = ok (codes " {\n" ++ line, suc n)

abbrev pub scope_after : Bool → ℕ → Bytes → Result (Bytes × ℕ)
scope_after opened n line = if opened then ok (line ++ codes " {\n", suc n) else ok (line, n)

module _ (latest : Expr → Bytes) where
  -- `buildRegularLoopIdxLineFirst`
  unfoldable pub build_regular_first : LoopInfo → TileParams → ℕ → Result (Bytes × ℕ)
  build_regular_first l params n = do
    start ← text_of latest l.range_start
    end ← text_of latest l.range_end
    line ← fmt (codes "for ({} {} = {}; {} {} {}; {} {} ({}))") (
        l.var_type_name
        ∷ get_tiled_variable_name l
        ∷ start
        ∷ get_tiled_variable_name l
        ∷ get_cond_comp_str l.condition_op
        ∷ end
        ∷ get_tiled_variable_name l
        ∷ update_of l
        ∷ params.tile_size
        ∷ [])
    scope_after true n line

  unfoldable pub regular_second_line : LoopInfo → TileParams → Result Bytes
  unfolding is_unary
  regular_second_line l params =
      if is_unary l
      then fmt (codes "for ({} {} = {}; {} {} ({} {} ({})); {})") (
          l.var_type_name
          ∷ l.var_name
          ∷ get_tiled_variable_name l
          ∷ l.var_name
          ∷ compare_of l
          ∷ get_tiled_variable_name l
          ∷ sign_of l
          ∷ params.tile_size
          ∷ unary_text l.inc l.var_name
          ∷ [])
      else (step_text latest l.inc >>= λ step.
          fmt (codes "for ({} {} = {}; {} {} ({} {} ({})); {} {} {})") (
            l.var_type_name
            ∷ l.var_name
            ∷ get_tiled_variable_name l
            ∷ l.var_name
            ∷ compare_of l
            ∷ get_tiled_variable_name l
            ∷ sign_of l
            ∷ params.tile_size
            ∷ l.var_name
            ∷ update_of l
            ∷ step
            ∷ []))

  module _ (compound : Bool) where
    -- `buildRegularLoopIdxLineSecond`
    unfoldable pub build_regular_second : LoopInfo → TileParams → ℕ → Result (Bytes × ℕ)
    unfolding regular_second_line
    build_regular_second l params n = do
      line ← regular_second_line l params
      scope_after (params.check || not compound) n line

    -- `buildCheckLine`
    unfoldable pub build_check_line : LoopInfo → TileParams → ℕ → Result (Bytes × ℕ)
    build_check_line l params n = if not params.check then ok ([], n) else do
      end ← text_of latest l.range_end
      line ← fmt (codes "if ({} {} {})") (l.var_name ∷ get_cond_comp_str l.condition_op ∷ end ∷ [])
      scope_after (not compound) n line

  module _ (idx_variable : AttributedLoop → Result Bytes) where
    unfoldable pub inner_outer_first_line : LoopInfo → TileParams → Bytes → Bytes → Result Bytes
    unfolding is_unary
    inner_outer_first_line l params start idx =
        if is_unary l
        then fmt (codes "{} {} = ({}) {} (({}) * {});\n") (
            l.var_type_name
            ∷ get_tiled_variable_name l
            ∷ start
            ∷ sign_of l
            ∷ params.tile_size
            ∷ idx
            ∷ [])
        else (step_text latest l.inc >>= λ step.
            fmt (codes "{} {} = ({}) {} ((({}) * {}) * {});\n") (
              l.var_type_name
              ∷ get_tiled_variable_name l
              ∷ start
              ∷ sign_of l
              ∷ params.tile_size
              ∷ step
              ∷ idx
              ∷ []))

    -- `buildIinnerOuterLoopIdxLineFirst`
    unfoldable pub build_inner_outer_first :
        LoopInfo → AttributedLoop → TileParams → ℕ → Result (Bytes × ℕ)
    unfolding inner_outer_first_line
    build_inner_outer_first l loop params n = do
      idx ← idx_variable loop
      start ← text_of latest l.range_start
      line ← inner_outer_first_line l params start idx
      scope_before n line

    unfoldable pub index_line : LoopInfo → Bytes → Bytes → Result Bytes
    unfolding is_unary
    index_line l start idx =
        if is_unary l
        then fmt (codes "{} {} = ({}) {} {};\n")
            (l.var_type_name ∷ l.var_name ∷ start ∷ sign_of l ∷ idx ∷ [])
        else (step_text latest l.inc >>= λ step.
            fmt (codes "{} {} = ({}) {} (({}) * {});\n")
              (l.var_type_name ∷ l.var_name ∷ start ∷ sign_of l ∷ step ∷ idx ∷ []))

    -- `inner_outer::buildInnerOuterLoopIdxLine`, which leaves the counter alone.
    unfoldable pub build_inner_outer_line : LoopInfo → AttributedLoop → Result Bytes
    unfolding index_line
    build_inner_outer_line l loop = do
      idx ← idx_variable loop
      start ← text_of latest l.range_start
      index_line l start idx

    -- The second line has a format of its own in each copy, for a unary increment.
    module _ (unary_format : Bytes) where
      unfoldable pub inner_outer_second_line : LoopInfo → Bytes → Result Bytes
      unfolding is_unary
      inner_outer_second_line l idx =
          if is_unary l
          then fmt unary_format
              (l.var_type_name ∷ l.var_name ∷ get_tiled_variable_name l ∷ sign_of l ∷ idx ∷ [])
          else (step_text latest l.inc >>= λ step. fmt (codes "{} {} = {} {} (({}) * {});\n") (
              l.var_type_name
              ∷ l.var_name
              ∷ get_tiled_variable_name l
              ∷ sign_of l
              ∷ step
              ∷ idx
              ∷ []))

      -- `buildInnerOuterLoopIdxLineSecond`
      unfoldable pub build_inner_outer_second : LoopInfo → AttributedLoop → ℕ → Result (Bytes × ℕ)
      unfolding inner_outer_second_line
      build_inner_outer_second l loop n = do
        idx ← idx_variable loop
        line ← inner_outer_second_line l idx
        scope_before n line

      module _ (compound : Bool) where
        -- `buildLoopIdxLine`, for `LoopOrder::First` and `LoopOrder::Second`
        unfoldable pub build_first : LoopInfo → TileParams → ℕ → Result (Bytes × ℕ)
        unfolding build_inner_outer_first build_regular_first
        build_first l params n = elim params.first_loop.type [
          | regular ↦ build_regular_first l params n
          | _ ↦ build_inner_outer_first l params.first_loop params n
        ]

        unfoldable pub build_second : LoopInfo → TileParams → ℕ → Result (Bytes × ℕ)
        unfolding build_inner_outer_second build_regular_second
        build_second l params n = elim params.second_loop.type [
          | regular ↦ build_regular_second compound l params n
          | _ ↦ build_inner_outer_second l params.second_loop n
        ]

        -- `buildPreffixTiledCode`, with the counter that it leaves.
        unfoldable pub build_preffix_tiled_code : LoopInfo → TileParams → Result (Bytes × ℕ)
        unfolding build_first build_second build_check_line
        build_preffix_tiled_code l params = do
          first ← build_first l params 0
          second ← build_second l params first.1
          check ← build_check_line compound l params second.1
          ok (first.0 ++ (second.0 ++ check.0), check.1)

abbrev pub cuda_unary_format : Bytes
cuda_unary_format = codes "{} {} = {} {} {};\n"

-- lib/attributes/backend/dpcpp/common.cpp
abbrev pub dpcpp_axis_to_str : Axis → Bytes
dpcpp_axis_to_str x = codes "2"
dpcpp_axis_to_str y = codes "1"
dpcpp_axis_to_str z = codes "0"
dpcpp_axis_to_str auto = []

unfoldable pub dpcpp_get_idx_variable : AttributedLoop → Result Bytes
dpcpp_get_idx_variable loop = elim loop.type [
  | inner ↦ fmt (codes "item.get_local_id({})") (dpcpp_axis_to_str loop.axis ∷ [])
  | outer ↦ fmt (codes "item_.get_group({})") (dpcpp_axis_to_str loop.axis ∷ [])
  | regular ↦ ok []
]

abbrev pub dpcpp_unary_format : Bytes
dpcpp_unary_format = codes "{} {} = {} {} {};"
