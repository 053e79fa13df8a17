-- ===== src/Serial.antt =====
-- lib/attributes/utils/serial_subset/tile.cpp: the lines of a tiled loop in serial and OpenMP code, where
-- both of its loops stay loops.
pub mod Handle
pub mod Scopes
pub mod Iterations
pub mod Gaps
pub mod Nest
pub mod Skips
use occa_transpiler.Base.{
  ℕ, suc, ◌+◌, ◌-◌, ◌^◌, Bool, true, false, not, ◌&&◌, ◌||◌, List, [], ◌∷◌, ◌++◌, if◌then◌else◌,
  Option, none, some, is_nil, ltb, leb, ℤ, pos, negsuc,
}
use occa_transpiler.Ast.{Bytes, Expr}
use occa_transpiler.Result.{Result, ok, err, ◌>>=◌, null_params, undefined_behaviour}
use occa_transpiler.Loop.{
  LoopType, regular, inner, outer, type_eq, LoopInfo, Inc, unary, assign, is_unary, is_inc, has,
  Loop, Loops, info, children, no_loops,
}
use occa_transpiler.Params.{TileParams, AttributedLoop}
use occa_transpiler.Sema.{LoopPath, loop_at, get_loop_info}
use occa_transpiler.Sema.Marks.{get_attributed_parent, get_attributed_parent_if}
use occa_transpiler.Text.{fmt}
use occa_transpiler.Text.Literal.{codes}
use occa_transpiler.Stage.{ForNode, Stage, push, loop_of, info_of, given}
use occa_transpiler.Rewrite.{
  Location, Edit, replace_text, insert_text, insert_text_after, insert_text_before,
  remove_attribute, begin_loc, end_loc, l_paren_loc, r_paren_loc, l_brac_loc, r_brac_loc,
  with_offset, get_cond_comp_str, text_of, step_text, build_close_scopes,
}
use occa_transpiler.Device.{
  get_tiled_variable_name, sign_of, update_of, compare_of, unary_text, scope_after,
}

module _ (latest : Expr → Bytes) where
  -- `incValStr`
  abbrev pub inc_val_str : Inc → Bytes → Result Bytes
  inc_val_str (unary op) tile = ok tile
  inc_val_str (assign op e) tile = fmt (codes "({} * {})") (tile ∷ latest e ∷ [])

  -- `buildFirstLoopString`
  unfoldable pub build_first_loop_string : LoopInfo → TileParams → ℕ → Result (Bytes × ℕ)
  build_first_loop_string l params n = do
    step ← inc_val_str l.inc params.tile_size
    start ← text_of latest l.range_start
    end ← text_of latest l.range_end
    line ← fmt (codes " ({} {} = ({}); {} {} {}; {} {} {})") (
        l.var_type_name
        ∷ get_tiled_variable_name l
        ∷ start
        ∷ get_tiled_variable_name l
        ∷ get_cond_comp_str l.condition_op
        ∷ end
        ∷ get_tiled_variable_name l
        ∷ update_of l
        ∷ step
        ∷ [])
    scope_after true n line

  unfoldable pub second_loop_line : LoopInfo → TileParams → Result Bytes
  unfolding is_unary
  second_loop_line l params =
      if is_unary l
      then fmt (codes "for ({} {} = {}; {} {} ({} {} {}); {})") (
          l.var_type_name
          ∷ l.var_name
          ∷ get_tiled_variable_name l
          ∷ l.var_name
          ∷ compare_of l
          ∷ get_tiled_variable_name l
          ∷ sign_of l
          ∷ params.tile_size
          ∷ unary_text l.inc l.var_name
          ∷ [])
      else (step_text latest l.inc >>= λ step.
          fmt (codes "for ({} {} = {}; {} {} ({} {} {}); {} {} {})") (
            l.var_type_name
            ∷ l.var_name
            ∷ get_tiled_variable_name l
            ∷ l.var_name
            ∷ compare_of l
            ∷ get_tiled_variable_name l
            ∷ sign_of l
            ∷ params.tile_size
            ∷ l.var_name
            ∷ update_of l
            ∷ step
            ∷ []))

  module _ (compound : Bool) where
    -- `buildSecondLoopString`
    unfoldable pub build_second_loop_string : LoopInfo → TileParams → ℕ → Result (Bytes × ℕ)
    unfolding second_loop_line
    build_second_loop_string l params n = do
      line ← second_loop_line l params
      scope_after (params.check || not compound) n line

    -- `buildCheckString`
    unfoldable pub build_check_string : LoopInfo → ℕ → Result (Bytes × ℕ)
    build_check_string l n = do
      end ← text_of latest l.range_end
      line ← fmt (codes "if ({} {} {})") (l.var_name ∷ get_cond_comp_str l.condition_op ∷ end ∷ [])
      scope_after (not compound) n line

    abbrev pub build_check : LoopInfo → TileParams → ℕ → Result (Bytes × ℕ)
    build_check l params n = if params.check then build_check_string l n else ok ([], n)
