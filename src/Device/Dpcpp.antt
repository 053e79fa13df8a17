-- ===== src/Device/Dpcpp.antt =====
-- lib/attributes/backend/dpcpp/tile.cpp and common.cpp: the lines for DPC++, which repeat those for CUDA
-- but for the index variable and the format of one line.
use occa_transpiler.Base.{ℕ, Bool}
use occa_transpiler.Ast.{Bytes, Expr}
use occa_transpiler.Result.{Result}
use occa_transpiler.Loop.{LoopInfo}
use occa_transpiler.Params.{AttributedLoop, TileParams}
use occa_transpiler.Device.{
  build_regular_first, build_regular_second, build_check_line, build_inner_outer_first,
  build_inner_outer_second, build_inner_outer_line, build_first, build_second,
  build_preffix_tiled_code, dpcpp_get_idx_variable, dpcpp_unary_format,
}

module _ (latest : Expr → Bytes) where
  abbrev pub dpcpp_build_regular_first : LoopInfo → TileParams → ℕ → Result (Bytes × ℕ)
  dpcpp_build_regular_first = build_regular_first latest

  abbrev pub dpcpp_build_inner_outer_first :
      LoopInfo → AttributedLoop → TileParams → ℕ → Result (Bytes × ℕ)
  dpcpp_build_inner_outer_first = build_inner_outer_first latest dpcpp_get_idx_variable

  abbrev pub dpcpp_build_inner_outer_second : LoopInfo → AttributedLoop → ℕ → Result (Bytes × ℕ)
  dpcpp_build_inner_outer_second =
      build_inner_outer_second latest dpcpp_get_idx_variable dpcpp_unary_format

  abbrev pub dpcpp_build_inner_outer_line : LoopInfo → AttributedLoop → Result Bytes
  dpcpp_build_inner_outer_line = build_inner_outer_line latest dpcpp_get_idx_variable

  module _ (compound : Bool) where
    abbrev pub dpcpp_build_regular_second : LoopInfo → TileParams → ℕ → Result (Bytes × ℕ)
    dpcpp_build_regular_second = build_regular_second latest compound

    abbrev pub dpcpp_build_check_line : LoopInfo → TileParams → ℕ → Result (Bytes × ℕ)
    dpcpp_build_check_line = build_check_line latest compound

    abbrev pub dpcpp_build_first : LoopInfo → TileParams → ℕ → Result (Bytes × ℕ)
    dpcpp_build_first = build_first latest dpcpp_get_idx_variable dpcpp_unary_format compound

    abbrev pub dpcpp_build_second : LoopInfo → TileParams → ℕ → Result (Bytes × ℕ)
    dpcpp_build_second = build_second latest dpcpp_get_idx_variable dpcpp_unary_format compound

    abbrev pub dpcpp_build_preffix_tiled_code : LoopInfo → TileParams → Result (Bytes × ℕ)
    dpcpp_build_preffix_tiled_code =
        build_preffix_tiled_code latest dpcpp_get_idx_variable dpcpp_unary_format compound
