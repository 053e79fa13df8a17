-- ===== src/Params.antt =====
-- lib/attributes/frontend/params/loop.h and tile.h: what the parser of an attribute hands to its
-- handlers. The `std::any` of the source is one of the two kinds that the loop analysis looks for,
-- or another.
use occa_transpiler.Base.{Bool}
use occa_transpiler.Ast.{Bytes}
use occa_transpiler.Loop.{LoopType, Axis}

pub record AttributedLoop : Type 0 where
  pub type : LoopType
  pub axis : Axis

pub record TileParams : Type 0 where
  pub tile_size : Bytes
  pub first_loop : AttributedLoop
  pub second_loop : AttributedLoop
  pub check : Bool

pub data AttrParams : Type 0 where
  tile_params : TileParams → AttrParams
  attributed_loop : AttributedLoop → AttrParams
  other_params : AttrParams
