-- ===== src/Attrs.antt =====
-- lib/attributes/frontend: the functions that turn the parsed arguments of an attribute into its
-- parameters. An argument is what the code reads of it: its raw text, and what `get<T>()` returns at
-- the types that the code asks for. `N` is the type of an attribute that stands as an argument.
pub mod Order
use occa_transpiler.Base.{
  ℕ, zero, suc, Bool, true, false, not, ◌||◌, Option, none, some, List, [], ◌∷◌, ◌++◌, ◌==◌,
  if◌then◌else◌, is_nil, length, ltb, ℤ, pos, negsuc, set,
}
use occa_transpiler.Ast.{Bytes}
use occa_transpiler.Result.{
  Result, ok, err, ◌>>=◌, guard, ◌>>◌, takes_no_kwargs, expects_an_argument, too_many_arguments,
  empty_first_argument, not_an_attribute, loop_type_parse_error, unknown_kwarg, check_not_bool,
  bad_axis, not_positive, takes_one_argument, not_an_integer, not_a_string, bad_barrier_type,
  not_an_index, duplicate_index,
}
use occa_transpiler.Loop.{LoopType, regular, inner, outer, Axis, auto, to_axis}
use occa_transpiler.Params.{
  AttributedLoop, TileParams, AttrParams, tile_params, attributed_loop, other_params,
}
use occa_transpiler.ForStmt.{bytes_eq}

-- `OKLAttrParam`
pub record OklAttrParam (N : Type 0) : Type 0 where
  pub raw : Bytes
  pub get_int : Option ℤ
  pub get_size_t : Option ℕ
  pub get_string : Option Bytes
  pub get_bool : Option Bool
  pub get_attr : Option N

-- `OKLParsedAttr`; the map is the list of its pairs, in the order of the keys.
pub record OklParsedAttr (N : Type 0) : Type 0 where
  pub args : List (OklAttrParam N)
  pub kwargs : List (Bytes × OklAttrParam N)

pub data BarrierType : Type 0 where
  sync_default sync_warp : BarrierType

-- The text "check" and the text "warp".
abbrev pub check_text : Bytes
check_text = 99 ∷ 104 ∷ 101 ∷ 99 ∷ 107 ∷ []

abbrev pub warp_text : Bytes
warp_text = 119 ∷ 97 ∷ 114 ∷ 112 ∷ []

-- `dimSize.value() < 0 || dimSize.value() > 2`, and the cast.
abbrev pub axis_of : Option ℤ → Result Axis
axis_of none = ok auto
axis_of (some (negsuc n)) = err bad_axis
axis_of (some (pos n)) = if ltb 2 n then err bad_axis else ok (to_axis n)

-- The cast of a nested attribute's parameters to `AttributedLoop`.
abbrev pub as_loop : AttrParams → Result AttributedLoop
as_loop (attributed_loop l) = ok l
as_loop (tile_params t) = err loop_type_parse_error
as_loop other_params = err loop_type_parse_error

abbrev unset : ℤ
unset = negsuc 0

abbrev pub simd_size : Option ℤ → Result ℕ
simd_size none = err not_an_integer
simd_size (some (negsuc n)) = err not_positive
simd_size (some (pos n)) = ok n

-- `std::find(ret.idx.begin(), ret.idx.end(), idx.value()) != ret.idx.end()`
abbrev pub contains : ℕ → List ℕ → Bool
contains i [] = false
contains i (j ∷ js) = (j == i) || contains i js

abbrev pub default_loop : AttributedLoop
default_loop = record { type = regular; axis = auto }

module _ {N : Type 0} where
  -- `data.get<int>(n)`
  abbrev pub first_int : List (OklAttrParam N) → Option ℤ
  first_int [] = none
  first_int (a ∷ as') = a.get_int

  -- `parseOuterAttrParams` and `parseInnerAttrParams`, which differ in the type only.
  unfoldable pub parse_loop_attr : LoopType → OklParsedAttr N → Result AttributedLoop
  parse_loop_attr t d = do
    guard (is_nil d.kwargs) takes_no_kwargs
    guard (not (ltb 1 (length d.args))) too_many_arguments
    axis ← axis_of (first_int d.args)
    ok (record { type = t; axis = axis })

  abbrev pub parse_outer_attr_params : OklParsedAttr N → Result AttributedLoop
  parse_outer_attr_params = parse_loop_attr outer

  abbrev pub parse_inner_attr_params : OklParsedAttr N → Result AttributedLoop
  parse_inner_attr_params = parse_loop_attr inner

  module _ (parse_attr : N → Result AttrParams) where
    -- One turn of the first loop in `parseTileAttribute`.
    abbrev pub nested_loop : Option N → Result AttributedLoop
    nested_loop none = err not_an_attribute
    nested_loop (some n) = parse_attr n >>= as_loop

    -- The last loop: every keyword is `check`, and the last one counts.
    unfoldable pub read_kwargs : List (Bytes × OklAttrParam N) → Bool → Result Bool
    read_kwargs [] check = ok check
    read_kwargs ((k, v) ∷ kw) check =
        if not (bytes_eq k check_text)
        then err unknown_kwarg
        else elim v.get_bool [ none ↦ err check_not_bool | some b ↦ read_kwargs kw b ]

    -- The loops from the arguments after the first; at most two by the time they are read.
    abbrev pub nested_loops : List (OklAttrParam N) → Result (AttributedLoop × AttributedLoop)
    nested_loops [] = ok (default_loop, default_loop)
    nested_loops (a ∷ []) = do l ← nested_loop a.get_attr; ok (l, default_loop)
    nested_loops (a ∷ b ∷ more) = do
      l ← nested_loop a.get_attr
      m ← nested_loop b.get_attr
      ok (l, m)

    -- `parseTileAttribute`
    unfoldable pub parse_tile_attribute : OklParsedAttr N → Result TileParams
    unfolding read_kwargs
    parse_tile_attribute d = elim d.args [
      | [] ↦ err expects_an_argument
      | a ∷ more ↦ do
        guard (not (ltb 3 (suc (length more)))) too_many_arguments
        guard (not (is_nil a.raw)) empty_first_argument
        loops ← nested_loops more
        check ← read_kwargs d.kwargs true
        ok (record {
          tile_size = a.raw;
          first_loop = loops.0;
          second_loop = loops.1;
          check = check;
        })
    ]

  -- The loop of `parseMaxInnerDims` from the argument `i` on.
  abbrev pub fill_sizes : ℕ → List (OklAttrParam N) → List ℤ → Result (List ℤ)
  fill_sizes i [] sizes = ok sizes
  fill_sizes i (a ∷ more) sizes = elim a.get_int [
    | none ↦ err not_positive
    | some (negsuc n) ↦ err not_positive
    | some (pos n) ↦ fill_sizes (suc i) more (set sizes i (pos n))
  ]

  unfoldable pub parse_max_inner_dims : OklParsedAttr N → Result (List ℤ)
  parse_max_inner_dims d = do
    guard (is_nil d.kwargs) takes_no_kwargs
    guard (not (is_nil d.args)) expects_an_argument
    guard (not (ltb 3 (length d.args))) too_many_arguments
    fill_sizes 0 d.args (unset ∷ unset ∷ unset ∷ [])

  unfoldable pub parse_simd_length_attr_params : OklParsedAttr N → Result ℕ
  parse_simd_length_attr_params d = do
    guard (is_nil d.kwargs) takes_no_kwargs
    guard (length d.args == 1) takes_one_argument
    simd_size (first_int d.args)

  abbrev barrier_type : List (OklAttrParam N) → Result BarrierType
  barrier_type [] = ok sync_default
  barrier_type (a ∷ more) = elim a.get_string [
    | none ↦ err not_a_string
    | some s ↦ if bytes_eq s warp_text then ok sync_warp else err bad_barrier_type
  ]

  unfoldable pub parse_barrier_attr_params : OklParsedAttr N → Result BarrierType
  parse_barrier_attr_params d = do
    guard (is_nil d.kwargs) takes_no_kwargs
    guard (not (ltb 1 (length d.args))) too_many_arguments
    barrier_type d.args

  -- `parseDimAttrParams`
  abbrev pub raws : List (OklAttrParam N) → List Bytes
  raws [] = []
  raws (a ∷ more) = a.raw ∷ raws more

  unfoldable pub parse_dim_attr_params : OklParsedAttr N → Result (List Bytes)
  parse_dim_attr_params d = do
    guard (is_nil d.kwargs) takes_no_kwargs
    guard (not (is_nil d.args)) expects_an_argument
    ok (raws d.args)

  -- The loop of `parseDimOrderAttrParams`.
  unfoldable pub read_order : List (OklAttrParam N) → List ℕ → Result (List ℕ)
  read_order [] idx = ok idx
  read_order (a ∷ more) idx = elim a.get_size_t [
    | none ↦ err not_an_index
    | some i ↦
        let rest = read_order more (idx ++ (i ∷ [])) in
        if contains i idx then err duplicate_index else rest
  ]

  unfoldable pub parse_dim_order_attr_params : OklParsedAttr N → Result (List ℕ)
  unfolding read_order
  parse_dim_order_attr_params d = do
    guard (is_nil d.kwargs) takes_no_kwargs
    guard (not (is_nil d.args)) expects_an_argument
    read_order d.args []
