-- ===== src/Device/Scopes.antt =====
-- The scopes that the prefix of a tiled loop opens, and those that its suffix closes.
use occa_transpiler.Base.{ℕ, zero, suc, ◌+◌, Bool, false, some, [], ◌∷◌, ◌++◌, ◌≡◌, refl, arith}
use occa_transpiler.Ast.{Bytes, Expr}
use occa_transpiler.Result.{Result, ok}
use occa_transpiler.Loop.{regular, inner, outer, Axis, x, y, z, auto, LoopInfo}
use occa_transpiler.Params.{AttributedLoop, TileParams}
use occa_transpiler.Text.{fmt}
use occa_transpiler.Text.Literal.{codes}
use occa_transpiler.Text.Plain.{Plain, opens, closes, occurrences-append, holes}
use occa_transpiler.Rewrite.{build_close_scopes}
use occa_transpiler.Device.{
  axis_to_str, dpcpp_axis_to_str, get_idx_variable, dpcpp_get_idx_variable, cuda_unary_format,
  dpcpp_unary_format, build_regular_second, build_inner_outer_second, build_second,
  build_preffix_tiled_code,
}
use occa_transpiler.Device.Dpcpp.{dpcpp_build_preffix_tiled_code}
use occa_transpiler.Device.Lines.{
  IsPlain, Opening, PlainTexts, fmt-IsPlain, bind-Opening, scope_before-Opening,
  inner_outer_second_line-IsPlain, build_regular_second-Opening, build_check_line-Opening,
  build_first-Opening, ◌&◌,
}

module _ (latest : Expr → Bytes) (l : LoopInfo) (params : TileParams)
    (h : PlainTexts latest l params) (idx_variable : AttributedLoop → Result Bytes)
    (idx_plain : (loop : AttributedLoop) → IsPlain (idx_variable loop)) (unary_format : Bytes)
    (five : holes false unary_format ≡ some 5) (compound : Bool) where
  build_second-Opening :
      (n : ℕ) → Opening n (build_second latest idx_variable unary_format compound l params n)
  unfolding build_second build_inner_outer_second
  build_second-Opening n =
      let index : Opening n
          (build_inner_outer_second latest idx_variable unary_format l params.second_loop n) =
        bind-Opening _ _ n (idx_plain params.second_loop) λ idx hi.
          bind-Opening _ _ n
            (inner_outer_second_line-IsPlain latest l params h idx_variable idx_plain unary_format
              five idx hi)
            λ line k. scope_before-Opening n line k in
      elim params.second_loop.type
        as (λ t. Opening n (elim t [
          | regular ↦ build_regular_second latest compound l params n
          | _ ↦ build_inner_outer_second latest idx_variable unary_format l params.second_loop n
        ])) [
          | regular ↦ build_regular_second-Opening latest l params h compound n
          | inner ↦ index
          | outer ↦ index
        ]

  prefix-Opening :
      Opening 0 (build_preffix_tiled_code latest idx_variable unary_format compound l params)
  unfolding build_preffix_tiled_code
  prefix-Opening =
      let (s, m, e, o, c) =
        build_first-Opening latest l params h idx_variable idx_plain unary_format five compound 0 in
      let (t, k, e', o', c') = build_second-Opening m in
      let (u, j, e'', o'', c'') = build_check_line-Opening latest l params h compound k in
      rw (build_preffix_tiled_code, e, e', e'')
        (
          s ++ (t ++ u),
          j,
          refl,
          omega (arith, occurrences-append 123 s (t ++ u), occurrences-append 123 t u, o, o', o''),
          omega (arith, occurrences-append 125 s (t ++ u), occurrences-append 125 t u, c, c', c''),
        )

axis_to_str-Plain : (a : Axis) → Plain (axis_to_str a)
axis_to_str-Plain x = refl
axis_to_str-Plain y = refl
axis_to_str-Plain z = refl
axis_to_str-Plain auto = refl

dpcpp_axis_to_str-Plain : (a : Axis) → Plain (dpcpp_axis_to_str a)
dpcpp_axis_to_str-Plain x = refl
dpcpp_axis_to_str-Plain y = refl
dpcpp_axis_to_str-Plain z = refl
dpcpp_axis_to_str-Plain auto = refl

get_idx_variable-IsPlain : (loop : AttributedLoop) → IsPlain (get_idx_variable loop)
unfolding get_idx_variable
get_idx_variable-IsPlain loop =
    elim loop.type
      as (λ t. IsPlain (elim t [
        | inner ↦ fmt (codes "threadIdx.{}") (axis_to_str loop.axis ∷ [])
        | outer ↦ fmt (codes "blockIdx.{}") (axis_to_str loop.axis ∷ [])
        | regular ↦ ok []
      ])) [
        | inner ↦ fmt-IsPlain _ _ refl (axis_to_str-Plain loop.axis & tt)
        | outer ↦ fmt-IsPlain _ _ refl (axis_to_str-Plain loop.axis & tt)
        | regular ↦ ([], refl, refl)
      ]

dpcpp_get_idx_variable-IsPlain : (loop : AttributedLoop) → IsPlain (dpcpp_get_idx_variable loop)
unfolding dpcpp_get_idx_variable
dpcpp_get_idx_variable-IsPlain loop =
    elim loop.type
      as (λ t. IsPlain (elim t [
        | inner ↦ fmt (codes "item.get_local_id({})") (dpcpp_axis_to_str loop.axis ∷ [])
        | outer ↦ fmt (codes "item_.get_group({})") (dpcpp_axis_to_str loop.axis ∷ [])
        | regular ↦ ok []
      ])) [
        | inner ↦ fmt-IsPlain _ _ refl (dpcpp_axis_to_str-Plain loop.axis & tt)
        | outer ↦ fmt-IsPlain _ _ refl (dpcpp_axis_to_str-Plain loop.axis & tt)
        | regular ↦ ([], refl, refl)
      ]

closes-build_close_scopes : (n : ℕ) → closes (build_close_scopes n) ≡ n
closes-build_close_scopes zero = refl
closes-build_close_scopes (suc n) = omega (arith, closes-build_close_scopes n)

opens-build_close_scopes : (n : ℕ) → opens (build_close_scopes n) ≡ 0
opens-build_close_scopes zero = refl
opens-build_close_scopes (suc n) = omega (arith, opens-build_close_scopes n)

-- A prefix and a suffix that leave a body balanced.
abbrev pub Wraps : Result (Bytes × ℕ) → Type 0
Wraps r =
    (prefix : Bytes) × (n : ℕ) × (r ≡ ok (prefix, n))
    × ((body : Bytes)
        → opens (prefix ++ (body ++ build_close_scopes n)) + closes body
          ≡ closes (prefix ++ (body ++ build_close_scopes n)) + opens body)

Opening-Wraps : (r : Result (Bytes × ℕ)) → Opening 0 r → Wraps r
Opening-Wraps r (s, n, e, o, c) = (
  s,
  n,
  e,
  λ body. omega (
    arith,
    o,
    c,
    occurrences-append 123 s (body ++ build_close_scopes n),
    occurrences-append 125 s (body ++ build_close_scopes n),
    occurrences-append 123 body (build_close_scopes n),
    occurrences-append 125 body (build_close_scopes n),
    opens-build_close_scopes n,
    closes-build_close_scopes n,
  ),
)

-- The prefix of a tiled loop, for CUDA and for DPC++: for texts without brackets that are read through
-- no null pointer, it is written, and the scopes that it opens are as many as the suffix closes,
-- whatever the types of the two loops, the check and the body are.
pub prefix-Wraps :
    (latest : Expr → Bytes) (l : LoopInfo) (params : TileParams) (compound : Bool)
    → PlainTexts latest l params
    → Wraps (build_preffix_tiled_code latest get_idx_variable cuda_unary_format compound l params)
      × Wraps (dpcpp_build_preffix_tiled_code latest compound l params)
prefix-Wraps latest l params compound h = (
  Opening-Wraps _ (
      prefix-Opening latest l params h get_idx_variable get_idx_variable-IsPlain cuda_unary_format
        refl compound),
  Opening-Wraps _ (
      prefix-Opening latest l params h dpcpp_get_idx_variable dpcpp_get_idx_variable-IsPlain
        dpcpp_unary_format refl compound),
)
