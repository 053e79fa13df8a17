-- ===== src/Device/Lines.antt =====
-- The lines of a tiled loop have no brackets of their own: what each builder opens is what it counts.
use occa_transpiler.Base.{
  ℕ, suc, ◌+◌, Bool, true, false, not, ◌||◌, some, List, [], ◌++◌, ◌≡◌, refl, ◌⊎◌, inl, inr,
  Bool-cases, arith, if◌then◌else◌, length, All,
}
use occa_transpiler.Ast.{Bytes, Expr}
use occa_transpiler.Result.{Result, ok, ◌>>=◌}
use occa_transpiler.Loop.{
  regular, inner, outer, LoopInfo, BinOp, eq, le, lt, ge, gt, add_assign, remove_assign, other_bin,
  is_inc, is_unary, Inc, unary, assign, pre_inc, post_inc, pre_dec, post_dec, other_un,
}
use occa_transpiler.Params.{AttributedLoop, TileParams}
use occa_transpiler.Text.{fmt}
use occa_transpiler.Text.Literal.{codes}
use occa_transpiler.Text.Plain.{
  Plain, plain-append, opens, closes, occurrences-append, opens-plain, closes-plain, holes,
  fmt-plain,
}
use occa_transpiler.Rewrite.{get_cond_comp_str, text_of, step_text}
use occa_transpiler.Device.{
  get_tiled_variable_name, sign_of, update_of, compare_of, unary_text, scope_before, scope_after,
  build_regular_first, regular_second_line, build_regular_second, build_check_line,
  inner_outer_first_line, build_inner_outer_first, inner_outer_second_line, build_first,
}

-- A text that a builder returns, without brackets.
abbrev pub IsPlain : Result Bytes → Type 0
IsPlain r = (s : Bytes) × (r ≡ ok s) × Plain s

-- Code that opens as many scopes as the counter grows by, and closes none.
abbrev pub Opening : ℕ → Result (Bytes × ℕ) → Type 0
Opening n r = (s : Bytes) × (m : ℕ) × (r ≡ ok (s, m)) × (opens s + n ≡ m) × (closes s ≡ 0)

-- The texts of a loop and of its parameters: none has a bracket, and none is read through a null
-- pointer.
pub record PlainTexts (latest : Expr → Bytes) (l : LoopInfo) (params : TileParams) : Type 0 where
  pub type_name : Plain l.var_type_name
  pub name : Plain l.var_name
  pub tile : Plain params.tile_size
  pub start : IsPlain (text_of latest l.range_start)
  pub end : IsPlain (text_of latest l.range_end)
  pub step : (is_unary l ≡ true) ⊎ ((is_unary l ≡ false) × IsPlain (step_text latest l.inc))

pub fmt-IsPlain :
    (s : Bytes) (vs : List Bytes)
    → holes false s ≡ some (length vs)
    → All Plain vs
    → IsPlain (fmt s vs)
fmt-IsPlain s vs h k = fmt-plain s vs h k

pub sign_of-Plain : (l : LoopInfo) → Plain (sign_of l)
sign_of-Plain l = elim (Bool-cases (is_inc l)) [ inl e ↦ rw e refl | inr e ↦ rw e refl ]

pub update_of-Plain : (l : LoopInfo) → Plain (update_of l)
update_of-Plain l = elim (Bool-cases (is_inc l)) [ inl e ↦ rw e refl | inr e ↦ rw e refl ]

pub compare_of-Plain : (l : LoopInfo) → Plain (compare_of l)
compare_of-Plain l = elim (Bool-cases (is_inc l)) [ inl e ↦ rw e refl | inr e ↦ rw e refl ]

pub get_cond_comp_str-Plain : (op : BinOp) → Plain (get_cond_comp_str op)
get_cond_comp_str-Plain eq = refl
get_cond_comp_str-Plain le = refl
get_cond_comp_str-Plain lt = refl
get_cond_comp_str-Plain gt = refl
get_cond_comp_str-Plain ge = refl
get_cond_comp_str-Plain add_assign = refl
get_cond_comp_str-Plain remove_assign = refl
get_cond_comp_str-Plain other_bin = refl

pub unary_text-Plain : (i : Inc) (var : Bytes) → Plain var → Plain (unary_text i var)
unary_text-Plain (unary pre_inc) var h = plain-append (codes "++") var refl h
unary_text-Plain (unary post_inc) var h = plain-append var (codes "++") h refl
unary_text-Plain (unary pre_dec) var h = plain-append (codes "--") var refl h
unary_text-Plain (unary post_dec) var h = plain-append var (codes "--") h refl
unary_text-Plain (unary other_un) var h = refl
unary_text-Plain (assign op e) var h = refl

pub tiled-Plain : (l : LoopInfo) → Plain l.var_name → Plain (get_tiled_variable_name l)
tiled-Plain l h = plain-append (codes "_occa_tiled_") l.var_name refl h

pub scope_before-Opening : (n : ℕ) (line : Bytes) → Plain line → Opening n (scope_before n line)
scope_before-Opening n line h = (
  codes " {\n" ++ line,
  suc n,
  refl,
  omega (arith, opens-plain line h),
  omega (arith, closes-plain line h),
)

pub scope_after-Opening :
    (opened : Bool) (n : ℕ) (line : Bytes) → Plain line → Opening n (scope_after opened n line)
scope_after-Opening true n line h = (
  line ++ codes " {\n",
  suc n,
  refl,
  omega (arith, occurrences-append 123 line (codes " {\n"), opens-plain line h),
  omega (arith, occurrences-append 125 line (codes " {\n"), closes-plain line h),
)
scope_after-Opening false n line h =
    (line, n, refl, omega (arith, opens-plain line h), closes-plain line h)

pub bind-Opening :
    (r : Result Bytes) (next : Bytes → Result (Bytes × ℕ)) (n : ℕ)
    → IsPlain r
    → ((s : Bytes) → Plain s → Opening n (next s))
    → Opening n (r >>= next)
bind-Opening r next n (s, e, h) f = rw e (f s h)

pub bind-IsPlain :
    (r : Result Bytes) (next : Bytes → Result Bytes)
    → IsPlain r
    → ((s : Bytes) → Plain s → IsPlain (next s))
    → IsPlain (r >>= next)
bind-IsPlain r next (s, e, h) f = rw e (f s h)

pub either-IsPlain :
    (b : Bool) (one other : Result Bytes) {T : Type 0}
    → (b ≡ true) ⊎ ((b ≡ false) × T)
    → (b ≡ true → IsPlain one)
    → (T → IsPlain other)
    → IsPlain (if b then one else other)
either-IsPlain b one other (inl e) f g = rw e (f e)
either-IsPlain b one other (inr (e, t)) f g = rw e (g t)

-- One more value.
infixr 4 ◌&◌
abbrev pub ◌&◌ : {A B : Type 0} → A → B → A × B
a & b = (a, b)

module _ (latest : Expr → Bytes) (l : LoopInfo) (params : TileParams)
    (h : PlainTexts latest l params) where
  build_regular_first-Opening : (n : ℕ) → Opening n (build_regular_first latest l params n)
  unfolding build_regular_first
  build_regular_first-Opening n = bind-Opening _ _ n h.start λ s hs.
      bind-Opening _ _ n h.end λ t ht.
        bind-Opening _ _ n
          (fmt-IsPlain _ _ refl (
            h.type_name
            & tiled-Plain l h.name
            & hs
            & tiled-Plain l h.name
            & get_cond_comp_str-Plain l.condition_op
            & ht
            & tiled-Plain l h.name
            & update_of-Plain l
            & h.tile
            & tt))
          λ line k. scope_after-Opening true n line k

  regular_second_line-IsPlain : IsPlain (regular_second_line latest l params)
  unfolding regular_second_line
  regular_second_line-IsPlain =
      either-IsPlain _ _ _ h.step
        (λ e. fmt-IsPlain _ _ refl (
          h.type_name
          & h.name
          & tiled-Plain l h.name
          & h.name
          & compare_of-Plain l
          & tiled-Plain l h.name
          & sign_of-Plain l
          & h.tile
          & unary_text-Plain l.inc l.var_name h.name
          & tt))
        (λ st. bind-IsPlain _ _ st λ s hs. fmt-IsPlain _ _ refl (
          h.type_name
          & h.name
          & tiled-Plain l h.name
          & h.name
          & compare_of-Plain l
          & tiled-Plain l h.name
          & sign_of-Plain l
          & h.tile
          & h.name
          & update_of-Plain l
          & hs
          & tt))

  pub build_regular_second-Opening :
      (compound : Bool) (n : ℕ) → Opening n (build_regular_second latest compound l params n)
  unfolding build_regular_second
  build_regular_second-Opening compound n =
      bind-Opening _ _ n regular_second_line-IsPlain
        λ line k. scope_after-Opening (params.check || not compound) n line k

  pub build_check_line-Opening :
      (compound : Bool) (n : ℕ) → Opening n (build_check_line latest compound l params n)
  unfolding build_check_line
  build_check_line-Opening compound n = elim (Bool-cases params.check) [
    | inl e ↦ rw e (
        bind-Opening _ _ n h.end λ t ht.
          bind-Opening _ _ n
            (fmt-IsPlain _ _ refl (h.name & get_cond_comp_str-Plain l.condition_op & ht & tt))
            λ line k. scope_after-Opening (not compound) n line k)
    | inr e ↦ rw e ([], n, refl, omega arith, refl)
  ]

  module _ (idx_variable : AttributedLoop → Result Bytes)
      (idx_plain : (loop : AttributedLoop) → IsPlain (idx_variable loop)) (unary_format : Bytes)
      (five : holes false unary_format ≡ some 5) where
    pub inner_outer_first_line-IsPlain :
        (start idx : Bytes)
        → Plain start
        → Plain idx
        → IsPlain (inner_outer_first_line latest idx_variable l params start idx)
    unfolding inner_outer_first_line
    inner_outer_first_line-IsPlain start idx hs hi =
        either-IsPlain _ _ _ h.step
          (λ e.
            fmt-IsPlain _ _ refl
              (h.type_name & tiled-Plain l h.name & hs & sign_of-Plain l & h.tile & hi & tt))
          (λ st. bind-IsPlain _ _ st λ s k.
            fmt-IsPlain _ _ refl
              (h.type_name & tiled-Plain l h.name & hs & sign_of-Plain l & h.tile & k & hi & tt))

    pub inner_outer_second_line-IsPlain :
        (idx : Bytes)
        → Plain idx
        → IsPlain (inner_outer_second_line latest idx_variable unary_format l idx)
    unfolding inner_outer_second_line
    inner_outer_second_line-IsPlain idx hi =
        either-IsPlain _ _ _ h.step
          (λ e.
            fmt-IsPlain unary_format _ five
              (h.type_name & h.name & tiled-Plain l h.name & sign_of-Plain l & hi & tt))
          (λ st. bind-IsPlain _ _ st λ s k.
            fmt-IsPlain _ _ refl
              (h.type_name & h.name & tiled-Plain l h.name & sign_of-Plain l & k & hi & tt))

    pub build_first-Opening :
        (compound : Bool) (n : ℕ)
        → Opening n (build_first latest idx_variable unary_format compound l params n)
    unfolding build_first build_inner_outer_first
    build_first-Opening compound n =
        let index : Opening n
            (build_inner_outer_first latest idx_variable l params.first_loop params n) =
          bind-Opening _ _ n (idx_plain params.first_loop) λ idx hi.
            bind-Opening _ _ n h.start λ s hs.
              bind-Opening _ _ n (inner_outer_first_line-IsPlain s idx hs hi)
                λ line k. scope_before-Opening n line k in
        elim params.first_loop.type
          as (λ t. Opening n (elim t [
            | regular ↦ build_regular_first latest l params n
            | _ ↦ build_inner_outer_first latest idx_variable l params.first_loop params n
          ])) [ regular ↦ build_regular_first-Opening n | inner ↦ index | outer ↦ index ]
