-- ===== src/Serial/Scopes.antt =====
-- What the handler of a tiled loop in serial code inserts is balanced.
use occa_transpiler.Base.{
  ℕ, Bool, true, false, not, ◌||◌, List, [], ◌∷◌, ◌++◌, ◌≡◌, refl, arith, ◌⊎◌, inl, inr, Bool-cases,
}
use occa_transpiler.Ast.{Bytes, Expr}
use occa_transpiler.Loop.{LoopInfo, Inc, unary, assign, is_unary}
use occa_transpiler.Params.{TileParams}
use occa_transpiler.Text.Plain.{Plain}
use occa_transpiler.Rewrite.{
  Edit, remove_text, replace_text, insert_text, insert_text_after_token, step_text,
}
use occa_transpiler.Device.Lines.{
  IsPlain, Opening, PlainTexts, fmt-IsPlain, bind-Opening, bind-IsPlain, either-IsPlain,
  scope_after-Opening, sign_of-Plain, update_of-Plain, compare_of-Plain, unary_text-Plain,
  get_cond_comp_str-Plain, tiled-Plain, ◌&◌,
}
use occa_transpiler.Serial.{
  inc_val_str, build_first_loop_string, second_loop_line, build_second_loop_string,
  build_check_string, build_check,
}

-- All that a list of edits writes.
abbrev pub inserted : List Edit → Bytes
inserted [] = []
inserted (remove_text a b ∷ es) = inserted es
inserted (replace_text a b s ∷ es) = s ++ inserted es
inserted (insert_text l s after indent ∷ es) = s ++ inserted es
inserted (insert_text_after_token l s ∷ es) = s ++ inserted es

module _ (latest : Expr → Bytes) where
  inc_val_str-IsPlain :
      (l : LoopInfo) (i : Inc) (tile : Bytes)
      → Plain tile
      → (is_unary (record l { inc = i }) ≡ true)
        ⊎ ((is_unary (record l { inc = i }) ≡ false) × IsPlain (step_text latest i))
      → IsPlain (inc_val_str latest i tile)
  unfolding is_unary
  inc_val_str-IsPlain l (unary op) tile h u = (tile, refl, h)
  inc_val_str-IsPlain l (assign op e) tile h (inl u) = cc u
  inc_val_str-IsPlain l (assign op e) tile h (inr (u, (s, q, k))) =
      fmt-IsPlain _ _ refl (h & cc (q, k) & tt)

  module _ (l : LoopInfo) (params : TileParams) (h : PlainTexts latest l params) where
    pub build_first-Opening : (n : ℕ) → Opening n (build_first_loop_string latest l params n)
    unfolding build_first_loop_string
    build_first-Opening n =
        bind-Opening _ _ n (inc_val_str-IsPlain l l.inc params.tile_size h.tile h.step) λ v hv.
          bind-Opening _ _ n h.start λ s hs. bind-Opening _ _ n h.end λ t ht.
            bind-Opening _ _ n
              (fmt-IsPlain _ _ refl (
                h.type_name
                & tiled-Plain l h.name
                & hs
                & tiled-Plain l h.name
                & get_cond_comp_str-Plain l.condition_op
                & ht
                & tiled-Plain l h.name
                & update_of-Plain l
                & hv
                & tt))
              λ line k. scope_after-Opening true n line k

    second_loop_line-IsPlain : IsPlain (second_loop_line latest l params)
    unfolding second_loop_line
    second_loop_line-IsPlain =
        either-IsPlain _ _ _ h.step
          (λ e. fmt-IsPlain _ _ refl (
            h.type_name
            & h.name
            & tiled-Plain l h.name
            & h.name
            & compare_of-Plain l
            & tiled-Plain l h.name
            & sign_of-Plain l
            & h.tile
            & unary_text-Plain l.inc l.var_name h.name
            & tt))
          (λ st. bind-IsPlain _ _ st λ s hs. fmt-IsPlain _ _ refl (
            h.type_name
            & h.name
            & tiled-Plain l h.name
            & h.name
            & compare_of-Plain l
            & tiled-Plain l h.name
            & sign_of-Plain l
            & h.tile
            & h.name
            & update_of-Plain l
            & hs
            & tt))

    module _ (compound : Bool) where
      pub build_second-Opening :
          (n : ℕ) → Opening n (build_second_loop_string latest compound l params n)
      unfolding build_second_loop_string
      build_second-Opening n =
          bind-Opening _ _ n second_loop_line-IsPlain
            λ line k. scope_after-Opening (params.check || not compound) n line k

      pub build_check-Opening : (n : ℕ) → Opening n (build_check latest compound l params n)
      unfolding build_check_string
      build_check-Opening n = elim (Bool-cases params.check) [
        | inl e ↦ rw e (
            bind-Opening _ _ n h.end λ t ht.
              bind-Opening _ _ n
                (fmt-IsPlain _ _ refl (h.name & get_cond_comp_str-Plain l.condition_op & ht & tt))
                λ line k. scope_after-Opening (not compound) n line k)
        | inr e ↦ rw e ([], n, refl, omega arith, refl)
      ]
