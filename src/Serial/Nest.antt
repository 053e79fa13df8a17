-- ===== src/Serial/Nest.antt =====
-- The two loops and the check of a tiled loop in serial code as loops of C, and the values that they
-- run through.
use occa_transpiler.Base.{
  ℕ, suc, ◌+◌, ◌<◌, Bool, true, List, [], ◌∷◌, ◌++◌, ◌≡◌, refl, ap, ◌&&◌, ◌∙◌, sym, arith, ◌⊎◌, inl,
  inr,
}
use mathlib.Core.Path.{fun_ext}
use occa_transpiler.Ast.{Bytes, Expr}
use occa_transpiler.Result.{ok}
use occa_transpiler.Loop.{
  LoopInfo, lt, unary, UnOp, pre_inc, post_inc, pre_dec, post_dec, other_un, is_inc, is_unary,
}
use occa_transpiler.Params.{TileParams}
use occa_transpiler.Text.Literal.{codes}
use occa_transpiler.Text.Template.{clean, clean-append, fmt-template}
use occa_transpiler.Rewrite.{text_of, get_unary_str}
use occa_transpiler.Device.{get_tiled_variable_name}
use occa_transpiler.Reading.{CExpr, operand, paren, plus, show, eval, is_read, alone, Place}
use occa_transpiler.Serial.{
  build_first_loop_string, second_loop_line, build_second_loop_string, build_check_string,
}
use occa_transpiler.Serial.Iterations.{values, below, each_tile, tiles-range, values-range}

-- `T v = init; v < bound; update`, where the update is `++v`, `v++` or `v += step`.
pub data Update : Type 0 where
  increment : UnOp → Update
  add_step : CExpr → Update

pub record ForHeader : Type 0 where
  pub type : Bytes
  pub var : Bytes
  pub init : CExpr
  pub bound : CExpr
  pub update : Update

abbrev show_update : Bytes → Update → Bytes → Bytes
show_update var (increment op) rest = get_unary_str op var ++ rest
show_update var (add_step e) rest = var ++ (codes " += " ++ show e rest)

abbrev pub header_text : ForHeader → Bytes
header_text h =
    codes "("
    ++ (h.type
        ++ (codes " "
            ++ (h.var
                ++ (codes " = "
                    ++ show h.init (
                        codes "; "
                        ++ (h.var
                            ++ (codes " < "
                                ++ show h.bound
                                    (codes "; " ++ show_update h.var h.update (codes ")")))))))))

-- C groups the expressions of the header as their trees; the bound stands behind `<`.
abbrev update_read : Update → Bool
update_read (increment op) = true
update_read (add_step e) = is_read alone e

abbrev pub header_read : ForHeader → Bool
header_read h = is_read alone h.init && (is_read Place.sum h.bound && update_read h.update)

abbrev step_of : (Bytes → ℕ) → Update → ℕ
step_of env (increment op) = 1
step_of env (add_step e) = eval env e

-- The values of the loop, on fuel.
abbrev pub run_header : ℕ → (Bytes → ℕ) → ForHeader → List ℕ
run_header fuel env h = values fuel (eval env h.init) (eval env h.bound) (step_of env h.update)

abbrev pub outer_header : LoopInfo → TileParams → Bytes → Bytes → ForHeader
outer_header l params start end = record {
  type = l.var_type_name;
  var = get_tiled_variable_name l;
  init = paren (operand start);
  bound = operand end;
  update = add_step (operand params.tile_size);
}

abbrev pub inner_header : LoopInfo → TileParams → UnOp → ForHeader
inner_header l params op = record {
  type = l.var_type_name;
  var = l.var_name;
  init = operand (get_tiled_variable_name l);
  bound = paren (plus (operand (get_tiled_variable_name l)) (operand params.tile_size));
  update = increment op;
}

-- A loop that counts up to an end with `<` and `++`, with no `{` in its texts.
pub record CountsUp (latest : Expr → Bytes) (l : LoopInfo) (params : TileParams) (start end : Bytes)
    (op : UnOp) : Type 0 where
  pub cond : l.condition_op ≡ lt
  pub inc : l.inc ≡ unary op
  pub up : (op ≡ pre_inc) ⊎ (op ≡ post_inc)
  pub start_is : text_of latest l.range_start ≡ ok start
  pub end_is : text_of latest l.range_end ≡ ok end
  pub type_clean : clean l.var_type_name ≡ true
  pub name_clean : clean l.var_name ≡ true
  pub start_clean : clean start ≡ true
  pub end_clean : clean end ≡ true
  pub tile_clean : clean params.tile_size ≡ true

unary_clean : (op : UnOp) (var : Bytes) → clean var ≡ true → clean (get_unary_str op var) ≡ true
unary_clean pre_inc var h = clean-append (codes "++") var refl h
unary_clean post_inc var h = clean-append var (codes "++") h refl
unary_clean pre_dec var h = clean-append (codes "--") var refl h
unary_clean post_dec var h = clean-append var (codes "--") h refl
unary_clean other_un var h = refl

module _ (latest : Expr → Bytes) (l : LoopInfo) (params : TileParams) (start end : Bytes)
    (op : UnOp) (h : CountsUp latest l params start end op) where
  counts_is_inc : is_inc l ≡ true
  unfolding is_inc
  counts_is_inc = elim h.up [
    | inl e ↦ rw (is_inc, h.cond, h.inc, e) refl
    | inr e ↦ rw (is_inc, h.cond, h.inc, e) refl
  ]

  counts_is_unary : is_unary l ≡ true
  unfolding is_unary
  counts_is_unary = elim h.up [
    | inl e ↦ rw (is_unary, h.inc, e) refl
    | inr e ↦ rw (is_unary, h.inc, e) refl
  ]

  tiled_clean : clean (get_tiled_variable_name l) ≡ true
  tiled_clean = clean-append (codes "_occa_tiled_") l.var_name refl h.name_clean

  first_text :
      (n : ℕ)
      → build_first_loop_string latest l params n
        ≡ ok ((codes " " ++ header_text (outer_header l params start end)) ++ codes " {\n", suc n)
  unfolding build_first_loop_string
  first_text n =
      rw
        (
          build_first_loop_string,
          counts_is_inc,
          h.inc,
          h.start_is,
          h.end_is,
          h.cond,
          fmt-template (codes " (")
              ((l.var_type_name, codes " ")
                ∷ (get_tiled_variable_name l, codes " = (")
                ∷ (start, codes "); ")
                ∷ (get_tiled_variable_name l, codes " ")
                ∷ (codes "<", codes " ")
                ∷ (end, codes "; ")
                ∷ (get_tiled_variable_name l, codes " ")
                ∷ (codes "+=", codes " ")
                ∷ (params.tile_size, codes ")")
                ∷ [])
              refl
              (
                (h.type_clean, refl),
                (
                  (tiled_clean, refl),
                  (
                    (h.start_clean, refl),
                    (
                      (tiled_clean, refl),
                      (
                        (refl, refl),
                        (
                          (h.end_clean, refl),
                          ((tiled_clean, refl), ((refl, refl), ((h.tile_clean, refl), tt))),
                        ),
                      ),
                    ),
                  ),
                ),
              ),
        )
        refl

  second_text :
      (compound : Bool) (n : ℕ)
      → params.check ≡ true
      → build_second_loop_string latest compound l params n
        ≡ ok ((codes "for " ++ header_text (inner_header l params op)) ++ codes " {\n", suc n)
  unfolding build_second_loop_string second_loop_line
  second_text compound n c =
      rw
        (
          build_second_loop_string,
          second_loop_line,
          counts_is_unary,
          counts_is_inc,
          c,
          h.inc,
          fmt-template (codes "for (")
              ((l.var_type_name, codes " ")
                ∷ (l.var_name, codes " = ")
                ∷ (get_tiled_variable_name l, codes "; ")
                ∷ (l.var_name, codes " ")
                ∷ (codes "<", codes " (")
                ∷ (get_tiled_variable_name l, codes " ")
                ∷ (codes "+", codes " ")
                ∷ (params.tile_size, codes "); ")
                ∷ (get_unary_str op l.var_name, codes ")")
                ∷ [])
              refl
              (
                (h.type_clean, refl),
                (
                  (h.name_clean, refl),
                  (
                    (tiled_clean, refl),
                    (
                      (h.name_clean, refl),
                      (
                        (refl, refl),
                        (
                          (tiled_clean, refl),
                          (
                            (refl, refl),
                            (
                              (h.tile_clean, refl),
                              ((unary_clean op l.var_name h.name_clean, refl), tt),
                            ),
                          ),
                        ),
                      ),
                    ),
                  ),
                ),
              ),
        )
        refl

  check_text :
      (n : ℕ)
      → build_check_string latest true l n
        ≡ ok (codes "if (" ++ (l.var_name ++ (codes " < " ++ (end ++ codes ")"))), n)
  unfolding build_check_string
  check_text n =
      rw
        (
          build_check_string,
          h.end_is,
          h.cond,
          fmt-template (codes "if (")
              ((l.var_name, codes " ") ∷ (codes "<", codes " ") ∷ (end, codes ")") ∷ []) refl
              ((h.name_clean, refl), ((refl, refl), ((h.end_clean, refl), tt))),
        )
        refl

  -- A loop that counts up to its end with `<` and `++`, with the check and a body in braces: the loop over the tiles, the loop in
  -- a tile and the check are written, and for a positive tile size the values
  -- that pass the check are those of the original loop, in their order.
  pub nest-original :
      (a b size n m : ℕ) (env : ℕ → Bytes → ℕ)
      → params.check ≡ true
      → 0 < size
      → ((t : ℕ) → env t (get_tiled_variable_name l) ≡ t)
      → ((t : ℕ) → env t start ≡ a)
      → ((t : ℕ) → env t end ≡ b)
      → ((t : ℕ) → env t params.tile_size ≡ size)
      → (build_first_loop_string latest l params n
          ≡ ok
              ((codes " " ++ header_text (outer_header l params start end)) ++ codes " {\n", suc n))
        × (build_second_loop_string latest true l params m
            ≡ ok ((codes "for " ++ header_text (inner_header l params op)) ++ codes " {\n", suc m))
        × (build_check_string latest true l m
            ≡ ok (codes "if (" ++ (l.var_name ++ (codes " < " ++ (end ++ codes ")"))), m))
        × (each_tile
              (λ t. below b (run_header size (env t) (inner_header l params op)))
              (run_header b (env 0) (outer_header l params start end))
            ≡ values b a b 1)
  nest-original a b size n m env c p tiled_is a_is b_is size_is =
      let body : (t : ℕ)
          → below b (run_header size (env t) (inner_header l params op))
            ≡ below b (values size t (t + size) 1) =
        λ t. rw (tiled_is t, size_is t) refl in
      (
        first_text n,
        second_text true m c,
        check_text m,
        ap (λ f. each_tile f (run_header b (env 0) (outer_header l params start end)))
              (fun_ext body)
            ∙ rw (a_is 0, b_is 0, size_is 0) (tiles-range size b p b a (omega arith))
            ∙ sym (values-range b a b (omega arith)),
      )
