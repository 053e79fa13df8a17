-- ===== src/Serial/Skips.antt =====
-- A tiled loop in serial code with a step other than 1: the tiles stand as far apart as their iterations
-- need, and the loop in a tile ends after as many values as the tile has iterations.
use occa_transpiler.Base.{
  ℕ, suc, ◌+◌, ◌*◌, ◌≤◌, ◌<◌, Bool, true, false, [], ◌∷◌, ◌++◌, ◌≡◌, refl, ap, ◌∙◌, arith,
  append_assoc, inl, inr, Bool-cases,
}
use mathlib.Core.Path.{fun_ext}
use occa_transpiler.Ast.{Bytes, Expr}
use occa_transpiler.Result.{ok}
use occa_transpiler.Loop.{LoopInfo, lt, assign, add_assign, is_inc, is_unary}
use occa_transpiler.Params.{TileParams}
use occa_transpiler.Attrs.{contains}
use occa_transpiler.Text.Literal.{codes}
use occa_transpiler.Text.Template.{clean, clean-append, fmt-template}
use occa_transpiler.Rewrite.{text_of}
use occa_transpiler.Device.{get_tiled_variable_name}
use occa_transpiler.Reading.{
  operand, paren, plus, times, is_balanced, is_sum, is_whole, is_whole-tiled, is_whole-is_sum,
  is_whole-is_balanced,
}
use occa_transpiler.Serial.{
  inc_val_str, build_first_loop_string, second_loop_line, build_second_loop_string,
}
use occa_transpiler.Serial.Iterations.{values, below, each_tile}
use occa_transpiler.Serial.Gaps.{tile_body, tiles-gap, too_far}
use occa_transpiler.Serial.Nest.{ForHeader, add_step, header_text, header_read, run_header}

-- A loop that counts up to an end with `<` and `v += step`, with no `{` in its texts; the brackets of the start
-- match, and outside of brackets the end has no operator but the arithmetic ones, and the tile size and the step none.
pub record CountsBy (latest : Expr → Bytes) (l : LoopInfo) (params : TileParams) (start end : Bytes)
    (e : Expr) : Type 0 where
  pub cond : l.condition_op ≡ lt
  pub inc : l.inc ≡ assign add_assign e
  pub start_is : text_of latest l.range_start ≡ ok start
  pub end_is : text_of latest l.range_end ≡ ok end
  pub type_clean : clean l.var_type_name ≡ true
  pub name_clean : clean l.var_name ≡ true
  pub start_clean : clean start ≡ true
  pub end_clean : clean end ≡ true
  pub tile_clean : clean params.tile_size ≡ true
  pub step_clean : clean (latest e) ≡ true
  pub start_balanced : is_balanced start ≡ true
  pub name_whole : is_whole l.var_name ≡ true
  pub end_sum : is_sum end ≡ true
  pub tile_whole : is_whole params.tile_size ≡ true
  pub step_whole : is_whole (latest e) ≡ true

abbrev pub outer_step_header : LoopInfo → TileParams → Bytes → Bytes → Bytes → ForHeader
outer_step_header l params start end step = record {
  type = l.var_type_name;
  var = get_tiled_variable_name l;
  init = paren (operand start);
  bound = operand end;
  update = add_step (paren (times (operand params.tile_size) (operand step)));
}

abbrev pub inner_step_header : LoopInfo → TileParams → Bytes → ForHeader
inner_step_header l params step = record {
  type = l.var_type_name;
  var = l.var_name;
  init = operand (get_tiled_variable_name l);
  bound = paren (plus (operand (get_tiled_variable_name l)) (operand params.tile_size));
  update = add_step (operand step);
}

module _ (latest : Expr → Bytes) (l : LoopInfo) (params : TileParams) (start end : Bytes) (e : Expr)
    (h : CountsBy latest l params start end e) where
  counts_is_inc : is_inc l ≡ true
  unfolding is_inc
  counts_is_inc = rw (is_inc, h.cond, h.inc) refl

  counts_is_unary : is_unary l ≡ false
  unfolding is_unary
  counts_is_unary = rw (is_unary, h.inc) refl

  tiled_clean : clean (get_tiled_variable_name l) ≡ true
  tiled_clean = clean-append (codes "_occa_tiled_") l.var_name refl h.name_clean

  abbrev step_product : Bytes
  step_product = codes "(" ++ (params.tile_size ++ (codes " * " ++ (latest e ++ codes ")")))

  step_text_is : inc_val_str latest l.inc params.tile_size ≡ ok step_product
  step_text_is = rw h.inc (
      fmt-template (codes "(") ((params.tile_size, codes " * ") ∷ (latest e, codes ")") ∷ []) refl
        ((h.tile_clean, refl), ((h.step_clean, refl), tt)))

  step_product-clean : clean step_product ≡ true
  step_product-clean =
      let right = codes " * " ++ (latest e ++ codes ")") in
      clean-append (codes "(") (params.tile_size ++ right) refl (
        clean-append params.tile_size right h.tile_clean
          (clean-append (latest e) (codes ")") h.step_clean refl))

  first_text :
      (n : ℕ)
      → build_first_loop_string latest l params n
        ≡ ok (
          (codes " " ++ header_text (outer_step_header l params start end (latest e)))
              ++ codes " {\n",
          suc n,
        )
  unfolding build_first_loop_string
  first_text n =
      rw
        (
          build_first_loop_string,
          step_text_is,
          counts_is_inc,
          h.start_is,
          h.end_is,
          h.cond,
          fmt-template (codes " (")
              ((l.var_type_name, codes " ")
                ∷ (get_tiled_variable_name l, codes " = (")
                ∷ (start, codes "); ")
                ∷ (get_tiled_variable_name l, codes " ")
                ∷ (codes "<", codes " ")
                ∷ (end, codes "; ")
                ∷ (get_tiled_variable_name l, codes " ")
                ∷ (codes "+=", codes " ")
                ∷ (step_product, codes ")")
                ∷ [])
              refl
              (
                (h.type_clean, refl),
                (
                  (tiled_clean, refl),
                  (
                    (h.start_clean, refl),
                    (
                      (tiled_clean, refl),
                      (
                        (refl, refl),
                        (
                          (h.end_clean, refl),
                          ((tiled_clean, refl), ((refl, refl), ((step_product-clean, refl), tt))),
                        ),
                      ),
                    ),
                  ),
                ),
              ),
        )
        (simp append_assoc refl)

  second_text :
      (compound : Bool) (n : ℕ)
      → params.check ≡ true
      → build_second_loop_string latest compound l params n
        ≡ ok (
          (codes "for " ++ header_text (inner_step_header l params (latest e))) ++ codes " {\n",
          suc n,
        )
  unfolding build_second_loop_string second_loop_line
  second_text compound n c =
      rw
        (
          build_second_loop_string,
          second_loop_line,
          counts_is_unary,
          counts_is_inc,
          c,
          h.inc,
          fmt-template (codes "for (")
              ((l.var_type_name, codes " ")
                ∷ (l.var_name, codes " = ")
                ∷ (get_tiled_variable_name l, codes "; ")
                ∷ (l.var_name, codes " ")
                ∷ (codes "<", codes " (")
                ∷ (get_tiled_variable_name l, codes " ")
                ∷ (codes "+", codes " ")
                ∷ (params.tile_size, codes "); ")
                ∷ (l.var_name, codes " ")
                ∷ (codes "+=", codes " ")
                ∷ (latest e, codes ")")
                ∷ [])
              refl
              (
                (h.type_clean, refl),
                (
                  (h.name_clean, refl),
                  (
                    (tiled_clean, refl),
                    (
                      (h.name_clean, refl),
                      (
                        (refl, refl),
                        (
                          (tiled_clean, refl),
                          (
                            (refl, refl),
                            (
                              (h.tile_clean, refl),
                              ((h.name_clean, refl), ((refl, refl), ((h.step_clean, refl), tt))),
                            ),
                          ),
                        ),
                      ),
                    ),
                  ),
                ),
              ),
        )
        refl

  outer_read : header_read (outer_step_header l params start end (latest e)) ≡ true
  outer_read = rw (h.start_balanced, h.end_sum, h.tile_whole, h.step_whole) refl

  inner_read : header_read (inner_step_header l params (latest e)) ≡ true
  inner_read =
      let tiled = get_tiled_variable_name l in
      let name = is_whole-tiled l.var_name h.name_whole in
      rw
        (
          is_whole-is_balanced tiled name,
          is_whole-is_sum tiled name,
          h.tile_whole,
          is_whole-is_balanced (latest e) h.step_whole,
        )
        refl

  -- A loop over an identifier that counts up to its end with `<` and `v += step`, with the check and a body in
  -- braces, no `{` in the texts, a start whose brackets match, and outside of brackets no operator but
  -- the arithmetic ones in the end and none in the tile size and the step: the two loops are written, with
  -- expressions that C groups as their trees, and an iteration number `k` of the original loop, where
  -- `k` is below the tile size and `step * k` is not, is not run through by them.
  pub nest_skips :
      (a b size step n m k : ℕ) (env : ℕ → Bytes → ℕ)
      → params.check ≡ true
      → k < size
      → size ≤ step * k
      → ((t : ℕ) → env t (get_tiled_variable_name l) ≡ t)
      → ((t : ℕ) → env t start ≡ a)
      → ((t : ℕ) → env t end ≡ b)
      → ((t : ℕ) → env t params.tile_size ≡ size)
      → ((t : ℕ) → env t (latest e) ≡ step)
      → (build_first_loop_string latest l params n
          ≡ ok (
            (codes " " ++ header_text (outer_step_header l params start end (latest e)))
                ++ codes " {\n",
            suc n,
          ))
        × (header_read (outer_step_header l params start end (latest e)) ≡ true)
        × (build_second_loop_string latest true l params m
            ≡ ok (
              (codes "for " ++ header_text (inner_step_header l params (latest e))) ++ codes " {\n",
              suc m,
            ))
        × (header_read (inner_step_header l params (latest e)) ≡ true)
        × (contains (a + step * k) (
              each_tile
                (λ t. below b (run_header size (env t) (inner_step_header l params (latest e))))
                (run_header b (env 0) (outer_step_header l params start end (latest e))))
            ≡ false)
  nest_skips a b size step n m k env c p q tiled_is a_is b_is size_is step_is =
      let body : (t : ℕ)
          → below b (run_header size (env t) (inner_step_header l params (latest e)))
            ≡ below b (values size t (t + size) step) =
        λ t. rw (tiled_is t, size_is t, step_is t) refl in
      (
        first_text n,
        outer_read,
        second_text true m c,
        inner_read,
        ap
              (λ f. contains (a + step * k) (
                each_tile f
                  (run_header b (env 0) (outer_step_header l params start end (latest e)))))
              (fun_ext body)
            ∙ rw (a_is 0, b_is 0, size_is 0, step_is 0)
                (elim (Bool-cases (
                  contains (a + step * k)
                    (each_tile (tile_body size step b) (values b a b (size * step))))) [
                      | inr none_such ↦ none_such
                      | inl there ↦ absurd (
                          too_far a size step k p q (
                            tiles-gap size step b b a b (size * step) (a + step * k) there
                              (omega (arith, q))))
                    ]),
      )
