-- ===== src/Device/Index.antt =====
-- What the two lines of a tiled loop compute, as expressions of C over the names and texts in them.
use occa_transpiler.Base.{
  ℕ, suc, ◌+◌, ◌*◌, true, false, Option, some, [], ◌∷◌, ◌++◌, ◌≡◌, refl, arith,
}
use occa_transpiler.Ast.{Bytes, Expr}
use occa_transpiler.Result.{ok}
use occa_transpiler.Loop.{LoopInfo, is_inc, is_unary}
use occa_transpiler.Params.{TileParams}
use occa_transpiler.Text.Literal.{codes}
use occa_transpiler.Text.Template.{clean, clean-append, fmt-template}
use occa_transpiler.Rewrite.{text_of, step_text}
use occa_transpiler.Reading.{
  CExpr, operand, paren, plus, times, show, eval, is_balanced, is_sum, is_whole, is_whole-tiled,
  is_whole-is_sum, is_whole-is_balanced, is_read, alone,
}
use occa_transpiler.Device.{
  get_idx_variable, cuda_unary_format, get_tiled_variable_name, inner_outer_first_line,
  inner_outer_second_line, build_inner_outer_first, build_inner_outer_second,
}

-- `T v = e;`
abbrev pub declaration : Bytes → Bytes → CExpr → Bytes
declaration type name e = type ++ (codes " " ++ (name ++ (codes " = " ++ show e (codes ";\n"))))

-- The texts that the two lines read, none with a `{`: an identifier, and two whose brackets match. The step, or none
-- for `++i` and `i++`, has no operator outside of brackets, since the first line writes it without its own.
pub record LineTexts (latest : Expr → Bytes) (l : LoopInfo) (start tile : Bytes) : Type 0 where
  pub increasing : is_inc l ≡ true
  pub type_clean : clean l.var_type_name ≡ true
  pub name_clean : clean l.var_name ≡ true
  pub tile_clean : clean tile ≡ true
  pub start_is : text_of latest l.range_start ≡ ok start
  pub start_clean : clean start ≡ true
  pub name_whole : is_whole l.var_name ≡ true
  pub start_balanced : is_balanced start ≡ true
  pub tile_balanced : is_balanced tile ≡ true

abbrev pub HasStep : (Expr → Bytes) → LoopInfo → Option Bytes → Type 0
HasStep latest l Option.none = is_unary l ≡ true
HasStep latest l (some s) =
    (is_unary l ≡ false) × (step_text latest l.inc ≡ ok s) × (clean s ≡ true) × (is_whole s ≡ true)

abbrev pub step_value : (Bytes → ℕ) → Option Bytes → ℕ
step_value env Option.none = 1
step_value env (some s) = env s

abbrev pub first_expr : Bytes → Bytes → Bytes → Option Bytes → CExpr
first_expr start tile idx Option.none =
    plus (paren (operand start)) (paren (times (paren (operand tile)) (operand idx)))
first_expr start tile idx (some s) =
    plus (paren (operand start))
      (paren (times (paren (times (paren (operand tile)) (operand s))) (operand idx)))

abbrev pub second_expr : Bytes → Bytes → Option Bytes → CExpr
second_expr tiled idx Option.none = plus (operand tiled) (operand idx)
second_expr tiled idx (some s) =
    plus (operand tiled) (paren (times (paren (operand s)) (operand idx)))

module _ (latest : Expr → Bytes) (l : LoopInfo) (params : TileParams) (start : Bytes)
    (h : LineTexts latest l start params.tile_size) where
  tiled_clean : clean (get_tiled_variable_name l) ≡ true
  tiled_clean = clean-append (codes "_occa_tiled_") l.var_name refl h.name_clean

  first_line :
      (idx : Bytes) (step : Option Bytes)
      → clean idx ≡ true
      → HasStep latest l step
      → inner_outer_first_line latest get_idx_variable l params start idx
        ≡ ok (
            declaration l.var_type_name
              (get_tiled_variable_name l)
              (first_expr start params.tile_size idx step))
  unfolding inner_outer_first_line
  first_line idx Option.none c u =
      rw (u, h.increasing)
        (fmt-template []
          ((l.var_type_name, codes " ")
            ∷ (get_tiled_variable_name l, codes " = (")
            ∷ (start, codes ") ")
            ∷ (codes "+", codes " ((")
            ∷ (params.tile_size, codes ") * ")
            ∷ (idx, codes ");\n")
            ∷ [])
          refl
          (
            (h.type_clean, refl),
            (
              (tiled_clean, refl),
              ((h.start_clean, refl), ((refl, refl), ((h.tile_clean, refl), ((c, refl), tt)))),
            ),
          ))
  first_line idx (some s) c (u, e, k, w) =
      rw (u, h.increasing, e)
        (fmt-template []
          ((l.var_type_name, codes " ")
            ∷ (get_tiled_variable_name l, codes " = (")
            ∷ (start, codes ") ")
            ∷ (codes "+", codes " (((")
            ∷ (params.tile_size, codes ") * ")
            ∷ (s, codes ") * ")
            ∷ (idx, codes ");\n")
            ∷ [])
          refl
          (
            (h.type_clean, refl),
            (
              (tiled_clean, refl),
              (
                (h.start_clean, refl),
                ((refl, refl), ((h.tile_clean, refl), ((k, refl), ((c, refl), tt)))),
              ),
            ),
          ))

  second_line :
      (idx : Bytes) (step : Option Bytes)
      → clean idx ≡ true
      → HasStep latest l step
      → inner_outer_second_line latest get_idx_variable cuda_unary_format l idx
        ≡ ok (
            declaration l.var_type_name l.var_name
              (second_expr (get_tiled_variable_name l) idx step))
  unfolding inner_outer_second_line
  second_line idx Option.none c u =
      rw (u, h.increasing)
        (fmt-template []
          ((l.var_type_name, codes " ")
            ∷ (l.var_name, codes " = ")
            ∷ (get_tiled_variable_name l, codes " ")
            ∷ (codes "+", codes " ")
            ∷ (idx, codes ";\n")
            ∷ [])
          refl
          (
            (h.type_clean, refl),
            ((h.name_clean, refl), ((tiled_clean, refl), ((refl, refl), ((c, refl), tt)))),
          ))
  second_line idx (some s) c (u, e, k, w) =
      rw (u, h.increasing, e)
        (fmt-template []
          ((l.var_type_name, codes " ")
            ∷ (l.var_name, codes " = ")
            ∷ (get_tiled_variable_name l, codes " ")
            ∷ (codes "+", codes " ((")
            ∷ (s, codes ") * ")
            ∷ (idx, codes ");\n")
            ∷ [])
          refl
          (
            (h.type_clean, refl),
            (
              (h.name_clean, refl),
              ((tiled_clean, refl), ((refl, refl), ((k, refl), ((c, refl), tt)))),
            ),
          ))

  first_read :
      (idx : Bytes) (step : Option Bytes)
      → is_whole idx ≡ true
      → HasStep latest l step
      → is_read alone (first_expr start params.tile_size idx step) ≡ true
  first_read idx Option.none w u = rw (h.start_balanced, h.tile_balanced, w) refl
  first_read idx (some s) w u = rw (h.start_balanced, h.tile_balanced, w, u.3) refl

  tiled_sum : is_sum (get_tiled_variable_name l) ≡ true
  tiled_sum = is_whole-is_sum (get_tiled_variable_name l) (is_whole-tiled l.var_name h.name_whole)

  second_read :
      (idx : Bytes) (step : Option Bytes)
      → is_whole idx ≡ true
      → HasStep latest l step
      → is_read alone (second_expr (get_tiled_variable_name l) idx step) ≡ true
  second_read idx Option.none w u = rw (tiled_sum, w) refl
  second_read idx (some s) w u = rw (tiled_sum, is_whole-is_balanced s u.3, w) refl

step_index : (a t s b i : ℕ) → (a + ((t * s) * b)) + (s * i) ≡ a + s * (t * b + i)
step_index a t s b i = omega arith

-- The value of the second line, where the variable of the first holds the first's.
second_value :
    (env : Bytes → ℕ) (tiled start tile block thread : Bytes) (step : Option Bytes)
    → env tiled ≡ eval env (first_expr start tile block step)
    → eval env (second_expr tiled thread step)
      ≡ env start + step_value env step * (env tile * env block + env thread)
second_value env tiled start tile block thread Option.none e = omega (arith, e)
second_value env tiled start tile block thread (some s) e =
    rw e (step_index (env start) (env tile) (env s) (env block) (env thread))

-- For the two lines of a tiled loop over an identifier that counts upwards, for CUDA, with an index for each of its two
-- loops, no `{` in the texts, a step without an operator outside of brackets, and a start and a tile size whose
-- brackets match: both lines are written, as declarations of
-- the tile's variable and of the loop's by expressions that C groups as their trees, and where the
-- first declaration has run the second gives thread `i` of block `b` the value of
-- iteration number `tile * b + i` of the loop, in numbers without overflow, the step being 1 for a unary increment.
pub build-index :
    (latest : Expr → Bytes) (l : LoopInfo) (params : TileParams) (start block thread : Bytes)
    (step : Option Bytes) (n : ℕ) (env : Bytes → ℕ)
    → LineTexts latest l start params.tile_size
    → HasStep latest l step
    → get_idx_variable params.first_loop ≡ ok block
    → get_idx_variable params.second_loop ≡ ok thread
    → (clean block ≡ true) × (is_whole block ≡ true)
    → (clean thread ≡ true) × (is_whole thread ≡ true)
    → env (get_tiled_variable_name l) ≡ eval env (first_expr start params.tile_size block step)
    → (build_inner_outer_first latest get_idx_variable l params.first_loop params n
        ≡ ok (
          codes " {\n"
              ++ declaration l.var_type_name
                  (get_tiled_variable_name l)
                  (first_expr start params.tile_size block step),
          suc n,
        ))
      × (is_read alone (first_expr start params.tile_size block step) ≡ true)
      × (build_inner_outer_second latest get_idx_variable cuda_unary_format l params.second_loop
            (suc n)
          ≡ ok (
            codes " {\n"
                ++ declaration l.var_type_name l.var_name
                    (second_expr (get_tiled_variable_name l) thread step),
            suc (suc n),
          ))
      × (is_read alone (second_expr (get_tiled_variable_name l) thread step) ≡ true)
      × (eval env (second_expr (get_tiled_variable_name l) thread step)
          ≡ env start + step_value env step * (env params.tile_size * env block + env thread))
unfolding build_inner_outer_first build_inner_outer_second
build-index latest l params start block thread step n env h st eb et cb ct v = (
  rw
      (
        build_inner_outer_first,
        eb,
        h.start_is,
        first_line latest l params start h block step cb.0 st,
      )
      refl,
  first_read latest l params start h block step cb.1 st,
  rw (build_inner_outer_second, et, second_line latest l params start h thread step ct.0 st) refl,
  second_read latest l params start h thread step ct.1 st,
  second_value env (get_tiled_variable_name l) start params.tile_size block thread step v,
)
