-- ===== src/Dim/Bounds.antt =====
-- The index of an access as an expression of C over the texts of its arguments and dimensions, and its value.
use occa_transpiler.Base.{
  ℕ, ◌+◌, ◌*◌, ◌<◌, List, [], ◌∷◌, ◌++◌, ◌≡◌, refl, ap, sym, ◌∙◌, All, arith, ◌⊎◌, inl, inr, true,
  append_assoc,
}
use occa_transpiler.Ast.{Bytes}
use occa_transpiler.Reading.{
  CExpr, operand, paren, plus, times, show, eval, is_sum, is_whole, is_sum-is_balanced, is_read,
  alone,
}
use occa_transpiler.Dim.Print.{nested}

-- `a + (d * (…))`
abbrev pub index_expr : (ℕ → Bytes) → (ℕ → Bytes) → ℕ → List ℕ → CExpr
index_expr dim arg o [] = operand (arg o)
index_expr dim arg o (p ∷ ps) =
    plus (operand (arg o)) (paren (times (operand (dim o)) (paren (index_expr dim arg p ps))))

pub show-index_expr :
    (dim arg : ℕ → Bytes) (o : ℕ) (ps : List ℕ) (rest : Bytes)
    → show (index_expr dim arg o ps) rest ≡ nested dim arg o ps ++ rest
show-index_expr dim arg o [] rest = refl
show-index_expr dim arg o (p ∷ ps) rest =
    rw (show-index_expr dim arg p ps (41 ∷ 41 ∷ rest)) (simp append_assoc refl)

-- Outside of brackets, a dimension has no operator, and an argument none but the arithmetic ones.
abbrev pub ReadAt : (ℕ → Bytes) → (ℕ → Bytes) → ℕ → Type 0
ReadAt dim arg o = (is_whole (dim o) ≡ true) × (is_sum (arg o) ≡ true)

pub index_expr-is_read :
    (dim arg : ℕ → Bytes) (o : ℕ) (ps : List ℕ)
    → All (ReadAt dim arg) (o ∷ ps)
    → is_read alone (index_expr dim arg o ps) ≡ true
index_expr-is_read dim arg o [] h = is_sum-is_balanced (arg o) h.0.1
index_expr-is_read dim arg o (p ∷ ps) h =
    rw (h.0.0, h.0.1, index_expr-is_read dim arg p ps h.1) refl

-- In an environment, an argument is in the range of its dimension.
abbrev pub InRange : (Bytes → ℕ) → (ℕ → Bytes) → (ℕ → Bytes) → ℕ → Type 0
InRange env dim arg o = env (arg o) < env (dim o)

step_below : (a d i v : ℕ) → a < d → i < v → a + d * i < d * v
step_below a d i v h k = grind arith

compare-cases : (i j : ℕ) → (i < j) ⊎ ((j < i) ⊎ (i ≡ j))
compare-cases i j = grind arith

same_rest : (a b d i j : ℕ) → a + d * i ≡ b + d * j → i ≡ j → a ≡ b
same_rest a b d i j e q = omega (arith, ap (λ n. d * n) q)

split_step : (a b d i j : ℕ) → a < d → b < d → a + d * i ≡ b + d * j → (a ≡ b) × (i ≡ j)
split_step a b d i j h k e = elim (compare-cases i j) [
  | inl l ↦ absurd (omega (arith, step_below a d i j h l))
  | inr m ↦ elim m [
    | inl l ↦ absurd (omega (arith, step_below b d j i k l))
    | inr q ↦ (same_rest a b d i j e q, q)
  ]
]

-- What two accesses to one variable agree on: the dimensions, and the arguments.
abbrev pub SameDim : (Bytes → ℕ) → (Bytes → ℕ) → (ℕ → Bytes) → ℕ → Type 0
SameDim env env' dim o = env (dim o) ≡ env' (dim o)

abbrev pub SameAt : (Bytes → ℕ) → (Bytes → ℕ) → (ℕ → Bytes) → (ℕ → Bytes) → ℕ → Type 0
SameAt env env' arg other o = env (arg o) ≡ env' (other o)

pub index-injective :
    (env env' : Bytes → ℕ) (dim arg other : ℕ → Bytes) (o : ℕ) (ps : List ℕ)
    → All (SameDim env env' dim) (o ∷ ps)
    → All (InRange env dim arg) (o ∷ ps)
    → All (InRange env' dim other) (o ∷ ps)
    → eval env (index_expr dim arg o ps) ≡ eval env' (index_expr dim other o ps)
    → All (SameAt env env' arg other) (o ∷ ps)
index-injective env env' dim arg other o [] d h k e = (e, tt)
index-injective env env' dim arg other o (p ∷ ps) d h k e =
    let inside = eval env' (index_expr dim other p ps) in
    let (now, next) =
      split_step (env (arg o)) (env' (other o)) (env (dim o)) _ inside h.0 (rw d.0 k.0)
        (e ∙ ap (λ n. env' (other o) + n * inside) (sym d.0)) in
    (now, index-injective env env' dim arg other p ps d.1 h.1 k.1 next)
