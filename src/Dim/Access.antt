-- ===== src/Dim/Access.antt =====
-- Two accesses with one index are the same access.
use occa_transpiler.Base.{
  ℕ, ◌<◌, true, Option, some, List, [], ◌∷◌, ◌≡◌, arith, All, Bool-cases, inl, inr, ◌==◌, ==_iff,
  subst, ltb→lt, length, ap, sym, ◌∙◌, append-nil,
}
use occa_transpiler.Ast.{Bytes}
use occa_transpiler.Result.{Result, ok}
use occa_transpiler.Attrs.{contains}
use occa_transpiler.Attrs.Order.{Distinct}
use occa_transpiler.Text.Template.{clean}
use occa_transpiler.Reading.{CExpr, show, eval, is_read, alone}
use occa_transpiler.Dim.{
  SubExpr, call, latest_texts, all_below, get_dim_order, handle_dim_stmt_attribute,
}
use occa_transpiler.Dim.Print.{nested, Named}
use occa_transpiler.Dim.Handle.{access_text, handle-nested, get_dim_order-bounds}
use occa_transpiler.Dim.Bounds.{
  index_expr, show-index_expr, index_expr-is_read, ReadAt, InRange, SameDim, SameAt,
  index-injective,
}
use occa_transpiler.Dim.Order.{all-named}

All-contains : (P : ℕ → Type 0) (xs : List ℕ) (i : ℕ) → All P xs → contains i xs ≡ true → P i
All-contains P [] i h c = cc
All-contains P (x ∷ xs) i h c = elim (Bool-cases (x == i)) [
  | inl e ↦ subst P ((==_iff x i).0 e) h.0
  | inr e ↦ All-contains P xs i h.1 (rw (e) at c)
]

All-below :
    (P : ℕ → Type 0) (n : ℕ) (xs : List ℕ)
    → ((i : ℕ) → i < n → P i)
    → all_below n xs ≡ true
    → All P xs
All-below P n [] f h = tt
All-below P n (x ∷ xs) f h = (f x (ltb→lt x n (ground arith)), All-below P n xs f (ground arith))

-- The arguments of an access to a variable with the dimensions `dims`: as many as these, with texts
-- that C reads as operands of the index, and in range in an environment.
pub record Arguments (dims : List Bytes) (dim : ℕ → Bytes) (args : List SubExpr) (arg : ℕ → Bytes)
    (env : Bytes → ℕ) : Type 0 where
  pub count : length args ≡ length dims
  pub named : (j : ℕ) → j < length dims → Named (latest_texts args) dims arg dim j
  pub read : (j : ℕ) → j < length dims → ReadAt dim arg j
  pub range : (j : ℕ) → j < length dims → InRange env dim arg j

-- The access is replaced by the name with an index that C groups as the tree of an expression.
abbrev pub IsWritten :
    List Bytes → Option (Result (Option (List ℕ))) → SubExpr → List SubExpr → CExpr → Type 0
IsWritten dims attr var args e =
    (handle_dim_stmt_attribute dims attr (call var args)
      ≡ ok (some (access_text var.source_text (show e []))))
    × (is_read alone e ≡ true)

module _ (first : Bytes) (more : List Bytes) (dim : ℕ → Bytes)
    (attr : Option (Result (Option (List ℕ)))) (o : ℕ) (ps : List ℕ) (var : SubExpr)
    (r : var.is_decl_ref ≡ true) (c : clean var.source_text ≡ true)
    (g : get_dim_order (length (first ∷ more)) attr ≡ ok (o ∷ ps)) where
  written :
      (a : SubExpr) (args : List SubExpr) (arg : ℕ → Bytes) (env : Bytes → ℕ)
      → Arguments (first ∷ more) dim (a ∷ args) arg env
      → IsWritten (first ∷ more) attr var (a ∷ args) (index_expr dim arg o ps)
  written a args arg env h =
      let below = (get_dim_order-bounds (length (first ∷ more)) attr (o ∷ ps) g).1 in
      (
        handle-nested first more attr var a args arg dim o ps r h.count g
              (All-below _ (length (first ∷ more)) (o ∷ ps) h.named below) c
            ∙ ap (λ s. ok (some (access_text var.source_text s)))
                (sym (show-index_expr dim arg o ps [] ∙ append-nil (nested dim arg o ps))),
        index_expr-is_read dim arg o ps (All-below _ (length (first ∷ more)) (o ∷ ps) h.read below),
      )

  -- Two accesses to one variable, with an accepted order that names no dimension twice, whose arguments are as
  -- many as the dimensions, in range in an environment each, and free of operators other than the arithmetic ones outside of
  -- brackets, the dimensions free of all and of the same values, and no `{` in the texts: both are replaced by the name with
  -- an index that C groups as its expression, and if the two indices have the same value, in numbers without overflow, so have the arguments
  -- at every dimension.
  pub access-injective :
      (a b : SubExpr) (args others : List SubExpr) (arg other : ℕ → Bytes) (env env' : Bytes → ℕ)
      (i : ℕ)
      → Distinct (o ∷ ps)
      → Arguments (first ∷ more) dim (a ∷ args) arg env
      → Arguments (first ∷ more) dim (b ∷ others) other env'
      → ((j : ℕ) → j < length (first ∷ more) → SameDim env env' dim j)
      → eval env (index_expr dim arg o ps) ≡ eval env' (index_expr dim other o ps)
      → i < length (first ∷ more)
      → IsWritten (first ∷ more) attr var (a ∷ args) (index_expr dim arg o ps)
        × IsWritten (first ∷ more) attr var (b ∷ others) (index_expr dim other o ps)
        × (env (arg i) ≡ env' (other i))
  access-injective a b args others arg other env env' i d h k same e l =
      let n = length (first ∷ more) in
      let (count, below) = get_dim_order-bounds n attr (o ∷ ps) g in
      let named : contains i (o ∷ ps) ≡ true =
        all-named (o ∷ ps) i d (subst (λ m. all_below m (o ∷ ps) ≡ true) (sym count) below)
          (omega (arith, l, count)) in
      (
        written a args arg env h,
        written b others other env' k,
        All-contains (SameAt env env' arg other) (o ∷ ps) i
            (index-injective env env' dim arg other o ps (All-below _ n (o ∷ ps) same below)
              (All-below _ n (o ∷ ps) h.range below) (All-below _ n (o ∷ ps) k.range below) e)
            named,
      )
