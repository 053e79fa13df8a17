-- ===== src/Attrs/Order.antt =====
-- The indices that the parser of `@dimOrder` accepts.
use occa_transpiler.Base.{
  ℕ, ◌+◌, false, not, ◌||◌, List, [], ◌∷◌, ◌++◌, ◌==◌, ◌≡◌, refl, arith, length, Option-cases,
  Bool-cases, inl, inr, length-append, is_nil, ◌∙◌, subst,
}
use occa_transpiler.Result.{ok, >>=-eq-ok, guard}
use occa_transpiler.Attrs.{
  OklAttrParam, OklParsedAttr, contains, read_order, parse_dim_order_attr_params,
}

abbrev pub Distinct : List ℕ → Type 0
Distinct [] = Unit
Distinct (x ∷ xs) = (contains x xs ≡ false) × Distinct xs

contains-snoc : (i j : ℕ) (xs : List ℕ) → contains i (xs ++ (j ∷ [])) ≡ (contains i xs || (j == i))
contains-snoc i j [] = ground arith
contains-snoc i j (x ∷ xs) = ground (arith, contains-snoc i j xs)

Distinct-snoc :
    (xs : List ℕ) (i : ℕ) → Distinct xs → contains i xs ≡ false → Distinct (xs ++ (i ∷ []))
Distinct-snoc [] i d h = (refl, tt)
Distinct-snoc (x ∷ xs) i d h =
    (contains-snoc x i xs ∙ ground arith, Distinct-snoc xs i d.1 (ground arith))

module _ {N : Type 0} where
  read_step :
      (a : OklAttrParam N) (more : List (OklAttrParam N)) (idx r : List ℕ)
      → read_order (a ∷ more) idx ≡ ok r
      → (i : ℕ) × (contains i idx ≡ false) × (read_order more (idx ++ (i ∷ [])) ≡ ok r)
  unfolding read_order
  read_step a more idx r h = elim (Option-cases a.get_size_t) [
    | inl q ↦ cc (rw (read_order, q) at h)
    | inr (i, q) ↦ elim (Bool-cases (contains i idx)) [
      | inl c ↦ cc (rw (read_order, q, c) at h)
      | inr c ↦ (i, c, rw (read_order, q, c) at h)
    ]
  ]

  read_order-Distinct :
      (more : List (OklAttrParam N)) (idx r : List ℕ)
      → Distinct idx
      → read_order more idx ≡ ok r
      → Distinct r × (length r ≡ length idx + length more)
  unfolding read_order
  read_order-Distinct [] idx r d h =
      let q : idx ≡ r = cc h in
      subst (λ s. Distinct s × (length s ≡ length idx + 0)) q (d, omega arith)
  read_order-Distinct (a ∷ more) idx r d h =
      let (i, c, k) = read_step a more idx r h in
      let (e, n) = read_order-Distinct more (idx ++ (i ∷ [])) r (Distinct-snoc idx i d c) k in
      (e, omega (arith, length-append idx (i ∷ [])))

  -- Where the parser of `@dimOrder` accepts its arguments, the indices are as many as the arguments,
  -- and no index occurs twice.
  pub parse-Distinct :
      (d : OklParsedAttr N) (r : List ℕ)
      → parse_dim_order_attr_params d ≡ ok r
      → Distinct r × (length r ≡ length d.args)
  unfolding parse_dim_order_attr_params
  parse-Distinct d r h =
      let (u, a, k) = >>=-eq-ok (guard (is_nil d.kwargs) _) _ h in
      let (v, b, l) = >>=-eq-ok (guard (not (is_nil d.args)) _) _ k in
      let (e, n) = read_order-Distinct d.args [] r tt l in (e, omega arith)
