-- ===== src/Registry/Checked.antt =====
-- An attribute that passes the check of its node is handled.
use occa_transpiler.Base.{
  ℕ, Bool, true, false, List, [], ◌∷◌, ◌≡◌, refl, ◌∙◌, Option, none, some, is_some, inl, inr,
  Bool-cases, All, ◌⊎◌, subst,
}
use occa_transpiler.Result.{ok}
use occa_transpiler.Stage.{StmtAttr}
use occa_transpiler.Registry.{
  TargetBackend, HandlerKey, key_eq, find_handler, first_handler, common_keys, backend_keys,
  has_common,
}
use occa_transpiler.Registry.Manager.{
  NodeHandler, CheckedNode, decl_node, attributed_stmt, other_node, handle_attribute,
  handle_backend, has_pointer, insert_attr, handled, check_each, reversed, check_attrs,
}

-- A handler is one of a map.
abbrev pub OneOf : {H : Type 0} → H → List (HandlerKey × H) → Type 0
OneOf h [] = ⊥
OneOf h ((k, g) ∷ m) = (h ≡ g) ⊎ OneOf h m

module _ {H : Type 0} where
  find_handler-OneOf :
      (k : HandlerKey) (m : List (HandlerKey × H)) (h : H) → find_handler k m ≡ some h → OneOf h m
  find_handler-OneOf k [] h e = cc
  find_handler-OneOf k ((j, g) ∷ m) h e = elim (Bool-cases (key_eq k j)) [
    | inl q ↦ inl (cc (rw q at e))
    | inr q ↦ inr (find_handler-OneOf k m h (rw q at e))
  ]

  first_cons :
      (k : HandlerKey) (ks : List HandlerKey) (m : List (HandlerKey × H)) (o : Option H)
      → find_handler k m ≡ o
      → ((h : H) → first_handler ks m ≡ some h → OneOf h m)
      → (h : H) → first_handler (k ∷ ks) m ≡ some h
      → OneOf h m
  first_cons k ks m none e f h q = f h (rw (first_handler, e) at q)
  first_cons k ks m (some g) e f h q = find_handler-OneOf k m h (e ∙ (rw (first_handler, e) at q))

  first_handler-OneOf :
      (ks : List HandlerKey) (m : List (HandlerKey × H)) (h : H)
      → first_handler ks m ≡ some h
      → OneOf h m
  first_handler-OneOf [] m h e = cc
  first_handler-OneOf (k ∷ ks) m h e =
      first_cons k ks m (find_handler k m) refl (first_handler-OneOf ks m) h e

  first_found :
      (ks : List HandlerKey) (m : List (HandlerKey × H))
      → is_some (first_handler ks m) ≡ true
      → (h : H) × (first_handler ks m ≡ some h) × OneOf h m
  first_found ks m s = go (first_handler ks m) refl s
    where
      go :
          (o : Option H)
          → first_handler ks m ≡ o
          → is_some o ≡ true
          → (h : H) × (first_handler ks m ≡ some h) × OneOf h m
      go none e q = cc
      go (some h) e q = (h, e, first_handler-OneOf ks m h e)

  not_found : (o : Option H) → is_some o ≡ false → o ≡ none
  not_found none h = refl
  not_found (some h) e = cc

module _ {S N P : Type 0} (clade : ℕ → ℕ) (kind_of : N → ℕ)
    (m : List (HandlerKey × NodeHandler S N P)) (is_okl : StmtAttr → Bool) (b : TargetBackend) where
  -- A handler of the map runs for an attribute at a node.
  abbrev pub IsHandled : N → StmtAttr → Type 0
  IsHandled n a =
      (h : NodeHandler S N P) × OneOf h m
      × ((s : S) (p : P) → handle_attribute clade kind_of m b s n a p ≡ h.handle_attr s n a p)

  handled-IsHandled :
      (n : N) (a : StmtAttr) → handled clade kind_of m is_okl b (kind_of n) a ≡ true → IsHandled n a
  handled-IsHandled n a h = elim (Bool-cases (has_common clade m a.name (kind_of n))) [
    | inl c ↦
        let (g, e, i) = first_found (common_keys clade a.name (kind_of n)) m c in
        (g, i, λ s p. rw (handle_attribute, e) refl)
    | inr c ↦
        let none_common = not_found (first_handler (common_keys clade a.name (kind_of n)) m) c in
        let (g, e, i) = first_found (backend_keys clade b a.name (kind_of n)) m (rw c at h) in
        (g, i, λ s p. rw (handle_attribute, none_common, handle_backend, e) refl)
  ]

  insert_attr-All :
      (Q : StmtAttr → Type 0) (a : StmtAttr) (found : List StmtAttr)
      → Q a
      → All Q found
      → All Q (insert_attr clade kind_of m is_okl b a found)
  insert_attr-All Q a found q h =
      elim (Bool-cases (has_pointer clade kind_of m is_okl b a.id found)) [
        | inl e ↦ rw e h
        | inr e ↦ rw e (q, h)
      ]

  check_each-All :
      (n : N) (attrs : List (Option StmtAttr)) (found r : List StmtAttr)
      → All (IsHandled n) found
      → check_each clade kind_of m is_okl b (kind_of n) attrs found ≡ ok r
      → All (IsHandled n) r
  unfolding check_each
  check_each-All n [] found r h e = subst (All (IsHandled n)) (cc e) h
  check_each-All n (none ∷ attrs) found r h e = check_each-All n attrs found r h e
  check_each-All n (some a ∷ attrs) found r h e = elim (Bool-cases (is_okl a)) [
    | inr o ↦ check_each-All n attrs found r h (rw o at e)
    | inl o ↦ elim (Bool-cases (handled clade kind_of m is_okl b (kind_of n) a)) [
      | inr k ↦ cc (rw (o, k) at e)
      | inl k ↦
          check_each-All n attrs (insert_attr clade kind_of m is_okl b a found) r
            (insert_attr-All (IsHandled n) a found (handled-IsHandled n a k) h) (rw (o, k) at e)
    ]
  ]

  -- The kind that the attributes of a node are checked for.
  abbrev pub ChecksKind : CheckedNode → ℕ → Type 0
  ChecksKind (decl_node k attrs) kind = k ≡ kind
  ChecksKind (attributed_stmt k attrs) kind = k ≡ kind
  ChecksKind other_node kind = Unit

  -- For every attribute in the set that `checkAttrs` returns for a node, `handleAttr` at a node of the kind
  -- that was checked runs a handler of the map, and so never misses one.
  pub check_attrs-IsHandled :
      (node : CheckedNode) (n : N) (r : List StmtAttr)
      → ChecksKind node (kind_of n)
      → check_attrs clade kind_of m is_okl b node ≡ ok r
      → All (IsHandled n) r
  check_attrs-IsHandled (decl_node k attrs) n r c e =
      check_each-All n (reversed clade kind_of m is_okl b attrs []) [] r tt (rw c at e)
  check_attrs-IsHandled (attributed_stmt k attrs) n r c e =
      check_each-All n attrs [] r tt (rw c at e)
  check_attrs-IsHandled other_node n [] c e = tt
  check_attrs-IsHandled other_node n (a ∷ r) c e = cc
