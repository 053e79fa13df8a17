-- ===== src/Traverser/First.antt =====
-- The first visit of `visit_okl_attributes`.
use occa_transpiler.Base.{
  ℕ, suc, ◌+◌, ◌-◌, ◌*◌, ◌<◌, List, [], ◌∷◌, ◌++◌, ◌≡◌, refl, true, is_nil, false, ap, ◌∙◌, arith,
  length, All, length-append,
}
use occa_transpiler.Traverser.{
  Token, Visitor, run, visit_okl_attributes, wrap, make_fsm, at_sign, identifier, l_paren,
}
use occa_transpiler.Traverser.Step.{closes, last_index}
use occa_transpiler.Traverser.Attribute.{
  NoMarker, Stands-after, Stands-front, spelled, skip, run-attribute, visit_at,
}

-- The fuel that is left.
abbrev pub left : List Token → ℕ → ℕ
left tokens used = suc (2 * length tokens) - used

pub is_nil-append : {A : Type 0} (xs ys : List A) (y : A) → is_nil (xs ++ (y ∷ ys)) ≡ false
is_nil-append [] ys y = refl
is_nil-append (x ∷ xs) ys y = refl

fuel-split :
    (before attr after : List Token)
    → suc (2 * length (before ++ (attr ++ after)))
      ≡ length before
        + (length attr + left (before ++ (attr ++ after)) (length before + length attr))
fuel-split before attr after =
    omega (arith, length-append before (attr ++ after), length-append attr after)

pub at_zero : (n : ℕ) → 0 + n ≡ n
at_zero n = omega arith

module _ {S : Type 0} (visitor : Visitor S) where
  -- For tokens without a marker, then `@`, an identifier and `(`, then a body that closes the
  -- parenthesis at its end (fewer than 2 ^ 32 tokens), then any others: the first thing the run does
  -- is to call the visitor, with the attribute that these tokens spell and their indices; it goes on
  -- as the visitor says, from the token that closed the parenthesis.
  pub visit-first :
      (before body after : List Token) (marker name open_paren : Token) (s : S)
      → All NoMarker before
      → marker.kind ≡ at_sign
      → name.kind ≡ identifier
      → open_paren.kind ≡ l_paren
      → closes 1 body ≡ true
      → 1 + length body < wrap
      → let attr = marker ∷ name ∷ open_paren ∷ body in
        let tokens = before ++ (attr ++ after) in
        let i = length before in
        visit_okl_attributes tokens visitor s
        ≡ visit_at tokens visitor
            (left tokens (i + length attr))
            (last_index (suc (suc (suc i))) body)
            (spelled i name open_paren body)
            s
  unfolding visit_okl_attributes
  visit-first before body after marker name open_paren s b m n o c l =
      let attr = marker ∷ name ∷ open_paren ∷ body in
      let tokens = before ++ (attr ++ after) in
      let k = left tokens (length before + length attr) in
      rw (visit_okl_attributes, is_nil-append before (name ∷ open_paren ∷ (body ++ after)) marker)
        (ap (λ n. run tokens visitor n make_fsm s) (fuel-split before attr after)
          ∙ skip tokens visitor (length attr + k) 0 before s (Stands-front before (attr ++ after)) b
          ∙ rw (at_zero (length before)) (
              run-attribute tokens visitor k (length before) marker name open_paren body s
                (Stands-after before attr after) m n o c l))
