-- ===== src/Traverser/Dangling.antt =====
-- An attribute without parameters at the very end of the tokens, the first of them.
use occa_transpiler.Base.{
  ℕ, suc, ◌+◌, ◌*◌, none, some, List, [], ◌∷◌, ◌++◌, ◌≡◌, refl, ap, ◌∙◌, arith, length, get_elem?,
  All, length-append,
}
use occa_transpiler.Result.{ok}
use occa_transpiler.Traverser.{
  Token, OklAttribute, OklAttributeParserState, Visitor, run, visit_okl_attributes, no_attr,
  make_fsm, searching_attr_start, parse_attr_name, searching_attr_param_list, at_sign, identifier,
}
use occa_transpiler.Traverser.Step.{at_fsm}
use occa_transpiler.Traverser.Attribute.{
  NoMarker, Stands, Stands-after, Stands-front, skip, run_step, marker_step, name_step,
}
use occa_transpiler.Traverser.First.{is_nil-append, at_zero}

fuel-two :
    (before : List Token) (a b : Token)
    → suc (2 * length (before ++ (a ∷ b ∷ [])))
      ≡ length before + suc (suc (suc (length before + 2)))
fuel-two before a b = omega (arith, length-append before (a ∷ b ∷ []))

past_end :
    (xs : List Token) (a b : Token) → get_elem? (xs ++ (a ∷ b ∷ [])) (suc (suc (length xs))) ≡ none
past_end [] a b = refl
past_end (x ∷ xs) a b = past_end xs a b

module _ {S : Type 0} (visitor : Visitor S) where
  run_end :
      (tokens : List Token) (k i : ℕ) (st : OklAttributeParserState) (a : OklAttribute) (s : S)
      → get_elem? tokens i ≡ none
      → run tokens visitor (suc k) (at_fsm i st a 0) s ≡ some (s, ok tt)
  unfolding run
  run_end tokens k i st a s h = rw (run, h) refl

  -- For tokens without a marker followed by `@` and an identifier, the last token: the run succeeds
  -- and the visitor is never called, so that such an attribute without parameters is dropped.
  pub visit-dangling :
      (before : List Token) (marker name : Token) (s : S)
      → All NoMarker before
      → marker.kind ≡ at_sign
      → name.kind ≡ identifier
      → visit_okl_attributes (before ++ (marker ∷ name ∷ [])) visitor s ≡ some (s, ok tt)
  unfolding visit_okl_attributes run
  visit-dangling before marker name s b m n =
      let attr = marker ∷ name ∷ [] in
      let tokens = before ++ attr in
      let i = length before in
      let k = i + 2 in
      let st : Stands tokens i attr = Stands-after before attr [] in
      rw (visit_okl_attributes, is_nil-append before (name ∷ []) marker)
        (ap (λ n. run tokens visitor n make_fsm s) (fuel-two before marker name)
          ∙ skip tokens visitor (suc (suc (suc k))) 0 before s (Stands-front before attr) b
          ∙ rw (at_zero i) (
              run_step tokens visitor (suc (suc k)) i 0 searching_attr_start no_attr marker s st.0
                (marker_step i marker m)
              ∙ run_step tokens visitor (suc k) (suc i) 0 parse_attr_name _ name s st.1.0
                  (name_step (suc i) _ name n)
              ∙ run_end tokens k (suc (suc i)) searching_attr_param_list _ s
                  (past_end before marker name)))
