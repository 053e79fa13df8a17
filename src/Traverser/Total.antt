-- ===== src/Traverser/Total.antt =====
-- The fuel of `visit_okl_attributes` is enough: a token is processed at most twice.
use occa_transpiler.Base.{
  ℕ, zero, suc, ◌+◌, ◌-◌, ◌*◌, ◌<◌, Bool, true, false, some, List, [], ◌∷◌, ◌≡◌, refl, arith,
  length, get_elem?, is_some, Option-cases, inl, inr, is_nil, Bool-cases,
}
use occa_transpiler.Traverser.{
  Token, Fsm, FsmStepStatus, OklAttributeParserState, Visitor, process_token_by_fsm, run, turn,
  visited, visit_okl_attributes, make_fsm, searching_attr_start,
}
use FsmStepStatus.{error, token_processed, okl_attr_parsed}

weight : OklAttributeParserState → ℕ
weight searching_attr_start = 0
weight s = 1

StepKeeps : Fsm → Fsm × FsmStepStatus → Type 0
StepKeeps f (f', st) =
    (f'.token_cursor ≡ f.token_cursor) × (st ≡ okl_attr_parsed → weight f.state ≡ 1)

process_keeps : (f : Fsm) (t : Token) → StepKeeps f (process_token_by_fsm f t)
unfolding process_token_by_fsm StepKeeps weight
process_keeps f t = ground arith

get-in-bounds : {A : Type 0} (xs : List A) (i : ℕ) {x : A} → get_elem? xs i ≡ some x → i < length xs
get-in-bounds [] i h = cc
get-in-bounds (x ∷ xs) zero h = omega arith
get-in-bounds (x ∷ xs) (suc i) h = omega (arith, get-in-bounds xs i h)

weight-le_one : (s : OklAttributeParserState) → weight s < 2
unfolding weight
weight-le_one s = ground arith

module _ {S : Type 0} (tokens : List Token) (visitor : Visitor S) where
  Enough : ℕ → Fsm → Type 0
  Enough fuel f = 2 * (length tokens - f.token_cursor) + weight f.state < fuel

  Returns : ℕ → Type 0
  Returns fuel = (f : Fsm) (s : S) → Enough fuel f → is_some (run tokens visitor fuel f s) ≡ true

  visited-Returns :
      (fuel : ℕ) (f : Fsm) (p : S × Bool)
      → Returns fuel
      → 2 * (length tokens - f.token_cursor) < fuel
      → is_some (visited tokens visitor (run tokens visitor fuel) f p) ≡ true
  unfolding Returns Enough weight
  visited-Returns fuel f (s, false) ih e = refl
  visited-Returns fuel f (s, true) ih e = ih _ s (omega arith)

  turn-Returns :
      (fuel : ℕ) (f : Fsm) (p : Fsm × FsmStepStatus) (s : S)
      → Returns fuel
      → StepKeeps f p
      → Enough (suc fuel) f
      → f.token_cursor < length tokens
      → is_some (turn tokens visitor (run tokens visitor fuel) p s) ≡ true
  unfolding Returns Enough StepKeeps weight
  turn-Returns fuel f (f', error) s ih k e lt = refl
  turn-Returns fuel f (f', token_processed) s ih k e lt =
      ih _ s (omega (arith, weight-le_one f'.state))
  turn-Returns fuel f (f', okl_attr_parsed) s ih k e lt =
      visited-Returns fuel f' (visitor s f'.attr) ih (omega (arith, k.0, k.1 refl))

  run-Returns : (fuel : ℕ) → Returns fuel
  unfolding Returns Enough run
  run-Returns zero f s e = absurd (omega arith)
  run-Returns (suc fuel) f s e = elim (Option-cases (get_elem? tokens f.token_cursor)) [
    | inl h ↦ rw (run, h) refl
    | inr (t, h) ↦
        rw (run, h)
          (turn-Returns fuel f (process_token_by_fsm f t) s (run-Returns fuel) (process_keeps f t) e
            (get-in-bounds tokens f.token_cursor h))
  ]

  -- For every list of tokens, visitor and state of it, the fuel that `visit_okl_attributes` gives to
  -- the loop is enough: it returns, with an error or without.
  pub visit-returns : (s : S) → is_some (visit_okl_attributes tokens visitor s) ≡ true
  unfolding visit_okl_attributes Returns Enough weight
  visit-returns s = elim (Bool-cases (is_nil tokens)) [
    | inl h ↦ rw (visit_okl_attributes, h) refl
    | inr h ↦
        rw (visit_okl_attributes, h)
          (run-Returns (suc (2 * length tokens)) make_fsm s (omega arith))
  ]
