-- ===== src/Traverser/Attribute.antt =====
-- What the loop of `visit_okl_attributes` does over one attribute with a list of parameters.
use occa_transpiler.Base.{
  ℕ, zero, suc, ◌+◌, ◌<◌, true, some, List, [], ◌∷◌, ◌++◌, ◌≡◌, refl, ◌∙◌, arith, length, get_elem?,
  All, ◌≢◌,
}
use occa_transpiler.Traverser.{
  Token, TokenKind, Fsm, FsmStepStatus, OklAttribute, OklAttributeParserState, Visitor,
  process_token_by_fsm, run, turn, on_start, visited, no_attr, wrap, Outcome, searching_attr_start,
  parse_attr_name, searching_attr_param_list, parse_attr_param_list, at_sign, identifier, l_paren,
  r_paren,
}
use occa_transpiler.Traverser.Step.{
  closes, params_text, indices, at_fsm, extend, opens, closing, param, foreign, close_not_last,
  extend-cons, open_step, close_step, param_step, kind-cases, closes-open, closes-param,
  closes-close, closes-last, closes-foreign, last_index,
}
use FsmStepStatus.{token_processed}

-- The tokens stand in the source from an index on.
abbrev pub Stands : List Token → ℕ → List Token → Type 0
Stands tokens i [] = Unit
Stands tokens i (t ∷ ts) = (get_elem? tokens i ≡ some t) × Stands tokens (suc i) ts

abbrev pub NoMarker : Token → Type 0
NoMarker t = t.kind ≢ at_sign

on_start_no :
    (f : Fsm) (t : Token) (k : TokenKind) → k ≢ at_sign → on_start f t k ≡ (f, token_processed)
on_start_no f t k h = ground arith

start_step :
    (i : ℕ) (t : Token)
    → NoMarker t
    → process_token_by_fsm (at_fsm i searching_attr_start no_attr 0) t
      ≡ (at_fsm i searching_attr_start no_attr 0, token_processed)
unfolding process_token_by_fsm
start_step i t h = on_start_no _ t t.kind h

Stands-shift :
    (x : Token) (tokens : List Token) (i : ℕ) (ts : List Token)
    → Stands tokens i ts
    → Stands (x ∷ tokens) (suc i) ts
Stands-shift x tokens i [] h = tt
Stands-shift x tokens i (t ∷ ts) h = (h.0, Stands-shift x tokens (suc i) ts h.1)

pub Stands-front : (ts more : List Token) → Stands (ts ++ more) 0 ts
Stands-front [] more = tt
Stands-front (t ∷ ts) more = (refl, Stands-shift t (ts ++ more) 0 ts (Stands-front ts more))

pub Stands-after :
    (before ts more : List Token) → Stands (before ++ (ts ++ more)) (length before) ts
Stands-after [] ts more = Stands-front ts more
Stands-after (b ∷ bs) ts more =
    Stands-shift b (bs ++ (ts ++ more)) (length bs) ts (Stands-after bs ts more)

pub marker_step :
    (i : ℕ) (t : Token)
    → t.kind ≡ at_sign
    → process_token_by_fsm (at_fsm i searching_attr_start no_attr 0) t
      ≡ (at_fsm i parse_attr_name (record no_attr { tok_indecies = i ∷ [] }) 0, token_processed)
unfolding process_token_by_fsm
marker_step i t h = rw (h) refl

pub name_step :
    (i : ℕ) (a : OklAttribute) (t : Token)
    → t.kind ≡ identifier
    → process_token_by_fsm (at_fsm i parse_attr_name a 0) t ≡ (
      at_fsm i searching_attr_param_list
          (record a { name = t.spelling; tok_indecies = a.tok_indecies ++ (i ∷ []) })
          0,
      token_processed,
    )
unfolding process_token_by_fsm
name_step i a t h = rw (h) refl

paren_step :
    (i : ℕ) (a : OklAttribute) (t : Token)
    → t.kind ≡ l_paren
    → process_token_by_fsm (at_fsm i searching_attr_param_list a 0) t ≡ (
      at_fsm i parse_attr_param_list
          (record a { params = a.params ++ t.spelling; tok_indecies = a.tok_indecies ++ (i ∷ []) })
          1,
      token_processed,
    )
unfolding process_token_by_fsm
paren_step i a t h = rw (h) refl

-- The attribute that the tokens `@ name ( body` spell, from index i on.
abbrev pub spelled : ℕ → Token → Token → List Token → OklAttribute
spelled i name open_paren body = record {
  raw = [];
  name = name.spelling;
  params = open_paren.spelling ++ params_text body;
  tok_indecies = indices i (suc (suc (suc (length body))));
}

module _ {S : Type 0} (tokens : List Token) (visitor : Visitor S) where
  pub run_step :
      (k i d : ℕ) (st : OklAttributeParserState) (a : OklAttribute) (t : Token)
      {p : Fsm × FsmStepStatus} (s : S)
      → get_elem? tokens i ≡ some t
      → process_token_by_fsm (at_fsm i st a d) t ≡ p
      → run tokens visitor (suc k) (at_fsm i st a d) s
        ≡ turn tokens visitor (run tokens visitor k) p s
  unfolding run
  run_step k i d st a t s h e = rw (run, h, e) refl

  -- The visit that a closed list of parameters ends in.
  abbrev pub visit_at : ℕ → ℕ → OklAttribute → S → Outcome S
  visit_at k i a s =
      visited tokens visitor (run tokens visitor k) (at_fsm i parse_attr_param_list a 0)
        (visitor s a)

  last_index-cons :
      (i d : ℕ) (t : Token) (ts : List Token)
      → closes d ts ≡ true
      → last_index i (t ∷ ts) ≡ last_index (suc i) ts
  unfolding last_index
  last_index-cons i d t [] c = cc
  last_index-cons i d t (u ∷ us) c = refl

  one_more : (k : ℕ) → 1 + k ≡ suc k
  one_more k = omega arith

  zero_left : (k : ℕ) → 0 + k ≡ k
  zero_left k = omega arith

  zero_right : (k : ℕ) → k + 0 ≡ k
  zero_right k = omega arith

  shift : (i n : ℕ) → i + suc n ≡ suc i + n
  shift i n = omega arith

  fuel_cons : (n k : ℕ) → suc n + k ≡ suc (n + k)
  fuel_cons n k = omega arith

  -- One token that does not close the list, and then the rest.
  run_on :
      (k i d e : ℕ) (a : OklAttribute) (t : Token) (ts : List Token) (s : S)
      → get_elem? tokens i ≡ some t
      → process_token_by_fsm (at_fsm i parse_attr_param_list a d) t
        ≡ (at_fsm i parse_attr_param_list (extend a i (t ∷ [])) e, token_processed)
      → closes e ts ≡ true
      → run tokens visitor
          (length ts + k)
          (at_fsm (suc i) parse_attr_param_list (extend a i (t ∷ [])) e)
          s
        ≡ visit_at k (last_index (suc i) ts) (extend (extend a i (t ∷ [])) (suc i) ts) s
      → run tokens visitor (length {A = Token} (t ∷ ts) + k) (at_fsm i parse_attr_param_list a d) s
        ≡ visit_at k (last_index i (t ∷ ts)) (extend a i (t ∷ ts)) s
  run_on k i d e a t ts s h step c ih =
      rw (fuel_cons (length ts) k, last_index-cons i e t ts c, ← extend-cons a i t ts)
        (run_step (length ts + k) i d parse_attr_param_list a t s h step ∙ ih)

  run_close :
      (k i d : ℕ) (a : OklAttribute) (t : Token) (ts : List Token) (s : S)
      → get_elem? tokens i ≡ some t
      → t.kind ≡ r_paren
      → closes (suc d) (t ∷ ts) ≡ true
      → suc d < wrap
      → ((e : ℕ)
          → closes (suc e) ts ≡ true
          → e < d
          → run tokens visitor
              (length ts + k)
              (at_fsm (suc i) parse_attr_param_list (extend a i (t ∷ [])) (suc e))
              s
            ≡ visit_at k (last_index (suc i) ts) (extend (extend a i (t ∷ [])) (suc i) ts) s)
      → run tokens visitor
          (length {A = Token} (t ∷ ts) + k)
          (at_fsm i parse_attr_param_list a (suc d))
          s
        ≡ visit_at k (last_index i (t ∷ ts)) (extend a i (t ∷ ts)) s
  unfolding last_index
  run_close k i zero a t [] s g h c b ih =
      rw (one_more k) (run_step k i 1 parse_attr_param_list a t s g (close_step i 0 a t h b))
  run_close k i zero a t (u ∷ us) s g h c b ih = absurd (cc (closes-last t (u ∷ us) h c))
  run_close k i (suc d) a t ts s g h c b ih =
      let c' : closes (suc d) ts ≡ true = closes-close d t ts h c in
      run_on k i (suc (suc d)) (suc d) a t ts s g (close_not_last i d a t h b) c'
        (ih d c' (omega arith))

  run-params :
      (k i d : ℕ) (a : OklAttribute) (body : List Token) (s : S)
      → Stands tokens i body
      → closes (suc d) body ≡ true
      → suc d + length body < wrap
      → run tokens visitor (length body + k) (at_fsm i parse_attr_param_list a (suc d)) s
        ≡ visit_at k (last_index i body) (extend a i body) s
  run-params k i d a [] s st c b = cc
  run-params k i d a (t ∷ ts) s st c b = elim (kind-cases t.kind) [
    | opens h ↦
        let c' : closes (suc (suc d)) ts ≡ true = closes-open d t ts h c in
        run_on k i (suc d) (suc (suc d)) a t ts s st.0 (open_step i (suc d) a t h (omega arith)) c'
          (run-params k (suc i) (suc d) _ ts s st.1 c' (omega arith))
    | closing h ↦
        run_close k i d a t ts s st.0 h c (omega arith)
          (λ e c' l. run-params k (suc i) e _ ts s st.1 c' (omega arith))
    | param h ↦
        let c' : closes (suc d) ts ≡ true = closes-param d t ts h c in
        run_on k i (suc d) (suc d) a t ts s st.0 (param_step i (suc d) a t h) c'
          (run-params k (suc i) d _ ts s st.1 c' (omega arith))
    | foreign h ↦ absurd (closes-foreign d t ts h c)
  ]

  three_more : (n k : ℕ) → suc (suc (suc n)) + k ≡ suc (suc (suc (n + k)))
  three_more n k = omega arith

  pub run-attribute :
      (k i : ℕ) (marker name open_paren : Token) (body : List Token) (s : S)
      → Stands tokens i (marker ∷ name ∷ open_paren ∷ body)
      → marker.kind ≡ at_sign
      → name.kind ≡ identifier
      → open_paren.kind ≡ l_paren
      → closes 1 body ≡ true
      → 1 + length body < wrap
      → run tokens visitor
          (suc (suc (suc (length body))) + k)
          (at_fsm i searching_attr_start no_attr 0)
          s
        ≡ visit_at k (last_index (suc (suc (suc i))) body) (spelled i name open_paren body) s
  run-attribute k i marker name open_paren body s st m n o c b = rw (three_more (length body) k) (
      run_step (suc (suc (length body + k))) i 0 searching_attr_start no_attr marker s st.0
        (marker_step i marker m)
      ∙ run_step (suc (length body + k)) (suc i) 0 parse_attr_name _ name s st.1.0
          (name_step (suc i) _ name n)
      ∙ run_step (length body + k) (suc (suc i)) 0 searching_attr_param_list _ open_paren s st.1.1.0
          (paren_step (suc (suc i)) _ open_paren o)
      ∙ run-params k (suc (suc (suc i))) 0 _ body s st.1.1.1 c b)

  -- Tokens before the next attribute are passed over.
  pub skip :
      (k i : ℕ) (pre : List Token) (s : S)
      → Stands tokens i pre
      → All NoMarker pre
      → run tokens visitor (length pre + k) (at_fsm i searching_attr_start no_attr 0) s
        ≡ run tokens visitor k (at_fsm (i + length pre) searching_attr_start no_attr 0) s
  skip k i [] s st n = rw (zero_left k, zero_right i) refl
  skip k i (t ∷ ts) s st n =
      rw (fuel_cons (length ts) k, shift i (length ts))
        (run_step (length ts + k) i 0 searching_attr_start no_attr t s st.0 (start_step i t n.0)
          ∙ skip k (suc i) ts s st.1 n.1)
