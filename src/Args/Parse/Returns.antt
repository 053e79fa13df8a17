-- ===== src/Args/Parse/Returns.antt =====
-- The parser of an attribute returns within its fuel.
use occa_transpiler.Base.{
  ℕ, zero, suc, ◌+◌, ◌*◌, ◌≤◌, ◌<◌, Bool, true, false, ◌||◌, ◌&&◌, List, [], ◌∷◌, ◌≡◌, ◌≢◌, refl,
  ap, Option, none, some, length, arith, inl, inr, Bool-cases,
}
use occa_transpiler.Ast.{Bytes}
use occa_transpiler.Result.{Result, ok, err, Error, ◌>>=◌, undefined_behaviour, no_fuel}
use occa_transpiler.Args.{
  TokenKind, unknown, comma, at, raw_identifier, equal, r_paren, l_paren, Token, is, Params,
  no_params, push_back, insert_or_assign, Kwargs, no_kwargs, Param, ParsedAttr, parsed,
}
use occa_transpiler.Args.Literals.{Lexing}
use occa_transpiler.Args.Parse.{
  BraceCounter, no_braces, count_token, next_kind, differs, Collected, with_token, ends_arg,
  collect, Cursor, plain_arg, arg_start, keyword_arg, regular_arg, turn_of, after_arg, take_arg,
  continue_with, collected_arg, parse_arg, parse_list, parse_named, parse_okl_attr,
}

-- No error of the fuel, and at most `n` tokens left.
abbrev LeavesOf : {A : Type 0} → (A → List Token) → ℕ → Result A → Type 0
LeavesOf rest n (err e) = e ≢ no_fuel
LeavesOf rest n (ok a) = length (rest a) ≤ n

bind-LeavesOf :
    {A B : Type 0} (ra : A → List Token) (rb : B → List Token) (n m : ℕ) (first : Result A)
    (next : A → Result B)
    → LeavesOf ra n first
    → ((a : A) → length (ra a) ≤ n → LeavesOf rb m (next a))
    → LeavesOf rb m (first >>= next)
bind-LeavesOf ra rb n m (err e) next h f = h
bind-LeavesOf ra rb n m (ok a) next h f = f a h

abbrev pred_length : List Token → ℕ
pred_length [] = 0
pred_length (t ∷ ts) = length ts

pred_le : (ts : List Token) → pred_length ts ≤ length ts
pred_le [] = omega arith
pred_le (t ∷ ts) = omega arith

abbrev collected_rest : Collected → List Token
collected_rest r = r.rest

abbrev arg_rest : Option Param × Cursor → List Token
arg_rest r = r.1.rest

abbrev list_rest : Params × Kwargs × Cursor → List Token
list_rest r = r.2.rest

ub_is_no_fuel : undefined_behaviour ≢ no_fuel
ub_is_no_fuel e = cc e

LeavesOf-weaken :
    {A : Type 0} (rest : A → List Token) (n m : ℕ) (r : Result A)
    → n ≤ m
    → LeavesOf rest n r
    → LeavesOf rest m r
LeavesOf-weaken rest n m (err e) p h = h
LeavesOf-weaken rest n m (ok a) p h = omega (arith, p, h)

with_token-LeavesOf :
    (t : Token) (n : ℕ) (r : Result Collected)
    → LeavesOf collected_rest n r
    → LeavesOf collected_rest n (with_token t r)
with_token-LeavesOf t n (err e) h = h
with_token-LeavesOf t n (ok r) h = h

-- The loop over an argument reads one token at least.
collect-LeavesOf :
    (c : BraceCounter) (k : TokenKind) (e : Bool) (t : Token) (ts : List Token)
    → LeavesOf collected_rest (length ts) (collect c k e (t ∷ ts))
unfolding collect
collect-LeavesOf c k e t [] = ub_is_no_fuel
collect-LeavesOf c k e t (u ∷ ts) = elim (Bool-cases (ends_arg (count_token t.kind c) u)) [
  | inl stop ↦ rw stop (omega arith)
  | inr on ↦ rw on (
      with_token-LeavesOf t (suc (length ts)) _ (
        LeavesOf-weaken collected_rest (length ts) (suc (length ts)) _ (omega arith)
          (collect-LeavesOf (count_token t.kind c) (next_kind k t) (e || differs k t) u ts)))
]

module _ (c : Lexing) (payload : Bytes) where
  collected_arg-LeavesOf :
      (cur : Cursor) (n : ℕ) (r : Result Collected)
      → LeavesOf collected_rest n r
      → LeavesOf arg_rest n (collected_arg c payload cur r)
  collected_arg-LeavesOf cur n (err e) h = h
  collected_arg-LeavesOf cur n (ok r) h = h

  abbrev ArgsReturn : ℕ → Type 0
  ArgsReturn fuel =
      (rest : List Token) (last : ℕ)
      → pred_length rest < fuel
      → LeavesOf arg_rest (pred_length rest)
          (parse_arg c payload fuel (record { rest = rest; last = last }))

  abbrev ListsReturn : ℕ → Type 0
  ListsReturn fuel =
      (rest : List Token) (last : ℕ) (ps : Params) (ks : Kwargs)
      → length rest < fuel
      → LeavesOf list_rest (length rest)
          (parse_list c payload fuel (record { rest = rest; last = last }) ps ks)

  nested_returns :
      (fuel : ℕ) (t u : Token) (ts : List Token) (last n : ℕ)
      → ListsReturn fuel
      → length ts ≤ n
      → length ts ≤ fuel
      → is at t && is raw_identifier u ≡ true
      → LeavesOf arg_rest n
          (parse_arg c payload (suc fuel) (record { rest = t ∷ u ∷ ts; last = last }))
  unfolding parse_arg
  nested_returns fuel t u [] last n lists p q e = rw (LeavesOf, e) (omega arith)
  nested_returns fuel t u (l ∷ ts) last n lists p q e = elim (Bool-cases (is l_paren l)) [
    | inl o ↦
        rw (LeavesOf, e, o)
          (bind-LeavesOf list_rest arg_rest (length ts) n _ _
            (lists ts l.end no_params no_kwargs (omega (arith, q))) (λ r k. omega (arith, p, k)))
    | inr o ↦ rw (LeavesOf, e, o) p
  ]

  plain_returns :
      (fuel : ℕ) (t : Token) (ts : List Token) (last : ℕ)
      → arg_start (t ∷ ts) ≡ plain_arg
      → LeavesOf arg_rest
          (length ts)
          (parse_arg c payload (suc fuel) (record { rest = t ∷ ts; last = last }))
  unfolding parse_arg
  plain_returns fuel t ts last e =
      rw (LeavesOf, e)
        (collected_arg-LeavesOf (record { rest = t ∷ ts; last = last }) (length ts) _
          (collect-LeavesOf no_braces unknown false t ts))

  arg_step : (fuel : ℕ) → ListsReturn fuel → ArgsReturn (suc fuel)
  unfolding parse_arg
  arg_step fuel lists [] last h = omega arith
  arg_step fuel lists (t ∷ []) last h = plain_returns fuel t [] last refl
  arg_step fuel lists (t ∷ u ∷ ts) last h = elim (Bool-cases (is at t && is raw_identifier u)) [
    | inl e ↦ nested_returns fuel t u ts last _ lists (omega arith) (omega (arith, h)) e
    | inr e ↦ plain_returns fuel t (u ∷ ts) last (rw e refl)
  ]

  continue_returns :
      (rest : List Token) (last n : ℕ) (go : Cursor → Result (Params × Kwargs × Cursor))
      (stop : Result (Params × Kwargs × Cursor))
      → ((next : Cursor) → length next.rest ≤ length rest → LeavesOf list_rest n (go next))
      → LeavesOf list_rest n stop
      → LeavesOf list_rest n
          (continue_with (after_arg (record { rest = rest; last = last })) go stop)
  continue_returns [] last n go stop f h = ub_is_no_fuel
  continue_returns (t ∷ ts) last n go stop f h = elim (Bool-cases (is comma t)) [
    | inl e ↦ rw (LeavesOf, e) (f (record { rest = ts; last = t.end }) (omega arith))
    | inr e ↦ elim (Bool-cases (is r_paren t)) [
      | inl r ↦ rw (LeavesOf, e, r) (f (record { rest = t ∷ ts; last = last }) (omega arith))
      | inr r ↦ rw (LeavesOf, e, r) h
    ]
  ]

  turn_returns :
      (m : Result (Option Param × Cursor)) (k n : ℕ)
      (none_left : Cursor → Result (Params × Kwargs × Cursor))
      (go : Param → Cursor → Cursor → Result (Params × Kwargs × Cursor))
      (stop : Param → Cursor → Result (Params × Kwargs × Cursor))
      → LeavesOf arg_rest k m
      → ((b : Cursor) → length b.rest ≤ k → LeavesOf list_rest n (none_left b))
      → ((v : Param) (b next : Cursor) → length next.rest ≤ k → LeavesOf list_rest n (go v b next))
      → ((v : Param) (b : Cursor) → length b.rest ≤ k → LeavesOf list_rest n (stop v b))
      → LeavesOf list_rest n
          (m >>= λ r. take_arg r none_left λ v b. continue_with (after_arg b) (go v b) (stop v b))
  turn_returns (err e) k n none_left go stop h f g s = h
  turn_returns (ok (none, b)) k n none_left go stop h f g s = f b h
  turn_returns (ok (some v, b)) k n none_left go stop h f g s =
      continue_returns b.rest b.last n (go v b) (stop v b)
        (λ next p. g v b next (omega (arith, h, p))) (s v b h)

  later :
      (fuel n : ℕ) (next : Cursor) (ps : Params) (ks : Kwargs)
      → ListsReturn fuel
      → length next.rest < fuel
      → length next.rest ≤ n
      → LeavesOf list_rest n (parse_list c payload fuel next ps ks)
  later fuel n next ps ks lists p q =
      LeavesOf-weaken list_rest (length next.rest) n _ q (lists next.rest next.last ps ks p)

  regular_returns :
      (fuel : ℕ) (t : Token) (ts : List Token) (last : ℕ) (ps : Params) (ks : Kwargs)
      → ArgsReturn fuel
      → ListsReturn fuel
      → length (t ∷ ts) < suc fuel
      → turn_of (t ∷ ts) ≡ regular_arg
      → LeavesOf list_rest
          (length (t ∷ ts))
          (parse_list c payload (suc fuel) (record { rest = t ∷ ts; last = last }) ps ks)
  unfolding parse_arg
  regular_returns fuel t ts last ps ks args lists h e =
      rw (LeavesOf, e)
        (turn_returns _ (length ts) (suc (length ts)) _ _ _ (args (t ∷ ts) last (omega (arith, h)))
          (λ b p. omega (arith, p))
          (λ v b next p.
            later fuel (suc (length ts)) next (push_back ps v) ks lists (omega (arith, h, p))
              (omega (arith, p)))
          (λ v b p. omega (arith, p)))

  keyword_returns :
      (fuel : ℕ) (t u : Token) (ts : List Token) (last : ℕ) (ps : Params) (ks : Kwargs)
      → ArgsReturn fuel
      → ListsReturn fuel
      → length (t ∷ u ∷ ts) < suc fuel
      → turn_of (t ∷ u ∷ ts) ≡ keyword_arg t.spelling (record { rest = ts; last = u.end })
      → LeavesOf list_rest
          (length (t ∷ u ∷ ts))
          (parse_list c payload (suc fuel) (record { rest = t ∷ u ∷ ts; last = last }) ps ks)
  unfolding parse_arg
  keyword_returns fuel t u ts last ps ks args lists h e =
      let less = pred_le ts in
      rw (LeavesOf, e)
        (turn_returns _ (pred_length ts) (suc (suc (length ts))) _ _ _
          (args ts u.end (omega (arith, h, less))) (λ b p. omega (arith, p, less))
          (λ v b next p.
            later fuel (suc (suc (length ts))) next ps (insert_or_assign t.spelling v ks) lists
              (omega (arith, h, p, less)) (omega (arith, p, less)))
          (λ v b p. omega (arith, p, less)))

  open_turn :
      (fuel : ℕ) (t : Token) (ts : List Token) (last : ℕ) (ps : Params) (ks : Kwargs)
      → ArgsReturn fuel
      → ListsReturn fuel
      → length (t ∷ ts) < suc fuel
      → is r_paren t ≡ false
      → LeavesOf list_rest
          (length (t ∷ ts))
          (parse_list c payload (suc fuel) (record { rest = t ∷ ts; last = last }) ps ks)
  open_turn fuel t [] last ps ks args lists h e =
      regular_returns fuel t [] last ps ks args lists h (rw e refl)
  open_turn fuel t (u ∷ ts) last ps ks args lists h e =
      elim (Bool-cases (is raw_identifier t && is equal u)) [
        | inl k ↦ keyword_returns fuel t u ts last ps ks args lists h (rw (e, k) refl)
        | inr k ↦ regular_returns fuel t (u ∷ ts) last ps ks args lists h (rw (e, k) refl)
      ]

  list_step : (fuel : ℕ) → ArgsReturn fuel → ListsReturn fuel → ListsReturn (suc fuel)
  unfolding parse_arg
  list_step fuel args lists [] last ps ks h = omega arith
  list_step fuel args lists (t ∷ ts) last ps ks h = elim (Bool-cases (is r_paren t)) [
    | inl e ↦ rw (LeavesOf, e) (omega arith)
    | inr e ↦ open_turn fuel t ts last ps ks args lists h e
  ]

  all_return : (fuel : ℕ) → ArgsReturn fuel × ListsReturn fuel
  all_return zero =
      (λ rest last h. absurd (omega (arith, h)), λ rest last ps ks h. absurd (omega (arith, h)))
  all_return (suc fuel) =
      let (args, lists) = all_return fuel in (arg_step fuel lists, list_step fuel args lists)

  abbrev error_of : Result ParsedAttr → Error
  error_of (ok a) = undefined_behaviour
  error_of (err e) = e

  named_returns :
      (name : Bytes) (m : Result (Params × Kwargs × Cursor)) (n : ℕ)
      → LeavesOf list_rest n m
      → (m >>= λ r. ok (parsed name r.0 r.1)) ≢ err no_fuel
  named_returns name (err e) n h q = h (ap error_of q)
  named_returns name (ok r) n h q = cc q

  listed_returns :
      (fuel : ℕ) (name : Bytes) (t : Token) (ts : List Token)
      → length ts < fuel
      → parse_named c payload fuel name (record { rest = t ∷ ts; last = 0 }) ≢ err no_fuel
  listed_returns fuel name t ts h = elim (Bool-cases (is l_paren t)) [
    | inl o ↦
        rw (parse_named, o)
          (named_returns name _ (length ts) ((all_return fuel).1 ts t.end no_params no_kwargs h))
    | inr o ↦ rw (parse_named, o) (λ q. cc q)
  ]

  -- The parser of an attribute returns within its fuel, for all tokens and all names, whatever Clang's
  -- literal parsers return.
  pub parse_okl_attr_returns :
      (name : Bytes) (tokens : List Token) → parse_okl_attr c payload name tokens ≢ err no_fuel
  unfolding parse_okl_attr
  parse_okl_attr_returns name [] = λ q. cc q
  parse_okl_attr_returns name (t ∷ ts) =
      listed_returns (2 * length (t ∷ ts) + 2) name t ts (omega arith)
