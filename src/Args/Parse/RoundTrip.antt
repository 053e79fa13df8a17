-- ===== src/Args/Parse/RoundTrip.antt =====
-- Arguments written between brackets, with commas, are parsed back as they are.
use occa_transpiler.Base.{
  ℕ, zero, suc, ◌+◌, ◌*◌, ◌≤◌, Bool, true, false, not, ◌&&◌, List, [], ◌∷◌, ◌++◌, ◌≡◌, refl, ◌∙◌,
  ap, Option, some, length, arith, inl, inr, Bool-cases, All, length-append,
}
use occa_transpiler.Ast.{Bytes}
use occa_transpiler.Result.{Result, ok, ◌>>=◌}
use occa_transpiler.Args.{
  unknown, at, raw_identifier, comma, equal, l_paren, r_paren, Token, is, Params, no_params, more,
  push_back, Kwargs, no_kwargs, Param, parsed,
}
use occa_transpiler.Args.Literals.{Lexing, make_param}
use occa_transpiler.Args.Parse.{
  Cursor, parse_named, take_arg, continue_with, after_arg, go_on, last_of, parse_arg, parse_list,
  parse_okl_attr, plain_arg, arg_start, regular_arg, turn_of,
}
use occa_transpiler.Args.Parse.Matched.{
  matched, ends, collect-matched, step-r_paren, kind_of, expr_of,
}

-- An argument: its first token and the others.
abbrev pub Argument : Type 0
Argument = Token × List Token

-- Neither a nested attribute nor a keyword with its value.
abbrev pub plain_start : Argument → Bool
plain_start (t, []) = true
plain_start (t, u ∷ us) =
    not (is at t && is raw_identifier u) && not (is raw_identifier t && is equal u)

abbrev pub IsArgument : Argument → Type 0
IsArgument (t, ts) = (matched (0, 0, 0) (t ∷ ts) ≡ true) × (plain_start (t, ts) ≡ true)

-- The arguments after the first, each behind a comma.
abbrev pub IsNext : Token × Argument → Type 0
IsNext (c, a) = (is comma c ≡ true) × IsArgument a

-- `a, b, …)` and what follows.
abbrev pub written : Argument → List (Token × Argument) → Token → List Token → List Token
written (t, ts) [] close rest = t ∷ (ts ++ (close ∷ rest))
written (t, ts) ((c, a) ∷ next) close rest = t ∷ (ts ++ (c ∷ written a next close rest))

ends-plain_start :
    (t u : Token) (ts rest : List Token)
    → plain_start (t, ts) ≡ true
    → ends u ≡ true
    → arg_start (t ∷ (ts ++ (u ∷ rest))) ≡ plain_arg
ends-plain_start t u [] rest h e = ground (arith, h, e)
ends-plain_start t u (v ∷ ts) rest h e = ground (arith, h, e)

not_closing :
    (t : Token) (ts : List Token) → matched (0, 0, 0) (t ∷ ts) ≡ true → is r_paren t ≡ false
not_closing t ts h = elim (Bool-cases (is r_paren t)) [
  | inl e ↦ ground (arith, rw (step-r_paren t.kind (0, 0, 0) refl e) at h)
  | inr e ↦ e
]

ends-turn :
    (t u : Token) (ts rest : List Token)
    → IsArgument (t, ts)
    → ends u ≡ true
    → turn_of (t ∷ (ts ++ (u ∷ rest))) ≡ regular_arg
ends-turn t u [] rest h e = rw (not_closing t [] h.0) (ground (arith, e))
ends-turn t u (v ∷ ts) rest h e = rw (not_closing t (v ∷ ts) h.0) (ground (arith, h.1))

comma-ends : (u : Token) → is comma u ≡ true → ends u ≡ true
comma-ends u h = ground (arith, h)

close-ends : (u : Token) → is r_paren u ≡ true → ends u ≡ true
close-ends u h = ground (arith, h)

close-comma : (u : Token) → is r_paren u ≡ true → is comma u ≡ false
close-comma u h = ground (arith, h)

value_step :
    {R : Type 0} (m : Result (Option Param × Cursor)) (none_left : Cursor → Result R) (v : Param)
    (back next : Cursor) (go : Param → Cursor → Cursor → Result R)
    (stop : Param → Cursor → Result R)
    → m ≡ ok (some v, back)
    → after_arg back ≡ go_on next
    → (m >>= λ r. take_arg r none_left λ w b. continue_with (after_arg b) (go w b) (stop w b))
      ≡ go v back next
value_step m none_left v back next go stop e a = rw (e, a) refl

module _ (c : Lexing) (payload : Bytes) where
  abbrev pub param_of : Argument → Param
  param_of (t, ts) =
      make_param c payload (expr_of unknown false (t ∷ ts)) (kind_of unknown (t ∷ ts)) (t ∷ ts)

  -- The parameters of the arguments, in their order.
  abbrev pub params_of : Argument → List (Token × Argument) → Params
  params_of a [] = more (param_of a) no_params
  params_of a ((k, b) ∷ next) = more (param_of a) (params_of b next)

  abbrev append_params : Params → Params → Params
  append_params no_params qs = qs
  append_params (more p ps) qs = more p (append_params ps qs)

  parse_arg-written :
      (fuel : ℕ) (t u : Token) (ts rest : List Token) (last : ℕ)
      → IsArgument (t, ts)
      → ends u ≡ true
      → parse_arg c payload (suc fuel) (record { rest = t ∷ (ts ++ (u ∷ rest)); last = last })
        ≡ ok (some (param_of (t, ts)), record { rest = u ∷ rest; last = last_of last (t ∷ ts) })
  unfolding parse_arg
  parse_arg-written fuel t u ts rest last h e =
      rw
        (
          parse_arg,
          ends-plain_start t u ts rest h.1 e,
          collect-matched (0, 0, 0) unknown false t ts u rest h.0 e,
        )
        refl

  -- One turn of the loop with a regular argument, and the last.
  regular_step :
      (fuel : ℕ) (cur back next : Cursor) (v : Param) (ps : Params) (ks : Kwargs)
      → turn_of cur.rest ≡ regular_arg
      → parse_arg c payload fuel cur ≡ ok (some v, back)
      → after_arg back ≡ go_on next
      → parse_list c payload (suc fuel) cur ps ks
        ≡ parse_list c payload fuel next (push_back ps v) ks
  unfolding parse_arg
  regular_step fuel cur back next v ps ks turn arg after =
      rw (parse_list, turn)
        (value_step (parse_arg c payload fuel cur) (λ b. ok (ps, ks, b)) v back next
          (λ w b n. parse_list c payload fuel n (push_back ps w) ks)
          (λ w b. ok (push_back ps w, ks, b)) arg after)

  closing_step :
      (fuel : ℕ) (t : Token) (rest : List Token) (last : ℕ) (ps : Params) (ks : Kwargs)
      → is r_paren t ≡ true
      → parse_list c payload (suc fuel) (record { rest = t ∷ rest; last = last }) ps ks
        ≡ ok (ps, ks, record { rest = rest; last = t.end })
  unfolding parse_arg
  closing_step fuel t rest last ps ks e = rw (parse_list, e) refl

  after_comma :
      (u : Token) (rest : List Token) (last : ℕ)
      → is comma u ≡ true
      → after_arg (record { rest = u ∷ rest; last = last })
        ≡ go_on (record { rest = rest; last = u.end })
  after_comma u rest last h = rw h refl

  after_close :
      (u : Token) (rest : List Token) (last : ℕ)
      → is r_paren u ≡ true
      → after_arg (record { rest = u ∷ rest; last = last })
        ≡ go_on (record { rest = u ∷ rest; last = last })
  after_close u rest last h = rw (close-comma u h, h) refl

  append_push :
      (ps : Params) (v : Param) (qs : Params)
      → append_params (push_back ps v) qs ≡ append_params ps (more v qs)
  append_push no_params v qs = refl
  append_push (more p ps) v qs = ap (more p) (append_push ps v qs)

  push_last : (ps : Params) (v : Param) → push_back ps v ≡ append_params ps (more v no_params)
  push_last no_params v = refl
  push_last (more p ps) v = ap (more p) (push_last ps v)

  parse_list-written :
      (a : Argument) (next : List (Token × Argument)) (close : Token) (rest : List Token)
      (fuel last : ℕ) (ps : Params) (ks : Kwargs)
      → IsArgument a
      → All IsNext next
      → is r_paren close ≡ true
      → length next + 2 ≤ fuel
      → parse_list c payload fuel (record { rest = written a next close rest; last = last }) ps ks
        ≡ ok (append_params ps (params_of a next), ks, record { rest = rest; last = close.end })
  parse_list-written a next close rest zero last ps ks h hs e f = absurd (omega (arith, f))
  parse_list-written a next close rest (suc zero) last ps ks h hs e f = absurd (omega (arith, f))
  parse_list-written (t, ts) [] close rest (suc (suc fuel)) last ps ks h hs e f =
      let q = close-ends close e in
      regular_step (suc fuel) _ _ _ (param_of (t, ts)) ps ks (ends-turn t close ts rest h q)
        (parse_arg-written fuel t close ts rest last h q)
        (after_close close rest (last_of last (t ∷ ts)) e)
      ∙ closing_step fuel close rest (last_of last (t ∷ ts)) (push_back ps (param_of (t, ts))) ks e
      ∙ ap (λ qs. ok (qs, ks, record { rest = rest; last = close.end }))
          (push_last ps (param_of (t, ts)))
  parse_list-written (t, ts) ((k, b) ∷ next) close rest (suc (suc fuel)) last ps ks h hs e f =
      let q = comma-ends k hs.0.0 in
      regular_step (suc fuel) _ _ _ (param_of (t, ts)) ps ks
        (ends-turn t k ts (written b next close rest) h q)
        (parse_arg-written fuel t k ts (written b next close rest) last h q)
        (after_comma k (written b next close rest) (last_of last (t ∷ ts)) hs.0.0)
      ∙ parse_list-written b next close rest (suc fuel) k.end (push_back ps (param_of (t, ts))) ks
          hs.0.1 hs.1 e (omega (arith, f))
      ∙ ap (λ qs. ok (qs, ks, record { rest = rest; last = close.end }))
          (append_push ps (param_of (t, ts)) (params_of b next))

  length-written :
      (a : Argument) (next : List (Token × Argument)) (close : Token) (rest : List Token)
      → length next + 2 ≤ length (written a next close rest)
  length-written (t, ts) [] close rest = omega (arith, length-append ts (close ∷ rest))
  length-written (t, ts) ((k, b) ∷ next) close rest =
      omega
        (arith, length-append ts (k ∷ written b next close rest), length-written b next close rest)

  parse_named-ok :
      (fuel : ℕ) (name : Bytes) (start : Token) (rest : List Token) (r : Params × Kwargs × Cursor)
      → is l_paren start ≡ true
      → parse_list c payload fuel (record { rest = rest; last = start.end }) no_params no_kwargs
        ≡ ok r
      → parse_named c payload fuel name (record { rest = start ∷ rest; last = 0 })
        ≡ ok (parsed name r.0 r.1)
  parse_named-ok fuel name start rest r o e = rw (parse_named, o) (rw e refl)

  -- An attribute with one or more arguments, none a nested attribute or a keyword with its value, each with its brackets
  -- matched and no comma outside of them, is parsed to its name and to the parameters of those
  -- arguments in their order.
  pub parse-written :
      (name : Bytes) (start close : Token) (a : Argument) (next : List (Token × Argument))
      (rest : List Token)
      → is l_paren start ≡ true
      → is r_paren close ≡ true
      → IsArgument a
      → All IsNext next
      → parse_okl_attr c payload name (start ∷ written a next close rest)
        ≡ ok (parsed name (params_of a next) no_kwargs)
  unfolding parse_okl_attr
  parse-written name start close a next rest o e h hs =
      let w = written a next close rest in
      parse_named-ok (2 * length (start ∷ w) + 2) name start w _ o (
        parse_list-written a next close rest (2 * length (start ∷ w) + 2) start.end no_params
          no_kwargs h hs e (omega (arith, length-written a next close rest)))
