-- ===== src/Args/Parse.antt =====
-- The recursive descent of lib/attributes/utils/parser.cpp over the tokens of an attribute: `BraceCounter`,
-- `parseArg` and the two functions `parseOKLAttr`. The iterator is the list of the tokens from it on, with
-- the end of the token before it. Where the code reads a token at the end of the vector, which C++ leaves undefined, the
-- result is `undefined_behaviour`. Two functions call each other on fuel: 2 n + 2 is enough for n tokens.
pub mod Matched
pub mod RoundTrip
pub mod Returns
use occa_transpiler.Base.{
  ℕ, zero, suc, ◌+◌, ◌-◌, ◌*◌, ◌%◌, ◌^◌, Bool, true, false, not, ◌||◌, ◌&&◌, List, [], ◌∷◌, ◌++◌,
  ◌==◌, if◌then◌else◌, Option, none, some, length,
}
use occa_transpiler.Ast.{Bytes}
use occa_transpiler.Result.{Result, ok, err, ◌>>=◌, undefined_behaviour, no_fuel}
use occa_transpiler.Text.Literal.{codes}
use occa_transpiler.Args.{
  TokenKind, unknown, at, raw_identifier, comma, equal, minus, plus, l_paren, r_paren, l_square,
  r_square, l_brace, r_brace, numeric_constant, kind_eq, Token, is, slice, ParamValue, attr_value,
  Param, param, Params, no_params, push_back, Kwargs, no_kwargs, insert_or_assign, ParsedAttr,
  parsed,
}
use occa_transpiler.Args.Literals.{Lexing, make_param}

-- `BraceCounter`; the counters are `unsigned short`.
pub record BraceCounter : Type 0 where
  pub paren : ℕ
  pub bracket : ℕ
  pub brace : ℕ

abbrev pub no_braces : BraceCounter
no_braces = record { paren = 0; bracket = 0; brace = 0 }

-- `explicit operator bool`
abbrev pub pending : BraceCounter → Bool
pending c = not (c.paren == 0) || (not (c.bracket == 0) || not (c.brace == 0))

abbrev pub increase : ℕ → ℕ
increase n = (n + 1) % 2 ^ 16

abbrev pub decrease : ℕ → ℕ
decrease n = (n + (2 ^ 16 - 1)) % 2 ^ 16

abbrev pub count_token : TokenKind → BraceCounter → BraceCounter
count_token k c = elim k [
  | l_paren ↦ record c { paren = increase c.paren }
  | r_paren ↦ record c { paren = decrease c.paren }
  | l_square ↦ record c { bracket = increase c.bracket }
  | r_square ↦ record c { bracket = decrease c.bracket }
  | l_brace ↦ record c { brace = increase c.brace }
  | r_brace ↦ record c { brace = decrease c.brace }
  | _ ↦ c
]

-- The three cases for `tokKind` and `isExpr`.
abbrev pub signed_number : TokenKind → Token → Bool
signed_number k t = (kind_eq k minus || kind_eq k plus) && is numeric_constant t

abbrev pub next_kind : TokenKind → Token → TokenKind
next_kind k t = if kind_eq k unknown then t.kind else if signed_number k t then t.kind else k

abbrev pub differs : TokenKind → Token → Bool
differs k t = not (kind_eq k unknown) && (not (signed_number k t) && not (kind_eq t.kind k))

pub record Collected : Type 0 where
  pub tokens : List Token
  pub is_expr : Bool
  pub kind : TokenKind
  pub rest : List Token

abbrev pub with_token : Token → Result Collected → Result Collected
with_token t (err e) = err e
with_token t (ok c) = ok (record c { tokens = t ∷ c.tokens })

-- `TokIt->isOneOf(tok::comma, tok::r_paren) && !cnt`, after the increment.
abbrev pub ends_arg : BraceCounter → Token → Bool
ends_arg c t = (is comma t || is r_paren t) && not (pending c)

-- The loop of `parseArg`.
unfoldable pub collect : BraceCounter → TokenKind → Bool → List Token → Result Collected
collect c k e [] = ok (record { tokens = []; is_expr = e; kind = k; rest = [] })
collect c k e (t ∷ []) = err undefined_behaviour
collect c k e (t ∷ u ∷ ts) =
    let further =
      with_token t (collect (count_token t.kind c) (next_kind k t) (e || differs k t) (u ∷ ts)) in
    if ends_arg (count_token t.kind c) u
    then ok (record {
      tokens = t ∷ [];
      is_expr = e || differs k t;
      kind = next_kind k t;
      rest = u ∷ ts;
    })
    else further

-- `TokIt`: the tokens from it on, and the end of the one before.
pub record Cursor : Type 0 where
  pub rest : List Token
  pub last : ℕ

-- `@` and a name, at the start of an argument; a name and `=`, at that of a keyword argument.
pub data ArgStart : Type 0 where
  at_end : ArgStart
  nested : Token → Token → List Token → ArgStart
  plain_arg : ArgStart

abbrev pub arg_start : List Token → ArgStart
arg_start [] = at_end
arg_start (t ∷ []) = plain_arg
arg_start (t ∷ u ∷ ts) = if is at t && is raw_identifier u then nested t u ts else plain_arg

pub data Turn : Type 0 where
  no_tokens : Turn
  closed : Cursor → Turn
  keyword_arg : Bytes → Cursor → Turn
  regular_arg : Turn

abbrev pub keyword_turn : Token → List Token → Turn
keyword_turn t [] = regular_arg
keyword_turn t (u ∷ ts) =
    if is raw_identifier t && is equal u
    then keyword_arg t.spelling (record { rest = ts; last = u.end })
    else regular_arg

abbrev pub turn_of : List Token → Turn
turn_of [] = no_tokens
turn_of (t ∷ ts) =
    if is r_paren t then closed (record { rest = ts; last = t.end }) else keyword_turn t ts

-- After an argument: a comma, which is skipped; the bracket that closes; anything else, where the code
-- gives up.
pub data After : Type 0 where
  nothing_left : After
  go_on : Cursor → After
  give_up : After

abbrev pub after_arg : Cursor → After
after_arg cur = elim cur.rest [
  | [] ↦ nothing_left
  | t ∷ ts ↦
      if is comma t
      then go_on (record { rest = ts; last = t.end })
      else if is r_paren t
      then go_on cur
      else give_up
]

abbrev pub open_list : List Token → Option Cursor
open_list [] = none
open_list (t ∷ ts) = if is l_paren t then some (record { rest = ts; last = t.end }) else none

-- The end of the last of some tokens.
abbrev pub last_of : ℕ → List Token → ℕ
last_of n [] = n
last_of n (t ∷ ts) = last_of t.end ts

abbrev pub attr_prefix : Bytes
attr_prefix = codes "okl_"

-- What follows a call of `parseArg`, with and without an argument, and what follows the argument.
module _ {R : Type 0} where
  abbrev pub take_arg :
      Option Param × Cursor → (Cursor → Result R) → (Param → Cursor → Result R) → Result R
  take_arg (none, back) stop go = stop back
  take_arg (some v, back) stop go = go v back

  abbrev pub continue_with : After → (Cursor → Result R) → Result R → Result R
  continue_with nothing_left go stop = err undefined_behaviour
  continue_with (go_on next) go stop = go next
  continue_with give_up go stop = stop

module _ (c : Lexing) (payload : Bytes) where
  -- What `parseArg` returns for the tokens that its loop has collected.
  abbrev pub collected_arg : Cursor → Result Collected → Result (Option Param × Cursor)
  collected_arg cur (err e) = err e
  collected_arg cur (ok r) = ok (
    some (make_param c payload r.is_expr r.kind r.tokens),
    record { rest = r.rest; last = last_of cur.last r.tokens },
  )

  unfoldable mutual
    -- `parseArg`, with `parseOKLAttr()` for a nested attribute in it.
    pub parse_arg : ℕ → Cursor → Result (Option Param × Cursor)
    parse_arg zero cur = err no_fuel
    parse_arg (suc fuel) cur = elim (arg_start cur.rest) [
      | at_end ↦ ok (none, cur)
      | nested t u ts ↦ elim (open_list ts) [
        | none ↦ ok (
          some (
              param (slice payload t.start u.end)
                (attr_value (parsed (attr_prefix ++ u.spelling) no_params no_kwargs))),
          record { rest = ts; last = u.end },
        )
        | some inside ↦ parse_list fuel inside no_params no_kwargs >>= λ r. ok (
          some (
              param (slice payload t.start r.2.last)
                (attr_value (parsed (attr_prefix ++ u.spelling) r.0 r.1))),
          r.2,
        )
      ]
      | plain_arg ↦ collected_arg cur (collect no_braces unknown false cur.rest)
    ]

    -- The loop of `parseOKLAttr(attrFullName)`, behind the `(`.
    pub parse_list : ℕ → Cursor → Params → Kwargs → Result (Params × Kwargs × Cursor)
    parse_list zero cur ps ks = err no_fuel
    parse_list (suc fuel) cur ps ks = elim (turn_of cur.rest) [
      | no_tokens ↦ ok (ps, ks, cur)
      | closed next ↦ ok (ps, ks, next)
      | keyword_arg k value ↦ parse_arg fuel value >>= λ r.
          take_arg r (λ back. ok (ps, ks, back))
            λ v back.
              continue_with (after_arg back)
                (λ next. parse_list fuel next ps (insert_or_assign k v ks))
                (ok (ps, insert_or_assign k v ks, back))
      | regular_arg ↦ parse_arg fuel cur >>= λ r.
          take_arg r (λ back. ok (ps, ks, back))
            λ v back.
              continue_with (after_arg back) (λ next. parse_list fuel next (push_back ps v) ks)
                (ok (push_back ps v, ks, back))
    ]

  -- `parseOKLAttr(attrFullName)`
  abbrev pub parse_named : ℕ → Bytes → Cursor → Result ParsedAttr
  parse_named fuel name cur = elim (open_list cur.rest) [
    | none ↦ ok (parsed name no_params no_kwargs)
    | some inside ↦ parse_list fuel inside no_params no_kwargs >>= λ r. ok (parsed name r.0 r.1)
  ]

  -- `ParseOKLAttr`, on the tokens of the payload.
  unfoldable pub parse_okl_attr : Bytes → List Token → Result ParsedAttr
  unfolding parse_arg
  parse_okl_attr name tokens =
      parse_named (2 * length tokens + 2) name (record { rest = tokens; last = 0 })
