-- ===== src/Args/Parse/Matched.antt =====
-- The loop of `parseArg` reads an argument with matched brackets to its end.
use occa_transpiler.Base.{
  ℕ, zero, suc, ◌+◌, ◌^◌, Bool, true, false, not, ◌||◌, ◌&&◌, List, [], ◌∷◌, ◌++◌, ◌==◌, ◌≡◌, refl,
  ◌∙◌, ap, if◌then◌else◌, Option, none, some, ltb, arith, inl, inr, Bool-cases, Option-cases,
}
use occa_transpiler.Result.{ok}
use occa_transpiler.Args.{
  TokenKind, comma, l_paren, r_paren, l_square, r_square, l_brace, r_brace, Token, is, kind_eq,
}
use occa_transpiler.Args.Parse.{
  BraceCounter, no_braces, pending, increase, decrease, count_token, next_kind, differs, ends_arg,
  collect,
}

-- How many round, square and curly brackets are open.
abbrev pub Depths : Type 0
Depths = ℕ × ℕ × ℕ

abbrev push_bracket : ℕ → Option ℕ
push_bracket n = if ltb (n + 1) (2 ^ 16) then some (n + 1) else none

abbrev pop_bracket : ℕ → Option ℕ
pop_bracket zero = none
pop_bracket (suc n) = if ltb n (2 ^ 16) then some n else none

abbrev at_paren : Depths → Option ℕ → Option Depths
at_paren d none = none
at_paren (p, s, b) (some n) = some (n, s, b)

abbrev at_square : Depths → Option ℕ → Option Depths
at_square d none = none
at_square (p, s, b) (some n) = some (p, n, b)

abbrev at_brace : Depths → Option ℕ → Option Depths
at_brace d none = none
at_brace (p, s, b) (some n) = some (p, s, n)

-- A bracket that closes is one of its kind that is open; fewer than 2 ^ 16 are open.
abbrev pub bracket_step : TokenKind → Depths → Option Depths
bracket_step k d = elim k [
  | l_paren ↦ at_paren d (push_bracket d.0)
  | r_paren ↦ at_paren d (pop_bracket d.0)
  | l_square ↦ at_square d (push_bracket d.1)
  | r_square ↦ at_square d (pop_bracket d.1)
  | l_brace ↦ at_brace d (push_bracket d.2)
  | r_brace ↦ at_brace d (pop_bracket d.2)
  | _ ↦ some d
]

abbrev pub outside : Depths → Bool
outside (p, s, b) = p == 0 && (s == 0 && b == 0)

-- Tokens with their brackets matched, and no comma outside of brackets.
abbrev pub matched : Depths → List Token → Bool
matched d [] = outside d
matched d (t ∷ ts) =
    not (outside d && is comma t)
    && elim (bracket_step t.kind d) [ none ↦ false | some e ↦ matched e ts ]

abbrev pub counter : Depths → BraceCounter
counter (p, s, b) = record { paren = p; bracket = s; brace = b }

increase-push : (n m : ℕ) → push_bracket n ≡ some m → increase n ≡ m
increase-push n m h = ground (arith, h)

decrease-pop : (n m : ℕ) → pop_bracket n ≡ some m → decrease n ≡ m
decrease-pop zero m h = cc h
decrease-pop (suc n) m h = ground (arith, h)

counter_of : Option Depths → BraceCounter
counter_of none = no_braces
counter_of (some d) = counter d

set_paren :
    (p s b : ℕ) (o : Option ℕ) (f : ℕ) (e : Depths)
    → ((n : ℕ) → o ≡ some n → f ≡ n)
    → at_paren (p, s, b) o ≡ some e
    → record (counter (p, s, b)) { paren = f } ≡ counter e
unfolding counter_of
set_paren p s b none f e k h = cc h
set_paren p s b (some n) f e k h =
    ap (λ m. record (counter (p, s, b)) { paren = m }) (k n refl) ∙ ap counter_of h

set_square :
    (p s b : ℕ) (o : Option ℕ) (f : ℕ) (e : Depths)
    → ((n : ℕ) → o ≡ some n → f ≡ n)
    → at_square (p, s, b) o ≡ some e
    → record (counter (p, s, b)) { bracket = f } ≡ counter e
unfolding counter_of
set_square p s b none f e k h = cc h
set_square p s b (some n) f e k h =
    ap (λ m. record (counter (p, s, b)) { bracket = m }) (k n refl) ∙ ap counter_of h

set_brace :
    (p s b : ℕ) (o : Option ℕ) (f : ℕ) (e : Depths)
    → ((n : ℕ) → o ≡ some n → f ≡ n)
    → at_brace (p, s, b) o ≡ some e
    → record (counter (p, s, b)) { brace = f } ≡ counter e
unfolding counter_of
set_brace p s b none f e k h = cc h
set_brace p s b (some n) f e k h =
    ap (λ m. record (counter (p, s, b)) { brace = m }) (k n refl) ∙ ap counter_of h

count_step :
    (k : TokenKind) (d e : Depths)
    → bracket_step k d ≡ some e
    → count_token k (counter d) ≡ counter e
unfolding counter_of
count_step l_paren (p, s, b) e h =
    set_paren p s b (push_bracket p) (increase p) e (increase-push p) h
count_step r_paren (p, s, b) e h = set_paren p s b (pop_bracket p) (decrease p) e (decrease-pop p) h
count_step l_square (p, s, b) e h =
    set_square p s b (push_bracket s) (increase s) e (increase-push s) h
count_step r_square (p, s, b) e h =
    set_square p s b (pop_bracket s) (decrease s) e (decrease-pop s) h
count_step l_brace (p, s, b) e h =
    set_brace p s b (push_bracket b) (increase b) e (increase-push b) h
count_step r_brace (p, s, b) e h = set_brace p s b (pop_bracket b) (decrease b) e (decrease-pop b) h
count_step _ d e h = ap counter_of h

pending-outside : (d : Depths) → pending (counter d) ≡ not (outside d)
pending-outside (p, s, b) = ground arith

-- What the loop computes of an argument: the kind, and whether it is an expression.
abbrev pub kind_of : TokenKind → List Token → TokenKind
kind_of k [] = k
kind_of k (t ∷ ts) = kind_of (next_kind k t) ts

abbrev pub expr_of : TokenKind → Bool → List Token → Bool
expr_of k e [] = e
expr_of k e (t ∷ ts) = expr_of (next_kind k t) (e || differs k t) ts

abbrev pub ends : Token → Bool
ends t = is comma t || is r_paren t

pub step-r_paren :
    (k : TokenKind) (d : Depths)
    → outside d ≡ true
    → kind_eq k r_paren ≡ true
    → bracket_step k d ≡ none
step-r_paren r_paren (zero, s, b) h e = refl
step-r_paren r_paren (suc p, s, b) h e = ground (arith, h)
step-r_paren _ d h e = ground (arith, e)

matched-ends :
    (d : Depths) (t : Token) (ts : List Token)
    → matched d (t ∷ ts) ≡ true
    → ends_arg (counter d) t ≡ false
matched-ends d t ts h = elim (Bool-cases (outside d)) [
  | inl e ↦ elim (Bool-cases (is r_paren t)) [
    | inl r ↦ ground (arith, rw (step-r_paren t.kind d e r) at h)
    | inr r ↦ ground (arith, rw e at h, r)
  ]
  | inr e ↦ rw (pending-outside d, e) (ground arith)
]

matched-next :
    (d : Depths) (t : Token) (ts : List Token)
    → matched d (t ∷ ts) ≡ true
    → (e : Depths) × (bracket_step t.kind d ≡ some e) × (matched e ts ≡ true)
matched-next d t ts h = elim (Option-cases (bracket_step t.kind d)) [
  | inl none_is ↦ ground (arith, rw none_is at h)
  | inr (e, q) ↦ (e, q, ground (arith, rw q at h))
]

-- The loop stops behind a matched argument.
pub collect-matched :
    (d : Depths) (k : TokenKind) (e : Bool) (t : Token) (ts : List Token) (u : Token)
    (rest : List Token)
    → matched d (t ∷ ts) ≡ true
    → ends u ≡ true
    → collect (counter d) k e (t ∷ (ts ++ (u ∷ rest)))
      ≡ ok (record {
        tokens = t ∷ ts;
        is_expr = expr_of k e (t ∷ ts);
        kind = kind_of k (t ∷ ts);
        rest = u ∷ rest;
      })
unfolding collect
collect-matched d k e t [] u rest h q =
    let (d', step, inside) = matched-next d t [] h in
    rw (count_step t.kind d d' step, pending-outside d', inside, q) refl
collect-matched d k e t (v ∷ ts) u rest h q =
    let (d', step, inside) = matched-next d t (v ∷ ts) h in
    rw
      (
        count_step t.kind d d' step,
        matched-ends d' v ts inside,
        collect-matched d' (next_kind k t) (e || differs k t) v ts u rest inside q,
      )
      refl
