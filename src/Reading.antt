-- ===== src/Reading.antt =====
-- Expressions of C in the texts that lib/attributes writes: the tree of an expression, its text and its
-- value, and whether C groups the text the way of the tree. A text from the source stands in a
-- tree as one operand, and is one for C next to `+` or `*` only where it has no operator outside of brackets.
use occa_transpiler.Base.{
  ℕ, suc, ◌+◌, ◌-◌, ◌*◌, Bool, true, false, not, ◌&&◌, ◌||◌, [], ◌∷◌, ◌++◌, ◌==◌, ◌≡◌, ltb,
  if◌then◌else◌, is_nil, refl, Bool-cases, inl, inr, subst, ==_iff,
}
use occa_transpiler.Ast.{Bytes}
use occa_transpiler.Text.Literal.{codes}

-- A text of the source, brackets, and the operators.
pub data CExpr : Type 0 where
  operand : Bytes → CExpr
  paren : CExpr → CExpr
  plus times : CExpr → CExpr → CExpr

-- The text of an expression, before another text.
abbrev pub show : CExpr → Bytes → Bytes
show (operand s) rest = s ++ rest
show (paren e) rest = codes "(" ++ show e (codes ")" ++ rest)
show (plus a b) rest = show a (codes " + " ++ show b rest)
show (times a b) rest = show a (codes " * " ++ show b rest)

-- The value of the tree, in numbers without overflow, from those of its operands. It is the value of the
-- text where `is_read` holds.
abbrev pub eval : (Bytes → ℕ) → CExpr → ℕ
eval env (operand s) = env s
eval env (paren e) = eval env e
eval env (plus a b) = eval env a + eval env b
eval env (times a b) = eval env a * eval env b

abbrev is_open : ℕ → Bool
is_open c = (c == 40) || (c == 91)

abbrev is_close : ℕ → Bool
is_close c = (c == 41) || (c == 93)

abbrev is_quote : ℕ → Bool
is_quote c = (c == 34) || (c == 39)

-- A letter, a digit, `_` or `.`
abbrev is_word : ℕ → Bool
is_word c =
    (ltb 47 c && ltb c 58)
    || ((ltb 64 c && ltb c 91) || ((ltb 96 c && ltb c 123) || ((c == 95) || (c == 46))))

abbrev is_arithmetic : ℕ → Bool
is_arithmetic c = (c == 43) || ((c == 45) || ((c == 42) || ((c == 47) || (c == 37))))

-- What stands before a character outside of brackets: nothing or an operator, a word, a closing bracket, or
-- a space behind one of the two.
pub data Before : Type 0 where
  fresh word closed gap : Before

abbrev space_after : Before → Before
space_after fresh = fresh
space_after _ = gap

abbrev before_after : ℕ → Before → Before
before_after c b =
    if is_close c
    then closed
    else if is_word c
    then word
    else if c == 32
    then space_after b
    else fresh

abbrev depth_after : ℕ → ℕ → ℕ
depth_after c depth = if is_open c then suc depth else if is_close c then depth - 1 else depth

-- What a text has outside of brackets: anything, words with `+`, `-`, `*`, `/` and `%` between them, or one word
-- with nothing but `.` and brackets behind a closing bracket.
pub data Shape : Type 0 where
  any arithmetic whole : Shape

abbrev word_fits : Before → ℕ → Bool
word_fits fresh c = is_word c
word_fits word c = is_word c
word_fits closed c = c == 46
word_fits gap c = false

abbrev is_outside : Shape → Before → ℕ → Bool
is_outside any b c = true
is_outside arithmetic b c = word_fits b c || ((c == 32) || is_arithmetic c)
is_outside whole b c = word_fits b c

-- No text has quotes or closes more brackets than it has opened.
abbrev is_allowed : Shape → ℕ → Before → ℕ → Bool
is_allowed shape depth b c =
    if is_open c
    then true
    else if is_close c
    then ltb 0 depth
    else not (is_quote c) && (ltb 0 depth || is_outside shape b c)

abbrev scan : Shape → ℕ → Before → Bytes → Bool
scan shape depth b [] = depth == 0
scan shape depth b (c ∷ s) =
    is_allowed shape depth b c && scan shape (depth_after c depth) (before_after c b) s

abbrev has_shape : Shape → Bytes → Bool
has_shape shape s = not (is_nil s) && scan shape 0 fresh s

-- The brackets of a text match; outside of them it has no operator but the arithmetic ones, as `i + 1`; and no
-- operator at all, as in `n`, `2`, `a[i + 1]`, `f(x)` and `(a + b)`.
abbrev pub is_balanced : Bytes → Bool
is_balanced = has_shape any

abbrev pub is_sum : Bytes → Bool
is_sum = has_shape arithmetic

abbrev pub is_whole : Bytes → Bool
is_whole = has_shape whole

-- The places of an expression: alone or in brackets, on the left of `+`, as an operand of `+` or on the left of `*`,
-- and on the right of `*`.
pub data Place : Type 0 where
  alone sum product factor : Place

abbrev pub takes_sum : Place → Bool
takes_sum alone = true
takes_sum sum = true
takes_sum _ = false

abbrev pub takes_product : Place → Bool
takes_product factor = false
takes_product _ = true

-- C groups the text of a tree, in a place, as the tree.
abbrev pub is_read : Place → CExpr → Bool
is_read alone (operand s) = is_balanced s
is_read sum (operand s) = is_sum s
is_read product (operand s) = is_whole s
is_read factor (operand s) = is_whole s
is_read place (paren e) = is_read alone e
is_read place (plus a b) = takes_sum place && (is_read sum a && is_read product b)
is_read place (times a b) = takes_product place && (is_read product a && is_read factor b)

both : (a b : Bool) → (a && b) ≡ true → (a ≡ true) × (b ≡ true)
both true b h = (refl, h)
both false b h = cc

loosened :
    (o c p q v w : Bool)
    → (v ≡ true → w ≡ true)
    → (if o then true else if c then p else not q && (p || v)) ≡ true
    → (if o then true else if c then p else not q && (p || w)) ≡ true
loosened true c p q v w f h = refl
loosened false true p q v w f h = h
loosened false false p true v w f h = h
loosened false false true false v w f h = refl
loosened false false false false v w f h = f h

module _ (shape looser : Shape)
    (f : (b : Before) (c : ℕ) → is_outside shape b c ≡ true → is_outside looser b c ≡ true) where
  scan-looser :
      (depth : ℕ) (b : Before) (s : Bytes)
      → scan shape depth b s ≡ true
      → scan looser depth b s ≡ true
  scan-looser depth b [] h = h
  scan-looser depth b (c ∷ s) h =
      let (now, later) = both (is_allowed shape depth b c) _ h in
      rw
        (
          loosened (is_open c) (is_close c) (ltb 0 depth) (is_quote c) _ _ (f b c) now,
          scan-looser (depth_after c depth) (before_after c b) s later,
        )
        refl

  has_shape-looser : (s : Bytes) → has_shape shape s ≡ true → has_shape looser s ≡ true
  has_shape-looser [] h = h
  has_shape-looser (c ∷ s) h = scan-looser 0 fresh (c ∷ s) h

pub is_whole-is_balanced : (s : Bytes) → is_whole s ≡ true → is_balanced s ≡ true
is_whole-is_balanced = has_shape-looser whole any (λ b c h. refl)

pub is_sum-is_balanced : (s : Bytes) → is_sum s ≡ true → is_balanced s ≡ true
is_sum-is_balanced = has_shape-looser arithmetic any (λ b c h. refl)

pub is_whole-is_sum : (s : Bytes) → is_whole s ≡ true → is_sum s ≡ true
is_whole-is_sum = has_shape-looser whole arithmetic (λ b c h. rw h refl)

scan-word : (s : Bytes) → scan whole 0 fresh s ≡ true → scan whole 0 word s ≡ true
scan-word [] h = h
scan-word (c ∷ s) h = elim (Bool-cases (c == 32)) [
  | inl e ↦ cc (subst (λ x. scan whole 0 fresh (x ∷ s) ≡ true) ((==_iff c 32).0 e) h)
  | inr e ↦ rw e (rw e at h)
]

-- The name `_occa_tiled_` and a name.
pub is_whole-tiled : (s : Bytes) → is_whole s ≡ true → is_whole (codes "_occa_tiled_" ++ s) ≡ true
is_whole-tiled s h = scan-word s (both (not (is_nil s)) _ h).1
