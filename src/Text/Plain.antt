-- ===== src/Text/Plain.antt =====
-- The brackets `{` and `}` of generated code: how many a text has, and which are left after `fmt`.
use occa_transpiler.Base.{
  ℕ, suc, ◌+◌, Bool, true, false, not, ◌&&◌, Option, none, some, List, [], ◌∷◌, ◌++◌, ◌==◌, ◌≡◌,
  ◌≢◌, ◌⊎◌, inl, inr, ap, ==_iff, Bool-cases, refl, ◌∙◌, if◌then◌else◌, length, arith, All,
}
use occa_transpiler.Ast.{Bytes}
use occa_transpiler.Result.{ok}
use occa_transpiler.Text.{open_bracket, close_bracket, fmt}
use occa_transpiler.Text.Template.{clean, find_none, find_first, insert_first}

-- Neither `{` nor `}`.
abbrev pub plain : Bytes → Bool
plain [] = true
plain (c ∷ s) = not (c == open_bracket) && not (c == close_bracket) && plain s

abbrev pub Plain : Bytes → Type 0
Plain s = plain s ≡ true

abbrev pub occurrences : ℕ → Bytes → ℕ
occurrences b [] = 0
occurrences b (c ∷ s) = (if c == b then 1 else 0) + occurrences b s

abbrev pub opens : Bytes → ℕ
opens = occurrences open_bracket

abbrev pub closes : Bytes → ℕ
closes = occurrences close_bracket

-- The number of `{}` in a format whose other characters are no brackets; `pending` after a `{`.
abbrev one_more : Option ℕ → Option ℕ
one_more none = none
one_more (some n) = some (suc n)

abbrev pub holes : Bool → Bytes → Option ℕ
holes false [] = some 0
holes true [] = none
holes true (c ∷ s) = let rest = holes false s in if c == close_bracket then one_more rest else none
holes false (c ∷ s) =
    let next = holes true s in
    let rest = holes false s in
    if c == open_bracket then next else if c == close_bracket then none else rest

pub plain-append : (s t : Bytes) → Plain s → Plain t → Plain (s ++ t)
plain-append [] t h k = k
plain-append (c ∷ s) t h k = ground (arith, plain-append s t)

pub plain-clean : (s : Bytes) → Plain s → clean s ≡ true
plain-clean [] h = refl
plain-clean (c ∷ s) h = ground (arith, plain-clean s)

pub occurrences-append :
    (b : ℕ) (s t : Bytes) → occurrences b (s ++ t) ≡ occurrences b s + occurrences b t
occurrences-append b [] t = omega arith
occurrences-append b (c ∷ s) t = omega (arith, occurrences-append b s t)

pub opens-plain : (s : Bytes) → Plain s → opens s ≡ 0
opens-plain [] h = refl
opens-plain (c ∷ s) h = ground (arith, opens-plain s)

pub closes-plain : (s : Bytes) → Plain s → closes s ≡ 0
closes-plain [] h = refl
closes-plain (c ∷ s) h = ground (arith, closes-plain s)

holes-append : (p t : Bytes) → Plain p → holes false (p ++ t) ≡ holes false t
holes-append [] t h = refl
holes-append (c ∷ p) t h = ground (arith, holes-append p t)

one_more-none : (o : Option ℕ) → one_more o ≢ some 0
one_more-none none e = cc
one_more-none (some n) e = ground (arith, e)

one_more-some : (o : Option ℕ) (n : ℕ) → one_more o ≡ some (suc n) → o ≡ some n
one_more-some none n e = cc
one_more-some (some m) n e = ground (arith, e)

-- After a `{` stands a `}`.
after_open :
    (s : Bytes) (o : Option ℕ)
    → holes true s ≡ o
    → (o ≡ none) ⊎ ((t : Bytes) × (s ≡ close_bracket ∷ t) × (one_more (holes false t) ≡ o))
after_open [] o e = inl (cc e)
after_open (c ∷ s) o e = elim (Bool-cases (c == close_bracket)) [
  | inl same ↦ inr (s, ap (λ b. b ∷ s) ((==_iff c close_bracket).0 same), rw same at e)
  | inr other ↦ inl (cc (rw other at e))
]

pub holes-none : (s : Bytes) → holes false s ≡ some 0 → Plain s
holes-none [] h = refl
holes-none (c ∷ s) h = elim (Bool-cases (c == open_bracket)) [
  | inl same ↦ elim (after_open s (some 0) (rw same at h)) [
    | inl e ↦ cc e
    | inr (t, q, e) ↦ absurd (one_more-none (holes false t) e)
  ]
  | inr other ↦ ground (arith, holes-none s)
]

-- The first `{}` of a format.
holes-split :
    (s : Bytes) (n : ℕ)
    → holes false s ≡ some (suc n)
    → (p : Bytes) × (t : Bytes) × (s ≡ p ++ (open_bracket ∷ close_bracket ∷ t))
      × Plain p
      × (holes false t ≡ some n)
holes-split [] n h = ground (arith, h)
holes-split (c ∷ s) n h = elim (Bool-cases (c == open_bracket)) [
  | inl same ↦ elim (after_open s (some (suc n)) (rw same at h)) [
    | inl e ↦ cc e
    | inr (t, q, e) ↦ (
      [],
      t,
      rw q (ap (λ b. b ∷ close_bracket ∷ t) ((==_iff c open_bracket).0 same)),
      refl,
      one_more-some (holes false t) n e,
    )
  ]
  | inr other ↦ elim (Bool-cases (c == close_bracket)) [
    | inl same ↦ cc (rw (other, same) at h)
    | inr neither ↦
        let (p, t, q, k, e) = holes-split s n (rw (other, neither) at h) in
        (c ∷ p, t, ap (λ r. c ∷ r) q, rw (other, neither) k, e)
  ]
]

fmt_step :
    (p t v : Bytes) (vs : List Bytes)
    → clean p ≡ true
    → fmt (p ++ (open_bracket ∷ close_bracket ∷ t)) (v ∷ vs) ≡ fmt (p ++ (v ++ t)) vs
unfolding fmt
fmt_step p t v vs k = rw (fmt, find_first p t k, insert_first p t v) refl

-- With as many values as `{}`, all without brackets, `fmt` returns a text without brackets.
pub fmt-plain :
    (s : Bytes) (vs : List Bytes)
    → holes false s ≡ some (length vs)
    → All Plain vs
    → (r : Bytes) × (fmt s vs ≡ ok r) × Plain r
unfolding fmt
fmt-plain s [] h k =
    (s, rw (fmt, find_none s (plain-clean s (holes-none s h))) refl, holes-none s h)
fmt-plain s (v ∷ vs) h k =
    let (p, t, q, kp, e) = holes-split s (length vs) h in
    let (r, done, kr) =
      fmt-plain (p ++ (v ++ t)) vs (rw (holes-append p (v ++ t) kp, holes-append v t k.0) e) k.1 in
    (r, ap (λ u. fmt u (v ∷ vs)) q ∙ fmt_step p t v vs (plain-clean p kp) ∙ done, kr)
