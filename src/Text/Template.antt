-- ===== src/Text/Template.antt =====
-- What `fmt` writes.
use occa_transpiler.Base.{
  ℕ, Bool, true, not, ◌&&◌, Option, none, some, List, [], ◌∷◌, ◌++◌, ◌==◌, ◌≡◌, ap, All, refl,
  length, arith, append_assoc,
}
use occa_transpiler.Ast.{Bytes}
use occa_transpiler.Result.{Result, ok, err}
use occa_transpiler.Text.{
  open_bracket, close_bracket, get_curly_bracket_idx, replace_at, insert_fmt_value, fmt, later,
  fmt_end,
}

-- No `{` in the text.
abbrev pub clean : Bytes → Bool
clean [] = true
clean (c ∷ s) = not (c == open_bracket) && clean s

pub clean-append : (s t : Bytes) → clean s ≡ true → clean t ≡ true → clean (s ++ t) ≡ true
clean-append [] t h k = k
clean-append (c ∷ s) t h k = ground (arith, clean-append s t)

pub find_none : (s : Bytes) → clean s ≡ true → get_curly_bracket_idx s ≡ ok none
unfolding get_curly_bracket_idx
find_none [] h = refl
find_none (c ∷ s) h = ground (arith, find_none s)

pub find_first :
    (s t : Bytes)
    → clean s ≡ true
    → get_curly_bracket_idx (s ++ (open_bracket ∷ close_bracket ∷ t)) ≡ ok (some (length s))
unfolding get_curly_bracket_idx
find_first [] t h = refl
find_first (c ∷ s) t h = ground (arith, find_first s t)

later-none : (r : Result (Option ℕ)) → later r ≡ ok none → r ≡ ok none
later-none (err e) h = cc
later-none (ok none) h = refl
later-none (ok (some i)) h = cc

find_clean : (s : Bytes) → get_curly_bracket_idx s ≡ ok none → clean s ≡ true
unfolding get_curly_bracket_idx
find_clean [] h = refl
find_clean (c ∷ s) h = ground (arith, later-none (get_curly_bracket_idx s), find_clean s)

pub insert_first :
    (s t v : Bytes)
    → insert_fmt_value (s ++ (open_bracket ∷ close_bracket ∷ t)) (length s) v ≡ s ++ (v ++ t)
unfolding replace_at
insert_first [] t v = refl
insert_first (c ∷ s) t v = ap (λ r. c ∷ r) (insert_first s t v)

-- A format string: a text, and after each `{}` another; with each `{}` the value for it.
abbrev pub template : Bytes → List (Bytes × Bytes) → Bytes
template s [] = s
template s ((v, t) ∷ more) = s ++ (open_bracket ∷ close_bracket ∷ template t more)

abbrev pub values : List (Bytes × Bytes) → List Bytes
values [] = []
values ((v, t) ∷ more) = v ∷ values more

abbrev pub filled : Bytes → List (Bytes × Bytes) → Bytes
filled s [] = s
filled s ((v, t) ∷ more) = s ++ (v ++ filled t more)

abbrev pub BothClean : Bytes × Bytes → Type 0
BothClean (v, t) = (clean v ≡ true) × (clean t ≡ true)

template-append :
    (p t : Bytes) (more : List (Bytes × Bytes)) → template (p ++ t) more ≡ p ++ template t more
template-append p t [] = refl
template-append p t ((v, u) ∷ more) =
    append_assoc p t (open_bracket ∷ close_bracket ∷ template u more)

filled-append :
    (p t : Bytes) (more : List (Bytes × Bytes)) → filled (p ++ t) more ≡ p ++ filled t more
filled-append p t [] = refl
filled-append p t ((v, u) ∷ more) = append_assoc p t (v ++ filled u more)

put_in : (p v t : Bytes) → (p ++ v) ++ t ≡ p ++ (v ++ t)
put_in p v t = append_assoc p v t

-- For a format string with as many `{}` as there are values, and no other `{` in it or in the values:
-- `fmt` succeeds, with each value in the place of its `{}`.
pub fmt-template :
    (s : Bytes) (more : List (Bytes × Bytes))
    → clean s ≡ true
    → All BothClean more
    → fmt (template s more) (values more) ≡ ok (filled s more)
unfolding fmt
fmt-template s [] c cs = rw (find_none s c) refl
fmt-template s ((v, t) ∷ more) c cs =
    rw
      (
        fmt,
        find_first s (template t more) c,
        insert_first s (template t more) v,
        ← append_assoc s v (template t more),
        ← template-append (s ++ v) t more,
        ← append_assoc s v (filled t more),
        ← filled-append (s ++ v) t more,
      )
      (fmt-template ((s ++ v) ++ t) more
        (clean-append (s ++ v) t (clean-append s v c cs.0.0) cs.0.1) cs.1)

end_clean :
    (s r : Bytes) (g : Result (Option ℕ))
    → get_curly_bracket_idx s ≡ g
    → fmt_end s g ≡ ok r
    → clean r ≡ true
end_clean s r (err e) q h = cc
end_clean s r (ok (some i)) q h = cc
end_clean s r (ok none) q h = cc (find_clean s q)

find-cases :
    (s v : Bytes) (vs : List Bytes) (r : Bytes) (g : Result (Option ℕ))
    → get_curly_bracket_idx s ≡ g
    → fmt s (v ∷ vs) ≡ ok r
    → (i : ℕ) × (fmt (insert_fmt_value s i v) vs ≡ ok r)
unfolding fmt
find-cases s v vs r (err e) q h = cc (rw (fmt, q) at h)
find-cases s v vs r (ok none) q h = cc (rw (fmt, q) at h)
find-cases s v vs r (ok (some i)) q h = (i, rw (fmt, q) at h)

-- Whatever `fmt` returns without an error has no `{` in it.
pub fmt-clean : (s : Bytes) (vs : List Bytes) (r : Bytes) → fmt s vs ≡ ok r → clean r ≡ true
unfolding fmt
fmt-clean s [] r h = end_clean s r (get_curly_bracket_idx s) refl h
fmt-clean s (v ∷ vs) r h =
    let (i, k) = find-cases s v vs r (get_curly_bracket_idx s) refl h in
    fmt-clean (insert_fmt_value s i v) vs r k
