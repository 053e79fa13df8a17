-- ===== src/Serial/Iterations.antt =====
-- The values that a tiled loop runs through in serial code: those of a loop over the tiles and, for
-- each of them, of a loop inside it with the check of the end.
use occa_transpiler.Base.{
  ℕ, zero, suc, ◌+◌, ◌-◌, ◌≤◌, ◌<◌, false, List, [], ◌∷◌, ◌++◌, ◌≡◌, refl, ap, ◌∙◌, sym,
  if◌then◌else◌, ltb, ltb→lt, lt→ltb, Bool-cases, inl, inr, arith, append-nil,
}

-- `for (v = start; v < bound; v += step)`, on fuel.
abbrev pub values : ℕ → ℕ → ℕ → ℕ → List ℕ
values zero v bound step = []
values (suc fuel) v bound step =
    let rest = values fuel (v + step) bound step in if ltb v bound then v ∷ rest else []

-- `if (v < end)` around the body of a loop.
abbrev pub below : ℕ → List ℕ → List ℕ
below end [] = []
below end (v ∷ vs) = let rest = below end vs in if ltb v end then v ∷ rest else rest

abbrev pub each_tile : (ℕ → List ℕ) → List ℕ → List ℕ
each_tile body [] = []
each_tile body (t ∷ ts) = body t ++ each_tile body ts

pub range : ℕ → ℕ → List ℕ
range v zero = []
range v (suc n) = v ∷ range (suc v) n

range_congr : (v m n : ℕ) → m ≡ n → range v m ≡ range v n
range_congr v m n e = ap (range v) e

range-append : (v m n : ℕ) → range v (m + n) ≡ range v m ++ range (v + m) n
unfolding range
range-append v zero n = range_congr v (0 + n) n (omega arith) ∙ ap (λ k. range k n) (omega arith)
range-append v (suc m) n =
    range_congr v (suc m + n) (suc (m + n)) (omega arith)
    ∙ ap (λ r. v ∷ r)
        (range-append (suc v) m n ∙ ap (λ k. range (suc v) m ++ range k n) (omega arith))

not_below : (v bound : ℕ) → ltb v bound ≡ false → bound ≤ v
not_below v bound h = ground arith

pub values-range :
    (fuel v bound : ℕ) → bound ≤ v + fuel → values fuel v bound 1 ≡ range v (bound - v)
unfolding range
values-range zero v bound h = sym (range_congr v (bound - v) 0 (omega (arith, h)))
values-range (suc fuel) v bound h = elim (Bool-cases (ltb v bound)) [
  | inl e ↦ rw e (
      ap (λ r. v ∷ r)
        (ap (λ k. values fuel k bound 1) (omega arith)
          ∙ values-range fuel (suc v) bound (omega (arith, h)))
      ∙ range_congr v (suc (bound - suc v)) (bound - v) (omega (arith, ltb→lt v bound e)))
  | inr e ↦ rw e (sym (range_congr v (bound - v) (0) (omega (arith, not_below v bound e))))
]

below-range_all : (end t n : ℕ) → t + n ≤ end → below end (range t n) ≡ range t n
unfolding range
below-range_all end t zero h = refl
below-range_all end t (suc n) h =
    rw (lt→ltb t end (omega (arith, h)))
      (ap (λ r. t ∷ r) (below-range_all end (suc t) n (omega (arith, h))))

below-range_cut : (end t n : ℕ) → end ≤ t + n → below end (range t n) ≡ range t (end - t)
unfolding range
below-range_cut end t zero h = sym (range_congr t (end - t) 0 (omega (arith, h)))
below-range_cut end t (suc n) h = elim (Bool-cases (ltb t end)) [
  | inl e ↦ rw e (
      ap (λ r. t ∷ r) (below-range_cut end (suc t) n (omega (arith, h)))
      ∙ range_congr t (suc (end - suc t)) (end - t) (omega (arith, ltb→lt t end e)))
  | inr e ↦ rw e (
      below-range_cut end (suc t) n (omega (arith, h))
      ∙ range_congr (suc t) (end - suc t) 0 (omega (arith, not_below t end e))
      ∙ sym (range_congr t (end - t) 0 (omega (arith, not_below t end e))))
]

one_tile : (end t size : ℕ) → below end (values size t (t + size) 1) ≡ below end (range t size)
one_tile end t size = ap (below end) (
    values-range size t (t + size) (omega arith)
    ∙ range_congr t ((t + size) - t) size (omega arith))

pub tiles-range :
    (size end : ℕ)
    → 0 < size
    → (fuel t : ℕ) → end ≤ t + fuel
    → each_tile (λ u. below end (values size u (u + size) 1)) (values fuel t end size)
      ≡ range t (end - t)
unfolding range
tiles-range size end p zero t h = sym (range_congr t (end - t) 0 (omega (arith, h)))
tiles-range size end p (suc fuel) t h = elim (Bool-cases (ltb t end)) [
  | inl e ↦
      rw (e, one_tile end t size, tiles-range size end p fuel (t + size) (omega (arith, p, h)))
        (elim (Bool-cases (ltb end (t + size))) [
          | inl cut ↦ rw (below-range_cut end t size (omega (arith, ltb→lt end (t + size) cut))) (
              ap (λ r. range t (end - t) ++ r)
                (range_congr (t + size) (end - (t + size)) 0
                  (omega (arith, ltb→lt end (t + size) cut)))
              ∙ append-nil (range t (end - t)))
          | inr all ↦ rw (below-range_all end t size (not_below end (t + size) all)) (
              sym (range-append t size (end - (t + size)))
              ∙ range_congr t (size + (end - (t + size))) (end - t)
                  (omega (arith, not_below end (t + size) all)))
        ])
  | inr e ↦ rw e (sym (range_congr t (end - t) 0 (omega (arith, not_below t end e))))
]
