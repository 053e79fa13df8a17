-- ===== src/Dim/Order.antt =====
-- Distinct indices below their number, as in an order of dimensions.
use occa_transpiler.Base.{
  ℕ, zero, suc, ◌≤◌, ◌<◌, true, false, List, [], ◌∷◌, ◌==◌, ◌≡◌, refl, arith, length, Bool-cases,
  inl, inr, if◌then◌else◌, lt→ltb, ==_iff, subst,
}
use occa_transpiler.Attrs.{contains}
use occa_transpiler.Attrs.Order.{Distinct}
use occa_transpiler.Dim.{all_below}

remove : ℕ → List ℕ → List ℕ
remove v [] = []
remove v (x ∷ xs) = let r = remove v xs in if x == v then r else x ∷ r

remove-absent : (v : ℕ) (xs : List ℕ) → contains v xs ≡ false → remove v xs ≡ xs
unfolding remove
remove-absent v [] h = refl
remove-absent v (x ∷ xs) h = ground (arith, remove-absent v xs)

contains-remove : (x v : ℕ) (xs : List ℕ) → contains x xs ≡ false → contains x (remove v xs) ≡ false
unfolding remove
contains-remove x v [] h = refl
contains-remove x v (y ∷ ys) h = ground (arith, contains-remove x v ys)

remove-Distinct : (v : ℕ) (xs : List ℕ) → Distinct xs → Distinct (remove v xs)
unfolding remove
remove-Distinct v [] d = tt
remove-Distinct v (x ∷ xs) d = ground (arith, remove-Distinct v xs, contains-remove x v xs)

length-remove : (v : ℕ) (xs : List ℕ) → Distinct xs → length xs ≤ suc (length (remove v xs))
unfolding remove
length-remove v [] d = omega arith
length-remove v (x ∷ xs) d = elim (Bool-cases (x == v)) [
  | inl e ↦
      rw (e, remove-absent v xs (subst (λ w. contains w xs ≡ false) ((==_iff x v).0 e) d.0))
        (omega arith)
  | inr e ↦ rw (e) (omega (arith, length-remove v xs d.1))
]

remove-below :
    (n : ℕ) (xs : List ℕ) → all_below (suc n) xs ≡ true → all_below n (remove n xs) ≡ true
unfolding remove
remove-below n [] h = refl
remove-below n (x ∷ xs) h = ground (arith, remove-below n xs)

Distinct-length : (n : ℕ) (xs : List ℕ) → Distinct xs → all_below n xs ≡ true → length xs ≤ n
Distinct-length zero [] d h = omega arith
Distinct-length zero (x ∷ xs) d h = absurd (ground arith)
Distinct-length (suc n) xs d h = omega (
  arith,
  length-remove n xs d,
  Distinct-length n (remove n xs) (remove-Distinct n xs d) (remove-below n xs h),
)

-- Distinct indices below their number are all of them.
pub all-named :
    (xs : List ℕ) (i : ℕ)
    → Distinct xs
    → all_below (length xs) xs ≡ true
    → i < length xs
    → contains i xs ≡ true
all-named xs i d h l = elim (Bool-cases (contains i xs)) [
  | inl c ↦ c
  | inr c ↦ absurd (
      omega (
        arith,
        Distinct-length (length xs) (i ∷ xs) (c, d) (ground (arith, lt→ltb i (length xs) l)),
      ))
]
