-- ===== src/Loop/Sizes/Choice.antt =====
-- Which child's sizes `getInnerSizes` hands on: the comment in the source says the biggest.
use occa_transpiler.Base.{
  ℕ, ◌≤◌, ◌<◌, ◌≡◌, refl, ap, sym, subst, arith, Bool, true, false, inl, inr, List, [], ◌∷◌, All,
  ltb, Bool-cases, if◌then◌else◌,
}
use occa_transpiler.Ast.{Bytes}
use occa_transpiler.Result.{ok}
use occa_transpiler.Loop.{OptSizes, Loop, Loops, nil, cons}
use occa_transpiler.Loop.Sizes.{product, ones, get_inner_sizes, children_sizes}

-- The loop over the children, on the sizes that they have.
pick : ℕ → OptSizes → List OptSizes → OptSizes
pick prev ret [] = ret
pick prev ret (s ∷ ss) = pick (product s) (if ltb prev (product s) then s else ret) ss

-- The products, from `p` on, never fall.
abbrev pub NeverFalls : ℕ → List OptSizes → Type 0
NeverFalls p [] = Unit
NeverFalls p (s ∷ ss) = (p ≤ product s) × NeverFalls (product s) ss

pick_above :
    (p : ℕ) (ret s : OptSizes) (ss : List OptSizes)
    → ltb p (product s) ≡ true
    → pick p ret (s ∷ ss) ≡ pick (product s) s ss
unfolding pick
pick_above p ret s ss h = ap (λ (b : Bool). pick (product s) (if b then s else ret) ss) h

pick_same :
    (p : ℕ) (ret s : OptSizes) (ss : List OptSizes)
    → ltb p (product s) ≡ false
    → pick p ret (s ∷ ss) ≡ pick (product s) ret ss
unfolding pick
pick_same p ret s ss h = ap (λ (b : Bool). pick (product s) (if b then s else ret) ss) h

pick-ge :
    (p : ℕ) (ret : OptSizes) (ss : List OptSizes)
    → p ≤ product ret
    → NeverFalls p ss
    → (p ≤ product (pick p ret ss)) × All (λ s. product s ≤ product (pick p ret ss)) ss
pick-ge p ret [] h n = (unfold pick in h, tt)
pick-ge p ret (s ∷ ss) h n = elim (Bool-cases (ltb p (product s))) [
  | inl above ↦
      let (a, b) = pick-ge (product s) s ss (omega arith) n.1 in
      subst
        (λ (r : OptSizes).
          (p ≤ product r) × ((product s ≤ product r) × All (λ t. product t ≤ product r) ss))
        (sym (pick_above p ret s ss above)) (omega (arith, n.0), (a, b))
  | inr same ↦
      let e : product s ≤ p = ground arith in
      let (a, b) = pick-ge (product s) ret ss (omega arith) n.1 in
      subst
        (λ (r : OptSizes).
          (p ≤ product r) × ((product s ≤ product r) × All (λ t. product t ≤ product r) ss))
        (sym (pick_same p ret s ss same)) (omega (arith, n.0), (a, b))
]

module _ (strtoll : Bytes → ℕ × Bool) where
  -- The sizes of the children, each computed without undefined behaviour.
  pub data SizesOf : Loops → List OptSizes → Type 0 where
    none_left : SizesOf nil []
    one_more :
        {c : Loop} {cs : Loops} {s : OptSizes} {ss : List OptSizes}
        → get_inner_sizes strtoll c ≡ ok s
        → SizesOf cs ss
        → SizesOf (cons c cs) (s ∷ ss)

  children_sizes-pick :
      {cs : Loops} {ss : List OptSizes} (p : ℕ) (ret : OptSizes)
      → SizesOf cs ss
      → children_sizes strtoll p ret cs ≡ ok (pick p ret ss)
  unfolding get_inner_sizes pick
  children_sizes-pick p ret none_left = refl
  children_sizes-pick p ret (one_more {s} e h) =
      rw e (children_sizes-pick (product s) (if ltb p (product s) then s else ret) h)

  -- For children whose sizes are all computed, if the number of threads never falls from one child to the next, the sizes handed on are the
  -- biggest: no child needs more threads.
  pub children_sizes_biggest :
      (cs : Loops) (ss : List OptSizes)
      → SizesOf cs ss
      → NeverFalls 0 ss
      → (r : OptSizes) × (children_sizes strtoll 0 ones cs ≡ ok r)
        × All (λ s. product s ≤ product r) ss
  children_sizes_biggest cs ss h n =
      (pick 0 ones ss, children_sizes-pick 0 ones h, (pick-ge 0 ones ss (omega arith) n).1)

  -- Of three children whose sizes are computed, where the second needs at most as many threads as the first, and the third more than the
  -- second, the third child's sizes are handed on, also when the first child needs more.
  pub children_sizes_after_fall :
      (a b c : Loop) (r s t : OptSizes)
      → get_inner_sizes strtoll a ≡ ok r
      → get_inner_sizes strtoll b ≡ ok s
      → get_inner_sizes strtoll c ≡ ok t
      → product s ≤ product r
      → product s < product t
      → children_sizes strtoll 0 ones (cons a (cons b (cons c nil))) ≡ ok t
  unfolding pick
  children_sizes_after_fall a b c r s t ea eb ec h k =
      rw (children_sizes-pick 0 ones (one_more ea (one_more eb (one_more ec none_left))))
        (ground arith)
