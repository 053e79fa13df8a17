-- ===== src/Local/Bounds.antt =====
-- The number of elements of an @exclusive variable in serial code.
use occa_transpiler.Base.{
  ℕ, ◌≤◌, Bool, true, false, ◌≡◌, ◌⊎◌, inl, inr, if◌then◌else◌, arith, Bool-cases,
}
use occa_transpiler.Ast.{Bytes}
use occa_transpiler.Result.{ok, >>=-eq-ok}
use occa_transpiler.Loop.{OptSizes, Loops, nil, cons}
use occa_transpiler.Loop.Sizes.{product, has_null_opts, get_inner_sizes}
use occa_transpiler.Local.{exclusive_size, max_of}

max_of_le : (a b : ℕ) → (a ≤ max_of a b) × (b ≤ max_of a b)
max_of_le a b = (ground arith, ground arith)

module _ (strtoll : Bytes → ℕ × Bool) where
  -- The sizes of every loop are known, and their product is at most `n`.
  abbrev pub Fits : ℕ → Loops → Type 0
  Fits n nil = Unit
  Fits n (cons c cs) =
      ((v : OptSizes) × (get_inner_sizes strtoll c ≡ ok v)
        × (has_null_opts v ≡ false)
        × (product v ≤ n))
      × Fits n cs

  -- Some loop has a size that is not known.
  abbrev pub HasUnknown : Loops → Type 0
  HasUnknown nil = ⊥
  HasUnknown (cons c cs) =
      ((v : OptSizes) × (get_inner_sizes strtoll c ≡ ok v) × (has_null_opts v ≡ true))
      ⊎ HasUnknown cs

  size_bounds :
      (cs : Loops) (size n : ℕ)
      → exclusive_size strtoll cs size ≡ ok n
      → (HasUnknown cs × (n ≡ 1024)) ⊎ ((size ≤ n) × Fits n cs)
  unfolding exclusive_size
  size_bounds nil size n e = let same : size ≡ n = cc e in inr (omega (arith, same), tt)
  size_bounds (cons c cs) size n e =
      let (v, g, k) =
        >>=-eq-ok (get_inner_sizes strtoll c)
          (λ v.
            if has_null_opts v
            then ok 1024
            else exclusive_size strtoll cs (max_of (product v) size))
          e in
      let (p, q) = max_of_le (product v) size in
      elim (Bool-cases (has_null_opts v)) [
        | inl u ↦ inl (inl (v, g, u), cc (rw u at k))
        | inr u ↦ elim (size_bounds cs (max_of (product v) size) n (rw u at k)) [
          | inl h ↦ inl (inr h.0, h.1)
          | inr h ↦ inr (omega (arith, q, h.0), ((v, g, u, omega (arith, p, h.0)), h.1))
        ]
      ]

  -- The number of elements that an @exclusive variable gets in serial code is at least the number of
  -- threads of every child of its loop, where their sizes are known; it is 1024 where a size is not.
  pub exclusive_size-Fits :
      (cs : Loops) (n : ℕ)
      → exclusive_size strtoll cs 0 ≡ ok n
      → (HasUnknown cs × (n ≡ 1024)) ⊎ Fits n cs
  exclusive_size-Fits cs n e = elim (size_bounds cs 0 n e) [ inl h ↦ inl h | inr h ↦ inr h.1 ]
