-- ===== src/Loop/Sizes/Defined.antt =====
-- When `getInnerSizes` runs into no undefined behaviour, and what the size of a tiled loop is.
use occa_transpiler.Base.{
  ℕ, zero, suc, ◌+◌, ◌-◌, ◌*◌, ◌/◌, ◌%◌, ◌≤◌, ◌<◌, ◌≡◌, refl, arith, Bool, true, false, Option,
  none, some, ◌⊎◌, List, [], ◌∷◌, ltb, if◌then◌else◌, length, get_or,
}
use native.Mathlib.Nat.{div-add-mod, mod-lt}
use occa_transpiler.Ast.{Bytes}
use occa_transpiler.Result.{Result, ok, is_ok, is_ok->>=, is_ok-ok}
use occa_transpiler.Loop.{
  Axis, auto, is_auto, has_auto, LoopInfo, OptSizes, Loop, Loops, node, nil, cons,
}
use occa_transpiler.Loop.Sizes.{
  product, ones, set_size, tiles, own_sizes, get_inner_sizes, children_sizes, word,
}

-- For a positive tile size that is all of its text, and a positive range size below 2 ^ 64: the number of
-- blocks of the tiled loop is the range divided by the tile size, rounded up.
pub tiles-ceil :
    (tile range_size : ℕ)
    → 0 < tile
    → 0 < range_size
    → range_size < word
    → (n : ℕ) × (tiles (tile, false) range_size ≡ ok (some n))
      × (range_size ≤ n * tile)
      × ((n - 1) * tile < range_size)
unfolding tiles
tiles-ceil tile range_size t r w =
    let q : ℕ = (range_size - 1) / tile in
    let m : ℕ = (range_size - 1) % tile in
    let e : tile * q + m ≡ range_size - 1 = div-add-mod (range_size - 1) tile in
    let k : m < tile = mod-lt (range_size - 1) t in
    let b : q ≤ tile * q = grind arith in
    let f : 1 + (range_size - 1) / tile - 1 ≡ q = omega arith in
    (1 + (range_size - 1) / tile, ground arith, omega arith, rw f (omega arith))

is_auto-get_or :
    (axes : List Axis) (n : ℕ)
    → has_auto axes ≡ false
    → n < length axes
    → is_auto (get_or axes n auto) ≡ false
is_auto-get_or [] n h k = elim k [ ]
is_auto-get_or (a ∷ axes) zero h k = ground arith
is_auto-get_or (a ∷ axes) (suc n) h k = is_auto-get_or axes n (ground arith) (omega arith)

branch-ok :
    (o : Option OptSizes) (b : Bool) (r : Result OptSizes)
    → is_ok r ≡ true
    → is_ok {T = OptSizes} (elim o [ some s ↦ ok s | none ↦ if b then ok ones else r ]) ≡ true
branch-ok (some s) b r h = refl
branch-ok none true r h = refl
branch-ok none false r h = h

module _ (strtoll : Bytes → ℕ × Bool) where
  -- The loop has one axis for each of its types, none of them automatic, and the tile size of a
  -- tiled loop is not read as 0.
  pub record IsResolved (i : LoopInfo) : Type 0 where
    pub types : (length i.type ≡ 1) ⊎ (length i.type ≡ 2)
    pub axes : length i.axis ≡ length i.type
    pub specific : has_auto i.axis ≡ false
    pub tile : (length i.type ≡ 1) ⊎ (0 < (strtoll i.tile_size).0)

  unfoldable mutual
    pub AllResolved : Loop → Type 0
    AllResolved (node i cs) = IsResolved i × AllResolvedLoops cs

    pub AllResolvedLoops : Loops → Type 0
    AllResolvedLoops nil = Unit
    AllResolvedLoops (cons l ls) = AllResolved l × AllResolvedLoops ls

  own_sizes-ok : (i : LoopInfo) (s : OptSizes) → IsResolved i → is_ok (own_sizes strtoll i s) ≡ true
  unfolding own_sizes set_size tiles
  own_sizes-ok i s h =
      ground (arith, is_auto-get_or i.axis 0 h.specific, is_auto-get_or i.axis 1 h.specific)

  mutual
    unfolding get_inner_sizes AllResolved

    get_inner_sizes-ok : (l : Loop) → AllResolved l → is_ok (get_inner_sizes strtoll l) ≡ true
    get_inner_sizes-ok (node i cs) h = branch-ok i.overriden_inner_sizes _ _ (
        is_ok->>= (children_sizes strtoll 0 ones cs) (own_sizes strtoll i)
          (children_sizes-ok cs 0 ones h.1) (λ ret. own_sizes-ok i ret h.0))

    children_sizes-ok :
        (cs : Loops) (p : ℕ) (ret : OptSizes)
        → AllResolvedLoops cs
        → is_ok (children_sizes strtoll p ret cs) ≡ true
    children_sizes-ok nil p ret h = refl
    children_sizes-ok (cons c cs) p ret h =
        is_ok->>= (get_inner_sizes strtoll c) _ (get_inner_sizes-ok c h.0) (λ curr.
          children_sizes-ok cs (product curr) (if ltb p (product curr) then curr else ret) h.1)

  -- On a loop tree in which every loop has its axes resolved and no tile size of 0, the sizes are
  -- computed with no undefined behaviour: no index leaves the array and nothing is divided by 0.
  pub get_inner_sizes_defined :
      (l : Loop) → AllResolved l → (s : OptSizes) × (get_inner_sizes strtoll l ≡ ok s)
  get_inner_sizes_defined l h = is_ok-ok (get_inner_sizes strtoll l) (get_inner_sizes-ok l h)
