-- ===== src/Serial/Gaps.antt =====
-- The values that the loops over the tiles and in a tile run through, with a step other than 1.
use occa_transpiler.Base.{
  ℕ, zero, suc, ◌+◌, ◌-◌, ◌*◌, ◌≤◌, ◌<◌, true, ◌||◌, List, [], ◌∷◌, ◌++◌, ◌≡◌, refl, ap, ◌∙◌, arith,
  inl, inr, Bool-cases, ltb,
}
use occa_transpiler.Attrs.{contains}
use occa_transpiler.Serial.Iterations.{values, below, each_tile}

-- The values of a loop lie between its bounds.
values-least : (fuel v bound step x : ℕ) → contains x (values fuel v bound step) ≡ true → v ≤ x
values-least zero v bound step x h = cc h
values-least (suc fuel) v bound step x h = ground (arith, values-least fuel (v + step) bound step x)

values-bound : (fuel v bound step x : ℕ) → contains x (values fuel v bound step) ≡ true → x < bound
values-bound zero v bound step x h = cc h
values-bound (suc fuel) v bound step x h = ground (arith, values-bound fuel (v + step) bound step x)

contains-append :
    (x : ℕ) (xs ys : List ℕ) → contains x (xs ++ ys) ≡ (contains x xs || contains x ys)
contains-append x [] ys = refl
contains-append x (y ∷ xs) ys = ground (arith, contains-append x xs ys)

contains-below : (end x : ℕ) (vs : List ℕ) → contains x (below end vs) ≡ true → contains x vs ≡ true
contains-below end x [] h = h
contains-below end x (v ∷ vs) h = ground (arith, contains-below end x vs)

abbrev pub tile_body : ℕ → ℕ → ℕ → ℕ → List ℕ
tile_body size step end t = below end (values size t (t + size) step)

tile_body-least : (size step end t x : ℕ) → contains x (tile_body size step end t) ≡ true → t ≤ x
tile_body-least size step end t x h =
    values-least size t (t + size) step x (contains-below end x (values size t (t + size) step) h)

tile_body-bound :
    (size step end t x : ℕ) → contains x (tile_body size step end t) ≡ true → x < t + size
tile_body-bound size step end t x h =
    values-bound size t (t + size) step x (contains-below end x (values size t (t + size) step) h)

tiles-least :
    (size step end fuel v bound far x : ℕ)
    → contains x (each_tile (tile_body size step end) (values fuel v bound far)) ≡ true
    → v ≤ x
tiles-least size step end zero v bound far x h = cc h
tiles-least size step end (suc fuel) v bound far x h =
    let tile = tile_body-least size step end v x in
    let later = tiles-least size step end fuel (v + far) bound far x in
    let split =
      contains-append x (tile_body size step end v)
        (each_tile (tile_body size step end) (values fuel (v + far) bound far)) in
    elim (Bool-cases (ltb v bound)) [
      | inl e ↦ ground (arith, split, tile, later, rw e at h)
      | inr e ↦ cc (rw e at h)
    ]

-- Behind the values of the first tile, none before the second.
pub tiles-gap :
    (size step end fuel v bound far x : ℕ)
    → contains x (each_tile (tile_body size step end) (values fuel v bound far)) ≡ true
    → v + size ≤ x
    → v + far ≤ x
tiles-gap size step end zero v bound far x h k = cc h
tiles-gap size step end (suc fuel) v bound far x h k =
    let tile = tile_body-bound size step end v x in
    let later = tiles-least size step end fuel (v + far) bound far x in
    let split =
      contains-append x (tile_body size step end v)
        (each_tile (tile_body size step end) (values fuel (v + far) bound far)) in
    elim (Bool-cases (ltb v bound)) [
      | inl e ↦ ground (arith, split, tile, later, k, rw e at h)
      | inr e ↦ cc (rw e at h)
    ]

product_split : (k d step : ℕ) → (suc k + d) * step ≡ (step * k + step) + d * step
product_split k d step = omega arith

pub too_far : (a size step k : ℕ) → k < size → size ≤ step * k → ¬ (a + size * step ≤ a + step * k)
too_far a size zero k p q h = omega (arith, p, q)
too_far a size (suc s) k p q h =
    let e : size ≡ suc k + (size - suc k) = omega (arith, p) in
    let split : size * suc s ≡ (suc s * k + suc s) + (size - suc k) * suc s =
      ap (λ n. n * suc s) e ∙ product_split k (size - suc k) (suc s) in
    omega (arith, h, split)
