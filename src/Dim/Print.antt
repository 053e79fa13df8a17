-- ===== src/Dim/Print.antt =====
-- The text of the index of an access.
use occa_transpiler.Base.{
  ℕ, zero, suc, ◌*◌, some, List, [], ◌∷◌, ◌++◌, ◌≡◌, refl, ap, ◌∙◌, All, arith, append_assoc,
  append-nil, length, get_elem?, true,
}
use occa_transpiler.Ast.{Bytes}
use occa_transpiler.Result.{ok}
use occa_transpiler.Text.{fmt}
use occa_transpiler.Text.Template.{fmt-template, clean}
use occa_transpiler.Dim.{open_text, build_index_calculation, open_format, repeat, close_paren, item}

-- The texts " + (" and " * (".
abbrev pub plus_text : Bytes
plus_text = 32 ∷ 43 ∷ 32 ∷ 40 ∷ []

abbrev pub times_text : Bytes
times_text = 32 ∷ 42 ∷ 32 ∷ 40 ∷ []

-- An index, as nested text: `a + (d * (…))`.
abbrev pub nested : (ℕ → Bytes) → (ℕ → Bytes) → ℕ → List ℕ → Bytes
nested dim arg o [] = arg o
nested dim arg o (p ∷ ps) =
    arg o
    ++ (plus_text
        ++ (dim o ++ (times_text ++ (nested dim arg p ps ++ (close_paren ∷ close_paren ∷ [])))))

-- The texts of the argument and of the dimension that an entry of the order names.
abbrev pub Named : List Bytes → List Bytes → (ℕ → Bytes) → (ℕ → Bytes) → ℕ → Type 0
Named args dims arg dim o =
    (get_elem? args o ≡ some (arg o))
    × (get_elem? dims o ≡ some (dim o))
    × (clean (arg o) ≡ true)
    × (clean (dim o) ≡ true)

repeat-snoc : (n : ℕ) → repeat (suc n) ≡ repeat n ++ (close_paren ∷ [])
repeat-snoc zero = refl
repeat-snoc (suc n) = ap (λ r. close_paren ∷ r) (repeat-snoc n)

twice : (n : ℕ) → 2 * suc n ≡ suc (suc (2 * n))
twice n = omega arith

repeat-two : (n : ℕ) → repeat (2 * suc n) ≡ repeat (2 * n) ++ (close_paren ∷ close_paren ∷ [])
repeat-two n = rw (twice n) (
    repeat-snoc (suc (2 * n))
    ∙ ap (λ r. r ++ (close_paren ∷ [])) (repeat-snoc (2 * n))
    ∙ append_assoc (repeat (2 * n)) (close_paren ∷ []) (close_paren ∷ []))

open_one :
    (a d : Bytes)
    → clean a ≡ true
    → clean d ≡ true
    → fmt open_format (a ∷ d ∷ []) ≡ ok (a ++ (plus_text ++ (d ++ times_text)))
open_one a d h k =
    fmt-template [] ((a, plus_text) ∷ (d, times_text) ∷ []) refl ((h, refl), ((k, refl), tt))

item_there : (xs : List Bytes) (i : ℕ) {x : Bytes} → get_elem? xs i ≡ some x → item xs i ≡ ok x
item_there xs i h = rw (item, h) refl

open_step :
    (args dims : List Bytes) (arg dim : ℕ → Bytes) (n o : ℕ) (ps : List ℕ) {r : Bytes}
    → Named args dims arg dim o
    → open_text args dims n ps ≡ ok r
    → open_text args dims (suc n) (o ∷ ps)
      ≡ ok ((arg o ++ (plus_text ++ (dim o ++ times_text))) ++ r)
unfolding open_text
open_step args dims arg dim n o ps h e =
    rw
      (open_text, item_there args o h.0, item_there dims o h.1, open_one (arg o) (dim o) h.2 h.3, e)
      refl

rearrange :
    (a p d t r : Bytes) (n : ℕ) (inside : Bytes)
    → r ++ repeat (2 * n) ≡ inside
    → (a ++ (p ++ (d ++ t)) ++ r) ++ repeat (2 * suc n)
      ≡ a ++ (p ++ (d ++ (t ++ (inside ++ (close_paren ∷ close_paren ∷ [])))))
rearrange a p d t r n inside q = rw (repeat-two n, ← q) (simp append_assoc refl)

-- What the first loop has written, with the brackets that close it.
opened :
    (args dims : List Bytes) (arg dim : ℕ → Bytes) (o : ℕ) (ps : List ℕ)
    → All (Named args dims arg dim) (o ∷ ps)
    → (r : Bytes) × (open_text args dims (length ps) (o ∷ ps) ≡ ok r)
      × (r ++ repeat (2 * length ps) ≡ nested dim arg o ps)
unfolding open_text
opened args dims arg dim o [] h = (arg o, item_there args o h.0.0, append-nil (arg o))
opened args dims arg dim o (p ∷ ps) h =
    let (r, e, q) = opened args dims arg dim p ps h.1 in
    (
      _,
      open_step args dims arg dim (length ps) o (p ∷ ps) h.0 e,
      rearrange (arg o) plus_text (dim o) times_text r (length ps) _ q,
    )

-- For an order with as many entries as dimensions, of which each names an argument and a dimension, and no `{`
-- in their texts: the two loops of `build_index_calculation` write the nested index
-- `a + (d * (…))`, with the brackets matched.
pub build-nested :
    (args : List Bytes) (first : Bytes) (more : List Bytes) (arg dim : ℕ → Bytes) (o : ℕ)
    (ps : List ℕ)
    → All (Named args (first ∷ more) arg dim) (o ∷ ps)
    → length ps ≡ length more
    → build_index_calculation args (first ∷ more) (o ∷ ps) ≡ ok (nested dim arg o ps)
unfolding build_index_calculation
build-nested args first more arg dim o ps h n =
    let (r, e, q) = opened args (first ∷ more) arg dim o ps h in
    rw (build_index_calculation, ← n, e, q) refl
