-- ===== src/Loop/Height/Axes.antt =====
-- What `updateAutoWithSpecificAxis` gives the loops of a nest.
use occa_transpiler.Base.{
  ℕ, suc, ◌+◌, true, false, none, some, List, [], ◌∷◌, ◌≡◌, refl, arith, if◌then◌else◌, get_or,
  length, ◌⊎◌, leb, ◌-◌,
}
use occa_transpiler.Loop.{
  LoopType, regular, inner, outer, type_eq, Axis, auto, is_auto, to_axis, LoopInfo, Loop, info,
}
use occa_transpiler.Loop.Search.{get_first_attributed_child}
use occa_transpiler.Loop.Height.{
  count_type, get_height_same_type, update_auto_with_specific_axis, get_height_same_type-child,
  update_single, update_tiled, get_height_same_type-leaf,
}

-- Each axis afterwards is a specific one, and one that the attribute gave is kept.
abbrev pub Resolves : List Axis → List Axis → Type 0
Resolves [] [] = Unit
Resolves (a ∷ old) (b ∷ new) =
    (is_auto b ≡ false) × ((is_auto a ≡ true) ⊎ (b ≡ a)) × Resolves old new
Resolves _ _ = ⊥

update_single-Resolves :
    (height : ℕ) (i : LoopInfo) (old : List Axis)
    → i.axis ≡ old
    → length old ≡ 1
    → (update_single height i).0 ≡ true
    → Resolves old (update_single height i).1.axis
unfolding update_single
update_single-Resolves height i [] e h ok = absurd (omega arith)
update_single-Resolves height i (a ∷ []) e h ok = ground arith
update_single-Resolves height i (a ∷ b ∷ r) e h ok = absurd (omega arith)

update_tiled-Resolves :
    (height1 height2 : ℕ) (i : LoopInfo) (old : List Axis)
    → i.axis ≡ old
    → length old ≡ 2
    → (update_tiled height1 height2 i).0 ≡ true
    → Resolves old (update_tiled height1 height2 i).1.axis
unfolding update_tiled
update_tiled-Resolves height1 height2 i [] e h ok = absurd (omega arith)
update_tiled-Resolves height1 height2 i (a ∷ []) e h ok = absurd (omega arith)
update_tiled-Resolves height1 height2 i (a ∷ b ∷ []) e h ok = ground arith
update_tiled-Resolves height1 height2 i (a ∷ b ∷ c ∷ r) e h ok = absurd (omega arith)

-- When the update succeeds on a loop that has one axis for each of its one or two types, no axis is
-- automatic afterwards, and those that were given are kept.
pub update_auto-Resolves :
    (l : Loop)
    → length (info l).axis ≡ length (info l).type
    → (length (info l).type ≡ 1) ⊎ (length (info l).type ≡ 2)
    → (update_auto_with_specific_axis l).0 ≡ true
    → Resolves (info l).axis (update_auto_with_specific_axis l).1.axis
unfolding update_auto_with_specific_axis
update_auto-Resolves l e n ok = ground (
  arith,
  update_single-Resolves (get_height_same_type (get_or (info l).type 0 regular) l) (info l)
      (info l).axis refl,
  update_tiled-Resolves (get_height_same_type (get_or (info l).type 0 regular) l)
      (get_height_same_type (get_or (info l).type 1 regular) l) (info l) (info l).axis refl,
)

-- From `l` down along the first attributed loops, `n` loop types are `t`.
pub data Depth (t : LoopType) : Loop → ℕ → Type 0 where
  last :
      {l : Loop} {n : ℕ}
      → get_first_attributed_child l ≡ none
      → n ≡ count_type t (info l).type
      → Depth t l n
  more :
      {l c : Loop} {m n : ℕ}
      → get_first_attributed_child l ≡ some c
      → Depth t c m
      → n ≡ count_type t (info l).type + m
      → Depth t l n

type_eq_refl : (t : LoopType) → type_eq t t ≡ true
type_eq_refl regular = refl
type_eq_refl inner = refl
type_eq_refl outer = refl

Depth-height :
    {t : LoopType} {l : Loop} {n : ℕ}
    → Depth t l n
    → n ≡ count_type t (info l).type + get_height_same_type t l
Depth-height {t} (last {l} e h) = omega (arith, get_height_same_type-leaf t l e)
Depth-height {t} (more {l} {c} e d h) =
    omega (arith, get_height_same_type-child t l c e, Depth-height d)

Depth-single :
    {t : LoopType} {l : Loop} {n : ℕ}
    → (info l).type ≡ t ∷ []
    → Depth t l n
    → n ≡ suc (get_height_same_type t l)
Depth-single {t} e d = ground (arith, Depth-height d, type_eq_refl t)

-- A loop of one type with an automatic axis, where `n` is the number of times that the type occurs
-- from it down along the first attributed loops, gets
-- axis n - 1 (the innermost is x) if `n` is at most 3; otherwise the update fails and changes
-- nothing.
pub update_auto-Depth :
    (t : LoopType) (l : Loop) (n : ℕ)
    → (info l).type ≡ t ∷ []
    → (info l).axis ≡ auto ∷ []
    → Depth t l n
    → update_auto_with_specific_axis l ≡ (
        if leb n 3
        then (true, record (info l) { axis = to_axis (n - 1) ∷ [] })
        else (false, info l))
unfolding update_auto_with_specific_axis
update_auto-Depth t l n e a d =
    let h : n ≡ suc (get_height_same_type t l) = Depth-single e d in
    let k : n - 1 ≡ get_height_same_type t l = omega arith in rw k (ground (arith, h))

-- The update changes axes only.
pub update_auto-type : (l : Loop) → (update_auto_with_specific_axis l).1.type ≡ (info l).type
unfolding update_auto_with_specific_axis update_tiled update_single
update_auto-type l = ground arith
