-- ===== src/Loop/Height.antt =====
-- `getHeight`, `getHeightSameType`, `updateAutoWithSpecificAxis` and `isLastOuter`.
pub mod Axes
use occa_transpiler.Base.{
  ℕ, zero, suc, ◌+◌, ◌≤◌, Bool, true, false, not, ◌&&◌, ◌||◌, none, some, List, [], ◌∷◌, ◌≡◌, inl,
  inr, arith, ltb, if◌then◌else◌, Option-cases, get_or, set, length,
}
use occa_transpiler.Loop.{
  LoopType, regular, inner, outer, type_eq, auto, is_auto, to_axis, max_axis_sz, LoopInfo, Loop,
  node, nil, cons, size_loops, info, children, no_loops, has, is_tiled, size,
}
use occa_transpiler.Loop.Search.{
  get_first_child, search_queue, get_first_child_sound, is_attributed, get_first_attributed_child,
}

-- `for (auto& loopType : currLoop->type) if (loopType == type) ++h`
abbrev pub count_type : LoopType → List LoopType → ℕ
count_type t [] = 0
count_type t (u ∷ us) = (if type_eq u t then 1 else 0) + count_type t us

-- The `while` of both heights; `weigh` is what a loop on the way adds.
unfoldable pub height_loop : ℕ → (List LoopType → ℕ) → ℕ → Loop → ℕ
height_loop zero weigh h l = h
height_loop (suc fuel) weigh h l =
    if no_loops (children l) then h else elim (get_first_attributed_child l) [
      | none ↦ h
      | some c ↦ height_loop fuel weigh (h + weigh (info c).type) c
    ]

unfoldable pub get_height : Loop → ℕ
get_height l = height_loop (size l) length 0 l

unfoldable pub get_height_same_type : LoopType → Loop → ℕ
get_height_same_type t l = height_loop (size l) (count_type t) 0 l

-- The `isTiled()` branch; `heights` are `height1`, before its increment, and `height2`.
update_tiled : ℕ → ℕ → LoopInfo → Bool × LoopInfo
update_tiled height1 height2 i =
    let h1 =
      if type_eq (get_or i.type 0 regular) (get_or i.type 1 regular)
      then height1 + 1
      else height1 in
    if ltb max_axis_sz h1 || ltb max_axis_sz height2
    then (false, i)
    else (let first =
          if is_auto (get_or i.axis 0 auto) then set i.axis 0 (to_axis h1) else i.axis in
        let both =
          if is_auto (get_or i.axis 1 auto) then set first 1 (to_axis height2) else first in
        (true, record i { axis = both }))

update_single : ℕ → LoopInfo → Bool × LoopInfo
update_single height i =
    if not (is_auto (get_or i.axis 0 auto))
    then (true, i)
    else if ltb max_axis_sz height
    then (false, i)
    else (true, record i { axis = set i.axis 0 (to_axis height) })

-- `updateAutoWithSpecificAxis`: whether it succeeded, and the fields of the loop afterwards.
unfoldable pub update_auto_with_specific_axis : Loop → Bool × LoopInfo
unfolding update_tiled update_single
update_auto_with_specific_axis l =
    let i = info l in
    if is_tiled i.type
    then update_tiled (get_height_same_type (get_or i.type 0 regular) l)
        (get_height_same_type (get_or i.type 1 regular) l) i
    else update_single (get_height_same_type (get_or i.type 0 regular) l) i

unfoldable pub is_last_outer : Loop → Bool
is_last_outer l = elim (get_first_attributed_child l) [
  | none ↦ false
  | some c ↦
      (has outer (info l).type && not (has inner (info l).type))
      && (has inner (info c).type && not (has outer (info c).type))
]

-- Past the size of the loop, more fuel changes nothing.
height_loop-fuel :
    (fuel fuel' : ℕ) (weigh : List LoopType → ℕ) (h : ℕ) (l : Loop)
    → size l ≤ fuel
    → size l ≤ fuel'
    → height_loop fuel weigh h l ≡ height_loop fuel' weigh h l
unfolding height_loop size
height_loop-fuel zero fuel' weigh h (node i cs) p q = absurd (omega arith)
height_loop-fuel (suc fuel) zero weigh h (node i cs) p q = absurd (omega arith)
height_loop-fuel (suc fuel) (suc fuel') weigh h (node i cs) p q =
    elim (Option-cases (get_first_attributed_child (node i cs))) [
      | inl e ↦ ground (arith, e)
      | inr (c, e) ↦
          let s = get_first_child_sound is_attributed (node i cs) c e in
          ground (arith, e, s.1, height_loop-fuel fuel fuel' weigh (h + weigh (info c).type) c)
    ]

height_loop-acc :
    (fuel : ℕ) (weigh : List LoopType → ℕ) (h : ℕ) (l : Loop)
    → height_loop fuel weigh h l ≡ h + height_loop fuel weigh 0 l
unfolding height_loop
height_loop-acc zero weigh h l = omega arith
height_loop-acc (suc fuel) weigh h l = elim (Option-cases (get_first_attributed_child l)) [
  | inl e ↦ ground (arith, e)
  | inr (c, e) ↦ ground (
    arith,
    e,
    height_loop-acc fuel weigh (h + weigh (info c).type) c,
    height_loop-acc fuel weigh (0 + weigh (info c).type) c,
  )
]

no_child : (i : LoopInfo) (c : Loop) → ¬ (get_first_attributed_child (node i nil) ≡ some c)
unfolding get_first_child search_queue size
no_child i c e = cc

-- The height of the first attributed loop below, one level at a time, with that loop's own types.
pub get_height_same_type-child :
    (t : LoopType) (l c : Loop)
    → get_first_attributed_child l ≡ some c
    → get_height_same_type t l ≡ count_type t (info c).type + get_height_same_type t c
unfolding get_height_same_type height_loop size
get_height_same_type-child t (node i nil) c e = absurd (no_child i c e)
get_height_same_type-child t (node i (cons d ds)) c e =
    let s = get_first_child_sound is_attributed (node i (cons d ds)) c e in
    ground (
      arith,
      e,
      s.1,
      height_loop-fuel (size_loops (cons d ds)) (size c) (count_type t) 0 c,
      height_loop-acc (size_loops (cons d ds)) (count_type t) (0 + count_type t (info c).type) c,
    )

pub get_height_same_type-leaf :
    (t : LoopType) (l : Loop) → get_first_attributed_child l ≡ none → get_height_same_type t l ≡ 0
unfolding get_height_same_type height_loop size
get_height_same_type-leaf t (node i cs) e = ground (arith, e)
