-- ===== src/Sema/Marks.antt =====
-- The methods of `OklLoopInfo` that follow the `parent` pointers (lib/core/sema/okl_sema_info.cpp), on a
-- loop given by its path: the marks of the use of `@shared` and `@exclusive` variables, the nearest
-- attributed parent, and whether a barrier follows the loop.
pub mod Above
use occa_transpiler.Base.{
  ℕ, zero, suc, ◌+◌, Bool, true, false, not, ◌&&◌, ◌||◌, Option, none, some, List, [], ◌∷◌, ◌==◌,
  if◌then◌else◌, length,
}
use occa_transpiler.Loop.{
  LoopType, regular, inner, outer, type_eq, LoopInfo, Loop, Loops, node, nil, cons, info, children,
  has, is_one, is_two, is_regular,
}
use occa_transpiler.Sema.{LoopPath, modify_index, loop_at, parent_of, count}

abbrev pub use_shared : LoopInfo → LoopInfo
use_shared i = record i { shared_info = record i.shared_info { used = true } }

abbrev pub use_exclusive : LoopInfo → LoopInfo
use_exclusive i = record i { exclusive_info = record i.exclusive_info { used = true } }

-- A change to the loop at a path and to all of its ancestors, which are the loops on the path.
unfoldable pub mark_path : (LoopInfo → LoopInfo) → LoopPath → Loops → Loops
mark_path f [] ls = ls
mark_path f (k ∷ p) ls = modify_index k (λ l. node (f (info l)) (mark_path f p (children l))) ls

unfoldable pub mark_shared_used : LoopPath → Loops → Loops
unfolding mark_path
mark_shared_used p ls = mark_path use_shared p ls

unfoldable pub mark_exclusive_used : LoopPath → Loops → Loops
unfolding mark_path
mark_exclusive_used p ls = mark_path use_exclusive p ls

-- `getAttributedParent(f)`: the walk up, on fuel for the length of the path; `[]` is the null pointer.
unfoldable pub climb : ℕ → (Loop → Bool) → LoopPath → Loops → LoopPath
climb zero f p ls = []
climb (suc fuel) f p ls =
    let up = climb fuel f (parent_of p) ls in
    elim (loop_at ls p) [ none ↦ [] | some l ↦ if f l then p else up ]

unfoldable pub get_attributed_parent_if : (Loop → Bool) → LoopPath → Loops → LoopPath
unfolding climb
get_attributed_parent_if f p ls = climb (length p) f (parent_of p) ls

abbrev pub get_attributed_parent : LoopPath → Loops → LoopPath
get_attributed_parent = get_attributed_parent_if (λ l. not (is_regular (info l).type))

-- `type.back()`, on types that are never empty, and the last step of a path.
abbrev pub back : List LoopType → LoopType
back [] = regular
back (t ∷ []) = t
back (t ∷ u ∷ us) = back (u ∷ us)

abbrev pub last_step : LoopPath → ℕ
last_step [] = 0
last_step (k ∷ []) = k
last_step (k ∷ j ∷ p) = last_step (j ∷ p)

-- Conditions 2 and 3 on the parent.
abbrev pub parent_allows : LoopPath → Option Loop → Bool
parent_allows p none = false
parent_allows p (some up) =
    not (has inner (info up).type)
    && not (type_eq (back (info up).type) outer && suc (last_step p) == count (children up))

abbrev loop_allows : Option Loop → Bool
loop_allows none = false
loop_allows (some l) =
    ((info l).shared_info.used && not (info l).shared_info.nobarrier_applied)
    && (is_one inner (info l).type || is_two inner inner (info l).type)

unfoldable pub should_sync : LoopPath → Loops → Bool
should_sync p ls = loop_allows (loop_at ls p) && parent_allows p (loop_at ls (parent_of p))
