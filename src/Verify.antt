-- ===== src/Verify.antt =====
-- lib/attributes/utils/kernel_utils.cpp: the check of a kernel's loop nest before its code is
-- generated. A node of the traversal is a loop with the index of one of its types, so that a
-- `@tile` loop is visited once for each.
pub mod Levels
pub mod Sound
pub mod Total
pub mod Decides
use occa_transpiler.Base.{
  ℕ, zero, suc, ◌+◌, Bool, true, false, not, ◌&&◌, ◌||◌, Option, none, some, List, [], ◌∷◌, ◌++◌,
  ◌==◌, if◌then◌else◌, get_or, is_some, is_nil, length, map, max, ◌-◌,
}
use occa_transpiler.Loop.{
  LoopType, regular, inner, outer, type_eq, Loop, Loops, node, nil, cons, info, children, has,
  is_regular, is_two, to_list,
}
use occa_transpiler.Loop.Search.{get_first_child, get_first_attributed_child}

pub record LoopTreeNode : Type 0 where
  pub loop : Loop
  pub type_idx : ℕ

-- The types from index `k` on, up to the first that is not regular.
pub scan_types : ℕ → List LoopType → Option ℕ
scan_types k [] = none
scan_types k (t ∷ ts) = if type_eq t regular then scan_types (suc k) ts else some k

abbrev pub types_from : ℕ → List LoopType → List LoopType
types_from zero ts = ts
types_from (suc n) [] = []
types_from (suc n) (t ∷ ts) = types_from n ts

-- `none` is the -1 of the source.
unfoldable pub get_next_attributed_type_idx : List LoopType → ℕ → Option ℕ
get_next_attributed_type_idx types curr_idx =
    scan_types (suc curr_idx) (types_from (suc curr_idx) types)

-- `addLoopChildrenToQueue`: the nearest attributed loops below, in order.
unfoldable mutual
  pub add_loop_children : Loops → List LoopTreeNode
  add_loop_children nil = []
  add_loop_children (cons c cs) = add_child c ++ add_loop_children cs

  pub add_child : Loop → List LoopTreeNode
  add_child (node i cs) =
      if is_regular i.type
      then add_loop_children cs
      else record { loop = node i cs; type_idx = 0 } ∷ []

abbrev pub type_at : LoopTreeNode → LoopType
type_at n = get_or (info n.loop).type n.type_idx regular

abbrev pub has_children : LoopTreeNode → Bool
has_children n = is_some (get_first_attributed_child n.loop)

abbrev pub next_idx : LoopTreeNode → Option ℕ
next_idx n = get_next_attributed_type_idx (info n.loop).type n.type_idx

-- The three messages of the traversal, with the statement that they point to.
pub data Mismatch : Type 0 where
  type_mismatch : (expected received : LoopType) → Mismatch
  unexpected_loop : LoopType → Mismatch
  expected_loop_inside : LoopType → Mismatch

pub data Checked {ℓ} (A : Type ℓ) : Type ℓ where
  fine : A → Checked A
  broken : ℕ → Mismatch → Checked A

-- `children.front()`, which is there when the loop has an attributed loop below it.
front_type : Loops → LoopType
front_type nil = regular
front_type (cons c cs) = get_or (info c).type 0 regular

front_stmt : Loops → ℕ
front_stmt nil = 0
front_stmt (cons c cs) = (info c).stmt

-- The error at the leaf level: the tiled type is reported where there is one.
unexpected : LoopTreeNode → Option ℕ → Checked (List LoopTreeNode)
unexpected n (some j) =
    broken (info n.loop).stmt (unexpected_loop (get_or (info n.loop).type j regular))
unexpected n none =
    broken (front_stmt (children n.loop)) (unexpected_loop (front_type (children n.loop)))

-- What a node of an inner level adds to `nextQueue`.
descend : LoopTreeNode → Bool → Option ℕ → Checked (List LoopTreeNode)
descend n below (some j) = fine (record n { type_idx = j } ∷ [])
descend n true none = fine (add_loop_children (children n.loop))
descend n false none = broken (info n.loop).stmt (expected_loop_inside (type_at n))

-- The body of `for (auto node : queue)`.
pub check_node : LoopType → Bool → LoopTreeNode → Checked (List LoopTreeNode)
unfolding unexpected descend
check_node level is_leaf n =
    if not (type_eq (type_at n) level)
    then broken (info n.loop).stmt (type_mismatch level (type_at n))
    else if is_leaf
    then (if has_children n || is_some (next_idx n) then unexpected n (next_idx n) else fine [])
    else descend n (has_children n) (next_idx n)

-- The first error ends the loop.
pub join_next :
    Checked (List LoopTreeNode) → Checked (List LoopTreeNode) → Checked (List LoopTreeNode)
join_next (broken s m) rest = broken s m
join_next (fine next) (fine more) = fine (next ++ more)
join_next (fine next) (broken s m) = broken s m

pub check_nodes : LoopType → Bool → List LoopTreeNode → Checked (List LoopTreeNode)
check_nodes level is_leaf [] = fine []
check_nodes level is_leaf (n ∷ q) =
    join_next (check_node level is_leaf n) (check_nodes level is_leaf q)

abbrev pub is_leaf_level : LoopTreeNode → Bool
is_leaf_level n = not (has_children n) && not (is_some (next_idx n))

-- `verifyLoopStructureRecursiveBFS`, on fuel for its levels; `none` is fuel run out.
unfoldable pub verify_levels : ℕ → List LoopTreeNode → Option (Checked (Unit {0}))
verify_levels zero q = none
verify_levels (suc fuel) [] = some (fine tt)
verify_levels (suc fuel) (n ∷ q) = elim (check_nodes (type_at n) (is_leaf_level n) (n ∷ q)) [
  | broken s m ↦ some (broken s m)
  | fine next ↦ verify_levels fuel next
]

-- The number of types on the longest path of loops: a bound for the levels, which is the fuel.
unfoldable mutual
  pub levels : Loop → ℕ
  levels (node i cs) = length i.type + levels_below cs

  pub levels_below : Loops → ℕ
  levels_below nil = 0
  levels_below (cons c cs) = max (levels c) (levels_below cs)

unfoldable pub queue_levels : List LoopTreeNode → ℕ
queue_levels [] = 0
queue_levels (n ∷ q) = max (levels n.loop - n.type_idx) (queue_levels q)

abbrev pub start_nodes : List Loop → List LoopTreeNode
start_nodes = map (λ l. record { loop = l; type_idx = 0 })

-- `verifyLoopStructure`
unfoldable pub verify_loop_structure : List Loop → Option (Checked (Unit {0}))
verify_loop_structure loops = let q = start_nodes loops in verify_levels (suc (queue_levels q)) q

pub data LoopsError : Type 0 where
  inner_outside_outer outer_required inner_required missing_inner fuel_exhausted : LoopsError
  structure : ℕ → Mismatch → LoopsError

abbrev pub has_type : LoopType → Loop → Bool
has_type t l = has t (info l).type

any_outer_below : List Loop → Bool
any_outer_below [] = false
any_outer_below (l ∷ ls) = is_some (get_first_child (has_type outer) l) || any_outer_below ls

-- The condition under which a top level loop counts into `nMissingInner`.
misses_inner : Loop → Bool
misses_inner l =
    not (is_two outer inner (info l).type) && not (is_some (get_first_child (has_type inner) l))

pub count_missing : List Loop → ℕ
unfolding misses_inner
count_missing [] = 0
count_missing (l ∷ ls) = (if misses_inner l then 1 else 0) + count_missing ls

structure_result : Option (Checked (Unit {0})) → Option LoopsError
structure_result none = some fuel_exhausted
structure_result (some (fine u)) = none
structure_result (some (broken s m)) = some (structure s m)

-- `verifyLoops`, on the kernel's `topLevelLoops` and `topLevelOuterLoops`: `none` is success.
unfoldable pub verify_loops : List Loop → List Loop → Option LoopsError
unfolding any_outer_below count_missing structure_result
verify_loops top_level_loops top_level_outer_loops =
    if is_nil top_level_outer_loops
    then (if any_outer_below top_level_loops then some inner_outside_outer else some outer_required)
    else if not (count_missing top_level_outer_loops == 0)
    then (if count_missing top_level_outer_loops == length top_level_outer_loops
        then some inner_required
        else some missing_inner)
    else structure_result (verify_loop_structure top_level_outer_loops)
