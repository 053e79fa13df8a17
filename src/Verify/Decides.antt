-- ===== src/Verify/Decides.antt =====
-- What the acceptance of a kernel's loop nest means.
use occa_transpiler.Base.{
  ℕ, zero, suc, ◌≤◌, true, false, none, some, List, [], ◌∷◌, ◌≡◌, ◌↔◌, ◌⊎◌, refl, inl, inr, arith,
  is_nil, All, length, ◌==◌,
}
use occa_transpiler.Loop.{LoopType, inner, outer, Loop, info, children, is_two}
use occa_transpiler.Loop.Search.{any_loops, get_first_child-any}
use occa_transpiler.Verify.{
  LoopTreeNode, fine, queue_levels, start_nodes, verify_loop_structure, verify_loops, verify_levels,
  count_missing, has_type,
}
use occa_transpiler.Verify.Levels.{successors}
use occa_transpiler.Verify.Sound.{Reads, verify_levels-Reads, Reads-verify_levels}
use occa_transpiler.Verify.Total.{Within, HasTypes, no_node, successors-Within, start_nodes-Within}

first_node :
    (P Q : LoopTreeNode → Type 0) (xs : List LoopTreeNode)
    → is_nil xs ≡ false
    → All P xs
    → All Q xs
    → (n : LoopTreeNode) × P n × Q n
first_node P Q [] e p q = cc
first_node P Q (x ∷ xs) e p q = (x, p.0, q.0)

length-Reads :
    (b : ℕ) (ts : List LoopType) (n : LoopTreeNode) → Within b n → Reads ts n → length ts ≤ b
length-Reads zero ts n w r = absurd (no_node n w)
length-Reads (suc b) [] n w r = absurd r
length-Reads (suc b) (t ∷ []) n w r = omega arith
length-Reads (suc b) (t ∷ u ∷ ts) n w r =
    let (x, w', r') =
      first_node (Within b) (Reads (u ∷ ts)) (successors n) r.1 (successors-Within b n w) r.2 in
    omega (arith, length-Reads b (u ∷ ts) x w' r')

Reads-bound :
    (b : ℕ) (ts : List LoopType) (q : List LoopTreeNode)
    → All (Within b) q
    → All (Reads ts) q
    → (q ≡ []) ⊎ (length ts ≤ b)
Reads-bound b ts [] w r = inl refl
Reads-bound b ts (n ∷ q) w r = inr (length-Reads b ts n w.0 r.0)

read_types :
    (fuel : ℕ) (q : List LoopTreeNode)
    → verify_levels fuel q ≡ some (fine tt)
    → (ts : List LoopType) × All (Reads ts) q
read_types fuel [] h = ([], tt)
read_types fuel (n ∷ q) h = verify_levels-Reads fuel (n ∷ q) refl h

verify_nil : (fuel : ℕ) → verify_levels (suc fuel) [] ≡ some (fine tt)
unfolding verify_levels
verify_nil fuel = refl

-- For loops that have at least one type each: `verifyLoopStructure` accepts exactly those in which there is one sequence of loop types
-- that every path from a loop down reads.
pub verify_loop_structure-Reads :
    (ls : List Loop)
    → All HasTypes ls
    → (verify_loop_structure ls ≡ some (fine tt))
      ↔ ((ts : List LoopType) × All (Reads ts) (start_nodes ls))
unfolding verify_loop_structure
verify_loop_structure-Reads ls h =
    (read_types (suc (queue_levels (start_nodes ls))) (start_nodes ls), accept)
  where
    b : ℕ
    b = queue_levels (start_nodes ls)

    accept :
        ((ts : List LoopType) × All (Reads ts) (start_nodes ls))
        → verify_levels (suc (queue_levels (start_nodes ls))) (start_nodes ls) ≡ some (fine tt)
    accept (ts, r) =
        elim (Reads-bound b ts (start_nodes ls) (start_nodes-Within b ls h (omega arith)) r) [
          | inl e ↦ rw e (verify_nil _)
          | inr k ↦ Reads-verify_levels (suc b) ts (start_nodes ls) r (omega arith)
        ]

-- A loop that is tiled into outer and inner, or has a loop with an inner type somewhere below.
abbrev pub HasInner : Loop → Type 0
HasInner l =
    (is_two outer inner (info l).type ≡ true) ⊎ (any_loops (has_type inner) (children l) ≡ true)

count_missing-HasInner : (ls : List Loop) → (count_missing ls == 0) ≡ true → All HasInner ls
unfolding count_missing
count_missing-HasInner [] h = tt
count_missing-HasInner (l ∷ ls) h = (
  ground (arith, get_first_child-any (has_type inner) l),
  count_missing-HasInner ls (ground arith),
)

HasInner-count_missing : (ls : List Loop) → All HasInner ls → (count_missing ls == 0) ≡ true
unfolding count_missing
HasInner-count_missing [] h = refl
HasInner-count_missing (l ∷ ls) h =
    ground (arith, get_first_child-any (has_type inner) l, HasInner-count_missing ls h.1)

-- For top level outer loops that have at least one type each: `verifyLoops` accepts the kernel exactly
-- when there is such a loop, each of them is tiled as outer and inner or holds an inner loop, and one sequence of loop types is read on every path down from them.
pub verify_loops-accepts :
    (top outers : List Loop)
    → All HasTypes outers
    → (verify_loops top outers ≡ none) ↔ (
        (is_nil outers ≡ false)
        × All HasInner outers
        × ((ts : List LoopType) × All (Reads ts) (start_nodes outers)))
unfolding verify_loops
verify_loops-accepts top outers h = (forth, back)
  where
    forth :
        verify_loops top outers ≡ none
        → (is_nil outers ≡ false)
          × All HasInner outers
          × ((ts : List LoopType) × All (Reads ts) (start_nodes outers))
    forth e = (
      ground arith,
      count_missing-HasInner outers (ground arith),
      (verify_loop_structure-Reads outers h).0 (ground arith),
    )

    back :
        (is_nil outers ≡ false)
          × All HasInner outers
          × ((ts : List LoopType) × All (Reads ts) (start_nodes outers))
        → verify_loops top outers ≡ none
    back (a, b, c) =
        ground
          (arith, a, HasInner-count_missing outers b, (verify_loop_structure-Reads outers h).1 c)
