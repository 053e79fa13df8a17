-- ===== src/Verify/Total.antt =====
-- The fuel of `verifyLoopStructure` suffices on every loop nest.
use occa_transpiler.Base.{
  ℕ, zero, suc, ◌+◌, ◌-◌, ◌≤◌, ◌<◌, Bool, true, false, Option, none, some, List, [], ◌∷◌, ◌≡◌, refl,
  ap, ◌∙◌, inl, inr, arith, is_some, ◌⊎◌, if◌then◌else◌, All, All-append, length,
}
use occa_transpiler.Loop.{LoopType, Loop, Loops, node, nil, cons, info, children, is_regular}
use occa_transpiler.Verify.{
  LoopTreeNode, type_at, next_idx, Checked, fine, broken, Mismatch, is_leaf_level, levels,
  levels_below, queue_levels, add_loop_children, add_child, scan_types, types_from,
  get_next_attributed_type_idx, verify_levels, start_nodes, verify_loop_structure,
}
use occa_transpiler.Verify.Levels.{successors, all_successors, check_nodes-fine}
use occa_transpiler.Verify.Sound.{verify_levels-step, level_check, verify_levels_nil}

-- At most `b` levels from the node on.
abbrev pub Within : ℕ → LoopTreeNode → Type 0
Within b n = (levels n.loop ≤ b + n.type_idx) × (n.type_idx < length (info n.loop).type)

scan_types-range :
    (k : ℕ) (ts : List LoopType) (j : ℕ) → scan_types k ts ≡ some j → (k ≤ j) × (j < k + length ts)
unfolding scan_types
scan_types-range k [] j h = cc
scan_types-range k (t ∷ ts) j h = ground (arith, scan_types-range (suc k) ts j)

length-types_from : (n : ℕ) (ts : List LoopType) → length (types_from n ts) ≡ length ts - n
length-types_from zero ts = omega arith
length-types_from (suc n) [] = omega arith
length-types_from (suc n) (t ∷ ts) = omega (arith, length-types_from n ts)

next_idx-range :
    (types : List LoopType) (i j : ℕ)
    → get_next_attributed_type_idx types i ≡ some j
    → i < length types
    → (i < j) × (j < length types)
unfolding get_next_attributed_type_idx
next_idx-range types i j h k =
    let r = scan_types-range (suc i) (types_from (suc i) types) j h in
    omega (arith, r.0, r.1, length-types_from (suc i) types)

nonempty_types : (ts : List LoopType) → is_regular ts ≡ false → 0 < length ts
nonempty_types [] h = cc
nonempty_types (t ∷ ts) h = omega arith

All-if :
    (P : LoopTreeNode → Type 0) (b : Bool) (xs : List LoopTreeNode) (n : LoopTreeNode)
    → All P xs
    → (b ≡ false → P n)
    → All P (if b then xs else n ∷ [])
All-if P true xs n h k = h
All-if P false xs n h k = (k refl, tt)

mutual
  unfolding add_loop_children levels

  add_loop_children-Within :
      (b : ℕ) (cs : Loops) → levels_below cs ≤ b → All (Within b) (add_loop_children cs)
  add_loop_children-Within b nil h = tt
  add_loop_children-Within b (cons c cs) h =
      All-append (Within b) (add_child c) (add_loop_children cs)
        (add_child-Within b c (omega arith)) (add_loop_children-Within b cs (omega arith))

  add_child-Within : (b : ℕ) (c : Loop) → levels c ≤ b → All (Within b) (add_child c)
  add_child-Within b (node i cs) h =
      All-if (Within b) (is_regular i.type) (add_loop_children cs) _
        (add_loop_children-Within b cs (omega arith)) (λ r. (omega arith, nonempty_types i.type r))

levels-children : (l : Loop) → levels l ≡ length (info l).type + levels_below (children l)
unfolding levels
levels-children (node i cs) = refl

-- One level down, one level less is left.
pub successors-Within :
    (b : ℕ) (n : LoopTreeNode) → Within (suc b) n → All (Within b) (successors n)
unfolding successors
successors-Within b n w = split (next_idx n) refl
  where
    split :
        (o : Option ℕ)
        → next_idx n ≡ o
        → All (Within b) (elim o [
          | some j ↦ record n { type_idx = j } ∷ []
          | none ↦ add_loop_children (children n.loop)
        ])
    split (some j) e =
        let r = next_idx-range (info n.loop).type n.type_idx j e w.1 in
        (omega (arith, w.0, r.0, r.1), tt)
    split none e =
        add_loop_children-Within b (children n.loop)
          (omega (arith, w.0, w.1, levels-children n.loop))

all_successors-Within :
    (b : ℕ) (q : List LoopTreeNode) → All (Within (suc b)) q → All (Within b) (all_successors q)
all_successors-Within b [] h = tt
all_successors-Within b (n ∷ q) h =
    All-append (Within b) (successors n) (all_successors q) (successors-Within b n h.0)
      (all_successors-Within b q h.1)

verify_levels-broken :
    (fuel : ℕ) (n : LoopTreeNode) (q : List LoopTreeNode) (s : ℕ) (m : Mismatch)
    → level_check n q ≡ broken s m
    → verify_levels (suc fuel) (n ∷ q) ≡ some (broken s m)
unfolding verify_levels
verify_levels-broken fuel n q s m e = rw (e, verify_levels)

Checked-cases :
    (r : Checked (List LoopTreeNode))
    → ((next : List LoopTreeNode) × (r ≡ fine next)) ⊎ ((s : ℕ) × (m : Mismatch) × (r ≡ broken s m))
Checked-cases (fine next) = inl (next, refl)
Checked-cases (broken s m) = inr (s, m, refl)

-- A node has a type of its loop at its index, so a bound of 0 levels is no bound of a node.
pub no_node : (n : LoopTreeNode) → ¬ Within 0 n
no_node n w = absurd (omega (arith, w.0, w.1, levels-children n.loop))

verify_levels-total :
    (b : ℕ) (q : List LoopTreeNode) → All (Within b) q → is_some (verify_levels (suc b) q) ≡ true
verify_levels-total b [] w = ap is_some (verify_levels_nil b)
verify_levels-total zero (n ∷ q) w = absurd (no_node n w.0)
verify_levels-total (suc b) (n ∷ q) w = elim (Checked-cases (level_check n q)) [
  | inl (next, e) ↦
      let (fits, succs) = check_nodes-fine (type_at n) (is_leaf_level n) (n ∷ q) next e in
      ap is_some (verify_levels-step (suc b) n q next e)
      ∙ verify_levels-total b next (rw succs (all_successors-Within b (n ∷ q) w))
  | inr (s, m, e) ↦ ap is_some (verify_levels-broken (suc b) n q s m e)
]

-- A top level loop of the kernel has a type.
abbrev pub HasTypes : Loop → Type 0
HasTypes l = 0 < length (info l).type

pub start_nodes-Within :
    (b : ℕ) (ls : List Loop)
    → All HasTypes ls
    → queue_levels (start_nodes ls) ≤ b
    → All (Within b) (start_nodes ls)
unfolding queue_levels
start_nodes-Within b [] h k = tt
start_nodes-Within b (l ∷ ls) h k = ((omega arith, h.0), start_nodes-Within b ls h.1 (omega arith))

-- On loops that have at least one type each, the check ends with a verdict.
pub verify_loop_structure-total :
    (ls : List Loop) → All HasTypes ls → is_some (verify_loop_structure ls) ≡ true
unfolding verify_loop_structure
verify_loop_structure-total ls h =
    verify_levels-total (queue_levels (start_nodes ls)) (start_nodes ls)
      (start_nodes-Within (queue_levels (start_nodes ls)) ls h (omega arith))
