-- ===== src/Verify/Levels.antt =====
-- The nodes one level below a node, and how the check of a queue reads them.
use occa_transpiler.Base.{
  Bool, true, not, ◌&&◌, none, some, List, [], ◌∷◌, ◌++◌, ◌≡◌, refl, arith, is_nil, All,
}
use mathlib.Core.Path.{ap₂}
use occa_transpiler.Loop.{
  LoopType, regular, inner, outer, type_eq, Loop, Loops, node, nil, cons, children,
}
use occa_transpiler.Loop.Search.{is_attributed, any_loop, any_loops, get_first_child-any}
use occa_transpiler.Verify.{
  LoopTreeNode, add_loop_children, add_child, type_at, has_children, next_idx, Checked, fine,
  broken, check_node, check_nodes, join_next, is_leaf_level,
}

-- The next type of the same loop, or the nearest attributed loops below it.
unfoldable pub successors : LoopTreeNode → List LoopTreeNode
successors n = elim (next_idx n) [
  | some j ↦ record n { type_idx = j } ∷ []
  | none ↦ add_loop_children (children n.loop)
]

abbrev pub all_successors : List LoopTreeNode → List LoopTreeNode
all_successors [] = []
all_successors (n ∷ q) = successors n ++ all_successors q

is_nil-append {ℓ} : {A : Type ℓ} (xs ys : List A) → is_nil (xs ++ ys) ≡ (is_nil xs && is_nil ys)
is_nil-append [] ys = refl
is_nil-append (x ∷ xs) ys = refl

mutual
  unfolding add_loop_children any_loop

  add_loop_children-any :
      (cs : Loops) → is_nil (add_loop_children cs) ≡ not (any_loops is_attributed cs)
  add_loop_children-any nil = refl
  add_loop_children-any (cons c cs) = ground (
    arith,
    is_nil-append (add_child c) (add_loop_children cs),
    add_child-any c,
    add_loop_children-any cs,
  )

  add_child-any : (c : Loop) → is_nil (add_child c) ≡ not (any_loop is_attributed c)
  add_child-any (node i cs) = ground (arith, add_loop_children-any cs)

-- The search and the walk agree on whether there is an attributed loop below.
pub has_children-frontier :
    (n : LoopTreeNode) → has_children n ≡ not (is_nil (add_loop_children (children n.loop)))
has_children-frontier n =
    ground
      (arith, get_first_child-any is_attributed n.loop, add_loop_children-any (children n.loop))

pub type_eq→≡ : (a b : LoopType) → type_eq a b ≡ true → a ≡ b
type_eq→≡ regular regular h = refl
type_eq→≡ inner inner h = refl
type_eq→≡ outer outer h = refl
type_eq→≡ regular inner h = cc
type_eq→≡ regular outer h = cc
type_eq→≡ inner regular h = cc
type_eq→≡ inner outer h = cc
type_eq→≡ outer regular h = cc
type_eq→≡ outer inner h = cc

pub type_eq_refl : (t : LoopType) → type_eq t t ≡ true
type_eq_refl regular = refl
type_eq_refl inner = refl
type_eq_refl outer = refl

pub is_leaf_level-successors : (n : LoopTreeNode) → is_leaf_level n ≡ is_nil (successors n)
unfolding successors
is_leaf_level-successors n = ground (arith, has_children-frontier n)

-- A node that its level accepts: it has the level's type, and it is at the end of its path exactly
-- when the level is the last.
abbrev pub Fits : LoopType → Bool → LoopTreeNode → Type 0
Fits level is_leaf n = (type_at n ≡ level) × (is_nil (successors n) ≡ is_leaf)

nil_of {ℓ} : {A : Type ℓ} (xs : List A) → is_nil xs ≡ true → xs ≡ []
nil_of [] h = refl
nil_of (x ∷ xs) h = cc

pub check_node-fine :
    (level : LoopType) (is_leaf : Bool) (n : LoopTreeNode) (next : List LoopTreeNode)
    → check_node level is_leaf n ≡ fine next
    → Fits level is_leaf n × (next ≡ successors n)
unfolding check_node successors
check_node-fine level is_leaf n next h = ground (
  arith,
  has_children-frontier n,
  type_eq→≡ (type_at n) level,
  nil_of (add_loop_children (children n.loop)),
)

pub check_node-Fits :
    (level : LoopType) (is_leaf : Bool) (n : LoopTreeNode)
    → Fits level is_leaf n
    → check_node level is_leaf n ≡ fine (successors n)
unfolding check_node successors
check_node-Fits level is_leaf n h = ground (
  arith,
  has_children-frontier n,
  type_eq_refl level,
  nil_of (add_loop_children (children n.loop)),
)

join_next-fine :
    (a b : Checked (List LoopTreeNode)) (next : List LoopTreeNode)
    → join_next a b ≡ fine next
    → (xs : List LoopTreeNode) × (ys : List LoopTreeNode) × (a ≡ fine xs)
      × (b ≡ fine ys)
      × (next ≡ xs ++ ys)
unfolding join_next
join_next-fine (fine xs) (fine ys) next h = (xs, ys, refl, refl, ground arith)
join_next-fine (fine xs) (broken s m) next h = cc
join_next-fine (broken s m) b next h = cc

pub check_nodes-fine :
    (level : LoopType) (is_leaf : Bool) (q next : List LoopTreeNode)
    → check_nodes level is_leaf q ≡ fine next
    → All (Fits level is_leaf) q × (next ≡ all_successors q)
unfolding check_nodes
check_nodes-fine level is_leaf [] next h = (tt, ground arith)
check_nodes-fine level is_leaf (n ∷ q) next h =
    let (xs, ys, a, b, e) =
      join_next-fine (check_node level is_leaf n) (check_nodes level is_leaf q) next h in
    let (fits, here) = check_node-fine level is_leaf n xs a in
    let (rest, later) = check_nodes-fine level is_leaf q ys b in
    ((fits, rest), rw (← here, ← later) e)

pub check_nodes-Fits :
    (level : LoopType) (is_leaf : Bool) (q : List LoopTreeNode)
    → All (Fits level is_leaf) q
    → check_nodes level is_leaf q ≡ fine (all_successors q)
unfolding check_nodes join_next
check_nodes-Fits level is_leaf [] h = refl
check_nodes-Fits level is_leaf (n ∷ q) h =
    ap₂ join_next (check_node-Fits level is_leaf n h.0) (check_nodes-Fits level is_leaf q h.1)
