-- ===== src/Verify/Sound.antt =====
-- The breadth-first check decides that all paths of the loop nest read the same types.
use occa_transpiler.Base.{
  ℕ, zero, suc, ◌<◌, Bool, true, false, Option, some, List, [], ◌∷◌, ◌++◌, ◌≡◌, refl, ◌∙◌, subst,
  inl, inr, arith, is_nil, Bool-cases, All, All-append, length,
}
use occa_transpiler.Loop.{LoopType}
use occa_transpiler.Verify.{
  LoopTreeNode, type_at, Checked, fine, broken, check_nodes, is_leaf_level, verify_levels,
}
use occa_transpiler.Verify.Levels.{
  successors, all_successors, Fits, is_leaf_level-successors, check_nodes-fine, check_nodes-Fits,
}

-- Every path from the node down reads exactly the types `ts`, one for each type of the loops on it.
abbrev pub Reads : List LoopType → LoopTreeNode → Type 0
Reads [] n = ⊥
Reads (t ∷ []) n = (type_at n ≡ t) × (successors n ≡ [])
Reads (t ∷ u ∷ ts) n =
    (type_at n ≡ t) × (is_nil (successors n) ≡ false) × All (Reads (u ∷ ts)) (successors n)

All-left : (P : LoopTreeNode → Type 0) (xs ys : List LoopTreeNode) → All P (xs ++ ys) → All P xs
All-left P [] ys h = tt
All-left P (x ∷ xs) ys h = (h.0, All-left P xs ys h.1)

All-right : (P : LoopTreeNode → Type 0) (xs ys : List LoopTreeNode) → All P (xs ++ ys) → All P ys
All-right P [] ys h = h
All-right P (x ∷ xs) ys h = All-right P xs ys h.1

nil_of {ℓ} : {A : Type ℓ} (xs : List A) → is_nil xs ≡ true → xs ≡ []
nil_of [] h = refl
nil_of (x ∷ xs) h = cc

Reads-leaf :
    (level : LoopType) (q : List LoopTreeNode)
    → All (Fits level true) q
    → All (Reads (level ∷ [])) q
Reads-leaf level [] h = tt
Reads-leaf level (n ∷ q) h = ((h.0.0, nil_of (successors n) h.0.1), Reads-leaf level q h.1)

Reads-level :
    (level u : LoopType) (ts : List LoopType) (q : List LoopTreeNode)
    → All (Fits level false) q
    → All (Reads (u ∷ ts)) (all_successors q)
    → All (Reads (level ∷ u ∷ ts)) q
Reads-level level u ts [] h k = tt
Reads-level level u ts (n ∷ q) h k = (
  (h.0.0, h.0.1, All-left (Reads (u ∷ ts)) (successors n) (all_successors q) k),
  Reads-level level u ts q h.1 (All-right (Reads (u ∷ ts)) (successors n) (all_successors q) k),
)

-- `check_nodes` at the level of the first node.
abbrev pub level_check : LoopTreeNode → List LoopTreeNode → Checked (List LoopTreeNode)
level_check n q = check_nodes (type_at n) (is_leaf_level n) (n ∷ q)

verify_levels-next :
    (fuel : ℕ) (n : LoopTreeNode) (q : List LoopTreeNode)
    → verify_levels (suc fuel) (n ∷ q) ≡ some (fine tt)
    → (next : List LoopTreeNode) × (level_check n q ≡ fine next)
      × (verify_levels fuel next ≡ some (fine tt))
unfolding verify_levels
verify_levels-next fuel n q h = split (level_check n q) h
  where
    split :
        (r : Checked (List LoopTreeNode))
        → ◌≡◌ {A = Option (Checked (Unit {0}))}
            (elim r [ broken s m ↦ some (broken s m) | fine next ↦ verify_levels fuel next ])
            (some (fine tt))
        → (next : List LoopTreeNode) × (r ≡ fine next) × (verify_levels fuel next ≡ some (fine tt))
    split (fine next) e = (next, refl, e)
    split (broken s m) e = cc

nonempty_next :
    (n : LoopTreeNode) (q : List LoopTreeNode)
    → is_nil (successors n) ≡ false
    → is_nil (all_successors (n ∷ q)) ≡ false
nonempty_next n q h = grow (successors n) h
  where
    grow : (xs : List LoopTreeNode) → is_nil xs ≡ false → is_nil (xs ++ all_successors q) ≡ false
    grow [] e = cc
    grow (x ∷ xs) e = refl

no_fuel : (q : List LoopTreeNode) → ¬ (verify_levels zero q ≡ some (fine tt))
unfolding verify_levels
no_fuel q h = cc

-- One level up: the types that the next level reads, behind the type of this one.
Reads-inner :
    (n : LoopTreeNode) (q : List LoopTreeNode) (ts : List LoopType)
    → All (Fits (type_at n) false) (n ∷ q)
    → All (Reads ts) (all_successors (n ∷ q))
    → (us : List LoopType) × All (Reads us) (n ∷ q)
Reads-inner n q (u ∷ ts) fits h = (type_at n ∷ u ∷ ts, Reads-level (type_at n) u ts (n ∷ q) fits h)
Reads-inner n q [] fits h =
    absurd (none_read (all_successors (n ∷ q)) (nonempty_next n q fits.0.1) h)
  where
    none_read : (xs : List LoopTreeNode) → is_nil xs ≡ false → All (Reads []) xs → ⊥
    none_read [] e k = cc
    none_read (x ∷ xs) e k = k.0

-- If the check of a queue that is not empty succeeds, there is one sequence of types that every path
-- from every node of the queue reads.
pub verify_levels-Reads :
    (fuel : ℕ) (q : List LoopTreeNode)
    → is_nil q ≡ false
    → verify_levels fuel q ≡ some (fine tt)
    → (ts : List LoopType) × All (Reads ts) q
verify_levels-Reads zero q e h = absurd (no_fuel q h)
verify_levels-Reads (suc fuel) [] e h = cc
verify_levels-Reads (suc fuel) (n ∷ q) e h =
    let (next, here, later) = verify_levels-next fuel n q h in
    let (fits, succs) = check_nodes-fine (type_at n) (is_leaf_level n) (n ∷ q) next here in
    elim (Bool-cases (is_leaf_level n)) [
      | inl leaf ↦ (
        type_at n ∷ [],
        Reads-leaf (type_at n) (n ∷ q) (subst (λ b. All (Fits (type_at n) b) (n ∷ q)) leaf fits),
      )
      | inr more ↦
          let fits' = subst (λ b. All (Fits (type_at n) b) (n ∷ q)) more fits in
          let (ts, reads) =
            verify_levels-Reads fuel next (rw succs (nonempty_next n q fits'.0.1)) later in
          Reads-inner n q ts fits' (subst (All (Reads ts)) succs reads)
    ]

Fits-Reads : (t : LoopType) (q : List LoopTreeNode) → All (Reads (t ∷ [])) q → All (Fits t true) q
Fits-Reads t [] h = tt
Fits-Reads t (n ∷ q) h = ((h.0.0, rw (h.0.1)), Fits-Reads t q h.1)

Fits-Reads-inner :
    (t u : LoopType) (ts : List LoopType) (q : List LoopTreeNode)
    → All (Reads (t ∷ u ∷ ts)) q
    → All (Fits t false) q × All (Reads (u ∷ ts)) (all_successors q)
Fits-Reads-inner t u ts [] h = (tt, tt)
Fits-Reads-inner t u ts (n ∷ q) h =
    let (a, b) = Fits-Reads-inner t u ts q h.1 in
    (((h.0.0, h.0.1), a), All-append (Reads (u ∷ ts)) (successors n) (all_successors q) h.0.2 b)

no_successors :
    (t : LoopType) (q : List LoopTreeNode) → All (Reads (t ∷ [])) q → all_successors q ≡ []
no_successors t [] h = refl
no_successors t (n ∷ q) h = rw h.0.1 (no_successors t q h.1)

pub verify_levels-step :
    (fuel : ℕ) (n : LoopTreeNode) (q next : List LoopTreeNode)
    → level_check n q ≡ fine next
    → verify_levels (suc fuel) (n ∷ q) ≡ verify_levels fuel next
unfolding verify_levels
verify_levels-step fuel n q next e = rw (e, verify_levels)

level_check-Fits :
    (n : LoopTreeNode) (q : List LoopTreeNode) (t : LoopType) (b : Bool)
    → All (Fits t b) (n ∷ q)
    → level_check n q ≡ fine (all_successors (n ∷ q))
level_check-Fits n q t b h =
    rw (h.0.0, is_leaf_level-successors n, h.0.1) (check_nodes-Fits t b (n ∷ q) h)

pub verify_levels_nil : (fuel : ℕ) → verify_levels (suc fuel) [] ≡ some (fine tt)
unfolding verify_levels
verify_levels_nil fuel = refl

-- If one sequence of types is read on every path from every node, the check succeeds, with one more
-- round of fuel than there are types.
pub Reads-verify_levels :
    (fuel : ℕ) (ts : List LoopType) (q : List LoopTreeNode)
    → All (Reads ts) q
    → length ts < fuel
    → verify_levels fuel q ≡ some (fine tt)
Reads-verify_levels zero ts q h k = elim k [ ]
Reads-verify_levels (suc fuel) ts [] h k = verify_levels_nil fuel
Reads-verify_levels (suc fuel) [] (n ∷ q) h k = absurd h.0
Reads-verify_levels (suc (suc fuel)) (t ∷ []) (n ∷ q) h k =
    verify_levels-step (suc fuel) n q (all_successors (n ∷ q))
      (level_check-Fits n q t true (Fits-Reads t (n ∷ q) h))
    ∙ rw (no_successors t (n ∷ q) h) (verify_levels_nil fuel)
Reads-verify_levels (suc zero) (t ∷ []) (n ∷ q) h k = absurd (omega arith)
Reads-verify_levels (suc fuel) (t ∷ u ∷ ts) (n ∷ q) h k =
    let (a, b) = Fits-Reads-inner t u ts (n ∷ q) h in
    verify_levels-step fuel n q (all_successors (n ∷ q)) (level_check-Fits n q t false a)
    ∙ Reads-verify_levels fuel (u ∷ ts) (all_successors (n ∷ q)) b (omega arith)
