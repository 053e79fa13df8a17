-- ===== src/Sema/Edges.antt =====
-- The edges of a kernel's loop tree: every loop is legal under the loop that it stands in.
pub mod Walks
use occa_transpiler.Base.{
  ℕ, zero, suc, Bool, true, false, not, ◌&&◌, Option, none, some, List, [], ◌∷◌, ◌≡◌, refl, arith,
  is_nil, subst, sym, ap, ◌∙◌, Option-cases, Bool-cases, inl, inr, if◌then◌else◌,
}
use occa_transpiler.Loop.{LoopType, regular, LoopInfo, Loop, Loops, node, nil, cons, info, children}
use occa_transpiler.Sema.{
  LoopPath, is_legal_loop_level, types_at, append_at, update_at, loop_at, modify_index, loop_index,
  map_children, snoc, set_info,
}

unfoldable mutual
  pub legal_loops : List LoopType → Loops → Bool
  legal_loops above nil = true
  legal_loops above (cons l ls) = legal_loop above l && legal_loops above ls

  pub legal_loop : List LoopType → Loop → Bool
  legal_loop above (node i cs) = is_legal_loop_level i.type above && legal_loops i.type cs

legal-snoc :
    (above : List LoopType) (i : LoopInfo) (ls : Loops)
    → legal_loops above ls ≡ true
    → is_legal_loop_level i.type above ≡ true
    → legal_loops above (snoc ls (node i nil)) ≡ true
unfolding legal_loops
legal-snoc above i nil h k = ground arith
legal-snoc above i (cons l ls) h k = ground (arith, legal-snoc above i ls)

-- Below the loop with index `k`, the loops were legal and stay so.
append_below :
    (above : List LoopType) (i : LoopInfo) (k : ℕ) (p : LoopPath) (ls : Loops)
    → ((ts : List LoopType) (cs : Loops)
        → legal_loops ts cs ≡ true
        → is_legal_loop_level i.type (types_at ts p cs) ≡ true
        → legal_loops ts (append_at p i cs) ≡ true)
    → legal_loops above ls ≡ true
    → is_legal_loop_level i.type (types_at above (k ∷ p) ls) ≡ true
    → legal_loops above (modify_index k (map_children (append_at p i)) ls) ≡ true
unfolding legal_loops types_at
append_below above i k p nil ih h g = refl
append_below above i zero p (cons (node j cs) ls) ih h g = ground (arith, ih j.type cs)
append_below above i (suc k) p (cons l ls) ih h g = ground (arith, append_below above i k p ls ih)

pub legal-append_at :
    (above : List LoopType) (i : LoopInfo) (p : LoopPath) (ls : Loops)
    → legal_loops above ls ≡ true
    → is_legal_loop_level i.type (types_at above p ls) ≡ true
    → legal_loops above (append_at p i ls) ≡ true
unfolding append_at types_at
legal-append_at above i [] ls h g = legal-snoc above i ls h g
legal-append_at above i (k ∷ p) ls h g =
    append_below above i k p ls (λ ts cs. legal-append_at ts i p cs) h g

update_here :
    (above : List LoopType) (i : LoopInfo) (k : ℕ) (ls : Loops) (l : Loop)
    → loop_index ls k ≡ some l
    → i.type ≡ (info l).type
    → legal_loops above ls ≡ true
    → legal_loops above (modify_index k (set_info i) ls) ≡ true
unfolding legal_loops
update_here above i k nil l e t h = refl
update_here above i zero (cons (node j cs) ls) l e t h =
    let w : l ≡ node j cs = cc e in
    subst (λ ty. (is_legal_loop_level ty above && legal_loops ty cs && legal_loops above ls) ≡ true)
      (sym (t ∙ ap (λ x. (info x).type) w)) h
update_here above i (suc k) (cons m ls) l e t h = ground (arith, update_here above i k ls l e t)

update_below :
    (above : List LoopType) (i : LoopInfo) (k : ℕ) (p : LoopPath) (ls : Loops) (l m : Loop)
    → ((ts : List LoopType) (cs : Loops)
        → loop_at cs p ≡ some l
        → legal_loops ts cs ≡ true
        → legal_loops ts (update_at p i cs) ≡ true)
    → loop_index ls k ≡ some m
    → loop_at (children m) p ≡ some l
    → legal_loops above ls ≡ true
    → legal_loops above (modify_index k (map_children (update_at p i)) ls) ≡ true
unfolding legal_loops
update_below above i k p nil l m ih e g h = refl
update_below above i zero p (cons (node j cs) ls) l m ih e g h =
    let w : m ≡ node j cs = cc e in
    ground (arith, ih j.type cs (subst (λ x. loop_at (children x) p ≡ some l) w g))
update_below above i (suc k) p (cons o ls) l m ih e g h =
    ground (arith, update_below above i k p ls l m ih e g)

pub legal-update_at :
    (above : List LoopType) (i : LoopInfo) (p : LoopPath) (ls : Loops) (l : Loop)
    → loop_at ls p ≡ some l
    → i.type ≡ (info l).type
    → legal_loops above ls ≡ true
    → legal_loops above (update_at p i ls) ≡ true
unfolding update_at loop_at
legal-update_at above i [] ls l e t h = h
legal-update_at above i (k ∷ []) ls l e t h = elim (Option-cases (loop_index ls k)) [
  | inl q ↦ cc (rw (loop_at, q) at e)
  | inr (m, q) ↦
      let w : l ≡ m = cc (rw (loop_at, q) at e) in
      update_here above i k ls m q (t ∙ ap (λ x. (info x).type) w) h
]
legal-update_at above i (k ∷ j ∷ p) ls l e t h = elim (Option-cases (loop_index ls k)) [
  | inl q ↦ cc (rw (loop_at, q) at e)
  | inr (m, q) ↦
      update_below above i k (j ∷ p) ls l m (λ ts cs g b. legal-update_at ts i (j ∷ p) cs l g t b) q
        (rw (loop_at, q) at e) h
]
