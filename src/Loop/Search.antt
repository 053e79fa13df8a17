-- ===== src/Loop/Search.antt =====
-- `OklLoopInfo::getFirstAttributedChild`: the breadth-first search below a loop, on fuel, and the
-- proof that the number of nodes is fuel enough.
use occa_transpiler.Base.{
  ℕ, zero, suc, ◌+◌, ◌≤◌, ◌<◌, Bool, true, false, not, ◌||◌, Option, none, some, List, [], ◌∷◌,
  ◌++◌, ◌≡◌, refl, sym, ap, ◌∙◌, inl, inr, arith, if◌then◌else◌, Bool-cases, is_some, or_assoc,
  or_comm,
}
use occa_transpiler.Loop.{
  Loop, Loops, node, nil, cons, info, children, to_list, is_regular, size, size_loops,
}

-- `while (!elements.empty())`: the front of the deque is tested, and its children go to the back.
unfoldable pub search_queue : ℕ → (Loop → Bool) → List Loop → Option Loop
search_queue zero f q = none
search_queue (suc fuel) f [] = none
search_queue (suc fuel) f (el ∷ q) =
    let rest = search_queue fuel f (q ++ to_list (children el)) in if f el then some el else rest

-- `getFirstAttributedChild(f)`
unfoldable pub get_first_child : (Loop → Bool) → Loop → Option Loop
get_first_child f l = search_queue (size l) f (to_list (children l))

abbrev pub is_attributed : Loop → Bool
is_attributed l = not (is_regular (info l).type)

-- `getFirstAttributedChild()`
abbrev pub get_first_attributed_child : Loop → Option Loop
get_first_attributed_child = get_first_child is_attributed

-- Some loop of the tree, or of the forest, passes the test.
unfoldable mutual
  pub any_loop : (Loop → Bool) → Loop → Bool
  any_loop f (node i cs) = f (node i cs) || any_loops f cs

  pub any_loops : (Loop → Bool) → Loops → Bool
  any_loops f nil = false
  any_loops f (cons l ls) = any_loop f l || any_loops f ls

any_queue : (Loop → Bool) → List Loop → Bool
any_queue f [] = false
any_queue f (l ∷ q) = any_loop f l || any_queue f q

pub size_queue : List Loop → ℕ
size_queue [] = 0
size_queue (l ∷ q) = size l + size_queue q

any_queue-append :
    (f : Loop → Bool) (p q : List Loop) → any_queue f (p ++ q) ≡ (any_queue f p || any_queue f q)
unfolding any_queue
any_queue-append f [] q = refl
any_queue-append f (l ∷ p) q =
    ap (◌||◌ (any_loop f l)) (any_queue-append f p q) ∙ sym (or_assoc (any_loop f l) _ _)

any_queue-to_list : (f : Loop → Bool) (ls : Loops) → any_queue f (to_list ls) ≡ any_loops f ls
unfolding any_queue any_loop
any_queue-to_list f nil = refl
any_queue-to_list f (cons l ls) = ap (◌||◌ (any_loop f l)) (any_queue-to_list f ls)

size_queue-append : (p q : List Loop) → size_queue (p ++ q) ≡ size_queue p + size_queue q
unfolding size_queue
size_queue-append [] q = omega arith
size_queue-append (l ∷ p) q = omega (arith, size_queue-append p q)

pub size_queue-to_list : (ls : Loops) → size_queue (to_list ls) ≡ size_loops ls
unfolding size_queue size
size_queue-to_list nil = refl
size_queue-to_list (cons l ls) = ap (◌+◌ (size l)) (size_queue-to_list ls)

pub size-children : (l : Loop) → size l ≡ 1 + size_loops (children l)
unfolding size
size-children (node i cs) = omega arith

any_loop-children : (f : Loop → Bool) (l : Loop) → any_loop f l ≡ (f l || any_loops f (children l))
unfolding any_loop
any_loop-children f (node i cs) = refl

search_queue-any :
    (fuel : ℕ) (f : Loop → Bool) (q : List Loop)
    → size_queue q < fuel
    → is_some (search_queue fuel f q) ≡ any_queue f q
unfolding search_queue any_queue size_queue
search_queue-any zero f q h = elim h [ ]
search_queue-any (suc fuel) f [] h = refl
search_queue-any (suc fuel) f (el ∷ q) h = elim (Bool-cases (f el)) [
  | inl hit ↦ ground (arith, any_loop-children f el)
  | inr miss ↦ ground (
    arith,
    any_loop-children f el,
    size-children el,
    size_queue-append q (to_list (children el)),
    size_queue-to_list (children el),
    search_queue-any fuel f (q ++ to_list (children el)),
    any_queue-append f q (to_list (children el)),
    any_queue-to_list f (children el),
    or_comm (any_queue f q) (any_loops f (children el)),
  )
]

-- The search stops within its fuel, and comes back with a loop exactly when some loop below the
-- given one passes the test.
pub get_first_child-any :
    (f : Loop → Bool) (l : Loop) → is_some (get_first_child f l) ≡ any_loops f (children l)
unfolding get_first_child
get_first_child-any f l =
    search_queue-any (size l) f (to_list (children l))
      (omega (arith, size-children l, size_queue-to_list (children l)))
    ∙ any_queue-to_list f (children l)

search_queue_sound :
    (fuel : ℕ) (f : Loop → Bool) (q : List Loop) (r : Loop)
    → search_queue fuel f q ≡ some r
    → (f r ≡ true) × (size r ≤ size_queue q)
unfolding search_queue size_queue
search_queue_sound zero f q r h = cc
search_queue_sound (suc fuel) f [] r h = cc
search_queue_sound (suc fuel) f (el ∷ q) r h = elim (Bool-cases (f el)) [
  | inl hit ↦ ground arith
  | inr miss ↦ ground (
    arith,
    size-children el,
    size_queue-append q (to_list (children el)),
    size_queue-to_list (children el),
    search_queue_sound fuel f (q ++ to_list (children el)) r,
  )
]

-- What is found passes the test and has fewer nodes than the loop searched.
pub get_first_child_sound :
    (f : Loop → Bool) (l : Loop) (r : Loop)
    → get_first_child f l ≡ some r
    → (f r ≡ true) × (size r < size l)
unfolding get_first_child
get_first_child_sound f l r h =
    let s = search_queue_sound (size l) f (to_list (children l)) r h in
    (s.0, omega (arith, size-children l, size_queue-to_list (children l)))
