-- ===== src/Sema/Walk/Nesting.antt =====
-- The current loop during a traversal.
use occa_transpiler.Base.{
  ℕ, false, Option, none, some, List, [], ◌∷◌, ◌++◌, ◌≡◌, refl, ap, ◌∙◌, ◌==◌, ==_iff, Bool-cases,
  Option-cases, inl, inr, is_nil, subst, ◌&&◌, arith,
}
use occa_transpiler.Ast.{ForStmt, Clang}
use occa_transpiler.Result.{Result, ok, err, >>=-eq-ok}
use occa_transpiler.Loop.{LoopInfo, Loop, is_inc_op, is_upper_bound}
use occa_transpiler.Params.{AttrParams}
use occa_transpiler.ForStmt.{parse_for_stmt, parse_init, parse_cond, parse_inc, range_size_of}
use occa_transpiler.Sema.{
  KernelInfo, LoopPath, LoopAxisTypes, start_loop, stop_loop, add_loop, add_parsed, parent_of,
  find_loop, new_path, get_loop_info, get_loop_axis_type, is_legal_loop_level, parent_types,
  finish_loop, stop_found, loop_at,
}
use occa_transpiler.Sema.Walk.{
  Nest, nest, Nests, done, also, Step, and_then, start, traverse, traverse_all,
}

parent_of-snoc : (p : LoopPath) (c : ℕ) → parent_of (p ++ (c ∷ [])) ≡ p
unfolding parent_of
parent_of-snoc [] c = refl
parent_of-snoc (j ∷ []) c = refl
parent_of-snoc (j ∷ i ∷ p) c = ap (λ q. j ∷ q) (parent_of-snoc (i ∷ p) c)

is_nil-snoc : (p : LoopPath) (c : ℕ) → is_nil (p ++ (c ∷ [])) ≡ false
is_nil-snoc [] c = refl
is_nil-snoc (j ∷ p) c = refl

-- What a loop that has been started leaves: it is the current one, and can be found.
record Started (stmt : ℕ) (k k' : KernelInfo) : Type 0 where
  path : LoopPath
  found : find_loop stmt k'.loop_map ≡ some path
  real : is_nil path ≡ false
  above : parent_of path ≡ k.current_loop

-- Nothing that is known is forgotten.
Keeps : KernelInfo → KernelInfo → Type 0
Keeps k k' =
    (stmt : ℕ) (p : LoopPath)
    → find_loop stmt k.loop_map ≡ some p
    → find_loop stmt k'.loop_map ≡ some p

After : ℕ → KernelInfo → KernelInfo → Type 0
After stmt k k' = Started stmt k k' × Keeps k k'

find_new : (s : ℕ) (p : LoopPath) (m : List (ℕ × LoopPath)) → find_loop s ((s, p) ∷ m) ≡ some p
find_new s p m = rw ((==_iff s s).1 refl) refl

find_old :
    (s : ℕ) (p : LoopPath) (m : List (ℕ × LoopPath)) (t : ℕ) (q : LoopPath)
    → find_loop s m ≡ none
    → find_loop t m ≡ some q
    → find_loop t ((s, p) ∷ m) ≡ some q
find_old s p m t q h k = elim (Bool-cases (s == t)) [
  | inr e ↦ rw (e) k
  | inl e ↦
      let g : find_loop t m ≡ none = subst (λ u. find_loop u m ≡ none) ((==_iff s t).0 e) h in cc g
]

add_loop-After :
    (k : KernelInfo) (i : LoopInfo)
    → find_loop i.stmt k.loop_map ≡ none
    → After i.stmt k (add_loop k i).0
unfolding add_loop After Keeps
add_loop-After k i q =
    let p = new_path k.current_loop k.top_level_loops in
    rw (add_loop, q)
      (
        record {
          path = p;
          found = find_new i.stmt p k.loop_map;
          real = is_nil-snoc k.current_loop _;
          above = parent_of-snoc k.current_loop _;
        },
        λ t r. find_old i.stmt p k.loop_map t r q,
      )

add_loop-Started :
    (k k' : KernelInfo) (i : LoopInfo)
    → add_loop k i ≡ (k', ok tt)
    → Started i.stmt k k' × Keeps k k'
unfolding add_loop After
add_loop-Started k k' i h = elim (Option-cases (find_loop i.stmt k.loop_map)) [
  | inr (p, q) ↦ cc (rw (add_loop, q) at h)
  | inl q ↦ subst (After i.stmt k) (ap (λ r. r.0) h) (add_loop-After k i q)
]

parsed-stmt :
    (clang : Clang) (parse_attr : ℕ → Result AttrParams) (s : ForStmt) (a : Option ℕ) (i : LoopInfo)
    → parse_for_stmt clang parse_attr s a ≡ ok i
    → i.stmt ≡ s.id
unfolding parse_for_stmt
parsed-stmt clang parse_attr s a i h =
    let (init, e, h1) = >>=-eq-ok (parse_init s.init) _ h in
    let (cond, e1, h2) = >>=-eq-ok (parse_cond clang parse_attr init.name s.cond) _ h1 in
    let (inc, e2, h3) = >>=-eq-ok (parse_inc clang parse_attr init.name s.inc) _ h2 in
    let (size, e3, h4) =
      >>=-eq-ok
        (range_size_of clang parse_attr (is_inc_op inc && is_upper_bound cond.1) init.start cond.0)
        _ h3 in
    cc h4

stop_found-restores :
    (p : LoopPath) (k k' : KernelInfo) (o : Option Loop)
    → stop_found k p o ≡ (k', ok tt)
    → (k'.current_loop ≡ parent_of p) × (k'.loop_map ≡ k.loop_map)
unfolding stop_found finish_loop
stop_found-restores p k k' none h = cc
stop_found-restores p k k' (some l) h = ground arith

-- A loop that was started, when it is stopped: the loop above it is the current one.
stop_loop-restores :
    (stmt : ℕ) (p : LoopPath) (k k' : KernelInfo)
    → find_loop stmt k.loop_map ≡ some p
    → is_nil p ≡ false
    → stop_loop k stmt ≡ (k', ok tt)
    → (k'.current_loop ≡ parent_of p) × (k'.loop_map ≡ k.loop_map)
unfolding stop_loop get_loop_info stop_found
stop_loop-restores stmt p k k' f n h =
    stop_found-restores p k k' (loop_at k.top_level_loops p)
      (rw (stop_loop, get_loop_info, f, n) at h)

-- A loop that was started has been parsed and added.
parsed-added :
    (k k' : KernelInfo) (t : LoopAxisTypes) (parsed : Result LoopInfo)
    → add_parsed k t parsed ≡ (k', ok tt)
    → (i : LoopInfo) × (parsed ≡ ok i)
      × (add_loop k (record i { type = t.types; axis = t.axis }) ≡ (k', ok tt))
unfolding add_parsed
parsed-added k k' t (err e) h = cc
parsed-added k k' t (ok i) h = (i, refl, h)

start-parsed :
    (k k' : KernelInfo) (t : LoopAxisTypes) (parsed : Result LoopInfo)
    → start_loop k t parsed ≡ (k', ok tt)
    → add_parsed k t parsed ≡ (k', ok tt)
unfolding start_loop
start-parsed k k' t parsed h = elim (Bool-cases (is_legal_loop_level t.types (parent_types k))) [
  | inl q ↦ rw (start_loop, q) at h
  | inr q ↦ cc (rw (start_loop, q) at h)
]

module _ (clang : Clang) (parse_attr : ℕ → Result AttrParams) where
  -- What a traversal that succeeds leaves as it was.
  Restored : KernelInfo → KernelInfo → Type 0
  Restored k k' = (k'.current_loop ≡ k.current_loop) × Keeps k k'

  then-ok :
      (m : Step) (f : KernelInfo → Step) {k : KernelInfo}
      → and_then m f ≡ (k, ok tt)
      → (k1 : KernelInfo) × (m ≡ (k1, ok tt)) × (f k1 ≡ (k, ok tt))
  then-ok (k, err e) f h = cc
  then-ok (k, ok u) f h = (k, refl, h)

  start-Started :
      (s : ForStmt) (attr : Option ℕ) (params : Option AttrParams) (k k' : KernelInfo)
      → start clang parse_attr s attr params k ≡ (k', ok tt)
      → After s.id k k'
  unfolding start_loop add_parsed After
  start-Started s attr params k k' h =
      let t = get_loop_axis_type params in
      let parsed = parse_for_stmt clang parse_attr s attr in
      let (i, p, a) = parsed-added k k' t parsed (start-parsed k k' t parsed h) in
      subst (λ n. After n k k') (parsed-stmt clang parse_attr s attr i p)
        (add_loop-Started k k' (record i { type = t.types; axis = t.axis }) a)

  mutual
    unfolding traverse Restored After Keeps

    traverse-Restored :
        (n : Nest) (k k' : KernelInfo) → traverse clang parse_attr n k ≡ (k', ok tt) → Restored k k'
    traverse-Restored (nest s attr params below) k k' h =
        let (k1, h1, r1) = then-ok (start clang parse_attr s attr params k) _ h in
        let (k2, h2, r2) = then-ok (traverse_all clang parse_attr below k1) _ r1 in
        let (begun, kept) = start-Started s attr params k k1 h1 in
        let (same, kept2) = all-Restored below k1 k2 h2 in
        let (back, map) =
          stop_loop-restores s.id begun.path k2 k' (kept2 s.id begun.path begun.found) begun.real
            r2 in
        (back ∙ begun.above, λ t p q. ap (λ m. find_loop t m) map ∙ kept2 t p (kept t p q))

    all-Restored :
        (ns : Nests) (k k' : KernelInfo)
        → traverse_all clang parse_attr ns k ≡ (k', ok tt)
        → Restored k k'
    all-Restored done k k' h =
        let e : k ≡ k' = ap (λ r. r.0) h in subst (Restored k) e (refl, λ t p q. q)
    all-Restored (also n ns) k k' h =
        let (k1, h1, r1) = then-ok (traverse clang parse_attr n k) _ h in
        let (same, kept) = traverse-Restored n k k1 h1 in
        let (same2, kept2) = all-Restored ns k1 k' r1 in
        (same2 ∙ same, λ t p q. kept2 t p (kept t p q))

  -- For a nest of loops whose traversal succeeds in a kernel: the loop that was the current one before it
  -- is the current one after it.
  pub traverse-current_loop :
      (n : Nest) (k k' : KernelInfo)
      → traverse clang parse_attr n k ≡ (k', ok tt)
      → k'.current_loop ≡ k.current_loop
  unfolding Restored
  traverse-current_loop n k k' h = (traverse-Restored n k k' h).0
