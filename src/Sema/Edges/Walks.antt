-- ===== src/Sema/Edges/Walks.antt =====
-- The edges of the tree during a traversal.
use occa_transpiler.Base.{
  ℕ, Bool, true, Option, none, some, [], ◌∷◌, ◌≡◌, refl, arith, Bool-cases, Option-cases, inl, inr,
  is_some,
}
use occa_transpiler.Ast.{Clang}
use occa_transpiler.Result.{Result, ok, err}
use occa_transpiler.Loop.{regular, LoopInfo, Loop}
use occa_transpiler.Loop.Height.{update_auto_with_specific_axis}
use occa_transpiler.Loop.Height.Axes.{update_auto-type}
use occa_transpiler.Params.{AttrParams}
use occa_transpiler.ForStmt.{parse_for_stmt}
use occa_transpiler.Sema.{
  KernelInfo, LoopPath, LoopAxisTypes, start_loop, stop_loop, add_loop, add_parsed, find_loop,
  get_loop_info, get_loop_axis_type, is_legal_loop_level, parent_types, finish_loop, stop_found,
  loop_at,
}
use occa_transpiler.Sema.Walk.{
  Nest, nest, Nests, done, also, Step, and_then, start, traverse, traverse_all,
}
use occa_transpiler.Sema.Edges.{legal_loops, legal-append_at, legal-update_at}

-- Every loop of the kernel is legal under the loop that it stands in.
abbrev pub edges_legal : KernelInfo → Bool
edges_legal k = legal_loops (regular ∷ []) k.top_level_loops

edges_legal-add_loop :
    (k : KernelInfo) (i : LoopInfo)
    → edges_legal k ≡ true
    → is_legal_loop_level i.type (parent_types k) ≡ true
    → edges_legal (add_loop k i).0 ≡ true
unfolding add_loop
edges_legal-add_loop k i h g =
    let step = legal-append_at (regular ∷ []) i k.current_loop k.top_level_loops h g in
    elim (Bool-cases (is_some (find_loop i.stmt k.loop_map))) [
      | inl e ↦ rw (add_loop, e) step
      | inr e ↦ rw (add_loop, e) step
    ]

edges_legal-add_parsed :
    (k : KernelInfo) (t : LoopAxisTypes) (parsed : Result LoopInfo)
    → edges_legal k ≡ true
    → is_legal_loop_level t.types (parent_types k) ≡ true
    → edges_legal (add_parsed k t parsed).0 ≡ true
unfolding add_parsed
edges_legal-add_parsed k t (err e) h g = h
edges_legal-add_parsed k t (ok i) h g =
    edges_legal-add_loop k (record i { type = t.types; axis = t.axis }) h g

edges_legal-start_loop :
    (k : KernelInfo) (t : LoopAxisTypes) (parsed : Result LoopInfo)
    → edges_legal k ≡ true
    → edges_legal (start_loop k t parsed).0 ≡ true
unfolding start_loop
edges_legal-start_loop k t parsed h =
    elim (Bool-cases (is_legal_loop_level t.types (parent_types k))) [
      | inl e ↦ rw (start_loop, e) (edges_legal-add_parsed k t parsed h e)
      | inr e ↦ rw (start_loop, e) h
    ]

edges_legal-finish_loop :
    (k : KernelInfo) (p : LoopPath) (l : Loop)
    → loop_at k.top_level_loops p ≡ some l
    → edges_legal k ≡ true
    → edges_legal (finish_loop k p l).0 ≡ true
unfolding finish_loop
edges_legal-finish_loop k p l e h =
    let step =
      legal-update_at (regular ∷ []) (update_auto_with_specific_axis l).1 p k.top_level_loops l e
        (update_auto-type l) h in
    ground (arith, step)

edges_legal-stop_found :
    (k : KernelInfo) (p : LoopPath) (o : Option Loop)
    → loop_at k.top_level_loops p ≡ o
    → edges_legal k ≡ true
    → edges_legal (stop_found k p o).0 ≡ true
unfolding stop_found
edges_legal-stop_found k p none e h = h
edges_legal-stop_found k p (some l) e h = edges_legal-finish_loop k p l e h

edges_legal-stop_loop :
    (k : KernelInfo) (stmt : ℕ) → edges_legal k ≡ true → edges_legal (stop_loop k stmt).0 ≡ true
unfolding stop_loop
edges_legal-stop_loop k stmt h = elim (Option-cases (get_loop_info k stmt)) [
  | inl e ↦ rw (stop_loop, e) h
  | inr (p, e) ↦ rw (stop_loop, e) (edges_legal-stop_found k p (loop_at k.top_level_loops p) refl h)
]

edges_legal-and_then :
    (m : Step) (f : KernelInfo → Step)
    → edges_legal m.0 ≡ true
    → ((k : KernelInfo) → edges_legal k ≡ true → edges_legal (f k).0 ≡ true)
    → edges_legal (and_then m f).0 ≡ true
edges_legal-and_then (k, err e) f h g = h
edges_legal-and_then (k, ok u) f h g = g k h

module _ (clang : Clang) (parse_attr : ℕ → Result AttrParams) where
  mutual
    unfolding traverse

    walk_legal :
        (n : Nest) (k : KernelInfo)
        → edges_legal k ≡ true
        → edges_legal (traverse clang parse_attr n k).0 ≡ true
    walk_legal (nest s attr params below) k h =
        edges_legal-and_then (start clang parse_attr s attr params k) _
          (edges_legal-start_loop k (get_loop_axis_type params)
            (parse_for_stmt clang parse_attr s attr) h)
          (λ k1 h1.
            edges_legal-and_then (traverse_all clang parse_attr below k1) _ (rest_legal below k1 h1)
              (λ k2 h2. edges_legal-stop_loop k2 s.id h2))

    rest_legal :
        (ns : Nests) (k : KernelInfo)
        → edges_legal k ≡ true
        → edges_legal (traverse_all clang parse_attr ns k).0 ≡ true
    rest_legal done k h = h
    rest_legal (also n ns) k h =
        edges_legal-and_then (traverse clang parse_attr n k) _ (walk_legal n k h)
          (λ k1 h1. rest_legal ns k1 h1)

  -- For any nest of loops and a kernel in which every loop is legal under the one that it stands in: the
  -- same holds after the traversal, whether it succeeds or stops at an error.
  pub edges_legal-traverse :
      (n : Nest) (k : KernelInfo)
      → edges_legal k ≡ true
      → edges_legal (traverse clang parse_attr n k).0 ≡ true
  edges_legal-traverse n k h = walk_legal n k h
