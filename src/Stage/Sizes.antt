-- ===== src/Stage/Sizes.antt =====
-- The sizes that @max_inner_dims gives to a loop, as the sizes of its block of threads.
use occa_transpiler.Base.{
  ℕ, zero, suc, Bool, true, false, [], ◌∷◌, ◌≡◌, refl, ap, ◌∙◌, some, ℤ, inl, inr, Option-cases,
}
use occa_transpiler.Ast.{Bytes}
use occa_transpiler.Result.{ok}
use occa_transpiler.Loop.{
  outer, LoopInfo, Loop, Loops, nil, cons, node, info, children, is_one, is_tiled,
}
use occa_transpiler.Loop.Sizes.{get_inner_sizes}
use occa_transpiler.Sema.{
  get_loop_info, loop_at, loop_index, modify_index, set_info, update_at, parent_of,
}
use occa_transpiler.Rewrite.{remove_attribute}
use occa_transpiler.Stage.{
  ForNode, Stage, push, set_loop, override_sizes, size_or_one, handle_max_inner_dims,
}

top_index :
    (ls : Loops) (k : ℕ) (l : Loop) → loop_at ls (k ∷ []) ≡ some l → loop_index ls k ≡ some l
unfolding loop_at
top_index ls k l h = elim (Option-cases (loop_index ls k)) [
  | inl e ↦ cc (rw (loop_at, e) at h)
  | inr (m, e) ↦ e ∙ (rw (loop_at, e) at h)
]

modified :
    (ls : Loops) (k : ℕ) (f : Loop → Loop) (l : Loop)
    → loop_index ls k ≡ some l
    → loop_index (modify_index k f ls) k ≡ some (f l)
modified nil k f l h = cc
modified (cons m ls) zero f l h = let same : m ≡ l = cc h in ap (λ n. some (f n)) same
modified (cons m ls) (suc k) f l h = modified ls k f l h

overridden :
    (strtoll : Bytes → ℕ × Bool) (i : LoopInfo) (cs : Loops) (a b c : ℤ)
    → is_tiled i.type ≡ false
    → is_one outer i.type ≡ true
    → get_inner_sizes strtoll (node (override_sizes (a ∷ b ∷ c ∷ []) i) cs)
      ≡ ok (record { size_x = size_or_one a; size_y = size_or_one b; size_z = size_or_one c })
unfolding get_inner_sizes
overridden strtoll i cs a b c t o = rw (override_sizes, t, o) refl

set_top :
    (s : Stage) (k : ℕ) (i : LoopInfo) (l : Loop)
    → loop_at s.kernel.top_level_loops (k ∷ []) ≡ some l
    → loop_at (set_loop s (k ∷ []) i).kernel.top_level_loops (k ∷ []) ≡ some (node i (children l))
unfolding loop_at update_at
set_top s k i (node j cs) h =
    let e =
      modified s.kernel.top_level_loops k (set_info i) (node j cs)
        (top_index s.kernel.top_level_loops k (node j cs) h) in
    rw (loop_at, e) refl

-- @max_inner_dims on a loop at the top with the one type @outer succeeds, and the sizes of a block of
-- threads that are computed for the loop afterwards are the three numbers, with 1 for those that are not positive.
pub handle_max_inner_dims-get_inner_sizes :
    (strtoll : Bytes → ℕ × Bool) (f : ForNode) (attr k : ℕ) (a b c : ℤ) (s : Stage) (l : Loop)
    → get_loop_info s.kernel f.id ≡ some (k ∷ [])
    → loop_at s.kernel.top_level_loops (k ∷ []) ≡ some l
    → is_tiled (info l).type ≡ false
    → is_one outer (info l).type ≡ true
    → (t : Stage) × (m : Loop) × (handle_max_inner_dims f attr (some (a ∷ b ∷ c ∷ [])) s ≡ ok t)
      × (loop_at t.kernel.top_level_loops (k ∷ []) ≡ some m)
      × (get_inner_sizes strtoll m
          ≡ ok (record { size_x = size_or_one a; size_y = size_or_one b; size_z = size_or_one c }))
unfolding handle_max_inner_dims parent_of
handle_max_inner_dims-get_inner_sizes strtoll f attr k a b c s l g h t o =
    let i = override_sizes (a ∷ b ∷ c ∷ []) (info l) in
    (
      push (set_loop s (k ∷ []) i) (remove_attribute attr ∷ []),
      node i (children l),
      rw (handle_max_inner_dims, g, h) refl,
      set_top s k i l h,
      overridden strtoll (info l) (children l) a b c t o,
    )
