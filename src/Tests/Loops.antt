-- ===== src/Tests/Loops.antt =====
-- The loops of a kernel: their search, their axes and their sizes.
use occa_transpiler.Base.{
  ℕ, ◌≤◌, ◌<◌, ◌*◌, ◌-◌, true, false, some, [], ◌∷◌, ◌≡◌, refl, inl, inr, arith, is_some, All,
}
use occa_transpiler.Result.{ok}
use occa_transpiler.Loop.{outer, x, y, auto, OptSizes, Loops, nil, cons, info, children, size}
use occa_transpiler.Loop.Search.{
  get_first_child, any_loops, is_attributed, get_first_child-any, search_queue,
}
use occa_transpiler.Loop.Height.{update_auto_with_specific_axis, get_height_same_type, height_loop}
use occa_transpiler.Loop.Height.Axes.{Resolves, last, more, update_auto-Resolves, update_auto-Depth}
use occa_transpiler.Loop.Sizes.{
  product, ones, get_inner_sizes, children_sizes, own_sizes, tiles, set_size,
}
use occa_transpiler.Loop.Sizes.Choice.{
  one_more, none_left, children_sizes_biggest, children_sizes_after_fall,
}
use occa_transpiler.Loop.Sizes.Defined.{AllResolved, tiles-ceil, get_inner_sizes_defined}
use occa_transpiler.Sema.{loop_at, parent_of}
use occa_transpiler.Sema.Marks.{mark_shared_used, use_shared, mark_path, should_sync}
use occa_transpiler.Sema.Marks.Above.{info_at, map_info, info_at-mark_shared_used}
use occa_transpiler.Tests.Data.{kernel, two_outers, second_outer, resolved, leaf, reads_16}

get_first_child-any_example :
    is_some (get_first_child is_attributed kernel) ≡ any_loops is_attributed (children kernel)
get_first_child-any_example = get_first_child-any is_attributed kernel

update_auto-Resolves_example :
    Resolves (auto ∷ []) (update_auto_with_specific_axis two_outers).1.axis
unfolding update_auto_with_specific_axis get_height_same_type height_loop size get_first_child
    search_queue
update_auto-Resolves_example = update_auto-Resolves two_outers refl (inl refl) refl

update_auto-Depth_example :
    update_auto_with_specific_axis two_outers ≡ (true, record (info two_outers) { axis = y ∷ [] })
unfolding get_first_child search_queue size
update_auto-Depth_example = update_auto-Depth outer two_outers 2 refl refl (
    more {l = two_outers} {c = second_outer} refl
      (more {l = second_outer} {c = leaf 3 auto 8} {m = 0} {n = 1} refl (last refl refl) refl) refl)

abbrev three : ℕ → ℕ → ℕ → Loops
three a b c = cons (leaf 1 x a) (cons (leaf 2 x b) (cons (leaf 3 x c) nil))

abbrev sizes_x : ℕ → OptSizes
sizes_x n = record { size_x = some n; size_y = some 1; size_z = some 1 }

children_sizes_biggest_example :
    (r : OptSizes) × (children_sizes reads_16 0 ones (three 2 2 8) ≡ ok r)
    × All (λ s. product s ≤ product r) (sizes_x 2 ∷ sizes_x 2 ∷ sizes_x 8 ∷ [])
unfolding get_inner_sizes own_sizes set_size product
children_sizes_biggest_example =
    children_sizes_biggest reads_16 (three 2 2 8) (sizes_x 2 ∷ sizes_x 2 ∷ sizes_x 8 ∷ [])
      (one_more refl (one_more refl (one_more refl none_left)))
      (omega arith, (omega arith, (omega arith, tt)))

children_sizes_after_fall_example : children_sizes reads_16 0 ones (three 512 1 2) ≡ ok (sizes_x 2)
unfolding get_inner_sizes own_sizes set_size product
children_sizes_after_fall_example =
    children_sizes_after_fall reads_16 (leaf 1 x 512) (leaf 2 x 1) (leaf 3 x 2) (sizes_x 512)
      (sizes_x 1) (sizes_x 2) refl refl refl (omega arith) (omega arith)

tiles-ceil_example :
    (n : ℕ) × (tiles (16, false) 100 ≡ ok (some n)) × (100 ≤ n * 16) × ((n - 1) * 16 < 100)
tiles-ceil_example = tiles-ceil 16 100 (omega arith) (omega arith) (omega arith)

resolved-AllResolved : AllResolved reads_16 resolved
unfolding AllResolved
resolved-AllResolved = (
  record { types = inr refl; axes = refl; specific = refl; tile = inr (omega arith) },
  ((record { types = inl refl; axes = refl; specific = refl; tile = inl refl }, tt), tt),
)

get_inner_sizes_defined_example : (s : OptSizes) × (get_inner_sizes reads_16 resolved ≡ ok s)
get_inner_sizes_defined_example = get_inner_sizes_defined reads_16 resolved resolved-AllResolved

abbrev kernels : Loops
kernels = cons kernel nil

info_at-mark_shared_used_example :
    info_at (mark_shared_used (0 ∷ 0 ∷ []) kernels) (0 ∷ [])
    ≡ map_info use_shared (info_at kernels (0 ∷ []))
info_at-mark_shared_used_example = info_at-mark_shared_used (0 ∷ 0 ∷ []) (0 ∷ []) kernels

inner_last : should_sync (0 ∷ 0 ∷ 0 ∷ []) (mark_shared_used (0 ∷ 0 ∷ 0 ∷ []) kernels) ≡ true
unfolding should_sync mark_shared_used mark_path loop_at parent_of
inner_last = refl
