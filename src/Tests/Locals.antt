-- ===== src/Tests/Locals.antt =====
-- An @exclusive variable over two loops of threads.
use occa_transpiler.Base.{ℕ, ◌≡◌, refl, ◌⊎◌}
use occa_transpiler.Loop.{x, Loops, nil, cons}
use occa_transpiler.Loop.Sizes.{get_inner_sizes, set_size, own_sizes}
use occa_transpiler.Local.{exclusive_size}
use occa_transpiler.Local.Bounds.{HasUnknown, Fits, exclusive_size-Fits}
use occa_transpiler.Tests.Data.{leaf, reads_16}

abbrev two_leaves : Loops
two_leaves = cons (leaf 3 x 8) (cons (leaf 4 x 5) nil)

abbrev eight : ℕ
eight = 8

exclusive_size-Fits_example :
    (HasUnknown reads_16 two_leaves × (eight ≡ 1024)) ⊎ Fits reads_16 eight two_leaves
unfolding exclusive_size get_inner_sizes own_sizes set_size
exclusive_size-Fits_example = exclusive_size-Fits reads_16 two_leaves eight refl
