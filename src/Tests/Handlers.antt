-- ===== src/Tests/Handlers.antt =====
-- A map of handlers, the names of the backends, and @max_inner_dims on a loop.
use occa_transpiler.Base.{
  ℕ, suc, Bool, true, List, [], ◌∷◌, ◌≡◌, refl, none, some, All, ◌↔◌, pos, negsuc,
}
use occa_transpiler.Result.{ok, err, unsupported_handle}
use occa_transpiler.Text.Literal.{codes}
use occa_transpiler.Loop.{outer, auto, Loop, node, nil, cons}
use occa_transpiler.Loop.Sizes.{get_inner_sizes}
use occa_transpiler.Sema.{get_loop_info, loop_at}
use occa_transpiler.Stage.{StmtAttr, ForNode, Stage, handle_max_inner_dims}
use occa_transpiler.Stage.Sizes.{handle_max_inner_dims-get_inner_sizes}
use occa_transpiler.Registry.{
  cuda, HandlerKey, common_key, backend_key, find_handler, insert, to_lower, backend_to_string,
  backend_from_string,
}
use occa_transpiler.Registry.Lookup.{or_else, find-insert}
use occa_transpiler.Registry.Backends.{backend_from_string-to_lower}
use occa_transpiler.Registry.Manager.{NodeHandler, attributed_stmt, check_each}
use occa_transpiler.Registry.Checked.{IsHandled, check_attrs-IsHandled}
use occa_transpiler.Tests.Data.{info_of, leaf, reads_16}

-- Two names of the one key.
abbrev handlers : List (HandlerKey × ℕ)
handlers = (common_key (codes "okl_dim") 3, 10) ∷ (backend_key cuda (codes "okl_tile") 4, 20) ∷ []

find-insert_example :
    find_handler
      (common_key (codes "okl_dim") 3)
      (insert (common_key (codes "okl_dim") 3) 30 handlers).0
    ≡ or_else (find_handler (common_key (codes "okl_dim") 3) handlers) (some 30)
find-insert_example =
    find-insert (common_key (codes "okl_dim") 3) (common_key (codes "okl_dim") 3) 30 handlers

backend_from_string_example :
    (backend_from_string (codes "CuDA") ≡ ok cuda)
    ↔ (to_lower (codes "CuDA") ≡ backend_to_string cuda)
backend_from_string_example = backend_from_string-to_lower (codes "CuDA") cuda

-- Handlers of a session that counts, for nodes that are their kinds.
abbrev counting_handler : NodeHandler ℕ ℕ Bool
counting_handler = record {
  handle_node = λ s n. ok (suc s);
  handle_attr = λ s n a p. ok (suc s);
  parse = λ s a q. err unsupported_handle;
  pre = λ s n a. err unsupported_handle;
  post = λ s n a. err unsupported_handle;
}

abbrev tile_attr : StmtAttr
tile_attr = record { id = 5; name = codes "okl_tile" }

abbrev registry : List (HandlerKey × NodeHandler ℕ ℕ Bool)
registry = (backend_key cuda (codes "okl_tile") 4, counting_handler) ∷ []

-- Every kind is its own clade, every attribute one of OKL.
abbrev itself : ℕ → ℕ
itself n = n

abbrev any_attr : StmtAttr → Bool
any_attr a = true

check_attrs-IsHandled_example :
    All (IsHandled itself itself registry any_attr cuda 4) (tile_attr ∷ [])
unfolding check_each
check_attrs-IsHandled_example =
    check_attrs-IsHandled itself itself registry any_attr cuda
      (attributed_stmt 4 (none ∷ some tile_attr ∷ some tile_attr ∷ [])) 4 (tile_attr ∷ []) refl refl

abbrev top_loop : Loop
top_loop = node (info_of 1 (outer ∷ []) (auto ∷ []) 4) (cons (leaf 3 auto 8) nil)

abbrev for_node : ForNode
for_node = record { id = 1; compound = true; attrs = none }

abbrev top_stage : Stage
top_stage = record {
  kernel = record {
    decl = 0;
    top_level_outer_loops = (0 ∷ []) ∷ [];
    top_level_loops = cons top_loop nil;
    current_loop = [];
    loop_map = (1, 0 ∷ []) ∷ [];
  };
  edits = [];
}

handle_max_inner_dims_example :
    (t : Stage) × (m : Loop) × (handle_max_inner_dims for_node 9
        (some (pos 16 ∷ negsuc 0 ∷ pos 2 ∷ []))
        top_stage
      ≡ ok t)
    × (loop_at t.kernel.top_level_loops (0 ∷ []) ≡ some m)
    × (get_inner_sizes reads_16 m
        ≡ ok (record { size_x = some 16; size_y = some 1; size_z = some 2 }))
unfolding get_loop_info loop_at
handle_max_inner_dims_example =
    handle_max_inner_dims-get_inner_sizes reads_16 for_node 9 0 (pos 16) (negsuc 0) (pos 2)
      top_stage top_loop refl refl refl refl
