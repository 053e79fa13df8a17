-- ===== src/Sema/Walk.antt =====
-- lib/pipeline/stages/transpiler/transpilation.cpp: `traverseNode` runs the handlers of a node before
-- those of the nodes below it and again after them, and stops at an error. Here it is run on a nest
-- of loops in a kernel, each with its attribute and the parameters of that.
pub mod Nesting
use occa_transpiler.Base.{ℕ, Option, List, [], ◌∷◌, ◌++◌}
use occa_transpiler.Ast.{ForStmt, Clang}
use occa_transpiler.Result.{Result, ok, err}
use occa_transpiler.Params.{AttrParams}
use occa_transpiler.ForStmt.{parse_for_stmt}
use occa_transpiler.Sema.{KernelInfo, get_loop_axis_type, start_loop, stop_loop}

mutual
  pub data Nest : Type 0 where
    nest : ForStmt → Option ℕ → Option AttrParams → Nests → Nest

  pub data Nests : Type 0 where
    done : Nests
    also : Nest → Nests → Nests

abbrev pub Step : Type 0
Step = KernelInfo × Result (Unit {0})

-- One operation after another, unless the first one fails.
abbrev pub and_then : Step → (KernelInfo → Step) → Step
and_then (k, err e) f = (k, err e)
and_then (k, ok u) f = f k

module _ (clang : Clang) (parse_attr : ℕ → Result AttrParams) where
  abbrev pub start : ForStmt → Option ℕ → Option AttrParams → KernelInfo → Step
  start s attr params k =
      start_loop k (get_loop_axis_type params) (parse_for_stmt clang parse_attr s attr)

  unfoldable mutual
    pub traverse : Nest → KernelInfo → Step
    traverse (nest s attr params below) k =
        and_then (start s attr params k)
          λ k1. and_then (traverse_all below k1) λ k2. stop_loop k2 s.id

    pub traverse_all : Nests → KernelInfo → Step
    traverse_all done k = (k, ok tt)
    traverse_all (also n ns) k = and_then (traverse n k) λ k1. traverse_all ns k1
