-- ===== src/Sema.antt =====
-- lib/core/sema/okl_sema_ctx.cpp and .h, and lib/core/sema/handlers: the state that the loop analysis
-- keeps of the kernels of a program. A pointer to a loop (`OklLoopInfo*`) is the path of the loop
-- in the kernel's tree, the number of each child from the top down; children are only ever
-- appended, so paths stay good, as pointers into `std::list` do. The empty path is the null
-- pointer, and the `parent` of a loop is its path with the last step taken off. A pointer to a
-- kernel is its index in the list of kernels.
pub mod Legal
pub mod Context
pub mod Edges
pub mod Marks
pub mod Walk
use occa_transpiler.Base.{
  ℕ, zero, suc, ◌+◌, Bool, true, false, not, ◌&&◌, ◌||◌, Option, none, some, List, [], ◌∷◌, ◌++◌,
  ◌==◌, if◌then◌else◌, is_nil, length, get_elem?, set, get_or, is_some,
}
use occa_transpiler.Ast.{ForStmt, Clang}
use occa_transpiler.Result.{
  Result, ok, err, Error, ◌>>=◌, loop_outside_kernel, inner_outside_outer, multiple_attributes,
  too_many_inner, nested_kernel, undefined_behaviour,
}
use occa_transpiler.Loop.{
  LoopType, regular, inner, outer, type_eq, Axis, auto, LoopInfo, Loop, Loops, node, nil, cons,
  info, children, is_regular, has_auto,
}
use occa_transpiler.Loop.Height.{update_auto_with_specific_axis}
use occa_transpiler.Params.{AttrParams, tile_params, attributed_loop, other_params}
use occa_transpiler.ForStmt.{parse_for_stmt, bytes_eq}

abbrev pub LoopPath : Type 0
LoopPath = List ℕ

pub record LoopAxisTypes : Type 0 where
  pub types : List LoopType
  pub axis : List Axis

-- `getLoopAxisType`; with parameters of another kind both vectors stay empty.
unfoldable pub get_loop_axis_type : Option AttrParams → LoopAxisTypes
get_loop_axis_type none = record { types = regular ∷ []; axis = auto ∷ [] }
get_loop_axis_type (some (tile_params t)) = record {
  types = t.first_loop.type ∷ t.second_loop.type ∷ [];
  axis = t.first_loop.axis ∷ t.second_loop.axis ∷ [];
}
get_loop_axis_type (some (attributed_loop l)) = record { types = l.type ∷ []; axis = l.axis ∷ [] }
get_loop_axis_type (some other_params) = record { types = []; axis = [] }

-- One turn of the loop in `isLegalLoopLevel(loopTypes, firstType, lastType)`, on its two variables;
-- `none` is the early `return false`.
abbrev pub new_first : LoopType → LoopType → LoopType
new_first regular t = t
new_first first t = first

unfoldable pub scan_level : LoopType → LoopType → List LoopType → Option (LoopType × LoopType)
scan_level first last [] = some (first, last)
scan_level first last (inner ∷ ts) = scan_level (new_first first inner) inner ts
scan_level first last (outer ∷ ts) =
    if type_eq last inner then none else scan_level (new_first first outer) outer ts
scan_level first last (regular ∷ ts) = scan_level (new_first first regular) last ts

abbrev joins : LoopType × LoopType → LoopType × LoopType → Bool
joins (first_parent, last_parent) (first_child, last_child) =
    type_eq last_parent first_child
    || (type_eq first_child regular || type_eq last_parent regular)
    || (type_eq last_parent outer && type_eq first_child inner)

-- The rest of `isLegalLoopLevel(childTypes, parentTypes)`, on what the two scans return.
abbrev pub scans_join : Option (LoopType × LoopType) → Option (LoopType × LoopType) → Bool
scans_join none child = false
scans_join (some parent) none = false
scans_join (some parent) (some child) = joins parent child

-- `isLegalLoopLevel(childTypes, parentTypes)`
unfoldable pub is_legal_loop_level : List LoopType → List LoopType → Bool
unfolding scan_level
is_legal_loop_level child_types parent_types =
    scans_join (scan_level regular regular parent_types) (scan_level regular regular child_types)

-- `OklSemaCtx::ParsedKernelInfo`
pub record KernelInfo : Type 0 where
  pub decl : ℕ
  pub top_level_outer_loops : List LoopPath
  pub top_level_loops : Loops
  pub current_loop : LoopPath
  pub loop_map : List (ℕ × LoopPath)

abbrev pub new_kernel : ℕ → KernelInfo
new_kernel fd = record {
  decl = fd;
  top_level_outer_loops = [];
  top_level_loops = nil;
  current_loop = [];
  loop_map = [];
}

-- The tree behind the paths.
abbrev pub loop_index : Loops → ℕ → Option Loop
loop_index nil k = none
loop_index (cons l ls) zero = some l
loop_index (cons l ls) (suc k) = loop_index ls k

abbrev pub count : Loops → ℕ
count nil = 0
count (cons l ls) = suc (count ls)

unfoldable pub loop_at : Loops → LoopPath → Option Loop
loop_at ls [] = none
loop_at ls (k ∷ p) = elim (loop_index ls k) [
  | none ↦ none
  | some l ↦ if is_nil p then some l else loop_at (children l) p
]

abbrev pub modify_index : ℕ → (Loop → Loop) → Loops → Loops
modify_index k f nil = nil
modify_index zero f (cons l ls) = cons (f l) ls
modify_index (suc k) f (cons l ls) = cons l (modify_index k f ls)

abbrev pub map_children : (Loops → Loops) → Loop → Loop
map_children f (node i cs) = node i (f cs)

abbrev pub snoc : Loops → Loop → Loops
snoc nil c = cons c nil
snoc (cons l ls) c = cons l (snoc ls c)

-- `children.emplace_back(loopInfo)` at the children of the loop at a path, or at the top.
unfoldable pub append_at : LoopPath → LoopInfo → Loops → Loops
append_at [] i ls = snoc ls (node i nil)
append_at (k ∷ p) i ls = modify_index k (map_children (append_at p i)) ls

abbrev pub set_info : LoopInfo → Loop → Loop
set_info i (node j cs) = node i cs

unfoldable pub update_at : LoopPath → LoopInfo → Loops → Loops
update_at [] i ls = ls
update_at (k ∷ []) i ls = modify_index k (set_info i) ls
update_at (k ∷ j ∷ p) i ls = modify_index k (map_children (update_at (j ∷ p) i)) ls

-- The children of the loop at a path, or the top level loops.
unfoldable pub children_at : LoopPath → Loops → Loops
children_at [] ls = ls
children_at (k ∷ p) ls = elim (loop_index ls k) [ none ↦ nil | some l ↦ children_at p (children l) ]

-- The path of the child that `emplace_back` has added at a path.
abbrev pub new_path : LoopPath → Loops → LoopPath
new_path p ls = p ++ (count (children_at p ls) ∷ [])

unfoldable pub parent_of : LoopPath → LoopPath
parent_of [] = []
parent_of (k ∷ []) = []
parent_of (k ∷ j ∷ p) = k ∷ parent_of (j ∷ p)

-- The types of the loop at a path; `{LoopType::Regular}` where there is none.
unfoldable pub types_at : List LoopType → LoopPath → Loops → List LoopType
types_at types [] ls = types
types_at types (k ∷ p) ls = elim (loop_index ls k) [
  | none ↦ types
  | some l ↦ types_at (info l).type p (children l)
]

-- `isTopLevelAttributed`'s walk over `currentLoop` and its parents: all are regular.
unfoldable pub all_regular : LoopPath → Loops → Bool
all_regular [] ls = true
all_regular (k ∷ p) ls = elim (loop_index ls k) [
  | none ↦ true
  | some l ↦ is_regular (info l).type && all_regular p (children l)
]

abbrev pub find_loop : ℕ → List (ℕ × LoopPath) → Option LoopPath
find_loop stmt [] = none
find_loop stmt ((s, p) ∷ m) = if s == stmt then some p else find_loop stmt m

-- `getLoopInfo(forStmt)`
unfoldable pub get_loop_info : KernelInfo → ℕ → Option LoopPath
get_loop_info k stmt = elim (find_loop stmt k.loop_map) [
  | none ↦ none
  | some p ↦ if is_nil p then none else some p
]

has_path : LoopPath → List (ℕ × LoopPath) → Bool
has_path p [] = false
has_path p ((s, q) ∷ m) = bytes_eq q p || has_path p m

-- `setLoopInfo`
unfoldable pub set_loop_info : KernelInfo → LoopPath → KernelInfo
unfolding has_path
set_loop_info k p = if has_path p k.loop_map then record k { current_loop = p } else k

-- `isTopLevelAttributed(…) && types.front() == LoopType::Outer`
abbrev is_top_level_outer : List LoopType → Bool → Bool
is_top_level_outer [] above = false
is_top_level_outer (t ∷ ts) above = not (is_regular (t ∷ ts)) && above && type_eq t outer

-- The lambda at the end of `startParsingAttributedForLoop`: the loop is in the tree, and is the
-- current one, also when its statement turns out to be known.
unfoldable pub add_loop : KernelInfo → LoopInfo → KernelInfo × Result (Unit {0})
add_loop k i =
    let path = new_path k.current_loop k.top_level_loops in
    let is_top = is_top_level_outer i.type (all_regular k.current_loop k.top_level_loops) in
    let added = record k {
      top_level_loops = append_at k.current_loop i k.top_level_loops;
      top_level_outer_loops =
          if is_top then k.top_level_outer_loops ++ (path ∷ []) else k.top_level_outer_loops;
      current_loop = path;
    } in
    if is_some (find_loop i.stmt k.loop_map)
    then (added, err multiple_attributes)
    else (record added { loop_map = (i.stmt, path) ∷ k.loop_map }, ok tt)

-- `parentType`
abbrev pub parent_types : KernelInfo → List LoopType
parent_types k = types_at (regular ∷ []) k.current_loop k.top_level_loops

-- `makeOklLoopInfo` and what follows, on the result of `parseForStmt`.
unfoldable pub add_parsed :
    KernelInfo → LoopAxisTypes → Result LoopInfo → KernelInfo × Result (Unit {0})
add_parsed k t (err e) = (k, err e)
add_parsed k t (ok i) = add_loop k (record i { type = t.types; axis = t.axis })

unfoldable pub start_loop :
    KernelInfo → LoopAxisTypes → Result LoopInfo → KernelInfo × Result (Unit {0})
start_loop k t parsed =
    if not (is_legal_loop_level t.types (parent_types k))
    then (k, err inner_outside_outer)
    else add_parsed k t parsed

finish_loop : KernelInfo → LoopPath → Loop → KernelInfo × Result (Unit {0})
finish_loop k p l =
    if has_auto (info l).axis
    then (let (done, i) = update_auto_with_specific_axis l in
        if done
        then (
          record k {
            top_level_loops = update_at p i k.top_level_loops;
            current_loop = parent_of p;
          },
          ok tt,
        )
        else (k, err too_many_inner))
    else (record k { current_loop = parent_of p }, ok tt)

stop_found : KernelInfo → LoopPath → Option Loop → KernelInfo × Result (Unit {0})
unfolding finish_loop
stop_found k p none = (k, err undefined_behaviour)
stop_found k p (some l) = finish_loop k p l

-- `stopParsingAttributedForLoop`, in a kernel.
unfoldable pub stop_loop : KernelInfo → ℕ → KernelInfo × Result (Unit {0})
unfolding stop_found
stop_loop k stmt = elim (get_loop_info k stmt) [
  | none ↦ (k, ok tt)
  | some p ↦ stop_found k p (loop_at k.top_level_loops p)
]
