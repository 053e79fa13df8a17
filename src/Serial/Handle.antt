-- ===== src/Serial/Handle.antt =====
-- handleTileAttribute, handleInnerAttribute and handleOuterAttribute of
-- lib/attributes/utils/serial_subset: the edits around a loop, with those of the counter.
pub mod Balance
use occa_transpiler.Base.{
  ℕ, suc, ◌+◌, ◌-◌, ◌^◌, Bool, true, false, not, ◌&&◌, ◌||◌, List, [], ◌∷◌, ◌++◌, if◌then◌else◌,
  Option, none, some, is_nil, ltb, leb, ℤ, pos, negsuc,
}
use occa_transpiler.Ast.{Bytes, Expr}
use occa_transpiler.Result.{Result, ok, err, ◌>>=◌, null_params, undefined_behaviour}
use occa_transpiler.Loop.{
  LoopType, regular, inner, outer, type_eq, LoopInfo, Inc, unary, assign, is_unary, is_inc, has,
  Loop, Loops, info, children, no_loops,
}
use occa_transpiler.Params.{TileParams, AttributedLoop}
use occa_transpiler.Sema.{LoopPath, loop_at, get_loop_info}
use occa_transpiler.Sema.Marks.{get_attributed_parent, get_attributed_parent_if}
use occa_transpiler.Text.{fmt}
use occa_transpiler.Text.Literal.{codes}
use occa_transpiler.Stage.{ForNode, Stage, push, loop_of, info_of, given}
use occa_transpiler.Rewrite.{
  Location, Edit, replace_text, insert_text, insert_text_after, insert_text_before,
  remove_attribute, begin_loc, end_loc, l_paren_loc, r_paren_loc, l_brac_loc, r_brac_loc,
  with_offset, get_cond_comp_str, text_of, step_text, build_close_scopes,
}
use occa_transpiler.Serial.{
  build_first_loop_string, build_second_loop_string, build_check_string, build_check,
}
use occa_transpiler.Device.{
  get_tiled_variable_name, sign_of, update_of, compare_of, unary_text, scope_after,
}

abbrev pub exclusive_begin_text : Bytes
exclusive_begin_text = codes "int _occa_exclusive_index;\n"

abbrev pub exclusive_null_text : Bytes
exclusive_null_text = codes "_occa_exclusive_index = 0;\n"

abbrev pub exclusive_inc_text : Bytes
exclusive_inc_text = codes "++_occa_exclusive_index;\n"

-- `getScopesCloseStr`
abbrev pub get_scopes_close_str : ℕ → Bytes
get_scopes_close_str = build_close_scopes

-- `(!code.empty() ? "\n" : "") + text`, added to the code.
abbrev pub add_text : Bytes → Bytes → Bytes
add_text code text = code ++ ((if is_nil code then [] else codes "\n") ++ text)

abbrev pub add_if : Bool → Bytes → Bytes → Bytes
add_if b text code = if b then add_text code text else code

-- `loopInfo->getAttributedParent(…)`, with the null pointer as `none`.
abbrev pub parent_info : LoopPath → Loops → Option LoopInfo
parent_info p ls = elim (loop_at ls p) [ none ↦ none | some l ↦ some (info l) ]

abbrev pub declares_exclusive : Option LoopInfo → Bool
declares_exclusive none = false
declares_exclusive (some i) = i.exclusive_info.declared

abbrev pub uses_exclusive : Option LoopInfo → Bool
uses_exclusive none = false
uses_exclusive (some i) = i.exclusive_info.used

abbrev pub attributed_parent : LoopPath → Loops → Option LoopInfo
attributed_parent p ls = parent_info (get_attributed_parent p ls) ls

abbrev pub outer_parent : LoopPath → Loops → Option LoopInfo
outer_parent p ls = parent_info (get_attributed_parent_if (λ l. has outer (info l).type) p ls) ls

abbrev pub has_no_children : LoopPath → Loops → Bool
has_no_children p ls = elim (loop_at ls p) [ none ↦ false | some l ↦ no_loops (children l) ]

-- `loopInfo->type[0]` and `type[1]`.
abbrev pub two_types : List LoopType → Result (LoopType × LoopType)
two_types (t ∷ u ∷ more) = ok (t, u)
two_types _ = err undefined_behaviour

-- `parenCnt -= cnt` on `size_t`
abbrev pub size_t_sub : ℕ → ℕ → ℕ
size_t_sub n k = if leb k n then n - k else (n + 2 ^ 64) - k

abbrev pub one_if : Bool → ℕ
one_if true = 1
one_if false = 0

-- The scopes that close before the counter of an @exclusive variable is increased, and those after.
abbrev pub early_scopes : ℕ → Bool → Bool → ℕ
early_scopes n check regular_loop = if ltb 1 n then one_if check + one_if regular_loop else 0

-- The code before the body, from that of the two loops and of the check.
abbrev pub tile_prefix : LoopType × LoopType → Bool → Bool → Bytes → Bytes → Bytes → Bytes
tile_prefix (t, u) declared above first second check =
    add_if (type_eq t outer && (not (type_eq u regular) && declared)) exclusive_begin_text (
      add_if (type_eq t outer && (type_eq u inner && above)) exclusive_null_text
        (add_if (type_eq t outer && (type_eq u regular && declared)) exclusive_begin_text first)
      ++ second)
    ++ check

-- `incLoc`: before the brace that closes the body, or at the end of the loop.
abbrev pub inc_loc : ForNode → Location
inc_loc f = if f.compound then with_offset (r_brac_loc f.id) (negsuc 0) else end_loc f.id

-- What follows the body: for the last @inner loop under an @outer loop with an @exclusive variable, the
-- scopes closed early and the counter; then the other scopes.
abbrev pub suffix_edits : ForNode → Bool → ℕ → ℕ → List Edit
suffix_edits f counts early n =
    if counts
    then insert_text (inc_loc f) (add_text (get_scopes_close_str early) exclusive_inc_text) true
        true
      ∷ insert_text_after (end_loc f.id) (get_scopes_close_str (size_t_sub n early))
      ∷ []
    else insert_text_after (end_loc f.id) (get_scopes_close_str n) ∷ []

-- All the edits: `above` is whether the parent declares an @exclusive variable, `declared` whether the loop
-- does, `counts` whether the counter is increased after the body.
abbrev pub written_edits :
    ForNode
    → ℕ
    → LoopType × LoopType
    → (above declared counts : Bool) → ℕ
    → Bytes × Bytes × Bytes × ℕ
    → List Edit
written_edits f a (t, u) above declared counts early (first, second, check, n) =
    remove_attribute a
    ∷ ((if type_eq t inner && above
          then insert_text (begin_loc f.id) exclusive_null_text false true ∷ []
          else [])
        ++ (replace_text (l_paren_loc f.id) (r_paren_loc f.id)
              (tile_prefix (t, u) declared above first second check)
            ∷ suffix_edits f counts early n))

module _ (latest : Expr → Bytes) where
  -- The three parts of the prefix, with the number of scopes that they open.
  unfoldable pub tile_parts : Bool → LoopInfo → TileParams → Result (Bytes × Bytes × Bytes × ℕ)
  unfolding build_first_loop_string build_second_loop_string build_check_string
  tile_parts compound l params = do
    first ← build_first_loop_string latest l params 0
    second ← build_second_loop_string latest compound l params first.1
    check ← build_check latest compound l params second.1
    ok (first.0, second.0, check.0, check.1)

  -- `handleTileAttribute` from the loop on.
  unfoldable pub tile_edits : ForNode → ℕ → TileParams → LoopPath → Stage → Result (List Edit)
  unfolding tile_parts get_attributed_parent_if
  tile_edits f a params p s = do
    i ← info_of s p
    types ← two_types i.type
    parts ← tile_parts f.compound i params
    ok (
        written_edits f a types (declares_exclusive (attributed_parent p s.kernel.top_level_loops))
          i.exclusive_info.declared
          (has_no_children p s.kernel.top_level_loops
            && uses_exclusive (outer_parent p s.kernel.top_level_loops))
          (early_scopes parts.3 params.check (has regular i.type)) parts)

  unfoldable pub handle_tile_attribute : ForNode → ℕ → Option TileParams → Stage → Result Stage
  unfolding tile_edits get_loop_info
  handle_tile_attribute f a params s = do
    q ← given params null_params
    p ← loop_of s f.id
    es ← tile_edits f a q p s
    ok (push s es)

-- `handleInnerAttribute`: `parent->has(…)` with no parent reads a null pointer.
abbrev reset_edits : ForNode → Option LoopInfo → Result (List Edit)
reset_edits f none = err undefined_behaviour
reset_edits f (some up) = ok (
    if has outer up.type && up.exclusive_info.declared
    then insert_text_before (begin_loc f.id) exclusive_null_text ∷ []
    else [])

unfoldable pub inner_edits : ForNode → ℕ → LoopPath → Loops → Result (List Edit)
unfolding get_attributed_parent_if loop_at
inner_edits f a p ls = do
  reset ← reset_edits f (attributed_parent p ls)
  ok (
      remove_attribute a
      ∷ (reset
          ++ (if has_no_children p ls && declares_exclusive (outer_parent p ls)
              then insert_text_before (inc_loc f) exclusive_inc_text ∷ []
              else [])))

unfoldable pub handle_inner_attribute : ForNode → ℕ → Option AttributedLoop → Stage → Result Stage
unfolding inner_edits get_loop_info
handle_inner_attribute f a params s = do
  q ← given params null_params
  p ← loop_of s f.id
  es ← inner_edits f a p s.kernel.top_level_loops
  ok (push s es)

-- `handleOuterAttribute`: the braces of a body that has none are read through a null pointer.
abbrev outer_edits : ForNode → ℕ → Bool → Result (List Edit)
outer_edits f a declared =
    if declared
    then (if f.compound
        then ok (
            remove_attribute a
            ∷ insert_text_after (with_offset (l_brac_loc f.id) (pos 1))
                (codes "\n" ++ exclusive_begin_text)
            ∷ [])
        else err undefined_behaviour)
    else ok (remove_attribute a ∷ [])

unfoldable pub handle_outer_attribute : ForNode → ℕ → Option AttributedLoop → Stage → Result Stage
unfolding get_loop_info loop_at
handle_outer_attribute f a params s = do
  q ← given params null_params
  p ← loop_of s f.id
  i ← info_of s p
  es ← outer_edits f a i.exclusive_info.declared
  ok (push s es)
