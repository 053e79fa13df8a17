-- ===== src/Serial/Handle/Balance.antt =====
-- The handler of a tiled loop in serial code writes as many opening brackets as closing ones.
use occa_transpiler.Base.{
  ℕ, zero, suc, ◌+◌, ◌≤◌, Bool, true, false, not, ◌&&◌, List, [], ◌∷◌, ◌++◌, ◌≡◌, refl,
  if◌then◌else◌, arith,
}
use occa_transpiler.Ast.{Bytes, Expr}
use occa_transpiler.Result.{Result, ok}
use occa_transpiler.Loop.{LoopType, regular, inner, outer, type_eq, LoopInfo, has}
use occa_transpiler.Params.{TileParams}
use occa_transpiler.Sema.{LoopPath}
use occa_transpiler.Text.Literal.{codes}
use occa_transpiler.Text.Plain.{opens, closes, occurrences, occurrences-append}
use occa_transpiler.Rewrite.{
  Location, begin_loc, l_paren_loc, r_paren_loc, Edit, replace_text, insert_text,
  build_close_scopes,
}
use occa_transpiler.Stage.{ForNode, Stage, info_of}
use occa_transpiler.Device.Lines.{PlainTexts}
use occa_transpiler.Serial.Scopes.{
  inserted, build_first-Opening, build_second-Opening, build_check-Opening,
}
use occa_transpiler.Serial.Handle.{
  exclusive_begin_text, exclusive_null_text, exclusive_inc_text, add_text, add_if, tile_prefix,
  suffix_edits, early_scopes, size_t_sub, tile_parts, tile_edits, two_types, written_edits,
  declares_exclusive, attributed_parent, has_no_children, uses_exclusive, outer_parent,
}

-- A bracket: no line break, and not in the three texts of the counter.
abbrev Foreign : ℕ → Type 0
Foreign b =
    (occurrences b (codes "\n") ≡ 0)
    × (occurrences b exclusive_begin_text ≡ 0)
    × (occurrences b exclusive_null_text ≡ 0)
    × (occurrences b exclusive_inc_text ≡ 0)

module _ (b : ℕ) (f : Foreign b) where
  occurrences-add_text :
      (code text : Bytes)
      → occurrences b (add_text code text) ≡ occurrences b code + occurrences b text
  occurrences-add_text [] text = omega arith
  occurrences-add_text (c ∷ code) text = omega (
    arith,
    occurrences-append b (c ∷ code) (codes "\n" ++ text),
    occurrences-append b (codes "\n") text,
    f.0,
  )

  occurrences-add_if :
      (c : Bool) (text code : Bytes)
      → occurrences b text ≡ 0
      → occurrences b (add_if c text code) ≡ occurrences b code
  occurrences-add_if true text code h = omega (arith, occurrences-add_text code text, h)
  occurrences-add_if false text code h = refl

  occurrences-parts :
      (c d e : Bool) (first second check : Bytes)
      → occurrences b (
          add_if e exclusive_begin_text
            (add_if d exclusive_null_text (add_if c exclusive_begin_text first) ++ second)
          ++ check)
        ≡ occurrences b first + occurrences b second + occurrences b check
  occurrences-parts c d e first second check =
      let x = add_if c exclusive_begin_text first in
      let y = add_if d exclusive_null_text x in
      let z = add_if e exclusive_begin_text (y ++ second) in
      omega (
        arith,
        occurrences-append b z check,
        occurrences-add_if e exclusive_begin_text (y ++ second) f.1,
        occurrences-append b y second,
        occurrences-add_if d exclusive_null_text x f.2,
        occurrences-add_if c exclusive_begin_text first f.1,
      )

  occurrences-tile_prefix :
      (t u : LoopType) (declared above : Bool) (first second check : Bytes)
      → occurrences b (tile_prefix (t, u) declared above first second check)
        ≡ occurrences b first + occurrences b second + occurrences b check
  occurrences-tile_prefix t u declared above first second check =
      occurrences-parts (type_eq t outer && (type_eq u regular && declared))
        (type_eq t outer && (type_eq u inner && above))
        (type_eq t outer && (not (type_eq u regular) && declared)) first second check

opens-close : (n : ℕ) → opens (build_close_scopes n) ≡ 0
opens-close zero = refl
opens-close (suc n) = omega (arith, opens-close n)

closes-close : (n : ℕ) → closes (build_close_scopes n) ≡ n
closes-close zero = refl
closes-close (suc n) = omega (arith, closes-close n)

early_scopes_le : (n : ℕ) (check regular_loop : Bool) → early_scopes n check regular_loop ≤ n
early_scopes_le n check regular_loop = ground arith

size_t_sub_le : (n k : ℕ) → k ≤ n → size_t_sub n k + k ≡ n
size_t_sub_le n k h = ground arith

abbrev opening_foreign : Foreign 123
opening_foreign = (refl, refl, refl, refl)

abbrev closing_foreign : Foreign 125
closing_foreign = (refl, refl, refl, refl)

occurrences-suffix :
    (b : ℕ) (f : Foreign b) (g : ForNode) (k n : ℕ)
    → occurrences b (inserted (suffix_edits g true k n))
      ≡ occurrences b (build_close_scopes k) + occurrences b (build_close_scopes (size_t_sub n k))
occurrences-suffix b f g k n =
    let early = add_text (build_close_scopes k) exclusive_inc_text in
    let late = build_close_scopes (size_t_sub n k) in
    omega (
      arith,
      occurrences-append b early (late ++ []),
      occurrences-append b late [],
      occurrences-add_text b f (build_close_scopes k) exclusive_inc_text,
      f.3,
    )

opens-suffix :
    (g : ForNode) (counts : Bool) (k n : ℕ) → opens (inserted (suffix_edits g counts k n)) ≡ 0
opens-suffix g true k n = omega (
  arith,
  occurrences-suffix 123 opening_foreign g k n,
  opens-close k,
  opens-close (size_t_sub n k),
)
opens-suffix g false k n =
    omega (arith, occurrences-append 123 (build_close_scopes n) [], opens-close n)

closes-suffix :
    (g : ForNode) (counts : Bool) (k n : ℕ)
    → k ≤ n
    → closes (inserted (suffix_edits g counts k n)) ≡ n
closes-suffix g true k n h = omega (
  arith,
  occurrences-suffix 125 closing_foreign g k n,
  closes-close k,
  closes-close (size_t_sub n k),
  size_t_sub_le n k h,
)
closes-suffix g false k n h =
    omega (arith, occurrences-append 125 (build_close_scopes n) [], closes-close n)

reset-Foreign :
    (b : ℕ)
    → Foreign b
    → (c : Bool) (l : Location) (es : List Edit)
    → occurrences b
        (inserted ((if c then insert_text l exclusive_null_text false true ∷ [] else []) ++ es))
      ≡ occurrences b (inserted es)
reset-Foreign b f true l es =
    omega (arith, occurrences-append b exclusive_null_text (inserted es), f.2)
reset-Foreign b f false l es = refl

written_edits-Balanced :
    (f : ForNode) (a : ℕ) (t u : LoopType) (above declared counts : Bool) (k : ℕ) (x y z : Bytes)
    (n : ℕ)
    → k ≤ n
    → opens x + opens y + opens z ≡ n
    → closes x + closes y + closes z ≡ 0
    → opens (inserted (written_edits f a (t, u) above declared counts k (x, y, z, n)))
      ≡ closes (inserted (written_edits f a (t, u) above declared counts k (x, y, z, n)))
written_edits-Balanced f a t u above declared counts k x y z n h o c =
    let prefix = tile_prefix (t, u) declared above x y z in
    let last = suffix_edits f counts k n in
    let all = replace_text (l_paren_loc f.id) (r_paren_loc f.id) prefix ∷ last in
    omega (
      arith,
      reset-Foreign 123 opening_foreign (type_eq t inner && above) (begin_loc f.id) all,
      reset-Foreign 125 closing_foreign (type_eq t inner && above) (begin_loc f.id) all,
      occurrences-append 123 prefix (inserted last),
      occurrences-append 125 prefix (inserted last),
      occurrences-tile_prefix 123 opening_foreign t u declared above x y z,
      occurrences-tile_prefix 125 closing_foreign t u declared above x y z,
      opens-suffix f counts k n,
      closes-suffix f counts k n h,
      o,
      c,
    )

-- The scopes of the three parts.
abbrev PartsOpen : Result (Bytes × Bytes × Bytes × ℕ) → Type 0
PartsOpen r =
    (s : Bytes) × (t : Bytes) × (u : Bytes) × (n : ℕ) × (r ≡ ok (s, t, u, n))
    × (opens s + opens t + opens u ≡ n)
    × (closes s + closes t + closes u ≡ 0)

module _ (latest : Expr → Bytes) where
  tile_parts-PartsOpen :
      (compound : Bool) (l : LoopInfo) (params : TileParams)
      → PlainTexts latest l params
      → PartsOpen (tile_parts latest compound l params)
  unfolding tile_parts
  tile_parts-PartsOpen compound l params h =
      let (s, m, e, o, c) = build_first-Opening latest l params h 0 in
      let (t, k, e', o', c') = build_second-Opening latest l params h compound m in
      let (u, j, e'', o'', c'') = build_check-Opening latest l params h compound k in
      (
        s,
        t,
        u,
        j,
        rw (tile_parts, e, e', e'') refl,
        omega (arith, o, o', o''),
        omega (arith, c, c', c''),
      )

  -- A loop with two types, whose texts have no brackets and are read through no null pointer: the handler of @tile in
  -- serial code succeeds, and what its edits write has as many opening brackets as closing ones,
  -- whatever the check, the body, the parents and the @exclusive variables are.
  pub tile_edits-Balanced :
      (f : ForNode) (a : ℕ) (params : TileParams) (p : LoopPath) (s : Stage) (i : LoopInfo)
      (t u : LoopType)
      → info_of s p ≡ ok i
      → two_types i.type ≡ ok (t, u)
      → PlainTexts latest i params
      → (es : List Edit) × (tile_edits latest f a params p s ≡ ok es)
        × (opens (inserted es) ≡ closes (inserted es))
  unfolding tile_edits
  tile_edits-Balanced f a params p s i t u ei et h =
      let (x, y, z, n, e, o, c) = tile_parts-PartsOpen f.compound i params h in
      let above = declares_exclusive (attributed_parent p s.kernel.top_level_loops) in
      let counts =
        has_no_children p s.kernel.top_level_loops
        && uses_exclusive (outer_parent p s.kernel.top_level_loops) in
      let k = early_scopes n params.check (has regular i.type) in
      (
        written_edits f a (t, u) above i.exclusive_info.declared counts k (x, y, z, n),
        rw (tile_edits, ei, et, e) refl,
        written_edits-Balanced f a t u above i.exclusive_info.declared counts k x y z n
            (early_scopes_le n params.check (has regular i.type)) o c,
      )
