-- ===== src/Stage.antt =====
-- What a handler of lib/attributes works on: the statement with its attributes, the loop analysis of the
-- kernel, and the source that it rewrites. With handleChildAttr of lib/attributes/utils/kernel_utils.cpp
-- and the handlers of lib/attributes/backend/common that change a loop: those of @nobarrier, @max_inner_dims
-- and @simd_length.
pub mod Sizes
use occa_transpiler.Base.{
  ℕ, suc, Bool, false, not, ◌&&◌, Option, none, some, List, [], ◌∷◌, ◌++◌, if◌then◌else◌, is_nil, ℤ,
  pos,
}
use occa_transpiler.Ast.{Bytes}
use occa_transpiler.Result.{
  Result, ok, err, Error, ◌>>=◌, undefined_behaviour, no_loop_meta_data, null_params,
}
use occa_transpiler.Loop.{LoopInfo, info, outer, has, is_one, is_tiled}
use occa_transpiler.ForStmt.{bytes_eq}
use occa_transpiler.Sema.{LoopPath, KernelInfo, get_loop_info, loop_at, update_at, parent_of}
use occa_transpiler.Rewrite.{Edit, remove_attribute}

-- An attribute of a statement, and a `ForStmt` with the attributes of the `AttributedStmt` around it,
-- if there is one. A pointer to an attribute may be null.
pub record StmtAttr : Type 0 where
  pub id : ℕ
  pub name : Bytes

pub record ForNode : Type 0 where
  pub id : ℕ
  pub compound : Bool
  pub attrs : Option (List (Option StmtAttr))

-- The kernel in the context of the loop analysis, and the calls of the rewriter so far.
pub record Stage : Type 0 where
  pub kernel : KernelInfo
  pub edits : List Edit

abbrev pub push : Stage → List Edit → Stage
push s es = record s { edits = s.edits ++ es }

abbrev pub loop_of : Stage → ℕ → Result LoopPath
loop_of s stmt = elim (get_loop_info s.kernel stmt) [ none ↦ err no_loop_meta_data | some p ↦ ok p ]

abbrev pub info_of : Stage → LoopPath → Result LoopInfo
info_of s p = elim (loop_at s.kernel.top_level_loops p) [
  | none ↦ err undefined_behaviour
  | some l ↦ ok (info l)
]

-- `loopInfo->sharedInfo.used = false`
abbrev pub unuse_shared : LoopInfo → LoopInfo
unuse_shared i = record i { shared_info = record i.shared_info { used = false } }

abbrev pub set_loop : Stage → LoopPath → LoopInfo → Stage
set_loop s p i = record s {
  kernel = record s.kernel { top_level_loops = update_at p i s.kernel.top_level_loops };
}

-- `handleNoBarrierStmtAttribute`
unfoldable pub handle_no_barrier : ForNode → StmtAttr → Stage → Result Stage
unfolding get_loop_info loop_at update_at
handle_no_barrier f a s = do
  p ← loop_of s f.id
  i ← info_of s p
  ok (push (set_loop s p (unuse_shared i)) (remove_attribute a.id ∷ []))

-- The first attribute of a name.
abbrev pub find_attr : Bytes → List (Option StmtAttr) → Option StmtAttr
find_attr name [] = none
find_attr name (none ∷ more) = find_attr name more
find_attr name (some a ∷ more) = if bytes_eq a.name name then some a else find_attr name more

-- `handleChildAttr`, for a handler and the parser of the attribute's parameters.
module _ {P : Type 0} (parse : StmtAttr → Result P)
    (handle : StmtAttr → P → Stage → Result Stage) where
  abbrev pub handle_child_attr : ForNode → Bytes → Stage → Result Stage
  handle_child_attr f name s = elim f.attrs [
    | none ↦ ok s
    | some attrs ↦ elim (find_attr name attrs) [
      | none ↦ ok s
      | some a ↦ parse a >>= λ p. handle a p s
    ]
  ]

-- A result that the caller drops.
abbrev pub ignored : Stage → Result Stage → Stage
ignored s (err e) = s
ignored s (ok t) = t

abbrev pub given : {A : Type 0} → Option A → Error → Result A
given none e = err e
given (some a) e = ok a

-- `!loopInfo->parent`, and a change to the loop of a statement, where there is one.
abbrev is_top : LoopPath → Bool
is_top p = is_nil (parent_of p)

abbrev change_top : (LoopInfo → LoopInfo) → Stage → Option LoopPath → Stage
change_top change s none = s
change_top change s (some p) =
    if is_top p
    then (elim (loop_at s.kernel.top_level_loops p) [
      | none ↦ s
      | some l ↦ set_loop s p (change (info l))
    ])
    else s

-- `if (s > 0) sz[i] = s;`, from the sizes `{1, 1, 1}`.
abbrev pub size_or_one : ℤ → Option ℕ
size_or_one (pos (suc n)) = some (suc n)
size_or_one _ = some 1

abbrev override_sizes : List ℤ → LoopInfo → LoopInfo
override_sizes (a ∷ b ∷ c ∷ []) i =
    if not (is_tiled i.type) && is_one outer i.type
    then record i {
      overriden_inner_sizes =
          some (record { size_x = size_or_one a; size_y = size_or_one b; size_z = size_or_one c });
    }
    else i
override_sizes _ i = i

-- `handleMaxInnerDimsStmtAttribute`, on the three sizes of the parameters.
unfoldable pub handle_max_inner_dims : ForNode → ℕ → Option (List ℤ) → Stage → Result Stage
unfolding get_loop_info loop_at update_at parent_of
handle_max_inner_dims f a none s = err null_params
handle_max_inner_dims f a (some sizes) s = ok (
    push (change_top (override_sizes sizes) s (get_loop_info s.kernel f.id))
      (remove_attribute a ∷ []))

abbrev set_simd_length : ℤ → LoopInfo → LoopInfo
set_simd_length (pos (suc n)) i =
    if has outer i.type then record i { simd_length = some (pos (suc n)) } else i
set_simd_length _ i = i

-- `handleSimdLengthStmtAttribute`
unfoldable pub handle_simd_length : ForNode → ℕ → Option ℤ → Stage → Result Stage
unfolding get_loop_info loop_at update_at parent_of
handle_simd_length f a none s = err null_params
handle_simd_length f a (some size) s = ok (
    push (change_top (set_simd_length size) s (get_loop_info s.kernel f.id))
      (remove_attribute a ∷ []))
