-- ===== src/Sema/Context.antt =====
-- `OklSemaCtx` itself, and the handlers of lib/core/sema/handlers that drive it.
use occa_transpiler.Base.{
  ℕ, Bool, true, false, not, Option, none, some, List, [], ◌∷◌, ◌++◌, ◌==◌, if◌then◌else◌, length,
  get_elem?, set, is_some,
}
use occa_transpiler.Ast.{ForStmt, Clang}
use occa_transpiler.Result.{
  Result, ok, err, loop_outside_kernel, nested_kernel, undefined_behaviour,
}
use occa_transpiler.Params.{AttrParams}
use occa_transpiler.ForStmt.{parse_for_stmt}
use occa_transpiler.Sema.{KernelInfo, new_kernel, get_loop_axis_type, start_loop, stop_loop}

pub record SemaCtx : Type 0 where
  pub parsing : Option ℕ
  pub kernels : List KernelInfo

-- `clear`
abbrev pub empty_ctx : SemaCtx
empty_ctx = record { parsing = none; kernels = [] }

-- `startParsingOklKernel`
unfoldable pub start_parsing_okl_kernel : SemaCtx → ℕ → SemaCtx × Bool
start_parsing_okl_kernel c fd = if is_some c.parsing then (c, false) else (
  record c { parsing = some (length c.kernels); kernels = c.kernels ++ (new_kernel fd ∷ []) },
  true,
)

-- `stopParsingKernelInfo`, `setParsedKernelInfo`, `isParsingOklKernel`
unfoldable pub stop_parsing_kernel_info : SemaCtx → SemaCtx
stop_parsing_kernel_info c = record c { parsing = none }

unfoldable pub set_parsed_kernel_info : SemaCtx → Option ℕ → SemaCtx
set_parsed_kernel_info c k = record c { parsing = k }

abbrev pub is_parsing_okl_kernel : SemaCtx → Bool
is_parsing_okl_kernel c = is_some c.parsing

-- `getParsingKernelInfo`
abbrev pub get_parsing_kernel_info : SemaCtx → Option KernelInfo
get_parsing_kernel_info c = elim c.parsing [ none ↦ none | some n ↦ get_elem? c.kernels n ]

-- `isCurrentParsingOklKernel`
unfoldable pub is_current_parsing_okl_kernel : SemaCtx → ℕ → Bool
is_current_parsing_okl_kernel c fd = elim (get_parsing_kernel_info c) [
  | none ↦ false
  | some k ↦ k.decl == fd
]

-- An operation on the kernel that is being parsed; `missing` is the result where there is none.
on_kernel :
    SemaCtx
    → (KernelInfo → KernelInfo × Result (Unit {0}))
    → Result (Unit {0})
    → SemaCtx × Result (Unit {0})
on_kernel c f missing = elim c.parsing [
  | none ↦ (c, missing)
  | some n ↦ elim (get_elem? c.kernels n) [
    | none ↦ (c, err undefined_behaviour)
    | some k ↦ let (k', r) = f k in (record c { kernels = set c.kernels n k' }, r)
  ]
]

module _ (clang : Clang) (parse_attr : ℕ → Result AttrParams) where
  -- `startParsingAttributedForLoop`
  unfoldable pub start_parsing_attributed_for_loop :
      SemaCtx → ForStmt → Option ℕ → Option AttrParams → SemaCtx × Result (Unit {0})
  unfolding on_kernel
  start_parsing_attributed_for_loop c stmt attr params =
      on_kernel c
        (λ k. start_loop k (get_loop_axis_type params) (parse_for_stmt clang parse_attr stmt attr))
        (err loop_outside_kernel)

  -- `stopParsingAttributedForLoop`, which asserts that a kernel is being parsed.
  unfoldable pub stop_parsing_attributed_for_loop : SemaCtx → ForStmt → SemaCtx × Result (Unit {0})
  unfolding on_kernel
  stop_parsing_attributed_for_loop c stmt =
      on_kernel c (λ k. stop_loop k stmt.id) (err undefined_behaviour)

  -- `preValidateOklKernel`, `postValidateOklKernel`
  unfoldable pub pre_validate_okl_kernel : SemaCtx → ℕ → SemaCtx × Result (Unit {0})
  unfolding start_parsing_okl_kernel
  pre_validate_okl_kernel c fd =
      if is_parsing_okl_kernel c
      then (c, err nested_kernel)
      else (let (c', started) = start_parsing_okl_kernel c fd in
          if not started then (c', err nested_kernel) else (c', ok tt))

  unfoldable pub post_validate_okl_kernel : SemaCtx → SemaCtx × Result (Unit {0})
  unfolding stop_parsing_kernel_info
  post_validate_okl_kernel c = (stop_parsing_kernel_info c, ok tt)

  start_with : SemaCtx → ForStmt → ℕ → Result AttrParams → SemaCtx × Result (Unit {0})
  unfolding start_parsing_attributed_for_loop
  start_with c stmt attr (err e) = (c, err e)
  start_with c stmt attr (ok p) = start_parsing_attributed_for_loop c stmt (some attr) (some p)

  stop_with : SemaCtx → ForStmt → Result AttrParams → SemaCtx × Result (Unit {0})
  unfolding stop_parsing_attributed_for_loop
  stop_with c stmt (err e) = (c, err e)
  stop_with c stmt (ok p) = stop_parsing_attributed_for_loop c stmt

  -- `preValidateOklForLoop`, and `…WithoutAttribute`
  unfoldable pub pre_validate_okl_for_loop : SemaCtx → ForStmt → ℕ → SemaCtx × Result (Unit {0})
  unfolding start_with
  pre_validate_okl_for_loop c stmt attr = start_with c stmt attr (parse_attr attr)

  unfoldable pub pre_validate_without_attribute :
      SemaCtx → ForStmt → Option ℕ → SemaCtx × Result (Unit {0})
  unfolding start_parsing_attributed_for_loop
  pre_validate_without_attribute c stmt (some attr) = (c, ok tt)
  pre_validate_without_attribute c stmt none =
      if not (is_parsing_okl_kernel c)
      then (c, ok tt)
      else start_parsing_attributed_for_loop c stmt none none

  -- `postValidateOklForLoop`, and `…WithoutAttribute`
  unfoldable pub post_validate_okl_for_loop : SemaCtx → ForStmt → ℕ → SemaCtx × Result (Unit {0})
  unfolding stop_with
  post_validate_okl_for_loop c stmt attr = stop_with c stmt (parse_attr attr)

  unfoldable pub post_validate_without_attribute :
      SemaCtx → ForStmt → Option ℕ → SemaCtx × Result (Unit {0})
  unfolding stop_parsing_attributed_for_loop
  post_validate_without_attribute c stmt (some attr) = (c, ok tt)
  post_validate_without_attribute c stmt none =
      if not (is_parsing_okl_kernel c) then (c, ok tt) else stop_parsing_attributed_for_loop c stmt
