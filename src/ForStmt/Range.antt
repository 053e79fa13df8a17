-- ===== src/ForStmt/Range.antt =====
-- The `range.size` of a loop against the number of times that its body runs.
use occa_transpiler.Base.{
  ℕ, suc, ◌+◌, ◌-◌, ◌%◌, ◌^◌, ◌≤◌, ◌<◌, Bool, true, false, ◌&&◌, Option, none, some, [], ◌∷◌, ltb,
  leb, lt→ltb, ◌⊎◌, pos, ◌≡◌, refl, arith, ap,
}
use native.Mathlib.Nat.{add-mod_right, mod-eq_of_lt}
use occa_transpiler.Ast.{
  Bytes, BinaryOperatorKind, UnaryOperatorKind, Expr, cast_expr, decl_ref_expr, recovery_expr,
  var_decl, binary_operator, Increment, unary_operator, ForStmt, Clang,
}
use occa_transpiler.Result.{Result, ok}
use occa_transpiler.Loop.{
  BinOp, Inc, unary, LoopInfo, is_inc, is_inc_op, is_upper_bound, regular, auto,
}
use occa_transpiler.Params.{AttrParams}
use occa_transpiler.ForStmt.{
  strip_casts, names_var, is_recovery, bytes_eq, parse_for_stmt, to_okl_binary, parse_cond,
  parse_inc, to_okl_unary, range_size_of, evaluate_as_size_t, size_t_of, size_from, tile_size_of,
  no_type_info,
}

-- From value `i` on, in steps of `step`, the test holds `n` times before it fails.
pub data Runs (test : ℕ → Bool) (step : ℕ) : ℕ → ℕ → Type 0 where
  stop : {i n : ℕ} → test i ≡ false → n ≡ 0 → Runs test step i n
  again : {i m n : ℕ} → test i ≡ true → Runs test step (i + step) m → n ≡ suc m → Runs test step i n

Runs-lt : (e i n : ℕ) → Runs (λ k. ltb k e) 1 i n → i ≤ e → e ≡ i + n
Runs-lt e i n (stop h z) k = ground arith
Runs-lt e i n (again {m} h r s) k = omega (arith, Runs-lt e (i + 1) m r (ground arith))

Runs-le : (e i n : ℕ) → Runs (λ k. leb k e) 1 i n → i ≤ suc e → suc e ≡ i + n
Runs-le e i n (stop h z) k = ground arith
Runs-le e i n (again {m} h r s) k = omega (arith, Runs-le e (i + 1) m r (ground arith))

bytes_eq_refl : (s : Bytes) → bytes_eq s s ≡ true
bytes_eq_refl [] = refl
bytes_eq_refl (a ∷ s) = ground (arith, bytes_eq_refl s)

-- `for (T v = es; v OP ee; …)`, where the constant ends are `s` and `e`.
module _ (clang : Clang) (parse_attr : ℕ → Result AttrParams) (id : ℕ) (v type_name : Bytes)
    (es ee : Expr) where
  abbrev pub counted_for : BinaryOperatorKind → Increment → ForStmt
  counted_for op inc = record {
    id = id;
    init = var_decl v type_name (some es);
    cond = binary_operator op (cast_expr (decl_ref_expr v)) ee;
    inc = inc;
  }

  -- What the parser makes of such a loop, given the size of its range.
  abbrev pub parsed : Option ℕ → BinOp → Inc → ℕ → LoopInfo
  parsed a op inc size = record {
    attr = a;
    stmt = id;
    type = regular ∷ [];
    axis = auto ∷ [];
    tile_size = tile_size_of clang parse_attr a;
    shared_info = no_type_info clang parse_attr;
    exclusive_info = no_type_info clang parse_attr;
    overriden_inner_sizes = none;
    simd_length = none;
    var_type_name = type_name;
    var_name = v;
    range_start = some (strip_casts es);
    range_end = some ee;
    range_size = size;
    condition_op = op;
    inc = inc;
  }

  -- The ends of the range are constants that fit `size_t`, and the end is neither the loop variable
  -- nor an expression that Clang could not resolve.
  pub record IsConstantRange (s e : ℕ) : Type 0 where
    pub start_value : clang.evaluate_as_int (strip_casts es) ≡ some (pos s)
    pub end_value : clang.evaluate_as_int ee ≡ some (pos e)
    pub not_var : names_var v ee ≡ false
    pub not_recovery : is_recovery ee ≡ false
    pub fits : e < 2 ^ clang.bits_in_size_t
    pub ordered : s ≤ e

  cond-counted :
      (op : BinaryOperatorKind) {s e : ℕ}
      → IsConstantRange s e
      → clang.is_comparison_op op ≡ true
      → parse_cond clang parse_attr v (binary_operator op (cast_expr (decl_ref_expr v)) ee)
        ≡ ok (some ee, to_okl_binary op)
  unfolding parse_cond
  cond-counted op r c = rw (c, r.not_var, r.not_recovery, bytes_eq_refl v)

  evaluate-constant :
      (x : Expr) (n : ℕ)
      → clang.evaluate_as_int x ≡ some (pos n)
      → n < 2 ^ clang.bits_in_size_t
      → evaluate_as_size_t clang parse_attr (some x) ≡ ok (some n)
  unfolding evaluate_as_size_t
  evaluate-constant x n h k = rw (h, lt→ltb n (2 ^ clang.bits_in_size_t) k)

  wrap : (m s e : ℕ) → e < m → s ≤ e → (e + m - s) % m ≡ e - s
  wrap m s e h k =
      let d : e + m - s ≡ e - s + m = omega arith in
      rw (d, add-mod_right (e - s) m) (mod-eq_of_lt (omega arith))

  size-counted :
      {s e : ℕ}
      → IsConstantRange s e
      → range_size_of clang parse_attr true (some (strip_casts es)) (some ee) ≡ ok (e - s)
  unfolding range_size_of
  size-counted {s} {e} r =
      rw
        (
          evaluate-constant (strip_casts es) s r.start_value (omega (arith, r.ordered, r.fits)),
          evaluate-constant ee e r.end_value r.fits,
        )
        (ap ok (wrap (2 ^ clang.bits_in_size_t) s e r.fits r.ordered))

  parse-parts :
      (a : Option ℕ) (op : BinaryOperatorKind) (inc : Increment) (bin : BinOp) (o : Inc) (n : ℕ)
      → parse_cond clang parse_attr v (binary_operator op (cast_expr (decl_ref_expr v)) ee)
        ≡ ok (some ee, bin)
      → parse_inc clang parse_attr v inc ≡ ok o
      → range_size_of clang parse_attr
          (is_inc_op o && is_upper_bound bin)
          (some (strip_casts es))
          (some ee)
        ≡ ok n
      → parse_for_stmt clang parse_attr (counted_for op inc) a ≡ ok (parsed a bin o n)
  unfolding parse_for_stmt
  parse-parts a op inc bin o n c i r = rw (c, i, r)

  parse-counted :
      (a : Option ℕ) (op : BinaryOperatorKind) (inc : Increment) (o : Inc) {s e : ℕ}
      → IsConstantRange s e
      → clang.is_comparison_op op ≡ true
      → parse_inc clang parse_attr v inc ≡ ok o
      → (is_inc_op o && is_upper_bound (to_okl_binary op)) ≡ true
      → parse_for_stmt clang parse_attr (counted_for op inc) a
        ≡ ok (parsed a (to_okl_binary op) o (e - s))
  parse-counted a op inc o {s} {e} r c i u =
      parse-parts a op inc (to_okl_binary op) o (e - s) (cond-counted op r c) i
        (rw u (size-counted r))

  -- For a loop over constants that fit `size_t`, the start at most the end, with the end on the right
  -- neither the variable nor an unresolved expression, the test `v < e` and `++`: the size is the number of iterations.
  pub parse-lt-Runs :
      (a : Option ℕ) (s e n : ℕ) (k : UnaryOperatorKind)
      → IsConstantRange s e
      → clang.is_comparison_op BinaryOperatorKind.lt ≡ true
      → (k ≡ UnaryOperatorKind.pre_inc) ⊎ (k ≡ UnaryOperatorKind.post_inc)
      → Runs (λ i. ltb i e) 1 s n
      → (i : LoopInfo) × (parse_for_stmt clang parse_attr
            (counted_for BinaryOperatorKind.lt (unary_operator k))
            a
          ≡ ok i)
        × (i.range_size ≡ n)
  unfolding to_okl_binary to_okl_unary parse_inc
  parse-lt-Runs a s e n k r c u h = (
    parsed a BinOp.lt (unary (to_okl_unary k)) (e - s),
    parse-counted a BinaryOperatorKind.lt (unary_operator k) (unary (to_okl_unary k)) r c refl
        (ground arith),
    omega (arith, Runs-lt e s n h r.ordered, r.ordered),
  )

  -- For a loop over constants that fit `size_t`, the start at most the end, with the end on the right
  -- neither the variable nor an unresolved expression, the test `v <= e` and `++`: the size is one less than the number of iterations.
  pub parse-le-Runs :
      (a : Option ℕ) (s e n : ℕ) (k : UnaryOperatorKind)
      → IsConstantRange s e
      → clang.is_comparison_op BinaryOperatorKind.le ≡ true
      → (k ≡ UnaryOperatorKind.pre_inc) ⊎ (k ≡ UnaryOperatorKind.post_inc)
      → Runs (λ i. leb i e) 1 s n
      → (i : LoopInfo) × (parse_for_stmt clang parse_attr
            (counted_for BinaryOperatorKind.le (unary_operator k))
            a
          ≡ ok i)
        × (i.range_size + 1 ≡ n)
  unfolding to_okl_binary to_okl_unary parse_inc
  parse-le-Runs a s e n k r c u h = (
    parsed a BinOp.le (unary (to_okl_unary k)) (e - s),
    parse-counted a BinaryOperatorKind.le (unary_operator k) (unary (to_okl_unary k)) r c refl
        (ground arith),
    omega (arith, Runs-le e s n h (omega (arith, r.ordered)), r.ordered),
  )

  size-some :
      (b : Bool) (x y : Expr)
      → (n : ℕ) × (range_size_of clang parse_attr b (some x) (some y) ≡ ok n)
  unfolding range_size_of evaluate_as_size_t
  size-some b x y = from (size_t_of clang parse_attr (clang.evaluate_as_int x))
    where
      from :
          (o : Option ℕ)
          → (n : ℕ) × (size_from clang parse_attr b o
                (ok (size_t_of clang parse_attr (clang.evaluate_as_int y)))
              ≡ ok n)
      from none = (0, refl)
      from (some s) = (_, refl)

  cond-recovery :
      (n : ℕ)
      → ee ≡ recovery_expr n
      → clang.is_comparison_op BinaryOperatorKind.lt ≡ true
      → clang.reverse_comparison_op BinaryOperatorKind.lt ≡ BinaryOperatorKind.gt
      → parse_cond clang parse_attr v
          (binary_operator BinaryOperatorKind.lt (cast_expr (decl_ref_expr v)) ee)
        ≡ ok (some ee, BinOp.gt)
  unfolding parse_cond to_okl_binary
  cond-recovery n e c r = ground (arith, c, r, e)

  -- With an expression on the right that Clang could not resolve, and a unary increment or decrement:
  -- the comparison of `v < …` is stored as `>`, which Clang gives as its reverse, and the loop is not
  -- taken for an increasing one.
  pub parse-recovery-is_inc :
      (a : Option ℕ) (n : ℕ) (k : UnaryOperatorKind)
      → ee ≡ recovery_expr n
      → clang.is_comparison_op BinaryOperatorKind.lt ≡ true
      → clang.reverse_comparison_op BinaryOperatorKind.lt ≡ BinaryOperatorKind.gt
      → (i : LoopInfo) × (parse_for_stmt clang parse_attr
            (counted_for BinaryOperatorKind.lt (unary_operator k))
            a
          ≡ ok i)
        × (i.condition_op ≡ BinOp.gt)
        × (is_inc i ≡ false)
  unfolding parse_inc is_inc
  parse-recovery-is_inc a n k e c r =
      let o = unary (to_okl_unary k) in
      let (size, h) = size-some (is_inc_op o && false) (strip_casts es) ee in
      (
        parsed a BinOp.gt o size,
        parse-parts a BinaryOperatorKind.lt (unary_operator k) BinOp.gt o size
            (cond-recovery n e c r) refl h,
        refl,
        ground arith,
      )
