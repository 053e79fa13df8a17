-- ===== src/Tests/Atomics.antt =====
-- `@atomic sum += 5;`, with the functions of CUDA on words of 32 bits.
use occa_transpiler.Base.{
  ℕ, zero, suc, ◌+◌, ◌*◌, ◌-◌, ◌/◌, ◌%◌, ◌^◌, true, false, ◌≡◌, refl, some, if◌then◌else◌,
}
use occa_transpiler.Ast.{Bytes}
use occa_transpiler.Text.Literal.{codes}
use occa_transpiler.ForStmt.{bytes_eq}
use occa_transpiler.Rewrite.{replace_text, attr_begin, end_loc}
use occa_transpiler.Atomic.{Operand, add_assign, atomic_call, handle_atomic_attribute}
use occa_transpiler.Atomic.Stores.{BitOps, CudaAtomics, wrap, stored, handle_atomic-stores}

abbrev bitwise : (ℕ → ℕ → ℕ) → ℕ → ℕ → ℕ → ℕ
bitwise f zero a b = 0
bitwise f (suc n) a b = f (a % 2) (b % 2) + 2 * bitwise f n (a / 2) (b / 2)

abbrev bits : BitOps
bits = record {
  land = bitwise (λ a b. a * b) 32;
  lor = bitwise (λ a b. (a + b) - a * b) 32;
  lxor = bitwise (λ a b. (a + b) % 2) 32;
}

abbrev stores : Bytes → ℕ → ℕ → ℕ
stores name old v =
    if bytes_eq name (codes "atomicExch")
    then v
    else if bytes_eq name (codes "atomicAdd")
    then wrap (old + v)
    else if bytes_eq name (codes "atomicSub")
    then wrap ((old + 2 ^ 32) - v)
    else if bytes_eq name (codes "atomicAnd")
    then bits.land old v
    else if bytes_eq name (codes "atomicOr")
    then bits.lor old v
    else if bytes_eq name (codes "atomicXor")
    then bits.lxor old v
    else 0

cuda_stores : CudaAtomics bits stores
cuda_stores = record {
  exch = λ old v. refl;
  add = λ old v. refl;
  sub = λ old v. refl;
  and = λ old v. refl;
  or = λ old v. refl;
  xor = λ old v. refl;
}

abbrev sum : Operand
sum = record { text = codes "sum"; is_lvalue = true }

abbrev five : Operand
five = record { text = codes "5"; is_lvalue = false }

handle_atomic-stores_example :
    (name : Bytes) × (replace_text (attr_begin 3) (end_loc 4) (codes "atomicAdd(&(sum), 5)")
      ≡ replace_text (attr_begin 3) (end_loc 4) (atomic_call name (codes "sum") (codes "5")))
    × (stored bits add_assign 4294967295 5 ≡ some (stores name 4294967295 5))
unfolding handle_atomic_attribute
handle_atomic-stores_example =
    handle_atomic-stores bits stores cuda_stores 3 4 add_assign (codes "+=") (codes "int") sum five
      (replace_text (attr_begin 3) (end_loc 4) (codes "atomicAdd(&(sum), 5)")) 4294967295 5 refl
