-- ===== src/Atomic/Stores.antt =====
-- What the functions that @atomic calls store, against the assignment that they stand for.
use occa_transpiler.Base.{
  ℕ, ◌+◌, ◌-◌, ◌%◌, ◌^◌, ◌≡◌, Option, none, some, inl, inr, Bool-cases, Option-cases, ap, sym, ◌∙◌,
}
use occa_transpiler.Ast.{Bytes}
use occa_transpiler.Result.{ok}
use occa_transpiler.Text.Literal.{codes}
use occa_transpiler.Rewrite.{Edit, replace_text, attr_begin, end_loc}
use occa_transpiler.Atomic.{
  AssignKind, assign, add_assign, sub_assign, and_assign, or_assign, xor_assign, other_kind,
  Operand, binary_operator, atomic_binary, atomic_call, handle_bin_op, handle_atomic_attribute,
}

abbrev pub wrap : ℕ → ℕ
wrap n = n % 2 ^ 32

-- The bit operations of `unsigned int`.
pub record BitOps : Type 0 where
  pub land : ℕ → ℕ → ℕ
  pub lor : ℕ → ℕ → ℕ
  pub lxor : ℕ → ℕ → ℕ

-- What an assignment to an `unsigned int` stores.
abbrev pub stored : BitOps → AssignKind → ℕ → ℕ → Option ℕ
stored bits assign old v = some v
stored bits add_assign old v = some (wrap (old + v))
stored bits sub_assign old v = some (wrap ((old + 2 ^ 32) - v))
stored bits and_assign old v = some (bits.land old v)
stored bits or_assign old v = some (bits.lor old v)
stored bits xor_assign old v = some (bits.lxor old v)
stored bits other_kind old v = none

-- What the guide of CUDA says that its functions store for an `unsigned int`.
pub record CudaAtomics (bits : BitOps) (stores : Bytes → ℕ → ℕ → ℕ) : Type 0 where
  pub exch : (old v : ℕ) → stores (codes "atomicExch") old v ≡ v
  pub add : (old v : ℕ) → stores (codes "atomicAdd") old v ≡ wrap (old + v)
  pub sub : (old v : ℕ) → stores (codes "atomicSub") old v ≡ wrap ((old + 2 ^ 32) - v)
  pub and : (old v : ℕ) → stores (codes "atomicAnd") old v ≡ bits.land old v
  pub or : (old v : ℕ) → stores (codes "atomicOr") old v ≡ bits.lor old v
  pub xor : (old v : ℕ) → stores (codes "atomicXor") old v ≡ bits.lxor old v

module _ (bits : BitOps) (stores : Bytes → ℕ → ℕ → ℕ) (cuda : CudaAtomics bits stores) where
  named_stores :
      (k : AssignKind) (name : Bytes) (old v : ℕ)
      → atomic_binary k ≡ some name
      → stored bits k old v ≡ some (stores name old v)
  named_stores assign name old v e =
      let n : codes "atomicExch" ≡ name = cc e in
      ap some (sym (cuda.exch old v) ∙ ap (λ f. stores f old v) n)
  named_stores add_assign name old v e =
      let n : codes "atomicAdd" ≡ name = cc e in
      ap some (sym (cuda.add old v) ∙ ap (λ f. stores f old v) n)
  named_stores sub_assign name old v e =
      let n : codes "atomicSub" ≡ name = cc e in
      ap some (sym (cuda.sub old v) ∙ ap (λ f. stores f old v) n)
  named_stores and_assign name old v e =
      let n : codes "atomicAnd" ≡ name = cc e in
      ap some (sym (cuda.and old v) ∙ ap (λ f. stores f old v) n)
  named_stores or_assign name old v e =
      let n : codes "atomicOr" ≡ name = cc e in
      ap some (sym (cuda.or old v) ∙ ap (λ f. stores f old v) n)
  named_stores xor_assign name old v e =
      let n : codes "atomicXor" ≡ name = cc e in
      ap some (sym (cuda.xor old v) ∙ ap (λ f. stores f old v) n)
  named_stores other_kind name old v e = cc e

  -- With the documented behaviour of CUDA's functions, an assignment that @atomic accepts in CUDA is replaced by the call of a function on the address of its left
  -- side and on its right side, and that function stores what the assignment does to an `unsigned int`.
  pub handle_atomic-stores :
      (attr stmt : ℕ) (k : AssignKind) (spelling type : Bytes) (left right : Operand) (e : Edit)
      (old v : ℕ)
      → handle_atomic_attribute attr stmt (binary_operator k spelling type left right) ≡ ok e
      → (name : Bytes) × (e
          ≡ replace_text (attr_begin attr) (end_loc stmt) (atomic_call name left.text right.text))
        × (stored bits k old v ≡ some (stores name old v))
  unfolding handle_atomic_attribute
  handle_atomic-stores attr stmt k spelling type left right e old v h =
      elim (Option-cases (atomic_binary k)) [
        | inl n ↦ cc (rw (handle_bin_op, n) at h)
        | inr (name, n) ↦ elim (Bool-cases left.is_lvalue) [
          | inl o ↦ (name, cc (rw (handle_bin_op, n, o) at h), named_stores k name old v n)
          | inr o ↦ cc (rw (handle_bin_op, n, o) at h)
        ]
      ]
