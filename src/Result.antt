-- ===== src/Result.antt =====
-- include/oklt/core/error.h and `tl::expected<T, Error>`: a value or an error. Each message of the
-- modelled code is a constructor. `undefined_behaviour` stands where the C++ has none defined (a
-- null or uninitialised pointer read, an index out of a `std::array`, a division by zero).
use occa_transpiler.Base.{ℕ, Bool, true, false, ◌≡◌, refl, if◌then◌else◌}

pub data Error : Type 0 where
  undefined_behaviour : Error
  -- a loop on fuel that has not ended
  no_fuel : Error
  -- core/sema
  loop_outside_kernel inner_outside_outer multiple_attributes too_many_inner : Error
  nested_kernel : Error
  -- core/utils/for_stmt_parser.cpp
  multi_declaration no_init not_comparison cond_without_init_var decl_not_inc : Error
  -- attributes/frontend
  takes_no_kwargs expects_an_argument too_many_arguments empty_first_argument : Error
  not_an_attribute loop_type_parse_error unknown_kwarg check_not_bool bad_axis : Error
  not_positive takes_one_argument not_an_integer not_a_string bad_barrier_type : Error
  not_an_index duplicate_index : Error
  -- attributes/backend and attributes/utils
  no_loop_meta_data null_params inside_inner_loop not_between_loops : Error
  atomic_not_supported_op atomic_non_lvalue_expr unable_to_transform : Error
  -- core/handler_manager and core/target_backends.cpp
  no_handler unsupported_handle unknown_backend : Error
  -- attributes/backend/common/dim.cpp
  wrong_number_of_arguments dimensions_out_of_range cast_failed : Error
  missing_dimensions too_many_dimensions not_a_declaration : Error
  -- pipeline/utils/okl_attribute_traverser.cpp
  no_tokens_from_source : Error
  okl_attr_parsing_err : ℕ → Error
  -- util/string_utils
  bad_formatting not_enough_values too_much_values : Error

pub data Result {ℓ} (T : Type ℓ) : Type ℓ where
  err : Error → Result T
  ok : T → Result T

-- A condition that the code checks before it goes on.
abbrev pub guard : Bool → Error → Result (Unit {0})
guard holds e = if holds then ok tt else err e

abbrev pub is_ok {ℓ} : {T : Type ℓ} → Result T → Bool
is_ok (err e) = false
is_ok (ok t) = true

module _ {ℓ κ} {S : Type ℓ} {T : Type κ} where
  infixl 5 ◌>>=◌
  abbrev pub ◌>>=◌ : Result S → (S → Result T) → Result T
  err e >>= next = err e
  ok s >>= next = next s

  -- The two halves of a computation that succeeds.
  pub >>=-eq-ok :
      (first : Result S) (next : S → Result T) {t : T}
      → (first >>= next) ≡ ok t
      → (s : S) × (first ≡ ok s) × (next s ≡ ok t)
  >>=-eq-ok (err e) next h = cc
  >>=-eq-ok (ok s) next h = (s, refl, h)

  pub is_ok->>= :
      (first : Result S) (next : S → Result T)
      → is_ok first ≡ true
      → ((s : S) → is_ok (next s) ≡ true)
      → is_ok (first >>= next) ≡ true
  is_ok->>= (err e) next h k = cc
  is_ok->>= (ok s) next h k = k s

module _ {ℓ} {T : Type ℓ} where
  infixl 5 ◌>>◌
  abbrev pub ◌>>◌ : Result (Unit {0}) → Result T → Result T
  check >> next = check >>= λ done. next

  -- A computation that is no error has a result.
  pub is_ok-ok : (m : Result T) → is_ok m ≡ true → (t : T) × (m ≡ ok t)
  is_ok-ok (err e) h = cc
  is_ok-ok (ok t) h = (t, refl)
