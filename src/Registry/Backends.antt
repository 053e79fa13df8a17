-- ===== src/Registry/Backends.antt =====
-- The names of the backends.
use occa_transpiler.Base.{true, List, [], ◌∷◌, ◌≡◌, refl, ap, ◌∙◌, arith, inl, inr, Bool-cases, ◌↔◌}
use occa_transpiler.Ast.{Bytes}
use occa_transpiler.Result.{ok}
use occa_transpiler.ForStmt.{bytes_eq}
use occa_transpiler.Registry.{
  TargetBackend, serial, openmp, cuda, hip, dpcpp, launcher, to_lower, backend_to_string,
  backends_map, find_backend, backend_from_string,
}

bytes_eq_sound : (s t : Bytes) → bytes_eq s t ≡ true → s ≡ t
bytes_eq_sound [] [] h = refl
bytes_eq_sound [] (b ∷ t) h = cc
bytes_eq_sound (a ∷ s) [] h = cc
bytes_eq_sound (a ∷ s) (b ∷ t) h = ground (arith, h, bytes_eq_sound s t)

named : (b : TargetBackend) → find_backend (backend_to_string b) backends_map ≡ ok b
named serial = refl
named openmp = refl
named cuda = refl
named hip = refl
named dpcpp = refl
named launcher = refl

-- A text found in a table is the name of what is found, where that holds for the table.
abbrev Names : List (Bytes × TargetBackend) → Type 0
Names [] = Unit
Names ((s, b) ∷ more) = (s ≡ backend_to_string b) × Names more

found-named :
    (table : List (Bytes × TargetBackend)) (s : Bytes) (b : TargetBackend)
    → Names table
    → find_backend s table ≡ ok b
    → s ≡ backend_to_string b
found-named [] s b h e = cc
found-named ((t, c) ∷ more) s b h e = elim (Bool-cases (bytes_eq s t)) [
  | inl q ↦
      let same : c ≡ b = cc (rw q at e) in bytes_eq_sound s t q ∙ (h.0 ∙ ap backend_to_string same)
  | inr q ↦ found-named more s b h.1 (rw q at e)
]

-- A text is read as a backend exactly when it is, in lower case, the name that is written for that
-- backend.
pub backend_from_string-to_lower :
    (s : Bytes) (b : TargetBackend)
    → (backend_from_string s ≡ ok b) ↔ (to_lower s ≡ backend_to_string b)
unfolding backend_from_string
backend_from_string-to_lower s b = (
  λ e. found-named backends_map (to_lower s) b (refl, (refl, (refl, (refl, (refl, (refl, tt)))))) e,
  λ e. ap (λ t. find_backend t backends_map) e ∙ named b,
)
