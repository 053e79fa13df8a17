-- ===== src/Registry/Lookup.antt =====
-- The map of the handlers as a partial function.
use occa_transpiler.Base.{
  true, List, [], ◌∷◌, ◌≡◌, refl, ◌∙◌, Option, none, some, if◌then◌else◌, arith, inl, inr,
  Bool-cases,
}
use occa_transpiler.Ast.{Bytes}
use occa_transpiler.ForStmt.{bytes_eq}
use occa_transpiler.Registry.{TargetBackend, HandlerKey, same_backend, key_eq, find_handler, insert}

abbrev pub or_else : {H : Type 0} → Option H → Option H → Option H
or_else none b = b
or_else (some a) b = some a

or_else-none : {H : Type 0} (o : Option H) → o ≡ or_else o none
or_else-none none = refl
or_else-none (some h) = refl

bytes_eq-cong : (s t u : Bytes) → bytes_eq s t ≡ true → bytes_eq s u ≡ bytes_eq t u
bytes_eq-cong [] [] u h = refl
bytes_eq-cong [] (b ∷ t) u h = cc
bytes_eq-cong (a ∷ s) [] u h = cc
bytes_eq-cong (a ∷ s) (b ∷ t) [] h = refl
bytes_eq-cong (a ∷ s) (b ∷ t) (c ∷ u) h = ground (arith, h, bytes_eq-cong s t u)

same_backend-cong :
    (a b c : Option TargetBackend) → same_backend a b ≡ true → same_backend a c ≡ same_backend b c
same_backend-cong none none c h = refl
same_backend-cong none (some b) c h = cc
same_backend-cong (some a) none c h = cc
same_backend-cong (some a) (some b) none h = refl
same_backend-cong (some a) (some b) (some c) h = ground (arith, h)

key_eq-cong : (k j i : HandlerKey) → key_eq k j ≡ true → key_eq k i ≡ key_eq j i
key_eq-cong k j i h =
    ground (
      arith,
      h,
      same_backend-cong k.backend j.backend i.backend,
      bytes_eq-cong k.attr j.attr i.attr,
    )

module _ {H : Type 0} where
  find_handler-cong :
      (k j : HandlerKey) (m : List (HandlerKey × H))
      → key_eq k j ≡ true
      → find_handler k m ≡ find_handler j m
  find_handler-cong k j [] h = refl
  find_handler-cong k j ((i, g) ∷ m) h = elim (Bool-cases (key_eq j i)) [
    | inl e ↦ rw (e, key_eq-cong k j i h ∙ e) refl
    | inr e ↦ rw (e, key_eq-cong k j i h ∙ e) (find_handler-cong k j m h)
  ]

  inserted_when :
      (k j : HandlerKey) (h : H) (m : List (HandlerKey × H)) (found : Option H)
      → find_handler j m ≡ found
      → find_handler k (insert j h m).0
        ≡ or_else (find_handler k m) (if key_eq k j then some h else none)
  inserted_when k j h m none e = elim (Bool-cases (key_eq k j)) [
    | inl q ↦ rw (insert, e, q, find_handler-cong k j m q ∙ e) refl
    | inr q ↦ rw (insert, e, q) (or_else-none _)
  ]
  inserted_when k j h m (some g) e = elim (Bool-cases (key_eq k j)) [
    | inl q ↦ rw (insert, e, q, find_handler-cong k j m q ∙ e) refl
    | inr q ↦ rw (insert, e, q) (or_else-none _)
  ]

  -- After a handler is registered, the lookup of every key finds what it found before, and only where it
  -- found nothing and the key is the new one, the new handler: the first registration wins.
  pub find-insert :
      (k j : HandlerKey) (h : H) (m : List (HandlerKey × H))
      → find_handler k (insert j h m).0
        ≡ or_else (find_handler k m) (if key_eq k j then some h else none)
  find-insert k j h m = inserted_when k j h m (find_handler j m) refl
