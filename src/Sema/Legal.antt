-- ===== src/Sema/Legal.antt =====
-- What `isLegalLoopLevel` decides.
use occa_transpiler.Base.{
  Bool, true, false, not, ◌&&◌, none, some, List, [], ◌∷◌, ◌++◌, ◌≡◌, ◌≢◌, refl, arith,
  if◌then◌else◌,
}
use occa_transpiler.Loop.{LoopType, regular, inner, outer, type_eq}
use occa_transpiler.Sema.{scan_level, new_first, is_legal_loop_level, joins, scans_join}

-- No outer type comes after an inner one, where `seen` says that an inner one came before.
abbrev pub no_outer_after_inner : Bool → List LoopType → Bool
no_outer_after_inner seen [] = true
no_outer_after_inner seen (inner ∷ ts) = no_outer_after_inner true ts
no_outer_after_inner seen (outer ∷ ts) = not seen && no_outer_after_inner false ts
no_outer_after_inner seen (regular ∷ ts) = no_outer_after_inner seen ts

-- The last attributed type, given the one before.
last_type : LoopType → List LoopType → LoopType
last_type last [] = last
last_type last (inner ∷ ts) = last_type inner ts
last_type last (outer ∷ ts) = last_type outer ts
last_type last (regular ∷ ts) = last_type last ts

-- The first attributed type, if none came before.
first_type : LoopType → List LoopType → LoopType
first_type first [] = first
first_type first (t ∷ ts) = first_type (new_first first t) ts

scan_level_lem :
    (first last : LoopType) (ts : List LoopType)
    → scan_level first last ts ≡ (
        if no_outer_after_inner (type_eq last inner) ts
        then some (first_type first ts, last_type last ts)
        else none)
unfolding scan_level first_type last_type
scan_level_lem first last [] = refl
scan_level_lem first last (inner ∷ ts) = scan_level_lem (new_first first inner) inner ts
scan_level_lem first last (outer ∷ ts) =
    ground (arith, scan_level_lem (new_first first outer) outer ts)
scan_level_lem first last (regular ∷ ts) = scan_level_lem (new_first first regular) last ts

first_type_kept : (t : LoopType) (ts : List LoopType) → t ≢ regular → first_type t ts ≡ t
unfolding first_type
first_type_kept t [] h = refl
first_type_kept regular (u ∷ ts) h = absurd (h refl)
first_type_kept inner (u ∷ ts) h = first_type_kept inner ts h
first_type_kept outer (u ∷ ts) h = first_type_kept outer ts h

no_outer_after_inner-append :
    (last : LoopType) (ts us : List LoopType)
    → no_outer_after_inner (type_eq last inner) (ts ++ us) ≡ (
        no_outer_after_inner (type_eq last inner) ts
        && no_outer_after_inner (type_eq (last_type last ts) inner) us)
unfolding last_type
no_outer_after_inner-append last [] us = refl
no_outer_after_inner-append last (inner ∷ ts) us = no_outer_after_inner-append inner ts us
no_outer_after_inner-append last (outer ∷ ts) us =
    ground (arith, no_outer_after_inner-append outer ts us)
no_outer_after_inner-append last (regular ∷ ts) us = no_outer_after_inner-append last ts us

-- Behind an inner type, a child must not begin with an outer one.
seen_inner :
    (seen : Bool) (ts : List LoopType)
    → no_outer_after_inner seen ts
      ≡ (no_outer_after_inner false ts && not (seen && type_eq (first_type regular ts) outer))
unfolding first_type
seen_inner seen [] = ground arith
seen_inner seen (inner ∷ ts) = ground (arith, first_type_kept inner ts (λ e. cc))
seen_inner seen (outer ∷ ts) = ground (arith, first_type_kept outer ts (λ e. cc))
seen_inner seen (regular ∷ ts) = seen_inner seen ts

joins_lem : (p q f l : LoopType) → joins (p, l) (f, q) ≡ not (type_eq l inner && type_eq f outer)
joins_lem p q regular regular = refl
joins_lem p q regular inner = refl
joins_lem p q regular outer = refl
joins_lem p q inner regular = refl
joins_lem p q inner inner = refl
joins_lem p q inner outer = refl
joins_lem p q outer regular = refl
joins_lem p q outer inner = refl
joins_lem p q outer outer = refl

join_scans :
    (p c : Bool) (parent child : LoopType × LoopType)
    → scans_join (if p then some parent else none) (if c then some child else none)
      ≡ (p && (c && not (type_eq parent.1 inner && type_eq child.0 outer)))
join_scans true true (p, l) (f, q) = joins_lem p q f l
join_scans true false parent child = refl
join_scans false c parent child = refl

-- `isLegalLoopLevel` accepts a loop directly in another exactly when, in the types of the parent followed by those of
-- the child, no outer type comes after an inner one.
pub is_legal_loop_level_lem :
    (child_types parent_types : List LoopType)
    → is_legal_loop_level child_types parent_types
      ≡ no_outer_after_inner false (parent_types ++ child_types)
unfolding is_legal_loop_level
is_legal_loop_level_lem child parent =
    rw
      (
        is_legal_loop_level,
        scan_level_lem regular regular parent,
        scan_level_lem regular regular child,
        no_outer_after_inner-append regular parent child,
        seen_inner (type_eq (last_type regular parent) inner) child,
      )
      (join_scans (no_outer_after_inner false parent) (no_outer_after_inner false child)
        (first_type regular parent, last_type regular parent)
        (first_type regular child, last_type regular child))
