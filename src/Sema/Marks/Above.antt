-- ===== src/Sema/Marks/Above.antt =====
-- Which loops a mark reaches.
use occa_transpiler.Base.{
  ℕ, zero, suc, Bool, true, false, ◌&&◌, Option, none, some, [], ◌∷◌, ◌≡◌, refl, sym, ap, ◌∙◌,
  arith, ◌==◌, ==_iff, Bool-cases, Option-cases, inl, inr, subst, if◌then◌else◌,
}
use occa_transpiler.Loop.{LoopInfo, Loop, Loops, node, nil, cons, info, children}
use occa_transpiler.Sema.{LoopPath, modify_index, loop_index, loop_at}
use occa_transpiler.Sema.Marks.{mark_path, mark_shared_used, use_shared}

-- The path is a beginning of the other one.
abbrev pub begins : LoopPath → LoopPath → Bool
begins [] p = true
begins (j ∷ q) [] = false
begins (j ∷ q) (k ∷ p) = (j == k) && begins q p

abbrev pub fields : Option Loop → Option LoopInfo
fields none = none
fields (some l) = some (info l)

abbrev pub info_at : Loops → LoopPath → Option LoopInfo
info_at ls p = fields (loop_at ls p)

abbrev map_loop : (Loop → Loop) → Option Loop → Option Loop
map_loop f none = none
map_loop f (some l) = some (f l)

index_same :
    (k : ℕ) (f : Loop → Loop) (ls : Loops)
    → loop_index (modify_index k f ls) k ≡ map_loop f (loop_index ls k)
index_same k f nil = refl
index_same zero f (cons l ls) = refl
index_same (suc k) f (cons l ls) = index_same k f ls

index_other :
    (k j : ℕ) (f : Loop → Loop) (ls : Loops)
    → (j == k) ≡ false
    → loop_index (modify_index k f ls) j ≡ loop_index ls j
index_other k j f nil h = refl
index_other zero zero f (cons l ls) h = cc
index_other zero (suc j) f (cons l ls) h = refl
index_other (suc k) zero f (cons l ls) h = refl
index_other (suc k) (suc j) f (cons l ls) h = index_other k j f ls (ground arith)

-- What a mark makes of the fields of a loop on the path.
abbrev pub map_info : (LoopInfo → LoopInfo) → Option LoopInfo → Option LoopInfo
map_info f none = none
map_info f (some i) = some (f i)

-- The loop at `q` in `mark_path f p ls`, where `b` says whether `q` is a beginning of `p`.
abbrev changed : Bool → (LoopInfo → LoopInfo) → Option LoopInfo → Option LoopInfo
changed true f o = map_info f o
changed false f o = o

changed-none : (b : Bool) (f : LoopInfo → LoopInfo) → changed b f none ≡ none
changed-none true f = refl
changed-none false f = refl

changed_id :
    (b : Bool) (f : LoopInfo → LoopInfo) (o : Option LoopInfo) → b ≡ false → changed b f o ≡ o
changed_id true f o h = cc
changed_id false f o h = refl

abbrev into : Option Loop → LoopPath → Option LoopInfo
into none q = none
into (some l) [] = some (info l)
into (some l) (i ∷ q) = info_at (children l) (i ∷ q)

info_at_cons : (ls : Loops) (j : ℕ) (q : LoopPath) → info_at ls (j ∷ q) ≡ into (loop_index ls j) q
unfolding loop_at
info_at_cons ls j [] = elim (Option-cases (loop_index ls j)) [
  | inl e ↦ rw (loop_at, e) refl
  | inr (l, e) ↦ rw (loop_at, e) refl
]
info_at_cons ls j (i ∷ q) = elim (Option-cases (loop_index ls j)) [
  | inl e ↦ rw (loop_at, e) refl
  | inr (l, e) ↦ rw (loop_at, e) refl
]

into_marked :
    (f : LoopInfo → LoopInfo) (p q : LoopPath) (o : Option Loop)
    → ((cs : Loops) → info_at (mark_path f p cs) q ≡ changed (begins q p) f (info_at cs q))
    → into (map_loop (λ l. node (f (info l)) (mark_path f p (children l))) o) q
      ≡ changed (begins q p) f (into o q)
into_marked f p q none ih = sym (changed-none (begins q p) f)
into_marked f p [] (some l) ih = refl
into_marked f p (i ∷ q) (some l) ih = ih (children l)

begins_same : (k : ℕ) (q p : LoopPath) → begins (k ∷ q) (k ∷ p) ≡ begins q p
begins_same k q p = rw ((==_iff k k).1 refl) refl

marked_here :
    (f : LoopInfo → LoopInfo) (k : ℕ) (p : LoopPath) (j : ℕ) (q : LoopPath) (ls : Loops)
    → j ≡ k
    → ((cs : Loops) → info_at (mark_path f p cs) q ≡ changed (begins q p) f (info_at cs q))
    → info_at (modify_index k (λ l. node (f (info l)) (mark_path f p (children l))) ls) (j ∷ q)
      ≡ changed (begins (j ∷ q) (k ∷ p)) f (info_at ls (j ∷ q))
marked_here f k p j q ls e ih =
    let g : Loop → Loop = λ l. node (f (info l)) (mark_path f p (children l)) in
    subst
      (λ i.
        info_at (modify_index k g ls) (i ∷ q)
        ≡ changed (begins (i ∷ q) (k ∷ p)) f (info_at ls (i ∷ q)))
      (sym e)
      (info_at_cons (modify_index k g ls) k q
        ∙ ap (λ o. into o q) (index_same k g ls)
        ∙ into_marked f p q (loop_index ls k) ih
        ∙ ap (λ o. changed (begins q p) f o) (sym (info_at_cons ls k q))
        ∙ ap (λ b. changed b f (info_at ls (k ∷ q))) (sym (begins_same k q p)))

changed_shared :
    (b : Bool) (o : Option LoopInfo)
    → changed b use_shared o ≡ (if b then map_info use_shared o else o)
changed_shared true o = refl
changed_shared false o = refl

info_at-mark_path :
    (f : LoopInfo → LoopInfo) (p q : LoopPath) (ls : Loops)
    → info_at (mark_path f p ls) q ≡ changed (begins q p) f (info_at ls q)
unfolding mark_path loop_at
info_at-mark_path f p [] ls = sym (changed-none (begins [] p) f)
info_at-mark_path f [] (j ∷ q) ls = refl
info_at-mark_path f (k ∷ p) (j ∷ q) ls =
    let g : Loop → Loop = λ l. node (f (info l)) (mark_path f p (children l)) in
    elim (Bool-cases (j == k)) [
      | inr e ↦
          rw (info_at_cons (modify_index k g ls) j q, info_at_cons ls j q, index_other k j g ls e)
            (sym (changed_id ((j == k) && begins q p) f (into (loop_index ls j) q) (ground arith)))
      | inl e ↦ marked_here f k p j q ls ((==_iff j k).0 e) (λ cs. info_at-mark_path f p q cs)
    ]

-- Marking the use of `@shared` at a path: the loop there and its ancestors, which stand at the
-- beginnings of the path, are marked, and every other loop keeps its fields.
pub info_at-mark_shared_used :
    (p q : LoopPath) (ls : Loops)
    → info_at (mark_shared_used p ls) q
      ≡ (if begins q p then map_info use_shared (info_at ls q) else info_at ls q)
unfolding mark_shared_used
info_at-mark_shared_used p q ls =
    info_at-mark_path use_shared p q ls ∙ changed_shared (begins q p) (info_at ls q)
