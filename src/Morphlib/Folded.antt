-- ===== src/Morphlib/Folded.antt =====
-- The comparisons of src/morphlib/morphstrcmp.c are `strcmp` on words in which an iota subscript is
-- an i.
use Prim.Native.Nat.{compare, Ordering}
use libmorpheus.Prelude.{
  ℕ, zero, suc, ◌≤◌, ◌<◌, ◌≡◌, refl, ap, ◌∙◌, true, false, some, List, [], ◌∷◌, take, map, any,
  strcmp, ◌==◌, if◌then◌else◌, arith, inl, inr, Bool-cases,
}
use mathlib.Core.Bool.{true≢false}
use libmorpheus.GenerIndex.Bytes.{Run, done, fault}
use libmorpheus.Morphlib.Morphstrcmp.{
  Comptab, init_comptab, with_table, settle, morphstrcmp_loop, morphstrncmp_loop, morphstrcmp,
  morphstrncmp, byte_at,
}

-- A byte as it is compared.
abbrev pub folded : ℕ → ℕ
folded i = if i == 124 then 105 else i

-- A context in which the table, if it is made, is the one that is made.
abbrev pub HasTable : Comptab → Type 0
HasTable context = context.comparison_table_initialized ≡ true → context.comparison_table ≡ folded

abbrev pub NoNul : List ℕ → Type 0
NoNul s = any (λ c. c == 0) s ≡ false

-- The table is made, and it is the one that folds.
abbrev pub IsMade : Comptab → Type 0
IsMade context = (context.comparison_table_initialized ≡ true) × (context.comparison_table ≡ folded)

pub with_table-IsMade : (context : Comptab) → HasTable context → IsMade (with_table context)
unfolding init_comptab
with_table-IsMade context h = elim (Bool-cases context.comparison_table_initialized) [
  | inl q ↦ rw q (refl, h q)
  | inr q ↦ rw q (refl, refl)
]

no_nul : (c : ℕ) (s : List ℕ) → NoNul (c ∷ s) → ((c == 0) ≡ false) × NoNul s
no_nul c s h = elim (Bool-cases (c == 0)) [
  | inl q ↦ absurd (true≢false (rw q at h))
  | inr q ↦ (q, rw q at h)
]

pub above_nul : (c : ℕ) → (c == 0) ≡ false → compare (folded c) (folded 0) ≡ Ordering.gt
above_nul c h = ground (arith, h)

pub below : (d : ℕ) → (d == 0) ≡ false → compare (folded 0) (folded d) ≡ Ordering.lt
below d h = ground (arith, h)

-- The rest of `strcmp` behind two bytes.
settle_lem :
    (o next : Ordering)
    → settle o (done next)
      ≡ done (elim o [ Ordering.lt ↦ Ordering.lt | Ordering.eq ↦ next | Ordering.gt ↦ Ordering.gt ])
settle_lem Ordering.lt next = refl
settle_lem Ordering.eq next = refl
settle_lem Ordering.gt next = refl

pub settle-strcmp :
    (a b : ℕ) (s t : List ℕ) (next : Run Ordering)
    → next ≡ done (strcmp s t)
    → settle (compare a b) next ≡ done (strcmp (a ∷ s) (b ∷ t))
unfolding strcmp
settle-strcmp a b s t next e = ap (settle (compare a b)) e ∙ settle_lem (compare a b) (strcmp s t)

-- The loops, on the table that folds.
morphstrcmp_loop-folded :
    (s1 s2 : List ℕ)
    → NoNul s1
    → NoNul s2
    → morphstrcmp_loop folded s1 s2 ≡ done (strcmp (map folded s1) (map folded s2))
unfolding morphstrcmp_loop strcmp
morphstrcmp_loop-folded [] [] h k = refl
morphstrcmp_loop-folded [] (d ∷ s2) h k = ap done (below d (no_nul d s2 k).0)
morphstrcmp_loop-folded (c ∷ s1) [] h k = ap (λ o. settle o fault) (above_nul c (no_nul c s1 h).0)
morphstrcmp_loop-folded (c ∷ s1) (d ∷ s2) h k =
    settle-strcmp (folded c) (folded d) (map folded s1) (map folded s2)
      (morphstrcmp_loop folded s1 s2)
      (morphstrcmp_loop-folded s1 s2 (no_nul c s1 h).1 (no_nul d s2 k).1)

at_end :
    (s1 s2 : List ℕ)
    → NoNul s1
    → NoNul s2
    → compare (folded (byte_at s1)) (folded (byte_at s2))
      ≡ strcmp (take 1 (map folded s1)) (take 1 (map folded s2))
unfolding strcmp
at_end [] [] h k = refl
at_end [] (d ∷ s2) h k = below d (no_nul d s2 k).0
at_end (c ∷ s1) [] h k = above_nul c (no_nul c s1 h).0
at_end (c ∷ s1) (d ∷ s2) h k = ground arith

morphstrncmp_loop-folded :
    (n : ℕ) (s1 s2 : List ℕ)
    → NoNul s1
    → NoNul s2
    → morphstrncmp_loop folded n s1 s2
      ≡ done (strcmp (take (suc n) (map folded s1)) (take (suc n) (map folded s2)))
unfolding morphstrncmp_loop strcmp
morphstrncmp_loop-folded zero s1 s2 h k = ap done (at_end s1 s2 h k)
morphstrncmp_loop-folded (suc n) [] [] h k = refl
morphstrncmp_loop-folded (suc n) [] (d ∷ s2) h k = ap done (below d (no_nul d s2 k).0)
morphstrncmp_loop-folded (suc n) (c ∷ s1) [] h k =
    ap (λ o. settle o fault) (above_nul c (no_nul c s1 h).0)
morphstrncmp_loop-folded (suc n) (c ∷ s1) (d ∷ s2) h k =
    settle-strcmp (folded c) (folded d) (take (suc n) (map folded s1))
      (take (suc n) (map folded s2)) (morphstrncmp_loop folded n s1 s2)
      (morphstrncmp_loop-folded n s1 s2 (no_nul c s1 h).1 (no_nul d s2 k).1)

-- In a context whose table, if it is made, is the one that `init_comptab` makes, two strings that are
-- not null and have no NUL are compared as `strcmp` compares them when every iota subscript is an i,
-- by `morphstrncmp` up to n bytes, without reading behind a NUL. The table is made afterwards; for
-- n = 0 `morphstrncmp` leaves the context as it is.
pub morphstrcmp-eq-strcmp :
    (context : Comptab) (s1 s2 : List ℕ) (n : ℕ)
    → HasTable context
    → NoNul s1
    → NoNul s2
    → ((morphstrcmp context (some s1) (some s2)).0 ≡ done (strcmp (map folded s1) (map folded s2)))
      × ((morphstrncmp context (some s1) (some s2) n).0
          ≡ done (strcmp (take n (map folded s1)) (take n (map folded s2))))
      × IsMade (morphstrcmp context (some s1) (some s2)).1
      × (1 ≤ n → IsMade (morphstrncmp context (some s1) (some s2) n).1)
      × (n < 1 → (morphstrncmp context (some s1) (some s2) n).1 ≡ context)
unfolding morphstrcmp morphstrncmp strcmp
morphstrcmp-eq-strcmp context s1 s2 zero ready h k =
    let made = with_table-IsMade context ready in
    (
      rw made.1 (morphstrcmp_loop-folded s1 s2 h k),
      refl,
      made,
      λ le. absurd (omega (arith, le)),
      λ e. refl,
    )
morphstrcmp-eq-strcmp context s1 s2 (suc n) ready h k =
    let made = with_table-IsMade context ready in
    (
      rw made.1 (morphstrcmp_loop-folded s1 s2 h k),
      rw made.1 (morphstrncmp_loop-folded n s1 s2 h k),
      made,
      λ le. made,
      λ e. absurd (omega (arith, e)),
    )
