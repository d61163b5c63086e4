-- ===== src/Prelude/InsertionSort.antt =====
-- A sorting function that keeps what `qsort` promises, for the examples.
use Prim.Native.Nat.{Ordering}
use mathlib.Core.Path.{◌≡◌}
use mathlib.Core.Logic.{inl, inr}
use mathlib.Core.List.{List, [], ◌∷◌, Perm, Pairwise, forall_mem-cons, not-mem-nil}
use mathlib.Core.List.Perm
use mathlib.Core.Bool.{Bool, true, false}
use native.Mathlib.Omega.{arith}
use libmorpheus.Prelude.Tests.{Bool-cases}
use libmorpheus.Prelude.Comparison.{IsComparison, eq_right}
use libmorpheus.Prelude.Ascending.{NotAbove, Ascending, IsSort}

module _ {ℓ} {A : Type ℓ} (cmp : A → A → Ordering) where
  abbrev is_gt : Ordering → Bool
  is_gt Ordering.lt = false
  is_gt Ordering.eq = false
  is_gt Ordering.gt = true

  abbrev insert : A → List A → List A
  insert a [] = a ∷ []
  insert a (x ∷ l) = elim (is_gt (cmp a x)) [ true ↦ x ∷ insert a l | false ↦ a ∷ x ∷ l ]

  abbrev pub insertion_sort : List A → List A
  insertion_sort [] = []
  insertion_sort (x ∷ l) = insert x (insertion_sort l)

  insert-Perm : (a : A) (l : List A) → Perm (insert a l) (a ∷ l)
  insert-Perm a [] = Perm.rfl
  insert-Perm a (x ∷ l) = elim (Bool-cases (is_gt (cmp a x))) [
    | inl above ↦ rw (insert, above) (Perm.trans (Perm.cons x (insert-Perm a l)) (Perm.swap a x l))
    | inr below ↦ rw (insert, below) Perm.rfl
  ]

  insertion_sort-Perm : (l : List A) → Perm (insertion_sort l) l
  insertion_sort-Perm [] = Perm.rfl
  insertion_sort-Perm (x ∷ l) =
      Perm.trans (insert-Perm x (insertion_sort l)) (Perm.cons x (insertion_sort-Perm l))

  module _ (c : IsComparison cmp) where
    NotAbove-trans : (a x y : A) → NotAbove cmp a x → NotAbove cmp x y → NotAbove cmp a y
    NotAbove-trans a x y h k =
        ground (arith, c.trans a x y, c.eq_left a x y, eq_right c a x y, c.flips a x, c.flips x y)

    at_most : (a x : A) → is_gt (cmp a x) ≡ false → NotAbove cmp a x
    at_most a x below = ground arith

    insert-Ascending : (a : A) (l : List A) → Ascending cmp l → Ascending cmp (insert a l)
    insert-Ascending a [] h = Pairwise.cons (λ y m. absurd (not-mem-nil m)) Pairwise.nil
    insert-Ascending a (x ∷ l) (Pairwise.cons h rest) = elim (Bool-cases (is_gt (cmp a x))) [
      | inl above ↦
          rw (insert, above)
            (Pairwise.cons
              (λ y m.
                (forall_mem-cons (λ z. hlevel)).1 (ground (arith, c.flips a x), h) y
                  ((Perm.mem_iff (insert-Perm a l)).0 m))
              (insert-Ascending a l rest))
      | inr below ↦
          rw (insert, below)
            (Pairwise.cons
              ((forall_mem-cons (λ z. hlevel)).1
                (at_most a x below, λ y m. NotAbove-trans a x y (at_most a x below) (h y m)))
              (Pairwise.cons h rest))
    ]

    pub insertion_sort-IsSort : IsSort cmp insertion_sort
    insertion_sort-IsSort = record { rearranges = insertion_sort-Perm; ascends = ascends }
      where
        ascends : (l : List A) → Ascending cmp (insertion_sort l)
        ascends [] = Pairwise.nil
        ascends (x ∷ l) = insert-Ascending x (insertion_sort l) (ascends l)
