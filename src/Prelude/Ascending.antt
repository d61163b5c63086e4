-- ===== src/Prelude/Ascending.antt =====
-- Lists in the order of a comparison, and what C's `qsort` promises.
use Prim.Native.Nat.{Ordering}
use mathlib.Core.Path.{◌≡◌, ap₂}
use mathlib.Core.Logic.{◌≢◌}
use mathlib.Core.List.{
  List, [], ◌∷◌, Mem, Perm, Pairwise, mem-cons_self, mem-cons_of_mem, forall_mem-cons,
}
use mathlib.Core.List.Pairwise
use mathlib.Core.List.Perm
use native.Mathlib.Omega.{arith}
use libmorpheus.Prelude.Comparison.{IsComparison, cmp_self}

module _ {ℓ} {A : Type ℓ} (cmp : A → A → Ordering) where
  abbrev pub NotAbove : A → A → Type 0
  NotAbove a b = cmp a b ≢ Ordering.gt

  abbrev pub Ascending : List A → Type ℓ
  Ascending = Pairwise NotAbove

  -- No two values of the list compare as equal, unless they are one.
  abbrev pub Distinct : List A → Type ℓ
  Distinct l = (a b : A) → Mem a l → Mem b l → cmp a b ≡ Ordering.eq → a ≡ b

  -- The array is rearranged into ascending order.
  pub record IsSort (sort : List A → List A) : Type ℓ where
    pub rearranges : (l : List A) → Perm (sort l) l
    pub ascends : (l : List A) → Ascending (sort l)

module _ {ℓ} {A : Type ℓ} {cmp : A → A → Ordering} (c : IsComparison cmp) where
  both_ways : (a b : A) → NotAbove cmp a b → NotAbove cmp b a → cmp a b ≡ Ordering.eq
  both_ways a b h k = ground (arith, c.flips a b)

  NotAbove-head :
      {a b : A} {l r : List A} → Ascending cmp (a ∷ l) → Perm (b ∷ r) (a ∷ l) → NotAbove cmp a b
  NotAbove-head {a} {b} (Pairwise.cons h _) p =
      (forall_mem-cons (λ x. hlevel)).1 (ground (arith, cmp_self c a), h) b
        ((Perm.mem_iff p).0 mem-cons_self)

  -- A list has one ascending rearrangement, if its values are distinct.
  pub Ascending-unique :
      (l r : List A) → Ascending cmp l → Ascending cmp r → Perm l r → Distinct cmp l → l ≡ r
  Ascending-unique [] r h k p d = Perm.nil-eq p
  Ascending-unique (a ∷ l) [] h k p d = Perm.eq-nil p
  Ascending-unique (a ∷ l) (b ∷ r) h k p d =
      let same = both_ways a b (NotAbove-head h (Perm.symm p)) (NotAbove-head k p) in
      let heads = d a b mem-cons_self ((Perm.mem_iff p).1 mem-cons_self) same in
      let tails = Perm.cons_inv (Perm.trans p (Perm.symm (Perm.cons' heads Perm.rfl))) in
      ap₂ ◌∷◌ heads (
        Ascending-unique l r (Pairwise.of_cons h) (Pairwise.of_cons k) tails
          (λ x y m n. d x y (mem-cons_of_mem a m) (mem-cons_of_mem a n)))

  pub sorts_agree :
      {sort other : List A → List A}
      → IsSort cmp sort
      → IsSort cmp other
      → (l : List A) → Distinct cmp l
      → sort l ≡ other l
  sorts_agree {sort} {other} s o l d =
      let p = s.rearranges l in
      Ascending-unique (sort l) (other l) (s.ascends l) (o.ascends l)
        (Perm.trans p (Perm.symm (o.rearranges l)))
        (λ x y m n. d x y ((Perm.mem_iff p).0 m) ((Perm.mem_iff p).0 n))
