-- ===== src/Prelude/Strings.antt =====
-- C strings as lists of bytes: `strcmp` and its order.
use Prim.Native.Nat.{ℕ, compare, Ordering}
use mathlib.Core.Path.{◌≡◌, refl}
use mathlib.Core.List.{List, [], ◌∷◌}
use native.Mathlib.Omega.{arith}

-- The sign of C's `strcmp`, which compares the bytes as unsigned.
unfoldable pub strcmp : List ℕ → List ℕ → Ordering
strcmp [] [] = Ordering.eq
strcmp [] (b ∷ t) = Ordering.lt
strcmp (a ∷ s) [] = Ordering.gt
strcmp (a ∷ s) (b ∷ t) = elim (compare a b) [
  | Ordering.lt ↦ Ordering.lt
  | Ordering.eq ↦ strcmp s t
  | Ordering.gt ↦ Ordering.gt
]

pub strcmp-eq : (s t : List ℕ) → strcmp s t ≡ Ordering.eq → s ≡ t
unfolding strcmp
strcmp-eq [] [] h = refl
strcmp-eq [] (b ∷ t) h = cc
strcmp-eq (a ∷ s) [] h = cc
strcmp-eq (a ∷ s) (b ∷ t) h = ground (arith, strcmp-eq s t)

pub strcmp_self : (s : List ℕ) → strcmp s s ≡ Ordering.eq
unfolding strcmp
strcmp_self [] = refl
strcmp_self (a ∷ s) = ground (arith, strcmp_self s)

pub strcmp_trans :
    (s t u : List ℕ)
    → strcmp s t ≡ Ordering.lt
    → strcmp t u ≡ Ordering.lt
    → strcmp s u ≡ Ordering.lt
unfolding strcmp
strcmp_trans [] [] u h k = cc
strcmp_trans [] (b ∷ t) [] h k = cc
strcmp_trans [] (b ∷ t) (c ∷ u) h k = refl
strcmp_trans (a ∷ s) [] u h k = cc
strcmp_trans (a ∷ s) (b ∷ t) [] h k = cc
strcmp_trans (a ∷ s) (b ∷ t) (c ∷ u) h k = ground (arith, strcmp_trans s t u)

pub strcmp_gt : (s t : List ℕ) → strcmp s t ≡ Ordering.gt → strcmp t s ≡ Ordering.lt
unfolding strcmp
strcmp_gt [] [] h = cc
strcmp_gt [] (b ∷ t) h = cc
strcmp_gt (a ∷ s) [] h = refl
strcmp_gt (a ∷ s) (b ∷ t) h = ground (arith, strcmp_gt s t)

pub strcmp_lt : (s t : List ℕ) → strcmp s t ≡ Ordering.lt → strcmp t s ≡ Ordering.gt
unfolding strcmp
strcmp_lt [] [] h = cc
strcmp_lt [] (b ∷ t) h = refl
strcmp_lt (a ∷ s) [] h = cc
strcmp_lt (a ∷ s) (b ∷ t) h = ground (arith, strcmp_lt s t)
