-- ===== src/Prelude/Comparison.antt =====
-- Three-way comparisons, as C writes them with a negative, a zero or a positive number: the laws of
-- a total preorder, their lexicographic composition, and the order of the lists that are sorted.
use Prim.Native.Nat.{ℕ, compare, Ordering}
use mathlib.Core.Path.{◌≡◌, refl, ap, sym, ◌∙◌}
use mathlib.Core.List.{List, [], ◌∷◌}
use native.Mathlib.Omega.{arith}
use libmorpheus.Prelude.Strings.{strcmp, strcmp-eq, strcmp_trans}

abbrev pub flip : Ordering → Ordering
flip Ordering.lt = Ordering.gt
flip Ordering.eq = Ordering.eq
flip Ordering.gt = Ordering.lt

-- `if (order) return order;`, and then the next comparison.
abbrev pub order_then : Ordering → Ordering → Ordering
order_then Ordering.lt next = Ordering.lt
order_then Ordering.eq next = next
order_then Ordering.gt next = Ordering.gt

pub record IsComparison {ℓ} {A : Type ℓ} (cmp : A → A → Ordering) : Type ℓ where
  pub flips : (a b : A) → cmp b a ≡ flip (cmp a b)
  pub trans : (a b c : A) → cmp a b ≡ Ordering.lt → cmp b c ≡ Ordering.lt → cmp a c ≡ Ordering.lt
  pub eq_left : (a b c : A) → cmp a b ≡ Ordering.eq → cmp a c ≡ cmp b c

pub compare-IsComparison : IsComparison compare
compare-IsComparison = record {
  flips = λ a b. ground arith;
  trans = λ a b c h k. ground arith;
  eq_left = λ a b c h. ground arith;
}

strcmp_flips : (s t : List ℕ) → strcmp t s ≡ flip (strcmp s t)
unfolding strcmp
strcmp_flips [] [] = refl
strcmp_flips [] (b ∷ t) = refl
strcmp_flips (a ∷ s) [] = refl
strcmp_flips (a ∷ s) (b ∷ t) = ground (arith, strcmp_flips s t)

pub strcmp-IsComparison : IsComparison strcmp
strcmp-IsComparison = record {
  flips = strcmp_flips;
  trans = strcmp_trans;
  eq_left = λ s t u h. ap (λ v. strcmp v u) (strcmp-eq s t h);
}

module _ {ℓ κ} {A : Type ℓ} {B : Type κ} where
  -- A comparison of a part of the values.
  pub preimage :
      (f : A → B) {cmp : B → B → Ordering}
      → IsComparison cmp
      → IsComparison (λ (a b : A). cmp (f a) (f b))
  preimage f c = record {
    flips = λ a b. c.flips (f a) (f b);
    trans = λ a b d. c.trans (f a) (f b) (f d);
    eq_left = λ a b d. c.eq_left (f a) (f b) (f d);
  }

then_flips : (x y : Ordering) → order_then (flip x) (flip y) ≡ flip (order_then x y)
then_flips Ordering.lt y = refl
then_flips Ordering.eq y = refl
then_flips Ordering.gt y = refl

module _ {ℓ} {A : Type ℓ} {cmp : A → A → Ordering} (c : IsComparison cmp) where
  pub eq_right : (a b d : A) → cmp b d ≡ Ordering.eq → cmp a b ≡ cmp a d
  eq_right a b d h = c.flips b a ∙ ap flip (c.eq_left b d a h) ∙ sym (c.flips d a)

  pub cmp_self : (a : A) → cmp a a ≡ Ordering.eq
  cmp_self a = ground (arith, c.flips a a)

module _ {ℓ} {A : Type ℓ} where
  abbrev pub lexicographic : (first second : A → A → Ordering) → A → A → Ordering
  lexicographic first second a b = order_then (first a b) (second a b)

  pub lexicographic-IsComparison :
      {first second : A → A → Ordering}
      → IsComparison first
      → IsComparison second
      → IsComparison (lexicographic first second)
  lexicographic-IsComparison {first} {second} f s = record {
    flips = λ a b. rw (f.flips a b, s.flips a b) (then_flips (first a b) (second a b));
    trans = λ a b d h k.
        ground (arith, f.trans a b d, f.eq_left a b d, eq_right f a b d, s.trans a b d);
    eq_left = λ a b d h. ground (arith, f.eq_left a b d, s.eq_left a b d);
  }
