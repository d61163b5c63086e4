-- ===== src/Greeklib/BinlookExamples.antt =====
-- The binary search at a table of three numbers.
use Prim.Native.Nat.{Ordering, compare}
use libmorpheus.Prelude.{
  ℕ, zero, suc, ◌≤◌, ◌<◌, ◌≡◌, refl, true, false, Option, some, List, [], ◌∷◌, get_elem?, arith,
}
use libmorpheus.GenerIndex.Bytes.{done}
use libmorpheus.Greeklib.Binlook.{binlook_loop, binlook}
use libmorpheus.Greeklib.BinarySearch.{IsOrdered, IsAnswer, binlook-IsAnswer, binlook-ends}

abbrev table : List ℕ
table = 2 ∷ 4 ∷ 6 ∷ []

abbrev with_five : ℕ → Ordering
with_five entry = compare 5 entry

ascending : (i j x y : ℕ) → i ≤ j → get_elem? table i ≡ some x → get_elem? table j ≡ some y → x ≤ y
ascending zero zero x y h e g = ground arith
ascending zero (suc zero) x y h e g = ground arith
ascending zero (suc (suc zero)) x y h e g = ground arith
ascending zero (suc (suc (suc j))) x y h e g = absurd cc
ascending (suc i) zero x y h e g = absurd (omega arith)
ascending (suc zero) (suc zero) x y h e g = ground arith
ascending (suc zero) (suc (suc zero)) x y h e g = ground arith
ascending (suc zero) (suc (suc (suc j))) x y h e g = absurd cc
ascending (suc (suc i)) (suc zero) x y h e g = absurd (omega arith)
ascending (suc (suc zero)) (suc (suc zero)) x y h e g = ground arith
ascending (suc (suc zero)) (suc (suc (suc j))) x y h e g = absurd cc
ascending (suc (suc (suc i))) (suc (suc j)) x y h e g = absurd cc

table-IsOrdered : IsOrdered with_five table
table-IsOrdered i j x y h e g =
    let le = ascending i j x y h e g in (λ k. ground arith, λ k. ground arith)

-- 5 is not there: the entry before it is, if any match will do.
five : binlook with_five (some table) true 3 8 false true ≡ done (some 1)
unfolding binlook binlook_loop
five = refl

binlook-IsAnswer_example :
    (answer : Option ℕ) × (binlook with_five (some table) true 3 8 false true ≡ done answer)
    × IsAnswer with_five table 3 false answer
binlook-IsAnswer_example =
    binlook-IsAnswer with_five table 3 8 false table-IsOrdered (omega arith) (omega arith)
      (omega arith) (omega arith)

binlook-ends_example :
    (answer : Option ℕ) × (binlook with_five (some table) true 3 8 true true ≡ done answer)
    × ((m : ℕ) → answer ≡ some m → m < 3)
binlook-ends_example = binlook-ends with_five table true 3 8 true true (omega arith)
