-- ===== src/Greeklib/BinarySearch.antt =====
-- The search of src/greeklib/binlook.c ends, stays in the table and finds what is there.
use libmorpheus.Prelude.{
  ℕ, zero, suc, ◌+◌, ◌-◌, ◌/◌, ◌≤◌, ◌<◌, ◌≡◌, refl, Bool, true, false, not, ◌||◌, Option, none,
  some, List, [], ◌∷◌, length, get_elem?, ltb, ◌==◌, inl, inr, Bool-cases, arith, Ordering,
}
use libmorpheus.GenerIndex.Bytes.{done, size_max}
use libmorpheus.GenerIndex.Search.{Ordering-cases}
use libmorpheus.Greeklib.Binlook.{Looked, found_at, missed_at, binlook_loop, binlook, after_loop}

module _ {ℓ} {A : Type ℓ} (compare_entry : A → Ordering) (table : List A) where
  -- The answers of the comparison along the table: the tag is above the first entries, equal to some
  -- and below the last ones.
  abbrev pub IsOrdered : Type ℓ
  IsOrdered =
      (i j : ℕ) (x y : A)
      → i ≤ j
      → get_elem? table i ≡ some x
      → get_elem? table j ≡ some y
      → ((compare_entry x ≡ Ordering.lt) → compare_entry y ≡ Ordering.lt)
        × ((compare_entry y ≡ Ordering.gt) → compare_entry x ≡ Ordering.gt)

  -- Every entry in the range compares so.
  abbrev pub AllIn : (low high : ℕ) → Ordering → Type ℓ
  AllIn low high o =
      (k : ℕ) (x : A) → low ≤ k → k < high → get_elem? table k ≡ some x → compare_entry x ≡ o

  -- The entry at a place below `n` that compares as equal; or the place where the table turns from
  -- entries below the tag to entries above it.
  abbrev pub IsLooked : ℕ → Looked → Type ℓ
  IsLooked n (found_at mid) =
      (mid < n) × ((x : A) × (get_elem? table mid ≡ some x) × (compare_entry x ≡ Ordering.eq))
  IsLooked n (missed_at low) = (low ≤ n) × AllIn 0 low Ordering.gt × AllIn low n Ordering.lt

  entry_at : (t : List A) (k : ℕ) → k < length t → (x : A) × (get_elem? t k ≡ some x)
  entry_at [] k h = absurd (omega arith)
  entry_at (x ∷ t) zero h = (x, refl)
  entry_at (x ∷ t) (suc k) h = entry_at t k (omega arith)

  abbrev Within : ℕ → Looked → Type 0
  Within n (found_at k) = k < n
  Within n (missed_at k) = k ≤ n

  -- The loop ends within its fuel and reads only the table, whatever the comparison answers.
  binlook_loop-ends :
      (fuel low high n : ℕ)
      → high - low < fuel
      → low ≤ n
      → high ≤ n
      → n ≤ length table
      → (looked : Looked) × (binlook_loop compare_entry fuel table low high ≡ done looked)
        × Within n looked
  unfolding binlook_loop
  binlook_loop-ends zero low high n f l h b = absurd (omega arith)
  binlook_loop-ends (suc fuel) low high n f l h b = elim (Bool-cases (ltb low high)) [
    | inr stop ↦ (missed_at low, rw (binlook_loop, stop) refl, l)
    | inl go ↦
        let less : low < high = ground arith in
        let mid = low + (high - low) / 2 in
        let (x, at) = entry_at table mid (omega arith) in
        elim (Ordering-cases (compare_entry x)) [
          | inl below ↦
              let (looked, e, w) =
                binlook_loop-ends fuel low mid n (omega arith) l (omega arith) b in
              (looked, rw (binlook_loop, go, at, below) e, w)
          | inr (inl above) ↦
              let (looked, e, w) =
                binlook_loop-ends fuel (mid + 1) high n (omega arith) (omega arith) h b in
              (looked, rw (binlook_loop, go, at, above) e, w)
          | inr (inr same) ↦ (found_at mid, rw (binlook_loop, go, at, same) refl, omega arith)
        ]
  ]

  below_mid :
      (n mid : ℕ) (x : A)
      → IsOrdered
      → get_elem? table mid ≡ some x
      → compare_entry x ≡ Ordering.lt
      → AllIn mid n Ordering.lt
  below_mid n mid x ordered at below k y le lt g = (ordered mid k x y le at g).0 below

  above_mid :
      (mid : ℕ) (x : A)
      → IsOrdered
      → get_elem? table mid ≡ some x
      → compare_entry x ≡ Ordering.gt
      → AllIn 0 (mid + 1) Ordering.gt
  above_mid mid x ordered at above k y le lt g = (ordered k mid y x (omega arith) g at).1 above

  binlook_loop-IsLooked :
      (fuel low high n : ℕ)
      → IsOrdered
      → high - low < fuel
      → low ≤ high
      → high ≤ n
      → n ≤ length table
      → AllIn 0 low Ordering.gt
      → AllIn high n Ordering.lt
      → (looked : Looked) × (binlook_loop compare_entry fuel table low high ≡ done looked)
        × IsLooked n looked
  unfolding binlook_loop
  binlook_loop-IsLooked zero low high n ordered f le h b gts lts = absurd (omega arith)
  binlook_loop-IsLooked (suc fuel) low high n ordered f le h b gts lts =
      elim (Bool-cases (ltb low high)) [
        | inr stop ↦
            let same : low ≡ high = ground arith in
            (
              missed_at low,
              rw (binlook_loop, stop) refl,
              (omega arith, gts, λ k x g lt e. lts k x (omega arith) lt e),
            )
        | inl go ↦
            let less : low < high = ground arith in
            let mid = low + (high - low) / 2 in
            let (x, at) = entry_at table mid (omega arith) in
            elim (Ordering-cases (compare_entry x)) [
              | inl below ↦
                  let (looked, e, is) =
                    binlook_loop-IsLooked fuel low mid n ordered (omega arith) (omega arith)
                      (omega arith) b gts (below_mid n mid x ordered at below) in
                  (looked, rw (binlook_loop, go, at, below) e, is)
              | inr (inl above) ↦
                  let (looked, e, is) =
                    binlook_loop-IsLooked fuel (mid + 1) high n ordered (omega arith) (omega arith)
                      h b (above_mid mid x ordered at above) lts in
                  (looked, rw (binlook_loop, go, at, above) e, is)
              | inr (inr same) ↦
                  (found_at mid, rw (binlook_loop, go, at, same) refl, (omega arith, (x, at, same)))
            ]
      ]

  -- The answer of the search of `n` entries. A hit is an entry that compares as equal. In a miss all
  -- entries before a place `low` are below the tag and the others above it: the answer is -1 for an
  -- exact match, and else the entry before the place, or the first one for the place 0.
  pub data IsAnswer (n : ℕ) (exact_match : Bool) : Option ℕ → Type ℓ where
    hit :
        (mid : ℕ) (x : A)
        → mid < n
        → get_elem? table mid ≡ some x
        → compare_entry x ≡ Ordering.eq
        → IsAnswer n exact_match (some mid)
    no_match :
        (low : ℕ)
        → exact_match ≡ true
        → low ≤ n
        → AllIn 0 low Ordering.gt
        → AllIn low n Ordering.lt
        → IsAnswer n exact_match none
    first_entry : exact_match ≡ false → AllIn 0 n Ordering.lt → IsAnswer n exact_match (some 0)
    entry_before :
        (place : ℕ)
        → exact_match ≡ false
        → suc place ≤ n
        → AllIn 0 (suc place) Ordering.gt
        → AllIn (suc place) n Ordering.lt
        → IsAnswer n exact_match (some place)

  after_loop-IsAnswer :
      (n : ℕ) (exact_match : Bool) (looked : Looked)
      → IsLooked n looked
      → IsAnswer n exact_match (after_loop compare_entry exact_match looked)
  after_loop-IsAnswer n exact_match (found_at mid) (lt, (x, at, same)) = hit mid x lt at same
  after_loop-IsAnswer n true (missed_at low) (le, gts, lts) = no_match low refl le gts lts
  after_loop-IsAnswer n false (missed_at zero) (le, gts, lts) = first_entry refl lts
  after_loop-IsAnswer n false (missed_at (suc low)) (le, gts, lts) =
      let positive : ltb 0 (suc low) ≡ true = ground arith in
      let before : suc low - 1 ≡ low = omega arith in
      rw (positive, before) (entry_before low refl le gts lts)

  -- On a table in order, with sizes that do not overflow, the binary search answers with an entry
  -- below nelems that compares as equal; if there is none, with -1 for an exact match, and else with
  -- the entry before the place where the tag belongs, the first one if the tag belongs before it.
  pub binlook-IsAnswer :
      (nelems size : ℕ) (exact_match : Bool)
      → IsOrdered
      → 0 < nelems
      → nelems ≤ length table
      → 0 < size
      → nelems ≤ size_max / size
      → (answer : Option ℕ) × (binlook compare_entry (some table) true nelems size exact_match true
          ≡ done answer)
        × IsAnswer nelems exact_match answer
  unfolding binlook
  binlook-IsAnswer nelems size exact_match ordered pos fits wide most =
      let some_items : (nelems == 0) ≡ false = ground arith in
      let some_size : (size == 0) ≡ false = ground arith in
      let no_overflow : ltb (size_max / size) nelems ≡ false = ground arith in
      let (looked, e, is) =
        binlook_loop-IsLooked (suc nelems) 0 nelems nelems ordered (omega arith) (omega arith)
          (omega arith) fits (λ k x le lt g. absurd (omega arith))
          (λ k x le lt g. absurd (omega arith)) in
      (
        after_loop compare_entry exact_match looked,
        rw (some_items, some_size, no_overflow, e) refl,
        after_loop-IsAnswer nelems exact_match looked is,
      )

  within_lem :
      (n : ℕ) (exact_match : Bool) (looked : Looked) (m : ℕ)
      → 0 < n
      → Within n looked
      → after_loop compare_entry exact_match looked ≡ some m
      → m < n
  within_lem n exact_match (found_at k) m pos w e = ground arith
  within_lem n true (missed_at k) m pos w e = absurd cc
  within_lem n false (missed_at k) m pos w e = ground arith

  -- Whatever the arguments and the comparison, of a table with `nelems` entries at least, the search
  -- ends, reads only entries of the table, and answers with a place below `nelems` or with -1.
  pub binlook-ends :
      (tag : Bool) (nelems size : ℕ) (exact_match compare : Bool)
      → nelems ≤ length table
      → (answer : Option ℕ) × (binlook compare_entry
            (some table)
            tag
            nelems
            size
            exact_match
            compare
          ≡ done answer)
        × ((m : ℕ) → answer ≡ some m → m < nelems)
  unfolding binlook
  binlook-ends tag nelems size exact_match compare fits =
      elim (Bool-cases (not tag || not compare || nelems == 0 || size == 0)) [
        | inl bad ↦ (none, rw bad refl, λ m e. absurd cc)
        | inr good ↦ elim (Bool-cases (ltb (size_max / size) nelems)) [
          | inl wide ↦ (none, rw (good, wide) refl, λ m e. absurd cc)
          | inr small ↦
              let pos : 0 < nelems = positive tag compare nelems size good in
              let (looked, e, w) =
                binlook_loop-ends (suc nelems) 0 nelems nelems (omega arith) (omega arith)
                  (omega arith) fits in
              (
                after_loop compare_entry exact_match looked,
                rw (good, small, e) refl,
                λ m g. within_lem nelems exact_match looked m pos w g,
              )
        ]
      ]
    where
      positive : (t c : Bool) (n s : ℕ) → (not t || not c || n == 0 || s == 0) ≡ false → 0 < n
      positive t c n s h = ground arith
