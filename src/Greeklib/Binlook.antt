-- ===== src/Greeklib/Binlook.antt =====
-- The binary search of src/greeklib/binlook.c, on the entries of a table. The comparison with the
-- tag is a parameter; a read past the table is a fault.
use libmorpheus.Prelude.{
  ℕ, zero, suc, ◌+◌, ◌-◌, ◌/◌, Bool, true, false, not, ◌||◌, Option, none, some, List, get_elem?,
  ltb, ◌==◌, if◌then◌else◌, Ordering,
}
use libmorpheus.GenerIndex.Bytes.{Run, done, stuck, ◌>>=◌, deref, size_max}

-- What ends the loop: an entry that compares as equal, or `low` where it meets `high`.
pub data Looked : Type 0 where
  found_at missed_at : ℕ → Looked

module _ {ℓ} {A : Type ℓ} (compare_entry : A → Ordering) where
  -- while (low < high), with fuel
  unfoldable pub binlook_loop : ℕ → List A → (low high : ℕ) → Run Looked
  binlook_loop zero table low high = stuck
  binlook_loop (suc fuel) table low high = elim (ltb low high) [
    | false ↦ done (missed_at low)
    | true ↦
        let mid = low + (high - low) / 2 in
        deref (get_elem? table mid) >>= λ entry. elim (compare_entry entry) [
          | Ordering.lt ↦ binlook_loop fuel table low mid
          | Ordering.gt ↦ binlook_loop fuel table (mid + 1) high
          | Ordering.eq ↦ done (found_at mid)
        ]
  ]

  -- What is returned behind the loop; `none` is -1.
  abbrev pub after_loop : Bool → Looked → Option ℕ
  after_loop exact_match (found_at mid) = some mid
  after_loop exact_match (missed_at low) =
      if exact_match then none else some (if ltb 0 low then low - 1 else 0)

  -- `none` is a null pointer, `tag` and `compare` tell whether these pointers are given, and a
  -- negative `nelems` or `size` is 0 here.
  unfoldable pub binlook :
      Option (List A)
      → (tag : Bool) → (nelems size : ℕ) → (exact_match compare : Bool) → Run (Option ℕ)
  binlook none tag nelems size exact_match compare = done none
  binlook (some table) tag nelems size exact_match compare =
      if not tag || not compare || nelems == 0 || size == 0
      then done none
      else if ltb (size_max / size) nelems
      then done none
      else (binlook_loop (suc nelems) table 0 nelems >>= λ looked.
          done (after_loop exact_match looked))
