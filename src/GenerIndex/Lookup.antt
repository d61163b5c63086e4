-- ===== src/GenerIndex/Lookup.antt =====
-- The queries of src/api/gener_index.c: `lookup` by binary search, `block`, `record`, the counts.
use libmorpheus.Prelude.{
  ℕ, zero, suc, ◌+◌, ◌-◌, ◌*◌, ◌/◌, ◌%◌, ◌^◌, Bool, true, false, not, Option, none, some, [], ◌∷◌,
  leb, ◌==◌, if◌then◌else◌, Ordering, strcmp,
}
use libmorpheus.GenerIndex.Bytes.{Run, done, stuck, ◌>>=◌, deref, get_u32, get_u64}
use libmorpheus.GenerIndex.Format.{
  GenerIndex, CString, string_at, lemma_entry_size, block_entry_size, record_entry_size,
}
use libmorpheus.GenerIndex.Open.{IndexStatus, ok, invalid, not_found}

pub record LemmaView : Type 0 where
  pub first_block : ℕ
  pub block_count : ℕ

pub record BlockView : Type 0 where
  pub first_record : ℕ
  pub record_count : ℕ

-- The strings may be null pointers.
pub record RecordView : Type 0 where
  pub kind : ℕ
  pub stem : Option CString
  pub keys : Option CString

-- A status, and what the call has stored through its last argument.
abbrev pub Answer {ℓ} : Type ℓ → Type ℓ
Answer A = IndexStatus × Option A

-- uint64_t middle = low + (high - low) / 2
abbrev pub middle_of : ℕ → ℕ → ℕ
middle_of low high = (low + (high + 2 ^ 64 - low) % 2 ^ 64 / 2) % 2 ^ 64

-- while (low != high), with fuel
unfoldable pub lookup_loop : ℕ → GenerIndex → CString → ℕ → ℕ → Run (Answer LemmaView)
lookup_loop zero index lemma low high = stuck
lookup_loop (suc fuel) index lemma low high = elim (low == high) [
  | true ↦ done (not_found, none)
  | false ↦
      let middle = middle_of low high in
      let entry = index.lemmas + middle * lemma_entry_size in
      get_u64 index.file entry >>= λ offset. string_at index offset >>= λ found.
      deref found >>= λ key. elim (strcmp lemma key) [
        | Ordering.lt ↦ lookup_loop fuel index lemma low middle
        | Ordering.gt ↦ lookup_loop fuel index lemma ((middle + 1) % 2 ^ 64) high
        | Ordering.eq ↦ do
          first ← get_u64 index.file (entry + 8)
          count ← get_u32 index.file (entry + 16)
          done (ok, some (record { first_block = first; block_count = count }))
      ]
]

-- `slot` tells whether the pointer `lemma` for the view is given.
unfoldable pub lookup : Option GenerIndex → Option CString → Bool → Run (Answer LemmaView)
lookup none lemma slot = done (invalid, none)
lookup (some index) none slot = done (invalid, none)
lookup (some index) (some []) slot = done (invalid, none)
lookup (some index) (some (b ∷ s)) slot =
    if slot
    then lookup_loop (suc index.lemma_count) index (b ∷ s) 0 index.lemma_count
    else done (invalid, none)

unfoldable pub block : Option GenerIndex → ℕ → Bool → Run (Answer BlockView)
block none i slot = done (invalid, none)
block (some index) i slot =
    if not slot
    then done (invalid, none)
    else if leb index.block_count i
    then done (not_found, none)
    else do
      let entry = index.blocks + i * block_entry_size
      first ← get_u64 index.file entry
      count ← get_u32 index.file (entry + 8)
      done (ok, some (record { first_record = first; record_count = count }))

unfoldable pub record_view : Option GenerIndex → ℕ → Bool → Run (Answer RecordView)
record_view none i slot = done (invalid, none)
record_view (some index) i slot =
    if not slot
    then done (invalid, none)
    else if leb index.record_count i
    then done (not_found, none)
    else do
      let entry = index.records + i * record_entry_size
      kind ← get_u32 index.file entry
      stem_offset ← get_u64 index.file (entry + 8)
      stem ← string_at index stem_offset
      keys_offset ← get_u64 index.file (entry + 16)
      keys ← string_at index keys_offset
      done (ok, some (record { kind = kind; stem = stem; keys = keys }))

unfoldable pub lemma_count : Option GenerIndex → ℕ
lemma_count none = 0
lemma_count (some index) = index.lemma_count

unfoldable pub block_count : Option GenerIndex → ℕ
block_count none = 0
block_count (some index) = index.block_count

unfoldable pub record_count : Option GenerIndex → ℕ
record_count none = 0
record_count (some index) = index.record_count
