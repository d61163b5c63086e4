-- ===== src/GenerIndex/Format.antt =====
-- The index structure, `string_at` and the three loops of `valid_layout`, of src/api/gener_index.c.
-- The table pointers of the C structure are offsets into the file.
use libmorpheus.Prelude.{
  ℕ, zero, suc, ◌+◌, ◌-◌, ◌*◌, ◌%◌, ◌^◌, Bool, true, false, Option, none, some, List, [], ◌∷◌, drop,
  leb, ◌==◌, ◌!=◌, if◌then◌else◌, Ordering, strcmp,
}
use libmorpheus.GenerIndex.Bytes.{
  Run, done, reject, fault, ◌>>=◌, ◌>>◌, guard, load, get_u32, get_u64,
}

-- A C string: its bytes up to the NUL.
abbrev pub CString : Type 0
CString = List ℕ

pub record GenerIndex : Type 0 where
  pub file : List ℕ
  pub lemmas : ℕ
  pub blocks : ℕ
  pub records : ℕ
  pub strings : ℕ
  pub string_size : ℕ
  pub lemma_count : ℕ
  pub block_count : ℕ
  pub record_count : ℕ

abbrev pub header_size : ℕ
header_size = 64

abbrev pub lemma_entry_size : ℕ
lemma_entry_size = 24

abbrev pub block_entry_size : ℕ
block_entry_size = 16

abbrev pub record_entry_size : ℕ
record_entry_size = 24

-- "MORPHGEN"
abbrev pub magic : List ℕ
magic = b'M' ∷ b'O' ∷ b'R' ∷ b'P' ∷ b'H' ∷ b'G' ∷ b'E' ∷ b'N' ∷ []

-- `memcmp(header, magic, n) == 0`, byte by byte from `i` on.
unfoldable pub matches_at : List ℕ → ℕ → List ℕ → Run Bool
matches_at file i [] = done true
matches_at file i (m ∷ ms) =
    load file i >>= λ b. elim (b == m) [ true ↦ matches_at file (i + 1) ms | false ↦ done false ]

abbrev pub prepend : ℕ → Option CString → Option CString
prepend b none = none
prepend b (some s) = some (b ∷ s)

-- memchr for the NUL in the next `n` bytes, and the string that ends there.
unfoldable pub scan_string : List ℕ → ℕ → Run (Option CString)
scan_string bytes zero = done none
scan_string [] (suc n) = fault
scan_string (b ∷ bs) (suc n) = elim (b == 0) [
  | true ↦ done (some [])
  | false ↦ scan_string bs n >>= λ s. done (prepend b s)
]

unfoldable pub string_at : GenerIndex → ℕ → Run (Option CString)
string_at index offset =
    if leb index.string_size offset
    then done none
    else scan_string (drop (index.strings + offset) index.file) (index.string_size - offset)

-- `!s || !*s` ends the validation.
abbrev pub non_empty : Option CString → Run CString
non_empty none = reject
non_empty (some []) = reject
non_empty (some (b ∷ s)) = done (b ∷ s)

-- `!(previous_key && strcmp(previous_key, key) >= 0)`
abbrev pub ascends : Option CString → CString → Bool
ascends none key = true
ascends (some previous) key = elim (strcmp previous key) [ Ordering.lt ↦ true | _ ↦ false ]

pub record LemmaEntry : Type 0 where
  pub key : CString
  pub first_block : ℕ
  pub block_count : ℕ

-- The body of the loop over the lemma table.
unfoldable pub check_lemma : GenerIndex → ℕ → ℕ → Option CString → Run LemmaEntry
check_lemma index item expected_block previous_key = do
  let entry = index.lemmas + item * lemma_entry_size
  offset ← get_u64 index.file entry
  found ← string_at index offset
  first_block ← get_u64 index.file (entry + 8)
  count ← get_u32 index.file (entry + 16)
  key ← non_empty found
  reserved ← get_u32 index.file (entry + 20)
  guard (reserved == 0)
  guard (count != 0)
  guard (first_block == expected_block)
  guard (leb expected_block index.block_count)
  guard (leb count (index.block_count - expected_block))
  guard (ascends previous_key key)
  done (record { key = key; first_block = first_block; block_count = count })

-- The loop, `n` rounds before its end; the result is the final `expected_block`.
unfoldable pub check_lemmas : GenerIndex → ℕ → ℕ → ℕ → Option CString → Run ℕ
check_lemmas index zero item expected_block previous_key = done expected_block
check_lemmas index (suc n) item expected_block previous_key =
    check_lemma index item expected_block previous_key >>= λ e.
    check_lemmas index n (item + 1) ((expected_block + e.block_count) % 2 ^ 64) (some e.key)

pub record BlockEntry : Type 0 where
  pub first_record : ℕ
  pub record_count : ℕ

unfoldable pub check_block : GenerIndex → ℕ → ℕ → Run BlockEntry
check_block index item expected_record = do
  let entry = index.blocks + item * block_entry_size
  first_record ← get_u64 index.file entry
  count ← get_u32 index.file (entry + 8)
  reserved ← get_u32 index.file (entry + 12)
  guard (reserved == 0)
  guard (count != 0)
  guard (first_record == expected_record)
  guard (leb expected_record index.record_count)
  guard (leb count (index.record_count - expected_record))
  done (record { first_record = first_record; record_count = count })

unfoldable pub check_blocks : GenerIndex → ℕ → ℕ → ℕ → Run ℕ
check_blocks index zero item expected_record = done expected_record
check_blocks index (suc n) item expected_record = check_block index item expected_record >>= λ e.
    check_blocks index n (item + 1) ((expected_record + e.record_count) % 2 ^ 64)

-- `MORPHEUS_GENER_RECORD_NOUN` and `MORPHEUS_GENER_RECORD_IRREGULAR_VERB`
abbrev pub record_noun : ℕ
record_noun = 1

abbrev pub record_irregular_verb : ℕ
record_irregular_verb = 5

pub record RecordEntry : Type 0 where
  pub kind : ℕ
  pub stem : CString
  pub keys : CString

unfoldable pub check_record : GenerIndex → ℕ → Run RecordEntry
check_record index item = do
  let entry = index.records + item * record_entry_size
  kind ← get_u32 index.file entry
  stem_offset ← get_u64 index.file (entry + 8)
  stem_found ← string_at index stem_offset
  keys_offset ← get_u64 index.file (entry + 16)
  keys_found ← string_at index keys_offset
  guard (leb record_noun kind)
  guard (leb kind record_irregular_verb)
  reserved ← get_u32 index.file (entry + 4)
  guard (reserved == 0)
  stem ← non_empty stem_found
  keys ← non_empty keys_found
  done (record { kind = kind; stem = stem; keys = keys })

unfoldable pub check_records : GenerIndex → ℕ → ℕ → Run (Unit {0})
check_records index zero item = done tt
check_records index (suc n) item = check_record index item >>= λ _. check_records index n (item + 1)
