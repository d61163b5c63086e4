-- ===== src/GenerIndex/Sections.antt =====
-- The sections of an index that `check_sections` accepts fill the file exactly.
use libmorpheus.Prelude.{ℕ, ◌+◌, ◌*◌, ◌/◌, ◌≤◌, ◌≡◌, ◌≢◌, some, List, length, arith}
use libmorpheus.GenerIndex.Bytes.{done, size_max, add_size, table_size}
use libmorpheus.GenerIndex.Format.{GenerIndex}
use libmorpheus.GenerIndex.Open.{check_sections}

mul-le-of_le_div : (c e m : ℕ) → c ≢ 0 → e ≤ m / c → c * e ≤ m
mul-le-of_le_div c e m h k = grind arith

pub table_size_lem :
    (count entry_size : ℕ) {size : ℕ}
    → table_size count entry_size ≡ some size
    → (size ≡ count * entry_size) × (count ≤ size_max) × (size ≤ size_max)
unfolding table_size
table_size_lem count entry_size h = ground (arith, mul-le-of_le_div count entry_size size_max)

pub add_size_lem :
    (total amount : ℕ) {size : ℕ}
    → total ≤ size_max
    → add_size total amount ≡ some size
    → (size ≡ total + amount) × (size ≤ size_max)
unfolding add_size
add_size_lem total amount t h = ground arith

-- The tables stand behind the header, one after the other and each entirely inside the file, then
-- the strings, which end where the file ends. No count reaches 2 ^ 64.
pub record HasSections (index : GenerIndex) : Type 0 where
  pub lemmas_start : index.lemmas ≡ 64
  pub blocks_start : index.blocks ≡ index.lemmas + index.lemma_count * 24
  pub records_start : index.records ≡ index.blocks + index.block_count * 16
  pub strings_start : index.strings ≡ index.records + index.record_count * 24
  pub strings_end : index.strings + index.string_size ≡ length index.file
  pub lemma_bound : index.lemma_count ≤ size_max
  pub block_bound : index.block_count ≤ size_max
  pub record_bound : index.record_count ≤ size_max

pub check_sections-HasSections :
    (file : List ℕ) {index : GenerIndex}
    → check_sections file ≡ done index
    → (index.file ≡ file) × HasSections index
unfolding check_sections
check_sections-HasSections file h = grind (arith, table_size_lem, add_size_lem)
