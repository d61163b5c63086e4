-- ===== src/GenerIndex/Open.antt =====
-- `valid_layout`, `open_owned` and the ways to open and close an index, of src/api/gener_index.c.
-- What `malloc`, `calloc` and stdio answer is an argument of the functions that call them.
use libmorpheus.Prelude.{
  ℕ, ◌+◌, Bool, true, false, ◌||◌, not, Option, none, some, List, length, drop, leb, ◌==◌, ◌!=◌,
  if◌then◌else◌,
}
use libmorpheus.GenerIndex.Bytes.{
  Run, done, reject, fault, stuck, ◌>>=◌, ◌>>◌, guard, require, get_u32, get_u64, payload_hash,
  size_max, add_size, table_size,
}
use libmorpheus.GenerIndex.Format.{
  GenerIndex, magic, matches_at, header_size, lemma_entry_size, block_entry_size, record_entry_size,
  check_lemmas, check_blocks, check_records,
}

-- The fixed part of the header, up to the counts.
unfoldable pub check_header : List ℕ → Run (Unit {0})
check_header file = do
  guard (leb header_size (length file))
  same ← matches_at file 0 magic
  guard same
  version ← get_u32 file 8
  guard (version == 1)
  language ← get_u32 file 12
  guard (language == 1)
  reserved ← get_u64 file 56
  guard (reserved == 0)

-- The counts, the sizes of the sections, which fill the file exactly, and the checksum.
unfoldable pub check_sections : List ℕ → Run GenerIndex
check_sections file = do
  lemma_count ← get_u64 file 16
  block_count ← get_u64 file 24
  record_count ← get_u64 file 32
  string_size ← get_u64 file 40
  guard (leb string_size size_max)
  lemma_size ← require (table_size lemma_count lemma_entry_size)
  block_size ← require (table_size block_count block_entry_size)
  record_size ← require (table_size record_count record_entry_size)
  size_1 ← require (add_size header_size lemma_size)
  size_2 ← require (add_size size_1 block_size)
  size_3 ← require (add_size size_2 record_size)
  expected_size ← require (add_size size_3 string_size)
  guard (expected_size == length file)
  checksum ← get_u64 file 48
  guard (checksum == payload_hash (drop header_size file))
  done (record {
    file = file;
    lemmas = header_size;
    blocks = header_size + lemma_size;
    records = header_size + lemma_size + block_size;
    strings = header_size + lemma_size + block_size + record_size;
    string_size = string_size;
    lemma_count = lemma_count;
    block_count = block_count;
    record_count = record_count;
  })

-- The three table loops, with the test on the final running total after each of the first two.
unfoldable pub check_tables : GenerIndex → Run (Unit {0})
check_tables index = do
  expected_block ← check_lemmas index index.lemma_count 0 0 none
  guard (expected_block == index.block_count)
  expected_record ← check_blocks index index.block_count 0 0
  guard (expected_record == index.record_count)
  check_records index index.record_count 0

unfoldable pub valid_layout : List ℕ → Run GenerIndex
valid_layout file = do
  check_header file
  index ← check_sections file
  check_tables index
  done index

pub data IndexStatus : Type 0 where
  ok invalid io_error no_memory not_found : IndexStatus

-- What a call leaves in `*index`: `none` is a null pointer.
abbrev pub Opened : Type 0
Opened = IndexStatus × Option GenerIndex

-- `created` tells whether `calloc` gave the structure.
unfoldable pub open_owned : Bool → List ℕ → Run Opened
open_owned false file = done (no_memory, none)
open_owned true file = elim (valid_layout file) [
  | done index ↦ done (ok, some index)
  | reject ↦ done (invalid, none)
  | fault ↦ fault
  | stuck ↦ stuck
]

-- `input` is the memory block, `slot` tells whether the pointer `index` is given, `copied` whether
-- `malloc` succeeds. The inner `none` is a null pointer.
unfoldable pub open_memory : Option (List ℕ) → Bool → Bool → Bool → Run Opened
open_memory none slot copied created = done (invalid, none)
open_memory (some file) slot copied created =
    if length file == 0 || not slot
    then done (invalid, none)
    else if copied
    then open_owned created file
    else done (no_memory, none)

-- The answers of stdio: `length` is what `ftell` says, `none` a negative number, and `read` what
-- `fread` delivers.
pub record FileAnswers : Type 0 where
  pub opened : Bool
  pub seeks_end : Bool
  pub tells : Option ℕ
  pub seeks_start : Bool
  pub read : List ℕ
  pub closed : Bool

abbrev pub positive : Option ℕ → Bool
positive none = false
positive (some n) = n != 0

abbrev pub is_length : Option ℕ → ℕ → Bool
is_length none n = false
is_length (some m) n = m == n

-- `path` tells whether a path that is not empty is given.
unfoldable pub open_file : Bool → Bool → FileAnswers → Bool → Bool → Run Opened
open_file path slot answers allocated created =
    if not path || not slot
    then done (invalid, none)
    else if not answers.opened
    then done (io_error, none)
    else if not answers.seeks_end || not (positive answers.tells) || not answers.seeks_start
    then done (io_error, none)
    else if not allocated
    then done (no_memory, none)
    else if not (is_length answers.tells (length answers.read)) || not answers.closed
    then done (io_error, none)
    else open_owned created answers.read
