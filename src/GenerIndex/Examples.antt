-- ===== src/GenerIndex/Examples.antt =====
-- A generation index of two lemmas, and the theorems at this file.
use libmorpheus.Prelude.{arith, ℕ, ◌+◌, ◌<◌, ◌≡◌, refl, true, none, some, List, [], ◌∷◌, strcmp}
use libmorpheus.GenerIndex.Bytes.{
  done, load, get_uint, get_u32, get_u64, hash_bytes, payload_hash, add_size, table_size,
}
use libmorpheus.GenerIndex.Format.{
  GenerIndex, CString, matches_at, scan_string, string_at, check_lemma, check_lemmas, check_block,
  check_blocks, check_record, check_records, RecordEntry,
}
use libmorpheus.GenerIndex.Open.{
  ok, invalid, FileAnswers, check_header, check_sections, check_tables, valid_layout, open_owned,
  open_memory, open_file,
}
use libmorpheus.GenerIndex.Lookup.{LemmaView, BlockView, lookup_loop, lookup, block, record_view}
use libmorpheus.GenerIndex.LittleEndian.{BytesAt}
use libmorpheus.GenerIndex.Reads.{Ends}
use libmorpheus.GenerIndex.Tables.{find_lemma}
use libmorpheus.GenerIndex.Safety.{open_memory-Ends, open_file-Ends}
use libmorpheus.GenerIndex.WellFormed.{Contents, Holds, open_memory-Holds}
use libmorpheus.GenerIndex.Search.{answer, lookup-eq-find_lemma}
use libmorpheus.GenerIndex.Navigate.{record_answer, IsUsable, lookup_reaches}

program : Unit {0}
unfolding load get_uint get_u32 get_u64 hash_bytes payload_hash add_size table_size matches_at
    scan_string string_at check_lemma check_lemmas check_block check_blocks check_record
    check_records check_header check_sections check_tables valid_layout open_owned open_memory
    open_file lookup_loop lookup block record_view strcmp
program = tt

abbrev sample : List ℕ
sample =
    77 ∷ 79 ∷ 82 ∷ 80 ∷ 72 ∷ 71 ∷ 69 ∷ 78 ∷ 1 ∷ 0 ∷ 0 ∷ 0 ∷ 1 ∷ 0 ∷ 0 ∷ 0 ∷ 2 ∷ 0 ∷ 0 ∷ 0 ∷ 0 ∷ 0
    ∷ 0 ∷ 0 ∷ 2 ∷ 0 ∷ 0 ∷ 0 ∷ 0 ∷ 0 ∷ 0 ∷ 0 ∷ 2 ∷ 0 ∷ 0 ∷ 0 ∷ 0 ∷ 0 ∷ 0 ∷ 0 ∷ 31 ∷ 0 ∷ 0 ∷ 0 ∷ 0 ∷ 0
    ∷ 0 ∷ 0 ∷ 121 ∷ 237 ∷ 12 ∷ 95 ∷ 200 ∷ 93 ∷ 180 ∷ 198 ∷ 0 ∷ 0 ∷ 0 ∷ 0 ∷ 0 ∷ 0 ∷ 0 ∷ 0 ∷ 0 ∷ 0 ∷ 0
    ∷ 0 ∷ 0 ∷ 0 ∷ 0 ∷ 0 ∷ 0 ∷ 0 ∷ 0 ∷ 0 ∷ 0 ∷ 0 ∷ 0 ∷ 0 ∷ 1 ∷ 0 ∷ 0 ∷ 0 ∷ 0 ∷ 0 ∷ 0 ∷ 0 ∷ 7 ∷ 0 ∷ 0
    ∷ 0 ∷ 0 ∷ 0 ∷ 0 ∷ 0 ∷ 1 ∷ 0 ∷ 0 ∷ 0 ∷ 0 ∷ 0 ∷ 0 ∷ 0 ∷ 1 ∷ 0 ∷ 0 ∷ 0 ∷ 0 ∷ 0 ∷ 0 ∷ 0 ∷ 0 ∷ 0 ∷ 0
    ∷ 0 ∷ 0 ∷ 0 ∷ 0 ∷ 0 ∷ 1 ∷ 0 ∷ 0 ∷ 0 ∷ 0 ∷ 0 ∷ 0 ∷ 0 ∷ 1 ∷ 0 ∷ 0 ∷ 0 ∷ 0 ∷ 0 ∷ 0 ∷ 0 ∷ 1 ∷ 0 ∷ 0
    ∷ 0 ∷ 0 ∷ 0 ∷ 0 ∷ 0 ∷ 1 ∷ 0 ∷ 0 ∷ 0 ∷ 0 ∷ 0 ∷ 0 ∷ 0 ∷ 13 ∷ 0 ∷ 0 ∷ 0 ∷ 0 ∷ 0 ∷ 0 ∷ 0 ∷ 20 ∷ 0
    ∷ 0 ∷ 0 ∷ 0 ∷ 0 ∷ 0 ∷ 0 ∷ 1 ∷ 0 ∷ 0 ∷ 0 ∷ 0 ∷ 0 ∷ 0 ∷ 0 ∷ 17 ∷ 0 ∷ 0 ∷ 0 ∷ 0 ∷ 0 ∷ 0 ∷ 0 ∷ 20
    ∷ 0 ∷ 0 ∷ 0 ∷ 0 ∷ 0 ∷ 0 ∷ 0 ∷ 108 ∷ 111 ∷ 47 ∷ 103 ∷ 111 ∷ 115 ∷ 0 ∷ 113 ∷ 101 ∷ 111 ∷ 47 ∷ 115
    ∷ 0 ∷ 108 ∷ 111 ∷ 103 ∷ 0 ∷ 113 ∷ 101 ∷ 0 ∷ 111 ∷ 115 ∷ 95 ∷ 111 ∷ 117 ∷ 32 ∷ 109 ∷ 97 ∷ 115
    ∷ 99 ∷ 0 ∷ []

abbrev pub sample_index : GenerIndex
sample_index = record {
  file = sample;
  lemmas = 64;
  blocks = 112;
  records = 144;
  strings = 192;
  string_size = 31;
  lemma_count = 2;
  block_count = 2;
  record_count = 2;
}

sample_opens : open_memory (some sample) true true true ≡ done (ok, some sample_index)
unfolding program
sample_opens = refl

-- One changed byte and the checksum no longer fits.
sample_damaged : open_memory (some (77 ∷ 0 ∷ sample)) true true true ≡ done (invalid, none)
unfolding program
sample_damaged = refl

abbrev pub sample_key : CString
sample_key = b'e' ∷ b'o' ∷ b'/' ∷ b's' ∷ []

abbrev sample_view : LemmaView
sample_view = record { first_block = 1; block_count = 1 }

sample_lookup :
    lookup (some sample_index) (some (b'q' ∷ sample_key)) true ≡ done (ok, some sample_view)
unfolding program
sample_lookup = refl

abbrev sample_answers : FileAnswers
sample_answers = record {
  opened = true;
  seeks_end = true;
  tells = some 223;
  seeks_start = true;
  read = sample;
  closed = true;
}

sample_opens_file : open_file true true sample_answers true true ≡ done (ok, some sample_index)
unfolding program
sample_opens_file = refl

open_memory-Ends_example : Ends (open_memory (some sample) true true true)
open_memory-Ends_example = open_memory-Ends (some sample) true true true

open_file-Ends_example : Ends (open_file true true sample_answers true true)
open_file-Ends_example = open_file-Ends true true sample_answers true true

open_memory-Holds_example : (sample_index.file ≡ sample) × ((c : Contents) × Holds sample_index c)
open_memory-Holds_example = open_memory-Holds sample true true true sample_opens

pub sample_held : (c : Contents) × Holds sample_index c
sample_held = (open_memory-Holds sample true true true sample_opens).1

abbrev pub sample_contents : Contents
sample_contents = sample_held.0

pub sample-Holds : Holds sample_index sample_contents
sample-Holds = sample_held.1

lookup-eq-find_lemma_example :
    lookup (some sample_index) (some (b'q' ∷ sample_key)) true
    ≡ done (answer (find_lemma sample_contents.lemmas (b'q' ∷ sample_key)))
lookup-eq-find_lemma_example =
    lookup-eq-find_lemma sample_index sample_contents b'q' sample_key sample-Holds

lookup_reaches_example :
    (0 < sample_view.block_count)
    × ((i : ℕ)
        → i < sample_view.block_count
        → (w : BlockView) × (block (some sample_index) (sample_view.first_block + i) true
            ≡ done (ok, some w))
          × (0 < w.record_count)
          × ((j : ℕ)
              → j < w.record_count
              → (e : RecordEntry) × (record_view (some sample_index) (w.first_record + j) true
                  ≡ done (record_answer (some e)))
                × IsUsable e))
lookup_reaches_example =
    lookup_reaches sample_index sample_contents b'q' sample_key sample_view sample-Holds
      sample_lookup

sample_version : BytesAt sample 8 (1 ∷ 0 ∷ 0 ∷ 0 ∷ [])
unfolding program
sample_version =
    (refl, omega arith, (refl, omega arith, (refl, omega arith, (refl, omega arith, tt))))

sample_checksum : BytesAt sample 48 (121 ∷ 237 ∷ 12 ∷ 95 ∷ 200 ∷ 93 ∷ 180 ∷ 198 ∷ [])
unfolding program
sample_checksum = (
  refl,
  omega arith,
  (
    refl,
    omega arith,
    (
      refl,
      omega arith,
      (
        refl,
        omega arith,
        (refl, omega arith, (refl, omega arith, (refl, omega arith, (refl, omega arith, tt)))),
      ),
    ),
  ),
)
