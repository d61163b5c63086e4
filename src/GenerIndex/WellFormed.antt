-- ===== src/GenerIndex/WellFormed.antt =====
-- An index that opens is well formed: its sections fill the file and its tables hold lists of
-- entries with ascending keys and contiguous runs.
use libmorpheus.Prelude.{
  ℕ, zero, suc, ◌+◌, ◌%◌, ◌^◌, ◌≤◌, ◌≡◌, refl, ◌∙◌, Bool, true, false, Option, none, some, List, [],
  ◌∷◌, length, ◌==◌, arith,
}
use mathlib.Core.Path.{subst}
use libmorpheus.GenerIndex.Bytes.{done, guard, size_max}
use libmorpheus.GenerIndex.Format.{
  GenerIndex, CString, LemmaEntry, BlockEntry, RecordEntry, check_lemma, check_lemmas, check_block,
  check_blocks, check_record, check_records,
}
use libmorpheus.GenerIndex.Open.{
  ok, check_header, check_sections, check_tables, valid_layout, open_owned, open_memory,
}
use libmorpheus.GenerIndex.Reads.{>>=-eq-done}
use libmorpheus.GenerIndex.Sections.{HasSections, check_sections-HasSections}
use libmorpheus.GenerIndex.Tables.{RecordAt, LemmaTable, BlockTable, RecordTable}

module _ (index : GenerIndex) where
  check_lemma_lem :
      (item expected : ℕ) (previous : Option CString) (e : LemmaEntry)
      → check_lemma index item expected previous ≡ done e
      → LemmaTable index item expected previous (expected + e.block_count) (e ∷ [])
  unfolding check_lemma
  check_lemma_lem item expected previous e h =
      let (offset, o, h1) = >>=-eq-done _ _ h in
      let (found, f, h2) = >>=-eq-done _ _ h1 in
      (
        record {
          offset = offset;
          offset_read = o;
          key_read = f ∙ ground arith;
          first_read = ground arith;
          count_read = ground arith;
          key_full = ground arith;
        },
        ground arith,
        ground arith,
        ground arith,
        ground arith,
        refl,
      )

  check_block_lem :
      (item expected : ℕ) (e : BlockEntry)
      → check_block index item expected ≡ done e
      → BlockTable index item expected (expected + e.record_count) (e ∷ [])
  unfolding check_block
  check_block_lem item expected e h = ground arith

  check_record_lem :
      (item : ℕ) (e : RecordEntry) → check_record index item ≡ done e → RecordAt index item e
  unfolding check_record
  check_record_lem item e h =
      let (kind, k, h1) = >>=-eq-done _ _ h in
      let (stem_offset, so, h2) = >>=-eq-done _ _ h1 in
      let (stem, s, h3) = >>=-eq-done _ _ h2 in
      let (keys_offset, ko, h4) = >>=-eq-done _ _ h3 in
      let (keys, ks, h5) = >>=-eq-done _ _ h4 in
      record {
        kind_read = k ∙ ground arith;
        stem_offset = stem_offset;
        stem_offset_read = so;
        stem_read = s ∙ ground arith;
        keys_offset = keys_offset;
        keys_offset_read = ko;
        keys_read = ks ∙ ground arith;
        kind_low = ground arith;
        kind_high = ground arith;
        stem_full = ground arith;
        keys_full = ground arith;
      }

  module _ (bound : index.block_count ≤ size_max) where
    check_lemmas-table :
        (n item expected total : ℕ) (previous : Option CString)
        → check_lemmas index n item expected previous ≡ done total
        → (t : List LemmaEntry) × (length t ≡ n) × LemmaTable index item expected previous total t
    unfolding check_lemmas
    check_lemmas-table zero item expected total previous h = ([], refl, ground arith)
    check_lemmas-table (suc n) item expected total previous h =
        let (e, first, rest) = >>=-eq-done _ _ h in
        let (at, run, pos, fits, asc, _) = check_lemma_lem item expected previous e first in
        let no_wrap : (expected + e.block_count) % 2 ^ 64 ≡ expected + e.block_count =
          omega arith in
        let (t, len, table) =
          check_lemmas-table n (item + 1) (expected + e.block_count) total (some e.key)
            (rw no_wrap at rest) in
        (e ∷ t, omega arith, (at, run, pos, fits, asc, table))

  module _ (bound : index.record_count ≤ size_max) where
    check_blocks-table :
        (n item expected total : ℕ)
        → check_blocks index n item expected ≡ done total
        → (t : List BlockEntry) × (length t ≡ n) × BlockTable index item expected total t
    unfolding check_blocks
    check_blocks-table zero item expected total h = ([], refl, ground arith)
    check_blocks-table (suc n) item expected total h =
        let (e, first, rest) = >>=-eq-done _ _ h in
        let (at, run, pos, fits, _) = check_block_lem item expected e first in
        let no_wrap : (expected + e.record_count) % 2 ^ 64 ≡ expected + e.record_count =
          omega arith in
        let (t, len, table) =
          check_blocks-table n (item + 1) (expected + e.record_count) total (rw no_wrap at rest) in
        (e ∷ t, omega arith, (at, run, pos, fits, table))

  check_records-table :
      (n item : ℕ)
      → check_records index n item ≡ done tt
      → (t : List RecordEntry) × (length t ≡ n) × RecordTable index item t
  unfolding check_records
  check_records-table zero item h = ([], refl, tt)
  check_records-table (suc n) item h =
      let (e, first, rest) = >>=-eq-done _ _ h in
      let (t, len, table) = check_records-table n (item + 1) rest in
      (e ∷ t, omega arith, (check_record_lem item e first, table))

-- The contents of an index, as lists.
pub record Contents : Type 0 where
  pub lemmas : List LemmaEntry
  pub blocks : List BlockEntry
  pub records : List RecordEntry

-- The index holds the contents: the sections fill the file, each table has as many entries as the
-- header counts, the runs of blocks cover the block table and the runs of records the record table.
pub record Holds (index : GenerIndex) (c : Contents) : Type 0 where
  pub sections : HasSections index
  pub lemmas_length : length c.lemmas ≡ index.lemma_count
  pub lemmas_held : LemmaTable index 0 0 none index.block_count c.lemmas
  pub blocks_length : length c.blocks ≡ index.block_count
  pub blocks_held : BlockTable index 0 0 index.record_count c.blocks
  pub records_length : length c.records ≡ index.record_count
  pub records_held : RecordTable index 0 c.records

check_tables-Holds :
    (index : GenerIndex)
    → HasSections index
    → check_tables index ≡ done tt
    → (c : Contents) × Holds index c
unfolding check_tables
check_tables-Holds index s h =
    let (blocks_end, l, h1) = >>=-eq-done (check_lemmas index index.lemma_count 0 0 none) _ h in
    let (_, be, h2) = >>=-eq-done (guard (blocks_end == index.block_count)) _ h1 in
    let (records_end, b, h3) = >>=-eq-done (check_blocks index index.block_count 0 0) _ h2 in
    let (_, re, h4) = >>=-eq-done (guard (records_end == index.record_count)) _ h3 in
    let block_end : blocks_end ≡ index.block_count = ground arith in
    let record_end : records_end ≡ index.record_count = ground arith in
    let (ls, ll, lt) = check_lemmas-table index s.block_bound _ 0 0 _ none l in
    let (bs, bl, bt) = check_blocks-table index s.record_bound _ 0 0 _ b in
    let (rs, rl, rt) = check_records-table index _ 0 h4 in
    (
      record { lemmas = ls; blocks = bs; records = rs },
      record {
        sections = s;
        lemmas_length = ll;
        lemmas_held = subst (λ n. LemmaTable index 0 0 none n ls) block_end lt;
        blocks_length = bl;
        blocks_held = subst (λ n. BlockTable index 0 0 n bs) record_end bt;
        records_length = rl;
        records_held = rt;
      },
    )

valid_layout-Holds :
    (file : List ℕ) (index : GenerIndex)
    → valid_layout file ≡ done index
    → (index.file ≡ file) × ((c : Contents) × Holds index c)
unfolding valid_layout
valid_layout-Holds file index h =
    let (_, _, h1) = >>=-eq-done (check_header file) _ h in
    let (i, s, h2) = >>=-eq-done (check_sections file) _ h1 in
    let (_, t, h3) = >>=-eq-done (check_tables i) _ h2 in
    let same : i ≡ index = ground arith in
    let (f, sections) = check_sections-HasSections file (rw same at s) in
    (f, check_tables-Holds index sections (subst (λ x. check_tables x ≡ done tt) same t))

-- An index that opens from memory is the one of the given bytes and holds contents: sorted keys,
-- contiguous runs, and records with strings that are not empty.
pub open_memory-Holds :
    (file : List ℕ) (slot copied created : Bool) {index : GenerIndex}
    → open_memory (some file) slot copied created ≡ done (ok, some index)
    → (index.file ≡ file) × ((c : Contents) × Holds index c)
unfolding open_memory open_owned
open_memory-Holds file slot copied created {index} h =
    valid_layout-Holds file index (accepted slot copied created h)
  where
    accepted :
        (slot copied created : Bool)
        → open_memory (some file) slot copied created ≡ done (ok, some index)
        → valid_layout file ≡ done index
    accepted slot copied false h = ground arith
    accepted slot copied true h = ground arith
