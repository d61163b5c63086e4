-- ===== src/GenerIndex/Safety.antt =====
-- Opening an index never reads outside the file, whatever bytes it holds.
use libmorpheus.Prelude.{
  ℕ, zero, suc, ◌+◌, ◌*◌, ◌≤◌, ◌<◌, ◌≡◌, refl, Option, none, some, List, [], ◌∷◌, length, arith,
  Bool, true, false, Bool-cases, inl, inr, ◌==◌,
}
use libmorpheus.GenerIndex.Bytes.{done, ◌>>=◌}
use libmorpheus.GenerIndex.Format.{
  GenerIndex, CString, magic, matches_at, check_lemma, check_lemmas, check_block, check_blocks,
  check_record, check_records,
}
use libmorpheus.GenerIndex.Open.{
  check_header, check_sections, check_tables, valid_layout, open_owned, open_memory, open_file,
  FileAnswers,
}
use libmorpheus.GenerIndex.Reads.{
  Clean, >>=-Clean, IsDone, IsDone→Ends, Ends, load-Ends, get_u32-Ends, get_u64-Ends,
  string_at-Ends,
}
use libmorpheus.GenerIndex.Sections.{HasSections, check_sections-HasSections}

matches_at-Ends :
    (file : List ℕ) (i : ℕ) (ms : List ℕ)
    → i + length ms ≤ length file
    → Ends (matches_at file i ms)
unfolding matches_at
matches_at-Ends file i [] h = (true, refl)
matches_at-Ends file i (m ∷ ms) h =
    let (b, e) = load-Ends file i (omega arith) in
    rw e (elim (Bool-cases (b == m)) [
      | inl q ↦ rw (◌>>=◌, q) (matches_at-Ends file (i + 1) ms (omega arith))
      | inr q ↦ (false, rw (◌>>=◌, q))
    ])

check_header-Clean : (file : List ℕ) → Clean (check_header file)
unfolding check_header
check_header-Clean file = ground (
  arith,
  matches_at-Ends file 0 magic,
  get_u32-Ends file 8,
  get_u32-Ends file 12,
  get_u64-Ends file 56,
)

check_header-fits : (file : List ℕ) → check_header file ≡ done tt → 64 ≤ length file
unfolding check_header
check_header-fits file h = ground arith

check_sections-Clean : (file : List ℕ) → 64 ≤ length file → Clean (check_sections file)
unfolding check_sections
check_sections-Clean file h = ground (
  arith,
  get_u64-Ends file 16,
  get_u64-Ends file 24,
  get_u64-Ends file 32,
  get_u64-Ends file 40,
  get_u64-Ends file 48,
)

module _ (index : GenerIndex) (s : HasSections index) where
  check_lemma-Clean :
      (item expected : ℕ) (previous : Option CString)
      → item < index.lemma_count
      → Clean (check_lemma index item expected previous)
  unfolding check_lemma
  check_lemma-Clean item expected previous h =
      let entry = index.lemmas + item * 24 in
      let (offset, e) = get_u64-Ends index.file entry (omega arith) in
      let (found, f) = string_at-Ends index offset (omega arith) in
      ground (
        arith,
        get_u64-Ends index.file (entry + 8),
        get_u32-Ends index.file (entry + 16),
        get_u32-Ends index.file (entry + 20),
      )

  check_block-Clean :
      (item expected : ℕ) → item < index.block_count → Clean (check_block index item expected)
  unfolding check_block
  check_block-Clean item expected h =
      let entry = index.blocks + item * 16 in
      ground (
        arith,
        get_u64-Ends index.file entry,
        get_u32-Ends index.file (entry + 8),
        get_u32-Ends index.file (entry + 12),
      )

  check_record-Clean : (item : ℕ) → item < index.record_count → Clean (check_record index item)
  unfolding check_record
  check_record-Clean item h =
      let entry = index.records + item * 24 in
      let (stem, e) = get_u64-Ends index.file (entry + 8) (omega arith) in
      let (keys, f) = get_u64-Ends index.file (entry + 16) (omega arith) in
      ground (
        arith,
        get_u32-Ends index.file entry,
        get_u32-Ends index.file (entry + 4),
        string_at-Ends index stem,
        string_at-Ends index keys,
      )

  check_lemmas-Clean :
      (n item expected : ℕ) (previous : Option CString)
      → item + n ≤ index.lemma_count
      → Clean (check_lemmas index n item expected previous)
  unfolding check_lemmas
  check_lemmas-Clean zero item expected previous h = tt
  check_lemmas-Clean (suc n) item expected previous h =
      >>=-Clean (check_lemma index item expected previous) _
        (check_lemma-Clean item expected previous (omega arith))
        (λ e _. check_lemmas-Clean n (item + 1) _ (some e.key) (omega arith))

  check_blocks-Clean :
      (n item expected : ℕ)
      → item + n ≤ index.block_count
      → Clean (check_blocks index n item expected)
  unfolding check_blocks
  check_blocks-Clean zero item expected h = tt
  check_blocks-Clean (suc n) item expected h =
      >>=-Clean (check_block index item expected) _ (check_block-Clean item expected (omega arith))
        (λ e _. check_blocks-Clean n (item + 1) _ (omega arith))

  check_records-Clean :
      (n item : ℕ) → item + n ≤ index.record_count → Clean (check_records index n item)
  unfolding check_records
  check_records-Clean zero item h = tt
  check_records-Clean (suc n) item h =
      >>=-Clean (check_record index item) _ (check_record-Clean item (omega arith))
        (λ _ _. check_records-Clean n (item + 1) (omega arith))

  check_tables-Clean : Clean (check_tables index)
  unfolding check_tables
  check_tables-Clean = ground (
    arith,
    check_lemmas-Clean index.lemma_count 0 0 none,
    check_blocks-Clean index.block_count 0 0,
    check_records-Clean index.record_count 0,
  )

valid_layout-Clean : (file : List ℕ) → Clean (valid_layout file)
unfolding valid_layout
valid_layout-Clean file = >>=-Clean (check_header file) _ (check_header-Clean file) (λ _ header.
    >>=-Clean (check_sections file) _ (check_sections-Clean file (check_header-fits file header))
      (λ index sections.
        >>=-Clean (check_tables index) _
          (check_tables-Clean index (check_sections-HasSections file sections).1) (λ _ _. tt)))

open_owned-IsDone : (created : Bool) (file : List ℕ) → IsDone (open_owned created file)
unfolding open_owned
open_owned-IsDone false file = tt
open_owned-IsDone true file = ground (arith, valid_layout-Clean file)

-- Opening an index from memory ends with a status, whatever the bytes of the block, the pointers
-- and the answers of the allocator are: no read leaves the block.
pub open_memory-Ends :
    (input : Option (List ℕ)) (slot copied created : Bool)
    → Ends (open_memory input slot copied created)
open_memory-Ends input slot copied created = IsDone→Ends _ (returns input)
  where
    returns : (input : Option (List ℕ)) → IsDone (open_memory input slot copied created)
    returns none = unfold open_memory in tt
    returns (some file) = unfold open_memory in ground (arith, open_owned-IsDone created file)

-- Opening an index file ends with a status on all answers of stdio and of the allocator.
pub open_file-Ends :
    (path slot : Bool) (answers : FileAnswers) (allocated created : Bool)
    → Ends (open_file path slot answers allocated created)
unfolding open_file
open_file-Ends path slot answers allocated created =
    IsDone→Ends _ (ground (arith, open_owned-IsDone created answers.read))
