-- ===== src/GenerIndex/Tables.antt =====
-- What the three tables of an index hold, as lists: the abstract view of src/api/gener_index.c.
-- `LemmaTable`, `BlockTable` and `RecordTable` say that a list is what the file has in a table.
use libmorpheus.Prelude.{
  ℕ, ◌+◌, ◌*◌, ◌≤◌, ◌<◌, ◌≡◌, ◌≢◌, true, Option, none, some, List, [], ◌∷◌, Ordering, strcmp,
}
use libmorpheus.GenerIndex.Bytes.{done, get_u32, get_u64}
use libmorpheus.GenerIndex.Format.{
  GenerIndex, CString, LemmaEntry, BlockEntry, RecordEntry, string_at, ascends,
}

-- The entry `e` stands at place `item` of the lemma table.
pub record LemmaAt (index : GenerIndex) (item : ℕ) (e : LemmaEntry) : Type 0 where
  pub offset : ℕ
  pub offset_read : get_u64 index.file (index.lemmas + item * 24) ≡ done offset
  pub key_read : string_at index offset ≡ done (some e.key)
  pub first_read : get_u64 index.file (index.lemmas + item * 24 + 8) ≡ done e.first_block
  pub count_read : get_u32 index.file (index.lemmas + item * 24 + 16) ≡ done e.block_count
  pub key_full : e.key ≢ []

pub record BlockAt (index : GenerIndex) (item : ℕ) (e : BlockEntry) : Type 0 where
  pub first_read : get_u64 index.file (index.blocks + item * 16) ≡ done e.first_record
  pub count_read : get_u32 index.file (index.blocks + item * 16 + 8) ≡ done e.record_count

pub record RecordAt (index : GenerIndex) (item : ℕ) (e : RecordEntry) : Type 0 where
  pub kind_read : get_u32 index.file (index.records + item * 24) ≡ done e.kind
  pub stem_offset : ℕ
  pub stem_offset_read : get_u64 index.file (index.records + item * 24 + 8) ≡ done stem_offset
  pub stem_read : string_at index stem_offset ≡ done (some e.stem)
  pub keys_offset : ℕ
  pub keys_offset_read : get_u64 index.file (index.records + item * 24 + 16) ≡ done keys_offset
  pub keys_read : string_at index keys_offset ≡ done (some e.keys)
  pub kind_low : 1 ≤ e.kind
  pub kind_high : e.kind ≤ 5
  pub stem_full : e.stem ≢ []
  pub keys_full : e.keys ≢ []

-- From place `item` on the table holds the list: the keys ascend strictly, behind `previous`, and
-- the runs of blocks are not empty, follow one another from `expected` on and end at `total`.
abbrev pub LemmaTable :
    GenerIndex → (item expected : ℕ) → Option CString → (total : ℕ) → List LemmaEntry → Type 0
LemmaTable index item expected previous total [] = expected ≡ total
LemmaTable index item expected previous total (e ∷ es) =
    LemmaAt index item e
    × (e.first_block ≡ expected)
    × (0 < e.block_count)
    × (expected + e.block_count ≤ index.block_count)
    × (ascends previous e.key ≡ true)
    × LemmaTable index (item + 1) (expected + e.block_count) (some e.key) total es

abbrev pub BlockTable : GenerIndex → (item expected total : ℕ) → List BlockEntry → Type 0
BlockTable index item expected total [] = expected ≡ total
BlockTable index item expected total (e ∷ es) =
    BlockAt index item e
    × (e.first_record ≡ expected)
    × (0 < e.record_count)
    × (expected + e.record_count ≤ index.record_count)
    × BlockTable index (item + 1) (expected + e.record_count) total es

abbrev pub RecordTable : GenerIndex → (item : ℕ) → List RecordEntry → Type 0
RecordTable index item [] = Unit
RecordTable index item (e ∷ es) = RecordAt index item e × RecordTable index (item + 1) es

-- The specification of a lookup: the first entry with the key.
abbrev pub find_lemma : List LemmaEntry → CString → Option LemmaEntry
find_lemma [] key = none
find_lemma (e ∷ es) key = elim (strcmp key e.key) [ Ordering.eq ↦ some e | _ ↦ find_lemma es key ]
