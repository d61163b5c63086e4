-- ===== src/GenerIndex/Navigate.antt =====
-- `morpheus_gener_index_block` and `morpheus_gener_index_record` on an index that holds contents:
-- they answer from the block and record lists, and what a lookup points to is there.
use mathlib.Core.Path.{subst₂}
use libmorpheus.Prelude.{
  ℕ, zero, suc, ◌+◌, ◌≤◌, ◌<◌, ◌≡◌, ◌≢◌, refl, true, inl, inr, ◌⊎◌, Option-cases, Option, none,
  some, List, [], ◌∷◌, get_elem?, length, arith, strcmp, ◌∙◌,
}
use libmorpheus.GenerIndex.Bytes.{done}
use libmorpheus.GenerIndex.Format.{GenerIndex, CString, LemmaEntry, BlockEntry, RecordEntry}
use libmorpheus.GenerIndex.Open.{ok, not_found}
use libmorpheus.GenerIndex.Lookup.{
  Answer, LemmaView, BlockView, RecordView, lookup, block, record_view,
}
use libmorpheus.GenerIndex.Tables.{BlockAt, RecordAt, BlockTable, RecordTable, find_lemma}
use libmorpheus.GenerIndex.WellFormed.{Contents, Holds}
use libmorpheus.GenerIndex.Sorted.{LemmaTable-at}
use libmorpheus.GenerIndex.Search.{Ordering-cases, answer, lookup-eq-find_lemma}

module _ (index : GenerIndex) where
  pub BlockTable-at :
      (t : List BlockEntry) (k item place expected total : ℕ) (e : BlockEntry)
      → BlockTable index item expected total t
      → get_elem? t k ≡ some e
      → item + k ≡ place
      → BlockAt index place e
        × (0 < e.record_count)
        × (e.first_record + e.record_count ≤ index.record_count)
  BlockTable-at [] k item place expected total e h g p = cc
  BlockTable-at (x ∷ t) zero item place expected total e h g p =
      let same : x ≡ e = cc in
      let here : item ≡ place = omega arith in
      (subst₂ (BlockAt index) here same h.0, ground arith, ground arith)
  BlockTable-at (x ∷ t) (suc k) item place expected total e h g p =
      let (_, _, _, _, rest) = h in
      BlockTable-at t k (item + 1) place (expected + x.record_count) total e rest g (omega arith)

  RecordTable-at :
      (t : List RecordEntry) (k item place : ℕ) (e : RecordEntry)
      → RecordTable index item t
      → get_elem? t k ≡ some e
      → item + k ≡ place
      → RecordAt index place e
  RecordTable-at [] k item place e h g p = cc
  RecordTable-at (x ∷ t) zero item place e h g p =
      let same : x ≡ e = cc in
      let here : item ≡ place = omega arith in subst₂ (RecordAt index) here same h.0
  RecordTable-at (x ∷ t) (suc k) item place e h g p =
      RecordTable-at t k (item + 1) place e h.1 g (omega arith)

abbrev pub block_answer : Option BlockEntry → Answer BlockView
block_answer none = (not_found, none)
block_answer (some e) =
    (ok, some (record { first_record = e.first_record; record_count = e.record_count }))

abbrev pub record_answer : Option RecordEntry → Answer RecordView
record_answer none = (not_found, none)
record_answer (some e) =
    (ok, some (record { kind = e.kind; stem = some e.stem; keys = some e.keys }))

module _ {ℓ} {A : Type ℓ} where
  place_cases :
      (t : List A) (k : ℕ)
      → ((length t ≤ k) × (get_elem? t k ≡ none))
        ⊎ ((k < length t) × ((e : A) × (get_elem? t k ≡ some e)))
  place_cases [] k = inl (omega arith, refl)
  place_cases (x ∷ t) zero = inr (omega arith, (x, refl))
  place_cases (x ∷ t) (suc k) = elim (place_cases t k) [
    | inl (le, e) ↦ inl (omega arith, e)
    | inr (lt, e) ↦ inr (omega arith, e)
  ]

-- On an index that holds contents the block query answers from the list of blocks, for every block
-- number, those out of range included.
pub block-eq-get_elem? :
    (index : GenerIndex) (c : Contents) (i : ℕ)
    → Holds index c
    → block (some index) i true ≡ done (block_answer (get_elem? c.blocks i))
unfolding block
block-eq-get_elem? index c i held = elim (place_cases c.blocks i) [
  | inl (past, e) ↦ rw e (ground (arith, held.blocks_length))
  | inr (inside, (e, g)) ↦
      let (here, _, _) =
        BlockTable-at index c.blocks i 0 i 0 index.record_count e held.blocks_held g
          (omega arith) in
      rw g (ground (arith, held.blocks_length))
]

-- The same for the record query; the strings of the view are never null pointers.
pub record_view-eq-get_elem? :
    (index : GenerIndex) (c : Contents) (i : ℕ)
    → Holds index c
    → record_view (some index) i true ≡ done (record_answer (get_elem? c.records i))
unfolding record_view
record_view-eq-get_elem? index c i held = elim (place_cases c.records i) [
  | inl (past, e) ↦ rw e (ground (arith, held.records_length))
  | inr (inside, (e, g)) ↦
      let here = RecordTable-at index c.records i 0 i e held.records_held g (omega arith) in
      rw g (ground (arith, held.records_length))
]

find_lemma-at :
    (t : List LemmaEntry) (key : CString) (e : LemmaEntry)
    → find_lemma t key ≡ some e
    → (k : ℕ) × (get_elem? t k ≡ some e)
find_lemma-at [] key e h = cc
find_lemma-at (x ∷ t) key e h = elim (Ordering-cases (strcmp key x.key)) [
  | inl lt ↦ let (k, g) = find_lemma-at t key e (rw (find_lemma, lt) at h) in (suc k, g)
  | inr (inl gt) ↦ let (k, g) = find_lemma-at t key e (rw (find_lemma, gt) at h) in (suc k, g)
  | inr (inr eq) ↦ (0, rw (find_lemma, eq) at h)
]

-- A record of the index that a caller can use: its kind is one of the five, its strings not empty.
abbrev pub IsUsable : RecordEntry → Type 0
IsUsable e = (1 ≤ e.kind) × (e.kind ≤ 5) × (e.stem ≢ []) × (e.keys ≢ [])

module _ (index : GenerIndex) (c : Contents) (held : Holds index c) where
  record_reached :
      (i : ℕ)
      → i < index.record_count
      → (e : RecordEntry) × (record_view (some index) i true ≡ done (record_answer (some e)))
        × IsUsable e
  record_reached i h = elim (place_cases c.records i) [
    | inl (past, g) ↦ absurd (omega (arith, held.records_length))
    | inr (inside, (e, g)) ↦
        let here = RecordTable-at index c.records i 0 i e held.records_held g (omega arith) in
        (
          e,
          record_view-eq-get_elem? index c i held ∙ rw g,
          (here.kind_low, here.kind_high, here.stem_full, here.keys_full),
        )
  ]

  block_reached :
      (i : ℕ)
      → i < index.block_count
      → (w : BlockView) × (block (some index) i true ≡ done (ok, some w))
        × (0 < w.record_count)
        × (w.first_record + w.record_count ≤ index.record_count)
  block_reached i h = elim (place_cases c.blocks i) [
    | inl (past, g) ↦ absurd (omega (arith, held.blocks_length))
    | inr (inside, (e, g)) ↦
        let (_, pos, fits) =
          BlockTable-at index c.blocks i 0 i 0 index.record_count e held.blocks_held g
            (omega arith) in
        (
          record { first_record = e.first_record; record_count = e.record_count },
          block-eq-get_elem? index c i held ∙ rw g,
          pos,
          fits,
        )
  ]

  pub view_fits :
      (b : ℕ) (s : CString) (v : LemmaView)
      → lookup (some index) (some (b ∷ s)) true ≡ done (ok, some v)
      → (0 < v.block_count) × (v.first_block + v.block_count ≤ index.block_count)
  view_fits b s v h =
      let eq : answer (find_lemma c.lemmas (b ∷ s)) ≡ (ok, some v) =
        cc (lookup-eq-find_lemma index c b s held) in
      elim (Option-cases (find_lemma c.lemmas (b ∷ s))) [
        | inl absent ↦ cc
        | inr (e, found) ↦
            let (k, at) = find_lemma-at c.lemmas (b ∷ s) e found in
            let (_, _, pos, fits) =
              LemmaTable-at index c.lemmas k 0 k 0 index.block_count none e held.lemmas_held at
                (omega arith) in
            ground arith
      ]

-- Whatever a successful lookup points to is in the index: its run of blocks is not empty, each
-- block of the run has a run of records that is not empty, and each record of that can be used.
pub lookup_reaches :
    (index : GenerIndex) (c : Contents) (b : ℕ) (s : CString) (v : LemmaView)
    → Holds index c
    → lookup (some index) (some (b ∷ s)) true ≡ done (ok, some v)
    → (0 < v.block_count)
      × ((i : ℕ)
          → i < v.block_count
          → (w : BlockView) × (block (some index) (v.first_block + i) true ≡ done (ok, some w))
            × (0 < w.record_count)
            × ((j : ℕ)
                → j < w.record_count
                → (e : RecordEntry) × (record_view (some index) (w.first_record + j) true
                    ≡ done (record_answer (some e)))
                  × IsUsable e))
lookup_reaches index c b s v held h =
    let (pos, fits) = view_fits index c held b s v h in
    (
      pos,
      λ i inside.
          let (w, block_ok, full, run) =
            block_reached index c held (v.first_block + i) (omega arith) in
          (
            w,
            block_ok,
            full,
            λ j within. record_reached index c held (w.first_record + j) (omega arith),
          ),
    )
