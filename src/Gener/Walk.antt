-- ===== src/Gener/Walk.antt =====
-- The loops of the generation service on an index that holds contents, against the abstract visits.
use libmorpheus.Prelude.{
  ℕ, zero, suc, ◌+◌, ◌%◌, ◌^◌, ◌≤◌, ◌<◌, ◌≡◌, refl, ◌∙◌, Bool, true, false, some, Option-cases,
  List, [], ◌∷◌, length, get_elem?, take, drop, ◌==◌, inl, inr, arith,
}
use libmorpheus.GenerIndex.Bytes.{done, size_max}
use libmorpheus.GenerIndex.Format.{GenerIndex, CString, BlockEntry}
use libmorpheus.GenerIndex.Tables.{find_lemma}
use libmorpheus.GenerIndex.WellFormed.{Contents, Holds}
use libmorpheus.GenerIndex.Search.{lookup-eq-find_lemma}
use libmorpheus.GenerIndex.Navigate.{
  BlockTable-at, view_fits, block-eq-get_elem?, record_view-eq-get_elem?,
}
use libmorpheus.Api.Generate.{service_ok}
use libmorpheus.Bridge.Form.{GkWord}
use libmorpheus.Gener.Visits.{
  records_of_block, visit_records, visit_blocks, visit_lemma, carry_on-eq, visit_blocks-eq,
}
use libmorpheus.Gener.Service.{
  Engine, Visited, generate_entry, generate_record, records_loop, blocks_loop, service_generate,
}

drop-at {ℓ} :
    {A : Type ℓ} (t : List A) (i : ℕ)
    → i < length t
    → (x : A) × (get_elem? t i ≡ some x) × (drop i t ≡ x ∷ drop (suc i) t)
drop-at [] i h = absurd (omega arith)
drop-at (x ∷ t) zero h = (x, refl, refl)
drop-at (x ∷ t) (suc i) h = drop-at t i (omega arith)

block_fits :
    (index : GenerIndex) (c : Contents)
    → Holds index c
    → (i : ℕ) (e : BlockEntry) → get_elem? c.blocks i ≡ some e
    → (e.first_record + e.record_count ≤ length c.records)
      × (e.first_record + e.record_count ≤ size_max)
block_fits index c held i e at =
    let (_, _, fits) =
      BlockTable-at index c.blocks i 0 i 0 index.record_count e held.blocks_held at (omega arith) in
    (omega (arith, held.records_length), omega (arith, held.sections.record_bound))

module _ {E S : Type 0} (engine : Engine E) (visitor : GkWord → S → Bool × S) where
  module _ (index : GenerIndex) (c : Contents) (held : Holds index c) (lemma : CString) where
    records_loop-eq :
        (k fuel i end : ℕ) (v : Visited E S)
        → k < fuel
        → i + k ≡ end
        → end ≤ length c.records
        → end ≤ size_max
        → records_loop engine visitor fuel (some index) lemma i end v
          ≡ done (visit_records engine visitor lemma (take k (drop i c.records)) v)
    unfolding records_loop generate_record
    records_loop-eq k zero i end v lt e le max = absurd (omega arith)
    records_loop-eq zero (suc fuel) i end v lt e le max =
        let stop : (i == end) ≡ true = ground arith in rw (records_loop, stop) refl
    records_loop-eq (suc k) (suc fuel) i end v lt e le max =
        let go : (i == end) ≡ false = ground arith in
        let (x, at, rest) = drop-at c.records i (omega arith) in
        let view = record_view-eq-get_elem? index c i held in
        let next : (i + 1) % 2 ^ 64 ≡ suc i = omega arith in
        let w = generate_entry engine visitor lemma x.kind x.stem x.keys v in
        rw (records_loop, go, view, at, rest, next)
          (carry_on-eq engine visitor
            (records_loop engine visitor fuel (some index) lemma (suc i) end)
            (visit_records engine visitor lemma (take k (drop (suc i) c.records))) w
            (records_loop-eq k fuel (suc i) end w (omega arith) (omega arith) le max))

    -- A list of blocks from the block table, whose runs of records are in the record table.
    blocks_loop-eq :
        (k fuel i end : ℕ) (v : Visited E S)
        → k < fuel
        → i + k ≡ end
        → end ≤ length c.blocks
        → blocks_loop engine visitor fuel (some index) lemma i end v
          ≡ done (visit_blocks engine visitor c lemma (take k (drop i c.blocks)) v)
    unfolding blocks_loop
    blocks_loop-eq k zero i end v lt e le = absurd (omega arith)
    blocks_loop-eq zero (suc fuel) i end v lt e le =
        let stop : (i == end) ≡ true = ground arith in rw (blocks_loop, stop) refl
    blocks_loop-eq (suc k) (suc fuel) i end v lt e le =
        let go : (i == end) ≡ false = ground arith in
        let (x, at, rest) = drop-at c.blocks i (omega arith) in
        let view = block-eq-get_elem? index c i held in
        let small : end ≤ size_max = omega (arith, held.blocks_length, held.sections.block_bound) in
        let next : (i + 1) % 2 ^ 64 ≡ suc i = omega arith in
        let w = visit_records engine visitor lemma (records_of_block c x) v in
        let (fits, most) = block_fits index c held i x at in
        let end_of : (x.first_record + x.record_count) % 2 ^ 64 ≡ x.first_record + x.record_count =
          omega arith in
        rw
          (
            blocks_loop,
            go,
            view,
            at,
            rest,
            next,
            end_of,
            records_loop-eq x.record_count (suc x.record_count) x.first_record
                (x.first_record + x.record_count) v (omega arith) refl fits most,
          )
          (carry_on-eq engine visitor
            (blocks_loop engine visitor fuel (some index) lemma (suc i) end)
            (visit_blocks engine visitor c lemma (take k (drop (suc i) c.blocks))) w
            (blocks_loop-eq k fuel (suc i) end w (omega arith) (omega arith) le))

  -- On an index that holds contents a call with a lemma and all its arguments is the abstract one: no
  -- read faults, both loops end within their fuel, and the forms that are visited are those of the
  -- lemma's records, block after block, up to the first failure or the visitor's stop.
  pub service_generate-eq-visit_lemma :
      (index : GenerIndex) (c : Contents) (b : ℕ) (lemma : CString) (e : E) (s : S) (count : ℕ)
      → Holds index c
      → service_generate engine visitor true (some index) (some (b ∷ lemma)) true true e s count
        ≡ done (visit_lemma engine visitor c (b ∷ lemma) (find_lemma c.lemmas (b ∷ lemma)) e s)
  unfolding service_generate
  service_generate-eq-visit_lemma index c b lemma e s count held =
      elim (Option-cases (find_lemma c.lemmas (b ∷ lemma))) [
        | inl absent ↦ rw (lookup-eq-find_lemma index c b lemma held, absent) refl
        | inr (entry, found) ↦
            let look = lookup-eq-find_lemma index c b lemma held in
            let last = entry.first_block + entry.block_count in
            let start : Visited E S = record {
              status = service_ok;
              engine = engine.begin e;
              state = s;
              form_count = 0;
            } in
            let (_, fits) =
              view_fits index c held b lemma
                (record { first_block = entry.first_block; block_count = entry.block_count })
                (look ∙ rw found refl) in
            let end_of : last % 2 ^ 64 ≡ last = omega (arith, held.sections.block_bound) in
            let run =
              blocks_loop-eq index c held (b ∷ lemma) entry.block_count (suc entry.block_count)
                entry.first_block last start (omega arith) refl
                (omega (arith, held.blocks_length)) in
            let blocks = take entry.block_count (drop entry.first_block c.blocks) in
            rw
              (
                look,
                found,
                end_of,
                run,
                visit_blocks-eq engine visitor c (b ∷ lemma) blocks start refl,
              )
              refl
      ]
