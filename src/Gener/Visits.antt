-- ===== src/Gener/Visits.antt =====
-- What the generation service visits on an index that holds contents: the records of the lemma's
-- blocks, in their order, until a status other than `service_ok`.
use libmorpheus.Prelude.{
  ◌≡◌, refl, sym, ap, ◌∙◌, Bool, true, false, Option, none, some, List, [], ◌∷◌, ◌++◌, take, drop,
  Bool-cases, inl, inr,
}
use libmorpheus.GenerIndex.Bytes.{Run, done}
use libmorpheus.GenerIndex.Format.{CString, LemmaEntry, BlockEntry, RecordEntry}
use libmorpheus.GenerIndex.WellFormed.{Contents}
use libmorpheus.Api.Generate.{service_ok, service_not_found}
use libmorpheus.Bridge.Form.{GkWord}
use libmorpheus.Gener.Service.{Engine, Visited, goes_on, generate_entry, carry_on}

-- The records that a block points to, and those that a lemma points to.
abbrev pub records_of_block : Contents → BlockEntry → List RecordEntry
records_of_block c block = take block.record_count (drop block.first_record c.records)

abbrev pub records_of_blocks : Contents → List BlockEntry → List RecordEntry
records_of_blocks c [] = []
records_of_blocks c (block ∷ blocks) = records_of_block c block ++ records_of_blocks c blocks

abbrev pub records_of : Contents → LemmaEntry → List RecordEntry
records_of c lemma = records_of_blocks c (take lemma.block_count (drop lemma.first_block c.blocks))

module _ {E S : Type 0} (engine : Engine E) (visitor : GkWord → S → Bool × S) where
  -- The rest of the visits, while the status is `service_ok`.
  abbrev pub proceed : (Visited E S → Visited E S) → Visited E S → Visited E S
  proceed rest w = elim (goes_on w.status) [ true ↦ rest w | false ↦ w ]

  -- Visiting records one after the other.
  abbrev pub visit_records : CString → List RecordEntry → Visited E S → Visited E S
  visit_records lemma [] v = v
  visit_records lemma (e ∷ es) v =
      let w = generate_entry engine visitor lemma e.kind e.stem e.keys v in
      proceed (visit_records lemma es) w

  -- The abstract call: the records of the lemma, if the contents have it.
  abbrev pub visit_lemma : Contents → CString → Option LemmaEntry → E → S → Visited E S
  visit_lemma c lemma none e s = record {
    status = service_not_found;
    engine = e;
    state = s;
    form_count = 0;
  }
  visit_lemma c lemma (some entry) e s =
      let v =
        visit_records lemma (records_of c entry)
          (record { status = service_ok; engine = engine.begin e; state = s; form_count = 0 }) in
      record {
        status = v.status;
        engine = engine.finish v.engine;
        state = v.state;
        form_count = v.form_count;
      }

  -- The records of blocks, block after block.
  abbrev pub visit_blocks : Contents → CString → List BlockEntry → Visited E S → Visited E S
  visit_blocks c lemma [] v = v
  visit_blocks c lemma (b ∷ bs) v =
      let w = visit_records lemma (records_of_block c b) v in proceed (visit_blocks c lemma bs) w

  -- The rest of a loop does for the status `service_ok` what the abstract rest does.
  pub carry_on-eq :
      (next : Visited E S → Run (Visited E S)) (rest : Visited E S → Visited E S) (w : Visited E S)
      → next w ≡ done (rest w)
      → carry_on engine visitor next w ≡ done (proceed rest w)
  carry_on-eq next rest w e = elim (Bool-cases (goes_on w.status)) [
    | inl on ↦ rw (carry_on, proceed, on) e
    | inr off ↦ rw (carry_on, proceed, off) refl
  ]

  pub proceed-on :
      (f : Visited E S → Visited E S) (w : Visited E S)
      → goes_on w.status ≡ true
      → proceed f w ≡ f w
  proceed-on f w on = rw (proceed, on) refl

  pub proceed-off :
      (f : Visited E S → Visited E S) (w : Visited E S) → goes_on w.status ≡ false → proceed f w ≡ w
  proceed-off f w off = rw (proceed, off) refl

  proceed-same :
      (f g : Visited E S → Visited E S) (w : Visited E S)
      → (goes_on w.status ≡ true → f w ≡ g w)
      → proceed f w ≡ proceed g w
  proceed-same f g w h = elim (Bool-cases (goes_on w.status)) [
    | inl on ↦ rw (proceed, on) (h on)
    | inr off ↦ rw (proceed, off) refl
  ]

  proceed-proceed :
      (f g : Visited E S → Visited E S) (w : Visited E S)
      → proceed (λ x. proceed g (f x)) w ≡ proceed g (proceed f w)
  proceed-proceed f g w = by_status (goes_on w.status) refl
    where
      by_status :
          (b : Bool)
          → goes_on w.status ≡ b
          → proceed (λ x. proceed g (f x)) w ≡ proceed g (proceed f w)
      by_status true e =
          proceed-on (λ x. proceed g (f x)) w e ∙ sym (ap (proceed g) (proceed-on f w e))
      by_status false e =
          proceed-off (λ x. proceed g (f x)) w e
          ∙ sym (ap (proceed g) (proceed-off f w e) ∙ proceed-off g w e)

  -- The records of blocks are one list.
  visit_records-append :
      (lemma : CString) (xs ys : List RecordEntry) (v : Visited E S)
      → goes_on v.status ≡ true
      → visit_records lemma (xs ++ ys) v
        ≡ proceed (visit_records lemma ys) (visit_records lemma xs v)
  visit_records-append lemma [] ys v h = rw (proceed, h) refl
  visit_records-append lemma (x ∷ xs) ys v h =
      let w = generate_entry engine visitor lemma x.kind x.stem x.keys v in
      proceed-same (visit_records lemma (xs ++ ys))
        (λ u. proceed (visit_records lemma ys) (visit_records lemma xs u)) w
        (visit_records-append lemma xs ys w)
      ∙ proceed-proceed (visit_records lemma xs) (visit_records lemma ys) w

  pub visit_blocks-eq :
      (c : Contents) (lemma : CString) (bs : List BlockEntry) (v : Visited E S)
      → goes_on v.status ≡ true
      → visit_blocks c lemma bs v ≡ visit_records lemma (records_of_blocks c bs) v
  visit_blocks-eq c lemma [] v h = refl
  visit_blocks-eq c lemma (b ∷ bs) v h =
      let w = visit_records lemma (records_of_block c b) v in
      proceed-same (visit_blocks c lemma bs) (visit_records lemma (records_of_blocks c bs)) w
        (visit_blocks-eq c lemma bs w)
      ∙ sym (visit_records-append lemma (records_of_block c b) (records_of_blocks c bs) v h)
