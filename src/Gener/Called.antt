-- ===== src/Gener/Called.antt =====
-- A call of the generation service does what is described.
use libmorpheus.Prelude.{
  ℕ, ◌+◌, ◌≡◌, ◌≢◌, refl, ap, sym, ◌∙◌, Bool, true, false, Option, none, some, List, [], ◌∷◌, ◌++◌,
  map, length, ◌==◌, Bool-cases, inl, inr, arith,
}
use mathlib.Core.Bool.{false≢true, true≢false}
use mathlib.Core.Path.{subst}
use libmorpheus.GenerIndex.Bytes.{done, size_max}
use libmorpheus.GenerIndex.Format.{GenerIndex, CString, RecordEntry, LemmaEntry}
use libmorpheus.GenerIndex.Tables.{find_lemma}
use libmorpheus.GenerIndex.WellFormed.{Contents, Holds}
use libmorpheus.Api.Generate.{
  ServiceStatus, service_ok, service_invalid, service_not_found, service_no_memory,
  service_engine_error, service_stopped,
}
use libmorpheus.Bridge.Form.{GkWord}
use libmorpheus.Greeklib.Letters.{is_space}
use libmorpheus.Gener.Service.{
  RuntimeError, no_error, error_no_memory, error_internal, Engine, Visited, runtime_status,
  separate_keys, record_keys, goes_on, is_error, visit_forms, record_forms, after_forms,
  generate_entry, service_generate,
}
use libmorpheus.Gener.Visits.{records_of, visit_records, visit_lemma, proceed-on, proceed-off}
use libmorpheus.Gener.Walk.{service_generate-eq-visit_lemma}
use libmorpheus.Gener.Described.{
  AllAre, StartsSpaced, comma_to_space, IsKeys, IsFailure, IsAsked, OfForms, OfRecord, OfRecords,
  IsCall,
}

separate_keys_lem :
    (s : CString)
    → (word : CString) × (rest : CString) × (s ≡ word ++ rest)
      × AllAre is_space false word
      × StartsSpaced rest
      × (separate_keys s ≡ map comma_to_space word ++ rest)
unfolding separate_keys
separate_keys_lem [] = ([], [], refl, tt, tt, refl)
separate_keys_lem (c ∷ s) = elim (Bool-cases (is_space c)) [
  | inl q ↦ ([], c ∷ s, refl, tt, q, rw (separate_keys, q) refl)
  | inr q ↦
      let (word, rest, parts, letters, spaced, result) = separate_keys_lem s in
      (
        c ∷ word,
        rest,
        ap (λ t. c ∷ t) parts,
        (q, letters),
        spaced,
        rw (separate_keys, q, result) refl,
      )
]

record_keys-IsKeys : (s : CString) → IsKeys s (record_keys s)
unfolding record_keys
record_keys-IsKeys [] = record {
  blank = [];
  word = [];
  rest = [];
  parts = refl;
  blank_spaces = tt;
  word_letters = tt;
  rest_spaced = tt;
  result = refl;
}
record_keys-IsKeys (c ∷ s) = elim (Bool-cases (is_space c)) [
  | inl q ↦
      let k = record_keys-IsKeys s in
      record {
        blank = c ∷ k.blank;
        word = k.word;
        rest = k.rest;
        parts = ap (λ t. c ∷ t) k.parts;
        blank_spaces = (q, k.blank_spaces);
        word_letters = k.word_letters;
        rest_spaced = k.rest_spaced;
        result = rw (record_keys, q) (ap (λ t. c ∷ t) k.result);
      }
  | inr q ↦
      let (word, rest, parts, letters, spaced, result) = separate_keys_lem (c ∷ s) in
      record {
        blank = [];
        word = word;
        rest = rest;
        parts = parts;
        blank_spaces = tt;
        word_letters = letters;
        rest_spaced = spaced;
        result = rw (record_keys, q) result;
      }
]

runtime_status-IsFailure : (error : RuntimeError) → IsFailure error (runtime_status error)
unfolding runtime_status
runtime_status-IsFailure no_error = inr (λ e. cc, refl)
runtime_status-IsFailure error_no_memory = inl (refl, refl)
runtime_status-IsFailure error_internal = inr (λ e. cc, refl)

no_error_lem : (error : RuntimeError) → is_error error ≡ false → error ≡ no_error
no_error_lem no_error h = refl
no_error_lem error_no_memory h = absurd (true≢false h)
no_error_lem error_internal h = absurd (true≢false h)

error_lem : (error : RuntimeError) → is_error error ≡ true → error ≢ no_error
error_lem no_error h = absurd (false≢true h)
error_lem error_no_memory h = λ e. cc
error_lem error_internal h = λ e. cc

ok_lem : (status : ServiceStatus) → goes_on status ≡ true → status ≡ service_ok
ok_lem service_ok h = refl
ok_lem service_invalid h = absurd (false≢true h)
ok_lem service_not_found h = absurd (false≢true h)
ok_lem service_no_memory h = absurd (false≢true h)
ok_lem service_engine_error h = absurd (false≢true h)
ok_lem service_stopped h = absurd (false≢true h)

not_ok_lem : (status : ServiceStatus) → goes_on status ≡ false → status ≢ service_ok
not_ok_lem status h e = absurd (true≢false (ap goes_on (sym e) ∙ h))

module _ {E S : Type 0} (engine : Engine E) (visitor : GkWord → S → Bool × S) where
  record_forms-IsAsked :
      (e : E) (lemma keys : CString) (r : RecordEntry)
      → IsAsked engine visitor e lemma r keys
          (record_forms engine visitor e r.kind lemma r.stem keys)
  unfolding record_forms
  record_forms-IsAsked e lemma keys r = (
    λ h. rw h refl,
    λ h. rw h refl,
    λ h k.
        let a : (r.kind == 4) ≡ false = ground (arith, h) in
        let b : (r.kind == 5) ≡ false = ground (arith, k) in rw (a, b) refl,
  )

  visit_forms-OfForms :
      (forms : List GkWord) (e : E) (s : S) (count : ℕ)
      → OfForms engine visitor forms s count
          (visit_forms engine visitor forms e s count).status
          (visit_forms engine visitor forms e s count).state
          (visit_forms engine visitor forms e s count).form_count
        × ((visit_forms engine visitor forms e s count).engine ≡ e)
  unfolding visit_forms
  visit_forms-OfForms [] e s count = (OfForms.no_form s count, refl)
  visit_forms-OfForms (form ∷ forms) e s count = elim (Bool-cases (length form.workword == 0)) [
    | inl q ↦ rw (visit_forms, q) (OfForms.no_text form forms s count (ground (arith, q)), refl)
    | inr q ↦
        let text : length form.workword ≢ 0 = λ z. ground (arith, q, z) in
        elim (Bool-cases (count == size_max)) [
          | inl full ↦
              rw (visit_forms, q, full)
                (OfForms.count_full form forms s count text (ground (arith, full)), refl)
          | inr more ↦
              let small : count ≢ size_max = λ z. ground (arith, more, z) in
              elim (Bool-cases (visitor form s).0) [
                | inl on ↦
                    let (rest, same) = visit_forms-OfForms forms e (visitor form s).1 (count + 1) in
                    rw (visit_forms, q, more, on)
                      (
                        OfForms.form_visited form forms s (visitor form s).1 _ count _ _ text small
                            (ap (λ b. (b, (visitor form s).1)) on) rest,
                        same,
                      )
                | inr off ↦
                    rw (visit_forms, q, more, off)
                      (
                        OfForms.form_stops form forms s (visitor form s).1 count text small
                            (ap (λ b. (b, (visitor form s).1)) off),
                        refl,
                      )
              ]
        ]
  ]

  -- What follows the engine's answer.
  after_forms-OfRecord :
      (lemma : CString) (r : RecordEntry) (v : Visited E S) (keys : CString)
      (answer : E × Option (List GkWord))
      → engine.allocates v.engine (length r.keys + 1) ≡ true
      → IsKeys r.keys keys
      → IsAsked engine visitor v.engine lemma r keys answer
      → OfRecord engine visitor lemma r v
          (after_forms engine visitor answer.0 answer.1 v.state v.form_count)
  after_forms-OfRecord lemma r v keys (e, none) room is asked =
      OfRecord.forms_refused keys e _ room is asked (runtime_status-IsFailure (engine.error e))
  after_forms-OfRecord lemma r v keys (e, some forms) room is asked =
      elim (Bool-cases (is_error (engine.error e))) [
        | inl bad ↦
            rw (after_forms, bad)
              (OfRecord.error_recorded keys e forms _ room is asked (error_lem (engine.error e) bad)
                (runtime_status-IsFailure (engine.error e)))
        | inr good ↦
            let (visits, same) = visit_forms-OfForms forms e v.state v.form_count in
            rw (after_forms, good)
              (subst
                (λ x. OfRecord engine visitor lemma r v (record {
                  status = (visit_forms engine visitor forms e v.state v.form_count).status;
                  engine = x;
                  state = (visit_forms engine visitor forms e v.state v.form_count).state;
                  form_count = (visit_forms engine visitor forms e v.state v.form_count).form_count;
                }))
                (sym same)
                (OfRecord.record_visited keys e forms _ _ _ room is asked
                  (no_error_lem (engine.error e) good) visits))
      ]

  generate_entry-OfRecord :
      (lemma : CString) (r : RecordEntry) (v : Visited E S)
      → OfRecord engine visitor lemma r v
          (generate_entry engine visitor lemma r.kind r.stem r.keys v)
  unfolding generate_entry
  generate_entry-OfRecord lemma r v =
      elim (Bool-cases (engine.allocates v.engine (length r.keys + 1))) [
        | inr full ↦ rw (generate_entry, full) (OfRecord.keys_refused full)
        | inl room ↦
            rw (generate_entry, room)
              (after_forms-OfRecord lemma r v (record_keys r.keys)
                (record_forms engine visitor v.engine r.kind lemma r.stem (record_keys r.keys)) room
                (record_keys-IsKeys r.keys)
                (record_forms-IsAsked v.engine lemma (record_keys r.keys) r))
      ]

  visit_records-OfRecords :
      (lemma : CString) (rs : List RecordEntry) (v : Visited E S)
      → OfRecords engine visitor lemma rs v (visit_records engine visitor lemma rs v)
  visit_records-OfRecords lemma [] v = OfRecords.no_record v
  visit_records-OfRecords lemma (r ∷ rs) v =
      let w = generate_entry engine visitor lemma r.kind r.stem r.keys v in
      let one = generate_entry-OfRecord lemma r v in
      let rest = visit_records engine visitor lemma rs in
      elim (Bool-cases (goes_on w.status)) [
        | inl on ↦
            subst (OfRecords engine visitor lemma (r ∷ rs) v)
              (sym (proceed-on engine visitor rest w on))
              (OfRecords.record_done r rs v w (rest w) one (ok_lem w.status on)
                (visit_records-OfRecords lemma rs w))
        | inr off ↦
            subst (OfRecords engine visitor lemma (r ∷ rs) v)
              (sym (proceed-off engine visitor rest w off))
              (OfRecords.record_ends r rs v w one (not_ok_lem w.status off))
      ]

  pub visit_lemma-IsCall :
      (c : Contents) (lemma : CString) (found : Option LemmaEntry) (e : E) (s : S)
      → IsCall engine visitor c lemma found e s (visit_lemma engine visitor c lemma found e s)
  visit_lemma-IsCall c lemma none e s = refl
  visit_lemma-IsCall c lemma (some entry) e s =
      let start : Visited E S = record {
        status = service_ok;
        engine = engine.begin e;
        state = s;
        form_count = 0;
      } in
      (
        visit_records engine visitor lemma (records_of c entry) start,
        visit_records-OfRecords lemma (records_of c entry) start,
        refl,
      )

  -- On an index that holds contents a call of the generation service with a lemma and all its
  -- arguments ends: no read faults, and both loops have fuel enough. A lemma that the contents do not
  -- have is not found. Else the records of its blocks are visited in their order, up to the first one
  -- that does not end with ok: the engine is asked for the forms of a record by its kind, with the
  -- commas of the first word of its keys as spaces, and its forms are visited and counted up to one
  -- without a text or one at which the visitor stops; a failure of the engine, of memory or of the
  -- count is the status.
  pub service_generate-IsCall :
      (index : GenerIndex) (c : Contents) (b : ℕ) (lemma : CString) (e : E) (s : S) (count : ℕ)
      → Holds index c
      → (v : Visited E S) × (service_generate engine visitor true
            (some index)
            (some (b ∷ lemma))
            true
            true
            e
            s
            count
          ≡ done v)
        × IsCall engine visitor c (b ∷ lemma) (find_lemma c.lemmas (b ∷ lemma)) e s v
  service_generate-IsCall index c b lemma e s count held = (
    visit_lemma engine visitor c (b ∷ lemma) (find_lemma c.lemmas (b ∷ lemma)) e s,
    service_generate-eq-visit_lemma engine visitor index c b lemma e s count held,
    visit_lemma-IsCall c (b ∷ lemma) (find_lemma c.lemmas (b ∷ lemma)) e s,
  )
