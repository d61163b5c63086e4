-- ===== src/Gener/Service.antt =====
-- The generation service: src/gener/generation_service.c, over the index of src/api/gener_index.c.
-- The engine (`GenStemForms`, `GenIrregForm` and the runtime context they work in) and the visitor
-- are parameters, each with a state of its own that is passed along.
use libmorpheus.Prelude.{
  ℕ, zero, suc, ◌+◌, ◌%◌, ◌^◌, Bool, true, false, not, ◌&&◌, ◌||◌, Option, none, some, List, [],
  ◌∷◌, length, ◌==◌, if◌then◌else◌,
}
use libmorpheus.GenerIndex.Bytes.{Run, done, stuck, ◌>>=◌, deref, size_max}
use libmorpheus.GenerIndex.Format.{GenerIndex, CString}
use libmorpheus.GenerIndex.Open.{IndexStatus}
use libmorpheus.GenerIndex.Lookup.{Answer, LemmaView, RecordView, lookup, block, record_view}
use libmorpheus.Api.Generate.{
  ServiceStatus, service_ok, service_invalid, service_not_found, service_no_memory,
  service_engine_error, service_stopped,
}
use libmorpheus.Bridge.Form.{GkWord}
use libmorpheus.Greeklib.Letters.{is_space}

pub data RuntimeError : Type 0 where
  no_error error_no_memory error_internal : RuntimeError

-- `begin` is the activation of the service's context, the choice of Greek and the clearing of the
-- error, `finish` the activation of the previous context. `allocates` is the answer of `malloc`. The
-- input of `stem_forms` and `irreg_forms` is a word with the lemma and the stem, and the keys; they
-- answer with the forms before the first one without a text, or a null pointer.
pub record Engine (E : Type 0) : Type 0 where
  pub begin : E → E
  pub finish : E → E
  pub allocates : E → ℕ → Bool
  pub stem_forms : E → (lemma stem keys : CString) → E × Option (List GkWord)
  pub irreg_forms : E → (lemma stem keys : CString) → (mode : ℕ) → E × Option (List GkWord)
  pub error : E → RuntimeError

-- What a call leaves: its status, the states of the engine and of the visitor, and `*form_count`.
pub record Visited (E S : Type 0) : Type 0 where
  pub status : ServiceStatus
  pub engine : E
  pub state : S
  pub form_count : ℕ

unfoldable pub runtime_status : RuntimeError → ServiceStatus
runtime_status no_error = service_engine_error
runtime_status error_no_memory = service_no_memory
runtime_status error_internal = service_engine_error

-- Behind the spaces: a comma of the first word becomes a space.
unfoldable pub separate_keys : List ℕ → List ℕ
separate_keys [] = []
separate_keys (byte ∷ bytes) =
    let rest = separate_keys bytes in
    if is_space byte then byte ∷ bytes else (if byte == b',' then 32 else byte) ∷ rest

unfoldable pub record_keys : List ℕ → List ℕ
record_keys [] = []
record_keys (byte ∷ bytes) =
    let rest = record_keys bytes in
    if is_space byte then byte ∷ rest else separate_keys (byte ∷ bytes)

-- MORPHEUS_GENER_RECORD_INDECLINABLE, MORPHEUS_GENER_RECORD_IRREGULAR_VERB and INDECL
abbrev pub kind_indeclinable : ℕ
kind_indeclinable = 4

abbrev pub kind_irregular_verb : ℕ
kind_irregular_verb = 5

abbrev pub indecl : ℕ
indecl = 2048

abbrev pub goes_on : ServiceStatus → Bool
goes_on service_ok = true
goes_on service_invalid = false
goes_on service_not_found = false
goes_on service_no_memory = false
goes_on service_engine_error = false
goes_on service_stopped = false

abbrev pub is_error : RuntimeError → Bool
is_error no_error = false
is_error error_no_memory = true
is_error error_internal = true

-- `bad` for a status other than MORPHEUS_GENER_INDEX_OK, and else `next` of the view.
abbrev pub with_view {ℓ κ} : {A : Type ℓ} {B : Type κ} → Run B → (A → Run B) → Answer A → Run B
with_view bad next (IndexStatus.ok, view) = deref view >>= next
with_view bad next (IndexStatus.invalid, view) = bad
with_view bad next (IndexStatus.io_error, view) = bad
with_view bad next (IndexStatus.no_memory, view) = bad
with_view bad next (IndexStatus.not_found, view) = bad

module _ {E S : Type 0} (engine : Engine E) (visitor : GkWord → S → Bool × S) where
  abbrev ended : ServiceStatus → E → S → ℕ → Visited E S
  ended status e s count = record { status = status; engine = e; state = s; form_count = count }

  -- The loop over the forms of a record.
  unfoldable pub visit_forms : List GkWord → E → S → ℕ → Visited E S
  visit_forms [] e s count = ended service_ok e s count
  visit_forms (form ∷ forms) e s count =
      let answer = visitor form s in
      let rest = visit_forms forms e answer.1 (count + 1) in
      if length form.workword == 0
      then ended service_ok e s count
      else if count == size_max
      then ended service_engine_error e s count
      else if answer.0
      then rest
      else ended service_stopped e answer.1 (count + 1)

  -- The forms of a record, for its kind.
  unfoldable pub record_forms :
      E → (kind : ℕ) → (lemma stem keys : CString) → E × Option (List GkWord)
  record_forms e kind lemma stem keys =
      let mode = if kind == kind_indeclinable then indecl else 0 in
      if kind == kind_indeclinable || kind == kind_irregular_verb
      then engine.irreg_forms e lemma stem keys mode
      else engine.stem_forms e lemma stem keys

  -- What follows the engine's answer.
  abbrev pub after_forms : E → Option (List GkWord) → S → ℕ → Visited E S
  after_forms e none s count = ended (runtime_status (engine.error e)) e s count
  after_forms e (some forms) s count =
      if is_error (engine.error e)
      then ended (runtime_status (engine.error e)) e s count
      else visit_forms forms e s count

  unfoldable pub generate_entry :
      (lemma : CString) (kind : ℕ) (stem keys : CString) → Visited E S → Visited E S
  generate_entry lemma kind stem keys v =
      let answer = record_forms v.engine kind lemma stem (record_keys keys) in
      if not (engine.allocates v.engine (length keys + 1))
      then ended service_no_memory v.engine v.state v.form_count
      else after_forms answer.0 answer.1 v.state v.form_count

  unfoldable pub generate_record : CString → RecordView → Visited E S → Run (Visited E S)
  generate_record lemma view v = deref view.stem >>= λ stem.
      deref view.keys >>= λ keys. done (generate_entry lemma view.kind stem keys v)

  abbrev invalid_at : Visited E S → Visited E S
  invalid_at v = ended service_invalid v.engine v.state v.form_count

  -- `next` is the rest of a loop, for the status `service_ok`.
  abbrev pub carry_on : (Visited E S → Run (Visited E S)) → Visited E S → Run (Visited E S)
  carry_on next v = elim (goes_on v.status) [ true ↦ next v | false ↦ done v ]

  -- The loop over the records of a block, with fuel.
  unfoldable pub records_loop :
      ℕ → Option GenerIndex → CString → (number end : ℕ) → Visited E S → Run (Visited E S)
  records_loop zero index lemma number end v = stuck
  records_loop (suc fuel) index lemma number end v = elim (number == end) [
    | true ↦ done v
    | false ↦
        record_view index number true
        >>= with_view (done (invalid_at v)) (λ view.
          generate_record lemma view v
          >>= carry_on (records_loop fuel index lemma ((number + 1) % 2 ^ 64) end))
  ]

  -- The loop over the blocks of a lemma, with fuel.
  unfoldable pub blocks_loop :
      ℕ → Option GenerIndex → CString → (number end : ℕ) → Visited E S → Run (Visited E S)
  blocks_loop zero index lemma number end v = stuck
  blocks_loop (suc fuel) index lemma number end v = elim (number == end) [
    | true ↦ done v
    | false ↦
        block index number true
        >>= with_view (done (invalid_at v)) (λ view.
          records_loop (suc view.record_count) index lemma view.first_record
            ((view.first_record + view.record_count) % 2 ^ 64) v
          >>= carry_on (blocks_loop fuel index lemma ((number + 1) % 2 ^ 64) end))
  ]

  abbrev finished : Visited E S → Visited E S
  finished v = ended v.status (engine.finish v.engine) v.state v.form_count

  -- What follows the lookup; the count is 0 by now.
  abbrev pub after_lookup :
      Option GenerIndex → CString → Answer LemmaView → E → S → Run (Visited E S)
  after_lookup index lemma (IndexStatus.ok, found) e s = deref found >>= λ view.
      blocks_loop (suc view.block_count) index lemma view.first_block
        ((view.first_block + view.block_count) % 2 ^ 64) (ended service_ok (engine.begin e) s 0)
      >>= λ v. done (finished v)
  after_lookup index lemma (IndexStatus.not_found, found) e s = done (ended service_not_found e s 0)
  after_lookup index lemma (IndexStatus.invalid, found) e s = done (ended service_invalid e s 0)
  after_lookup index lemma (IndexStatus.io_error, found) e s = done (ended service_invalid e s 0)
  after_lookup index lemma (IndexStatus.no_memory, found) e s = done (ended service_invalid e s 0)

  -- `none` is a null pointer; `visits` and `slot` tell whether the visitor and the place for the
  -- count are given, `count` is what stands in that place.
  unfoldable pub service_generate :
      (service : Bool)
      → Option GenerIndex
      → Option CString
      → (visits slot : Bool) → E
      → S
      → ℕ
      → Run (Visited E S)
  service_generate service index none visits slot e s count = done (ended service_invalid e s count)
  service_generate service index (some []) visits slot e s count =
      done (ended service_invalid e s count)
  service_generate service index (some (b ∷ lemma)) visits slot e s count =
      if not (service && visits && slot)
      then done (ended service_invalid e s count)
      else (lookup index (some (b ∷ lemma)) true >>= λ answer.
          after_lookup index (b ∷ lemma) answer e s)
