-- ===== src/Bridge/Normalizer.antt =====
-- The normalizer of generated forms: src/bridge/generation_normalizer.c, over the service of
-- src/gener/generation_service.c. Allocation, `qsort` and the names of the stem types are
-- parameters.
use Prim.Native.Nat.{bit_or}
use libmorpheus.Prelude.{
  ℕ, ◌*◌, ◌/◌, ◌%◌, ◌^◌, Bool, true, false, not, ◌||◌, Option, none, some, List, [], ◌∷◌, ◌++◌,
  length, get_elem?, ltb, leb, ◌==◌, ◌!=◌, if◌then◌else◌,
}
use libmorpheus.GenerIndex.Bytes.{Run, done, ◌>>=◌, size_max}
use libmorpheus.GenerIndex.Format.{GenerIndex, CString}
use libmorpheus.Api.Generation.{Normalized}
use libmorpheus.Api.Generate.{
  ServiceStatus, service_ok, service_invalid, service_not_found, service_no_memory,
  service_engine_error, service_stopped, NormalizeStatus, normalize_ok, normalize_invalid,
  normalize_not_found, normalize_no_memory, normalize_engine_error, normalize_limit,
}
use libmorpheus.Bridge.Values.{
  public_dialect, public_region, public_person, public_number, public_gender, public_case,
  public_tense, public_mood, public_voice, public_degree,
}
use libmorpheus.Bridge.Flags.{public_morph_flags}
use libmorpheus.Bridge.PartOfSpeech.{public_part_of_speech}
use libmorpheus.Bridge.Form.{GkWord, copy_text, text_capacity, effective_dialect}
use libmorpheus.Gener.Service.{Engine, goes_on, service_generate}

-- `sizeof(morpheus_normalized_generation)`
abbrev pub record_size : ℕ
record_size = 200

-- MORPHEUS_GENERATION_RESULT_HARD_LIMIT
abbrev pub hard_limit : ℕ
hard_limit = 65536

-- MORPHEUS_TRUNCATED_WORKWORD and MORPHEUS_TRUNCATED_LEMMA
abbrev pub truncated_workword : ℕ
truncated_workword = 2

abbrev pub truncated_lemma : ℕ
truncated_lemma = 4

-- The collector and the result that it fills; `count` of the result is the length of `records`.
pub record Collector : Type 0 where
  pub records : List Normalized
  pub capacity : ℕ
  pub limit_exceeded : Bool
  pub no_memory : Bool

-- `reallocs` is the answer of `realloc` for a capacity; `none` is the result 0, and else the new
-- capacity.
unfoldable pub grow_result : (reallocs : ℕ → Bool) (limit capacity : ℕ) → Option ℕ
grow_result reallocs limit capacity =
    let doubled = if capacity != 0 then capacity * 2 % 2 ^ 64 else 32 in
    let grown = if ltb doubled capacity || ltb limit doubled then limit else doubled in
    if leb grown capacity || ltb (size_max / record_size) grown
    then none
    else if reallocs grown
    then some grown
    else none

-- The record of a form, at position `order`.
unfoldable pub record_of :
    (name_of_stemtype : ℕ → Option (List ℕ)) → GkWord → (order : ℕ) → Normalized
record_of name_of_stemtype form order =
    let info = form.forminfo in
    let surface = copy_text text_capacity form.workword in
    let lemma = copy_text text_capacity form.lemma in
    let part_of_speech = public_part_of_speech name_of_stemtype form.stemtype in
    let cut = if surface.1 then truncated_workword else 0 in
    record {
      surface = surface.0;
      lemma = lemma.0;
      part_of_speech = part_of_speech;
      dialect = public_dialect (effective_dialect form);
      geographic_region = public_region form.geogregion;
      person = public_person info.person;
      number = public_number info.number;
      gender = public_gender info.gender;
      grammatical_case = public_case info.grammatical_case;
      tense = public_tense info.tense;
      mood = public_mood info.mood;
      voice = public_voice info.voice;
      degree = public_degree info.degree part_of_speech form.morphflags;
      morph_flags = public_morph_flags form.morphflags;
      truncated_fields = if lemma.1 then bit_or cut truncated_lemma else cut;
      source_order = order;
    }

module _ (reallocs : ℕ → Bool) (limit : ℕ) (name_of_stemtype : ℕ → Option (List ℕ)) where
  abbrev pub append_form : GkWord → Collector → (capacity : ℕ) → Bool × Collector
  append_form form collect capacity = (
    true,
    record {
      records = collect.records ++ record_of name_of_stemtype form (length collect.records) ∷ [];
      capacity = capacity;
      limit_exceeded = collect.limit_exceeded;
      no_memory = collect.no_memory;
    },
  )

  -- What follows `grow_result`.
  abbrev pub append_grown : GkWord → Collector → Option ℕ → Bool × Collector
  append_grown form collect none = (
    false,
    record {
      records = collect.records;
      capacity = collect.capacity;
      limit_exceeded = collect.limit_exceeded;
      no_memory = true;
    },
  )
  append_grown form collect (some capacity) = append_form form collect capacity

  unfoldable pub collect_form : GkWord → Collector → Bool × Collector
  collect_form form collect =
      if length collect.records == limit
      then (
        false,
        record {
          records = collect.records;
          capacity = collect.capacity;
          limit_exceeded = true;
          no_memory = collect.no_memory;
        },
      )
      else if length collect.records == collect.capacity
      then append_grown form collect (grow_result reallocs limit collect.capacity)
      else append_form form collect collect.capacity

unfoldable pub service_status : ServiceStatus → NormalizeStatus
service_status service_ok = normalize_ok
service_status service_not_found = normalize_not_found
service_status service_no_memory = normalize_no_memory
service_status service_invalid = normalize_invalid
service_status service_engine_error = normalize_engine_error
service_status service_stopped = normalize_engine_error

-- A status, and what is stored in `*result`.
abbrev pub NormalizeAnswer : Type 0
NormalizeAnswer = NormalizeStatus × Option (List Normalized)

-- What follows the call of the service.
unfoldable pub after_generate :
    (qsort : List Normalized → List Normalized)
    → ServiceStatus
    → Collector
    → (generated_count : ℕ) → NormalizeAnswer
after_generate qsort generated collect generated_count =
    if collect.limit_exceeded
    then (normalize_limit, none)
    else if collect.no_memory
    then (normalize_no_memory, none)
    else if not (goes_on generated)
    then (service_status generated, none)
    else if generated_count != length collect.records
    then (normalize_engine_error, none)
    else if ltb 1 (length collect.records)
    then (normalize_ok, some (qsort collect.records))
    else (normalize_ok, some collect.records)

abbrev pub nothing_collected : Collector
nothing_collected = record { records = []; capacity = 0; limit_exceeded = false; no_memory = false }

-- `morpheus_generation_normalize`, with the states of the engine before and after; `none` is a null
-- pointer, `slot` tells whether the place for the result is given, `allocates` is the answer of
-- `calloc`.
unfoldable pub generation_normalize :
    {E : Type 0} (qsort : List Normalized → List Normalized)
    → (name_of_stemtype : ℕ → Option (List ℕ)) → (reallocs : ℕ → Bool) → (allocates : Bool)
    → Engine E
    → (service : Bool) → Option GenerIndex
    → Option CString
    → (limit : ℕ) → (slot : Bool) → E
    → Run (E × NormalizeAnswer)
generation_normalize qsort name_of_stemtype reallocs allocates engine service index none limit slot
      e =
    done (e, (normalize_invalid, none))
generation_normalize qsort name_of_stemtype reallocs allocates engine service index (some lemma)
      limit slot e =
    if not service || length lemma == 0 || not slot || limit == 0 || ltb hard_limit limit
    then done (e, (normalize_invalid, none))
    else if not allocates
    then done (e, (normalize_no_memory, none))
    else (service_generate engine (collect_form reallocs limit name_of_stemtype) service index
          (some lemma) true true e nothing_collected 0
        >>= λ v. done (v.engine, after_generate qsort v.status v.state v.form_count))

-- `none` is a null pointer.
unfoldable pub normalized_result_count : Option (List Normalized) → ℕ
normalized_result_count none = 0
normalized_result_count (some records) = length records

unfoldable pub normalized_result_at : Option (List Normalized) → ℕ → Option Normalized
normalized_result_at none index = none
normalized_result_at (some records) index =
    if ltb index (length records) then get_elem? records index else none
