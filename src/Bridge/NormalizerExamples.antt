-- ===== src/Bridge/NormalizerExamples.antt =====
-- The normalizer over the sample index, with an insertion sort for `qsort`.
use mathlib.Core.List.{Perm}
use mathlib.Core.List.Perm
use libmorpheus.Prelude.{
  ℕ, ◌≤◌, ◌≡◌, refl, Bool, true, Option, none, some, List, [], ◌∷◌, map, length, arith, strcmp,
}
use libmorpheus.Prelude.Ascending.{IsSort, Ascending}
use libmorpheus.Prelude.InsertionSort.{insertion_sort, insertion_sort-IsSort}
use libmorpheus.GenerIndex.Bytes.{Run, done, reject, fault, stuck, load, get_uint, get_u32, get_u64}
use libmorpheus.GenerIndex.Format.{matches_at, scan_string, string_at}
use libmorpheus.GenerIndex.Lookup.{lookup_loop, lookup, block, record_view}
use libmorpheus.Gener.Service.{
  visit_forms, record_forms, generate_entry, generate_record, records_loop, blocks_loop,
  service_generate, record_keys, separate_keys,
}
use libmorpheus.GenerIndex.Examples.{sample_key, sample_index, sample_contents, sample-Holds}
use libmorpheus.Api.Generation.{Normalized}
use libmorpheus.Api.Generate.{normalize_ok}
use libmorpheus.Bridge.Values.{
  maps, legacy_flag_is_set, public_dialect, public_region, public_person, public_number,
  public_gender, public_case, public_tense, public_mood, public_voice, public_degree, map_bits,
}
use libmorpheus.Bridge.Flags.{public_morph_flags, has_flag, flags_loop, set_flag}
use libmorpheus.Bridge.FlagBits.{public_morph_flags-at}
use libmorpheus.Bridge.PartOfSpeech.{public_part_of_speech, stem_type_name_is}
use libmorpheus.Bridge.Form.{effective_dialect, copy_text}
use libmorpheus.Bridge.Compare.{
  compare_records, compare_u32, compare_u64, memcmp, records-IsComparison,
}
use libmorpheus.Bridge.Normalizer.{
  NormalizeAnswer, nothing_collected, collect_form, grow_result, record_of, after_generate,
  service_status, generation_normalize,
}
use libmorpheus.Bridge.Collected.{Numbered}
use libmorpheus.Bridge.Normalized.{
  run_of, outcome, generation_normalize-eq-outcome, generation_normalize-determined,
  generation_normalize-Ascending,
}
use libmorpheus.Greeklib.Letters.{is_space}
use libmorpheus.GenerIndex.Tables.{find_lemma}
use libmorpheus.Gener.Described.{IsCall}
use libmorpheus.Gener.Examples.{plain_engine}

-- Flag 11, of irregular comparatives, is flag 32 of the interface.
public_morph_flags-at_example :
    has_flag (public_morph_flags (0 ∷ 4 ∷ [])) 32 ≡ legacy_flag_is_set (0 ∷ 4 ∷ []) 11
public_morph_flags-at_example = public_morph_flags-at (0 ∷ 4 ∷ []) 32 (maps 11 32) refl

abbrev no_name : ℕ → Option (List ℕ)
no_name stemtype = none

abbrev prep_name : ℕ → Option (List ℕ)
prep_name stemtype = some (b'p' ∷ b'r' ∷ b'e' ∷ b'p' ∷ [])

a_preposition : public_part_of_speech prep_name 7 ≡ 8
unfolding public_part_of_speech stem_type_name_is strcmp
a_preposition = refl

abbrev always : ℕ → Bool
always capacity = true

abbrev by_insertion : List Normalized → List Normalized
by_insertion = insertion_sort compare_records

by_insertion-IsSort : IsSort compare_records by_insertion
by_insertion-IsSort = insertion_sort-IsSort compare_records records-IsComparison

-- The other way to sort: twice.
abbrev twice_by_insertion : List Normalized → List Normalized
twice_by_insertion l = by_insertion (by_insertion l)

twice_by_insertion-IsSort : IsSort compare_records twice_by_insertion
twice_by_insertion-IsSort =
    let sorts = by_insertion-IsSort in
    record {
      rearranges = λ l. Perm.trans (sorts.rearranges (by_insertion l)) (sorts.rearranges l);
      ascends = λ l. sorts.ascends (by_insertion l);
    }

generation_normalize-eq-outcome_example :
    (generation_normalize by_insertion no_name always true plain_engine true
        (some sample_index)
        (some (b'q' ∷ sample_key))
        50
        true
        0
      ≡ done (
        (run_of plain_engine no_name always sample_index sample_contents sample-Holds 50 b'q'
            sample_key 0).engine,
        outcome by_insertion
            (run_of plain_engine no_name always sample_index sample_contents sample-Holds 50 b'q'
              sample_key 0).status
            (run_of plain_engine no_name always sample_index sample_contents sample-Holds 50 b'q'
              sample_key 0).state,
      ))
    × (length
          (run_of plain_engine no_name always sample_index sample_contents sample-Holds 50 b'q'
            sample_key 0).state.records
        ≤ 50)
    × Numbered 0
        (run_of plain_engine no_name always sample_index sample_contents sample-Holds 50 b'q'
          sample_key 0).state.records
    × IsCall plain_engine
        (collect_form always 50 no_name)
        sample_contents
        (b'q' ∷ sample_key)
        (find_lemma sample_contents.lemmas (b'q' ∷ sample_key))
        0
        nothing_collected
        (run_of plain_engine no_name always sample_index sample_contents sample-Holds 50 b'q'
          sample_key 0)
generation_normalize-eq-outcome_example =
    generation_normalize-eq-outcome plain_engine no_name always sample_index sample_contents
      sample-Holds 50 b'q' sample_key 0 by_insertion (omega arith) (omega arith)

generation_normalize-determined_example :
    generation_normalize by_insertion no_name always true plain_engine true
      (some sample_index)
      (some (b'q' ∷ sample_key))
      50
      true
      0
    ≡ generation_normalize twice_by_insertion no_name always true plain_engine true
        (some sample_index)
        (some (b'q' ∷ sample_key))
        50
        true
        0
generation_normalize-determined_example =
    generation_normalize-determined plain_engine no_name always sample_index sample_contents
      sample-Holds 50 b'q' sample_key 0 by_insertion twice_by_insertion by_insertion-IsSort
      twice_by_insertion-IsSort (omega arith) (omega arith)

abbrev the_run : Run (ℕ × NormalizeAnswer)
the_run =
    generation_normalize by_insertion no_name always true plain_engine true (some sample_index)
      (some (b'q' ∷ sample_key)) 50 true 0

abbrev records_of : Run (ℕ × NormalizeAnswer) → List Normalized
records_of (done (e, (status, some rs))) = rs
records_of (done (e, (status, none))) = []
records_of reject = []
records_of fault = []
records_of stuck = []

abbrev surfaces : List Normalized → List (List ℕ)
surfaces rs = map (λ (r : Normalized). r.surface) rs

-- Everything that the run computes with.
program : Unit {0}
unfolding load get_uint get_u32 get_u64 matches_at scan_string string_at lookup_loop lookup block
    record_view strcmp visit_forms record_forms generate_entry generate_record records_loop
    blocks_loop service_generate collect_form grow_result record_of after_generate
    generation_normalize copy_text effective_dialect public_dialect public_region public_person
    public_number public_gender public_case public_tense public_mood public_voice public_degree
    map_bits legacy_flag_is_set public_morph_flags flags_loop set_flag public_part_of_speech
    stem_type_name_is compare_records compare_u32 compare_u64 memcmp record_keys separate_keys
    service_status is_space
program = tt

the_run_ends : the_run ≡ done (1, (normalize_ok, some (records_of the_run)))
unfolding program
the_run_ends = refl

-- The two forms of the stem, in the order of their letters.
sorted_surfaces :
    surfaces (records_of the_run)
    ≡ (b'q' ∷ b'e' ∷ b'e' ∷ []) ∷ (b'q' ∷ b'e' ∷ b'o' ∷ b's' ∷ []) ∷ []
unfolding program
sorted_surfaces = refl

generation_normalize-Ascending_example :
    Ascending compare_records (records_of the_run)
    × Perm
        (records_of the_run)
        (run_of plain_engine no_name always sample_index sample_contents sample-Holds 50 b'q'
          sample_key 0).state.records
generation_normalize-Ascending_example =
    generation_normalize-Ascending plain_engine no_name always sample_index sample_contents
      sample-Holds 50 b'q' sample_key 0 by_insertion 1 (records_of the_run) by_insertion-IsSort
      (omega arith) (omega arith) the_run_ends
