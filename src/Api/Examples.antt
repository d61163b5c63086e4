-- ===== src/Api/Examples.antt =====
-- A context, a request and its forms, and the theorems at these.
use libmorpheus.Prelude.{
  ℕ, ◌≤◌, ◌<◌, ◌≡◌, ◌≢◌, refl, true, false, none, some, List, [], ◌∷◌, length, ltb, ◌==◌,
  if◌then◌else◌, arith,
}
use libmorpheus.GenerIndex.Format.{GenerIndex}
use libmorpheus.GenerIndex.Open.{IndexStatus}
use libmorpheus.Api.Status.{Status, greek}
use libmorpheus.Api.Generation.{
  Options, Normalized, limited_to, options_size, max_limit, default_limit, beyond, enum_at_most,
  requested_limit, bad_traits, validate_options, mask_matches, differs, generation_matches,
  copy_generation,
}
use libmorpheus.Api.Wanted.{Wanted, IsCopy}
use libmorpheus.Api.Generate.{
  Context, Answers, normalize_ok, service_ok, service_no_memory, ensure_generation_service,
  normalize_status, canonical_loop, count_loop, copy_loop, collect, after_normalize, generate,
  generation_context_cleanup,
}
use libmorpheus.Api.Requests.{AreWords, InRange, validate_options-InRange}
use libmorpheus.Api.Forms.{matching, result_of, generate-matching}
use libmorpheus.Api.Answered.{IsAnswered, generate-IsAnswered}
use libmorpheus.Api.Service.{IsEnsured, ensure_generation_service-IsEnsured}
use libmorpheus.Api.Stemlib.{runtime_language_directory}
use libmorpheus.Api.Open.{
  readable, Machine, Config, abi_version_current, config_size, path_size, runtime_language,
  validate_stemlib_file, validate_loop, validate_stemlib, new_context, open_context, open_path,
}
use libmorpheus.Api.Opening.{AllReadable, language_files, open_context-ok, open_context-opens}
use libmorpheus.Api.Results.{
  AnalysisResult, copy_from, result_get, result_copy, result_truncated_fields,
  generation_result_count, generation_result_get, generation_result_copy,
  generation_result_truncated_fields,
}

program : Unit {0}
unfolding beyond enum_at_most requested_limit bad_traits validate_options mask_matches differs
    generation_matches copy_generation ensure_generation_service normalize_status canonical_loop
    count_loop copy_loop collect after_normalize generate generation_context_cleanup
    runtime_language validate_stemlib_file validate_loop validate_stemlib open_context open_path
    copy_from result_get result_copy result_truncated_fields generation_result_count
    generation_result_get generation_result_copy generation_result_truncated_fields
program = tt

-- The dual forms are not wanted.
abbrev request : Options
request = record {
  version = 1;
  struct_size = 64;
  result_limit = 10;
  flags = 1;
  part_of_speech = 0;
  dialect = 0;
  geographic_region = 0;
  person = 0;
  number = 0;
  gender = 12;
  grammatical_case = 0;
  tense = 0;
  mood = 0;
  voice = 0;
  degree = 0;
}

abbrev form : (number gender : ℕ) → Normalized
form number gender = record {
  surface = b'l' ∷ b'o' ∷ [];
  lemma = b'l' ∷ b'o' ∷ [];
  part_of_speech = 1;
  dialect = 0;
  geographic_region = 0;
  person = 0;
  number = number;
  gender = gender;
  grammatical_case = 16;
  tense = 0;
  mood = 0;
  voice = 0;
  degree = 0;
  morph_flags = [];
  truncated_fields = 0;
  source_order = 0;
}

abbrev forms : List Normalized
forms = form 1 4 ∷ form 2 4 ∷ form 3 2 ∷ form 3 8 ∷ []

abbrev stem_path : List ℕ
stem_path = b'l' ∷ b'i' ∷ b'b' ∷ []

abbrev context : Context
context = new_context stem_path greek

abbrev index : GenerIndex
index = record {
  file = [];
  lemmas = 0;
  blocks = 0;
  records = 0;
  strings = 0;
  string_size = 0;
  lemma_count = 0;
  block_count = 0;
  record_count = 0;
}

abbrev answers : Answers
answers = record {
  path_allocated = true;
  opened = (IndexStatus.ok, some index);
  created = service_ok;
  normalize = λ lemma limit. (normalize_ok, forms);
  result_allocated = true;
}

abbrev failing : Answers
failing = record {
  path_allocated = true;
  opened = (IndexStatus.ok, some index);
  created = service_no_memory;
  normalize = λ lemma limit. (normalize_ok, forms);
  result_allocated = true;
}

abbrev lemma : List ℕ
lemma = b'!' ∷ b'l' ∷ b'o' ∷ b'-' ∷ b's' ∷ []

canonical_lemma : canonical_loop 0 lemma ≡ b'l' ∷ b'o' ∷ b's' ∷ []
unfolding program
canonical_lemma = refl

canonical_long : 1 ≤ length (canonical_loop 0 lemma)
canonical_long = rw canonical_lemma (omega arith)

request_valid : validate_options (some request) ≡ limited_to 10
unfolding program
request_valid = refl

request-matching : matching (some request) forms ≡ form 1 4 ∷ form 3 8 ∷ []
unfolding program
request-matching = refl

service_ready : (ensure_generation_service context answers).1 ≡ Status.ok
unfolding program
service_ready = refl

words : AreWords request
words = record {
  gender_word = omega arith;
  case_word = omega arith;
  voice_word = omega arith;
  dialect_word = omega arith;
  region_word = omega arith;
}

validate_options-InRange_example :
    (request.version ≡ 1)
    × (options_size ≤ request.struct_size)
    × InRange request
    × (10 ≡ (if request.result_limit == 0 then default_limit else request.result_limit))
    × (1 ≤ 10)
    × (10 ≤ max_limit)
validate_options-InRange_example = validate_options-InRange request 10 words request_valid

generate-matching_example :
    (generate (some context) (some lemma) (some request) true answers ≡ (
      some (ensure_generation_service context answers).0,
      if ltb 10 (length (matching (some request) forms))
          then (Status.result_limit_exceeded, none)
          else if answers.result_allocated
          then (Status.ok, some (result_of (matching (some request) forms)))
          else (Status.no_memory, none),
    ))
    × ((form : Normalized)
        → (generation_matches form (some request) ≡ true → Wanted (some request) form)
          × (Wanted (some request) form → generation_matches form (some request) ≡ true))
    × ((form : Normalized) → IsCopy form (copy_generation form))
generate-matching_example =
    generate-matching context lemma (some request) answers 10 forms refl request_valid (omega arith)
      (omega arith) refl canonical_long service_ready refl

generate-IsAnswered_example :
    IsAnswered (generate (some context) (some lemma) (some request) true answers).1
generate-IsAnswered_example =
    generate-IsAnswered (some context) (some lemma) (some request) true answers

ensure_generation_service-IsEnsured_example :
    IsEnsured context (ensure_generation_service context failing)
ensure_generation_service-IsEnsured_example = ensure_generation_service-IsEnsured context failing

abbrev machine : Machine
machine = record { file = λ path. readable; runtime_created = true; path_allocated = true }

abbrev config : Config
config = record { abi_version = 2; struct_size = 24; stemlib_path = some stem_path; language = 0 }

config_opens : open_context machine (some config) true ≡ (Status.ok, some context)
unfolding program
config_opens = refl

config_language : runtime_language 0 ≡ some greek
unfolding program
config_language = refl

open_context-ok_example :
    (config.abi_version ≡ abi_version_current)
    × (config_size ≤ config.struct_size)
    × (config.stemlib_path ≡ some context.stemlib_path)
    × (context.stemlib_path ≢ [])
    × (length context.stemlib_path < path_size)
    × (runtime_language config.language ≡ some context.language)
    × (context.generation_service ≡ false)
    × AllReadable machine context.stemlib_path
        (runtime_language_directory context.language)
        (language_files context.language)
open_context-ok_example = open_context-ok machine config true context config_opens

all_readable :
    AllReadable machine stem_path (runtime_language_directory greek) (language_files greek)
all_readable = (open_context-ok machine config true context config_opens).7

open_context-opens_example :
    open_context machine (some config) true ≡ (Status.ok, some (new_context stem_path greek))
open_context-opens_example =
    open_context-opens machine config b'l' (b'i' ∷ b'b' ∷ []) greek refl (omega arith) refl
      (omega arith) config_language all_readable refl refl

abbrev analyses : AnalysisResult ℕ
analyses = record { analyses = 5 ∷ 6 ∷ []; truncated_fields = 0 ∷ 1 ∷ [] }
