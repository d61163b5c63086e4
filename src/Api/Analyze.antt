-- ===== src/Api/Analyze.antt =====
-- Analysing a word: src/api/analyze.c, with `morpheus_runtime_status` of src/api/api_internal.h. The
-- files of the stem library, the engine (`morpheus_check_word`, `SortAnals`) and the allocator are
-- parameters.
use Prim.Native.Nat.{bit_and}
use libmorpheus.Prelude.{
  ℕ, ◌+◌, ◌*◌, ◌/◌, ◌%◌, ◌^◌, Bool, true, false, ◌&&◌, Option, none, some, List, [], ◌∷◌, ◌++◌,
  length, leb, ◌!=◌, if◌then◌else◌,
}
use libmorpheus.Api.Status.{Status, Language, greek, latin, italian}
use libmorpheus.Bridge.Values.{legacy_dialect}
use libmorpheus.Gener.Service.{RuntimeError, no_error, error_no_memory, error_internal}

-- The fields of `morpheus_runtime_context` that a request reads and writes.
pub record AnalysisContext : Type 0 where
  pub language : Language
  pub stemlib_path : Option (List ℕ)
  pub crasis_disabled : Bool
  pub quick_enabled : Bool
  pub hq_mode : Bool
  pub wanted_dialects : ℕ
  pub wanted_dialects_initialized : Bool
  pub hq_availability_checked : Bool
  pub hq_availability_language : Language
  pub hq_available : Bool
  pub runtime_error : RuntimeError

-- `request_state`
pub record RequestState : Type 0 where
  pub crasis_disabled : Bool
  pub quick_enabled : Bool
  pub hq_dictionary : Bool
  pub wanted_dialects : ℕ
  pub wanted_dialects_initialized : Bool

abbrev pub language_directory : Language → List ℕ
language_directory greek = b'G' ∷ b'r' ∷ b'e' ∷ b'e' ∷ b'k' ∷ []
language_directory latin = b'L' ∷ b'a' ∷ b't' ∷ b'i' ∷ b'n' ∷ []
language_directory italian = b'I' ∷ b't' ∷ b'a' ∷ b'l' ∷ b'i' ∷ b'a' ∷ b'n' ∷ []

abbrev pub same_language : Language → Language → Bool
same_language greek greek = true
same_language latin latin = true
same_language italian italian = true
same_language greek latin = false
same_language greek italian = false
same_language latin greek = false
same_language latin italian = false
same_language italian greek = false
same_language italian latin = false

-- STEMLIST, and the same with ".lindex"
abbrev pub stem_list : List ℕ
stem_list =
    b'h' ∷ b'q' ∷ b'd' ∷ b'i' ∷ b'c' ∷ b't' ∷ b'/' ∷ b'i' ∷ b'n' ∷ b'd' ∷ b'i' ∷ b'c' ∷ b'e' ∷ b's'
    ∷ b'/' ∷ b's' ∷ b't' ∷ b'i' ∷ b'n' ∷ b'd' ∷ b'e' ∷ b'x' ∷ []

abbrev pub required : List (List ℕ)
required = stem_list ∷ (stem_list ++ b'.' ∷ b'l' ∷ b'i' ∷ b'n' ∷ b'd' ∷ b'e' ∷ b'x' ∷ []) ∷ []

-- MAXPATHNAME
abbrev pub hq_path_size : ℕ
hq_path_size = 512

-- A file that opens and has a first byte; `none` is a file that does not open.
abbrev pub readable : Option (List ℕ) → Bool
readable none = false
readable (some []) = false
readable (some (byte ∷ bytes)) = true

-- The loop over the required files.
unfoldable pub files_present :
    (files : List ℕ → Option (List ℕ)) → (stemlib directory : List ℕ) → List (List ℕ) → Bool
files_present files stemlib directory [] = true
files_present files stemlib directory (name ∷ names) =
    let rest = files_present files stemlib directory names in
    let path = stemlib ++ b'/' ∷ (directory ++ b'/' ∷ name) in
    if leb hq_path_size (length path) then false else if readable (files path) then rest else false

abbrev pub present_in : (List ℕ → Option (List ℕ)) → Option (List ℕ) → Language → Bool
present_in files none language = false
present_in files (some stemlib) language =
    files_present files stemlib (language_directory language) required

-- The answer, and the context with the answer kept.
unfoldable pub hq_dictionary_available :
    (files : List ℕ → Option (List ℕ)) → AnalysisContext → Bool × AnalysisContext
hq_dictionary_available files context =
    let available = present_in files context.stemlib_path context.language in
    if context.hq_availability_checked
      && same_language context.hq_availability_language context.language
    then (context.hq_available, context)
    else (
      available,
      record {
        language = context.language;
        stemlib_path = context.stemlib_path;
        crasis_disabled = context.crasis_disabled;
        quick_enabled = context.quick_enabled;
        hq_mode = context.hq_mode;
        wanted_dialects = context.wanted_dialects;
        wanted_dialects_initialized = context.wanted_dialects_initialized;
        hq_availability_checked = true;
        hq_availability_language = context.language;
        hq_available = available;
        runtime_error = context.runtime_error;
      },
    )

-- The options, by their bits: MORPHEUS_OPTION_STRICT_CASE and those after it, and the dialects.
abbrev pub option_strict_case : ℕ
option_strict_case = 1

abbrev pub option_ignore_accents : ℕ
option_ignore_accents = 2

abbrev pub option_verbs_only : ℕ
option_verbs_only = 4

abbrev pub option_no_crasis : ℕ
option_no_crasis = 8

abbrev pub option_quick : ℕ
option_quick = 16

abbrev pub option_hq_dictionary : ℕ
option_hq_dictionary = 32

abbrev pub dialect_mask : ℕ
dialect_mask = 511 * 2 ^ 16

abbrev pub known_options : ℕ
known_options = 63 + 511 * 2 ^ 16

abbrev pub has_option : ℕ → ℕ → Bool
has_option options bits = bit_and options bits != 0

unfoldable pub saved_state : AnalysisContext → RequestState
saved_state context = record {
  crasis_disabled = context.crasis_disabled;
  quick_enabled = context.quick_enabled;
  hq_dictionary = context.hq_mode;
  wanted_dialects = context.wanted_dialects;
  wanted_dialects_initialized = context.wanted_dialects_initialized;
}

-- The context of a request; what it had is `saved_state`.
unfoldable pub apply_request_options : AnalysisContext → ℕ → AnalysisContext
apply_request_options context options = record {
  language = context.language;
  stemlib_path = context.stemlib_path;
  crasis_disabled = has_option options option_no_crasis;
  quick_enabled = has_option options option_quick;
  hq_mode = has_option options option_hq_dictionary;
  wanted_dialects = legacy_dialect (bit_and options dialect_mask / 2 ^ 16 % 2 ^ 32);
  wanted_dialects_initialized = true;
  hq_availability_checked = context.hq_availability_checked;
  hq_availability_language = context.hq_availability_language;
  hq_available = context.hq_available;
  runtime_error = context.runtime_error;
}

unfoldable pub restore_request_state : AnalysisContext → RequestState → AnalysisContext
restore_request_state context saved = record {
  language = context.language;
  stemlib_path = context.stemlib_path;
  crasis_disabled = saved.crasis_disabled;
  quick_enabled = saved.quick_enabled;
  hq_mode = saved.hq_dictionary;
  wanted_dialects = saved.wanted_dialects;
  wanted_dialects_initialized = saved.wanted_dialects_initialized;
  hq_availability_checked = context.hq_availability_checked;
  hq_availability_language = context.hq_availability_language;
  hq_available = context.hq_available;
  runtime_error = context.runtime_error;
}

unfoldable pub runtime_status : RuntimeError → Status
runtime_status no_error = Status.ok
runtime_status error_no_memory = Status.no_memory
runtime_status error_internal = Status.internal_error
