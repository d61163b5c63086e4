-- ===== src/Api/Analysing.antt =====
-- `morpheus_analyze` of src/api/analyze.c, from the checks of its arguments to the result.
use Prim.Native.Nat.{bit_or}
use libmorpheus.Prelude.{
  ℕ, ◌-◌, ◌^◌, Bool, not, ◌&&◌, Option, none, some, List, map, length, any, leb, ◌==◌,
  if◌then◌else◌,
}
use libmorpheus.Api.Status.{Status}
use libmorpheus.Api.Generate.{is_greek}
use libmorpheus.Api.Results.{AnalysisResult}
use libmorpheus.Api.Analyze.{
  AnalysisContext, hq_dictionary_available, saved_state, apply_request_options,
  restore_request_state, runtime_status, has_option, known_options, dialect_mask,
  option_strict_case, option_ignore_accents, option_verbs_only, option_hq_dictionary,
}
use libmorpheus.Api.Copy.{Analysis, copy_analysis}
use libmorpheus.Bridge.Form.{GkWord}
use libmorpheus.Gener.Service.{no_error}

-- The name of the context that is active in the thread, and the context of the call.
pub record Session : Type 0 where
  pub active : ℕ
  pub context : AnalysisContext

-- `check_word` is `morpheus_check_word` for an input and print flags: the analyses of the word, or a
-- null pointer. `sort_anals` is `SortAnals`; `allocates` the answer of `morpheus_result_create`.
pub record Checker : Type 0 where
  pub check_word : Session → List ℕ → ℕ → Session × Option (List GkWord)
  pub sort_anals : List GkWord → List GkWord
  pub allocates : ℕ → Bool

-- A status, and what is stored in `*result`.
abbrev pub Analysed : Type 0
Analysed = Status × Option (AnalysisResult Analysis)

-- STRICT_CASE, IGNORE_ACCENTS and VERBS_ONLY of src/includes/prntflags.h
abbrev pub print_flags : ℕ → ℕ
print_flags options =
    let strict = if has_option options option_strict_case then 512 else 0 in
    let ignore = if has_option options option_ignore_accents then bit_or strict 8192 else strict in
    if has_option options option_verbs_only then bit_or ignore 131072 else ignore

abbrev pub clear_error : AnalysisContext → AnalysisContext
clear_error context = record {
  language = context.language;
  stemlib_path = context.stemlib_path;
  crasis_disabled = context.crasis_disabled;
  quick_enabled = context.quick_enabled;
  hq_mode = context.hq_mode;
  wanted_dialects = context.wanted_dialects;
  wanted_dialects_initialized = context.wanted_dialects_initialized;
  hq_availability_checked = context.hq_availability_checked;
  hq_availability_language = context.hq_availability_language;
  hq_available = context.hq_available;
  runtime_error = no_error;
}

-- MAXWORDSIZE
abbrev pub input_size : ℕ
input_size = 60

module _ (names : ℕ → Option (List ℕ)) (files : List ℕ → Option (List ℕ)) (checker : Checker)
    (self : ℕ) where
  abbrev pub analysis_result_of : List GkWord → AnalysisResult Analysis
  analysis_result_of words = record {
    analyses = map (λ word. (copy_analysis names word).0) words;
    truncated_fields = map (λ word. (copy_analysis names word).1) words;
  }

  -- What follows the check of the word, if no error is recorded.
  abbrev pub after_word : Option (List GkWord) → Analysed
  after_word none = (Status.invalid_argument, none)
  after_word (some words) =
      let sorted = checker.sort_anals words in
      if checker.allocates (length words)
      then (Status.ok, some (analysis_result_of sorted))
      else (Status.no_memory, none)

  abbrev pub after_check : Status → Option (List GkWord) → Analysed
  after_check Status.ok word = after_word word
  after_check Status.invalid_argument word = (Status.invalid_argument, none)
  after_check Status.abi_mismatch word = (Status.abi_mismatch, none)
  after_check Status.no_memory word = (Status.no_memory, none)
  after_check Status.input_too_long word = (Status.input_too_long, none)
  after_check Status.out_of_range word = (Status.out_of_range, none)
  after_check Status.internal_error word = (Status.internal_error, none)
  after_check Status.buffer_too_small word = (Status.buffer_too_small, none)
  after_check Status.stemlib_error word = (Status.stemlib_error, none)
  after_check Status.result_limit_exceeded word = (Status.result_limit_exceeded, none)

  -- The request itself: the context is activated and changed, the word checked, and both restored.
  unfoldable pub run_request : Session → List ℕ → ℕ → Session × Analysed
  run_request machine input options =
      let cleared = clear_error machine.context in
      let saved = saved_state cleared in
      let started : Session = record {
        active = self;
        context = apply_request_options cleared options;
      } in
      let answer = checker.check_word started input (print_flags options) in
      let status = runtime_status answer.0.context.runtime_error in
      (
        record { active = machine.active; context = restore_request_state answer.0.context saved },
        after_check status answer.1,
      )

  -- The checks of the input, behind those of the options.
  abbrev pub with_input : Session → List ℕ → ℕ → Session × Analysed
  with_input machine beta_code options =
      if leb input_size (length beta_code)
      then (machine, (Status.input_too_long, none))
      else if any (λ byte. byte == 0) beta_code
      then (machine, (Status.invalid_argument, none))
      else run_request machine beta_code options

  abbrev pub refused_at : Session → Status → Session × Analysed
  refused_at machine status = (machine, (status, none))

  unfoldable pub analyze_in : Session → List ℕ → ℕ → Session × Analysed
  analyze_in machine beta_code options =
      let hq = hq_dictionary_available files machine.context in
      let looked : Session = record { active = machine.active; context = hq.1 } in
      if has_option options (2 ^ 64 - 1 - known_options)
      then refused_at machine Status.invalid_argument
      else if has_option options dialect_mask && not (is_greek machine.context.language)
      then refused_at machine Status.invalid_argument
      else if has_option options option_hq_dictionary
      then (if hq.0
          then with_input looked beta_code options
          else refused_at looked Status.stemlib_error)
      else with_input machine beta_code options

  -- `none` is a null pointer; `given` and `slot` tell whether the context and the place for the
  -- result are given, `beta_code` has `length` bytes.
  unfoldable pub analyze :
      (given : Bool) → Session → Option (List ℕ) → ℕ → (slot : Bool) → Session × Analysed
  analyze given machine none options slot = refused_at machine Status.invalid_argument
  analyze given machine (some beta_code) options slot =
      if not (given && slot)
      then refused_at machine Status.invalid_argument
      else analyze_in machine beta_code options
