-- ===== src/Api/AnalysisExamples.antt =====
-- Requests of an analysis, with an engine that answers with one word.
use libmorpheus.Prelude.{
  ℕ, ◌≡◌, refl, true, false, Option, none, some, List, [], ◌∷◌, length, replicate, leb,
}
use libmorpheus.Prelude.Bits.{test_bit}
use libmorpheus.Api.Status.{Status, greek}
use libmorpheus.Api.Analyze.{
  AnalysisContext, hq_dictionary_available, files_present, option_quick, option_hq_dictionary,
}
use libmorpheus.Api.Copy.{copy_analysis}
use libmorpheus.Api.Analysing.{Session, Checker, analyze, analyze_in}
use libmorpheus.Api.Restored.{SameSettings, analyze-SameSettings, hq_dictionary_available-cached}
use libmorpheus.Api.Answers.{IsAnswer, accepted, analyze-IsAnswer, copy_analysis-truncated}
use libmorpheus.Gener.Service.{no_error}
use libmorpheus.Gener.Examples.{word}

abbrev no_name : ℕ → Option (List ℕ)
no_name stemtype = none

-- No file can be opened, or every file holds one byte.
abbrev no_files : List ℕ → Option (List ℕ)
no_files path = none

abbrev one_byte : List ℕ → Option (List ℕ)
one_byte path = some (1 ∷ [])

abbrev context : AnalysisContext
context = record {
  language = greek;
  stemlib_path = some (b'l' ∷ b'i' ∷ b'b' ∷ []);
  crasis_disabled = true;
  quick_enabled = false;
  hq_mode = false;
  wanted_dialects = 16;
  wanted_dialects_initialized = false;
  hq_availability_checked = false;
  hq_availability_language = greek;
  hq_available = false;
  runtime_error = no_error;
}

abbrev machine : Session
machine = record { active = 0; context = context }

abbrev beta_code : List ℕ
beta_code = b'q' ∷ b'e' ∷ b'/' ∷ b'o' ∷ b's' ∷ []

-- The word that is found repeats the input; the engine leaves the machine as it gets it.
abbrev checker : Checker
checker = record {
  check_word = λ m input flags. (m, some (word input input ∷ []));
  sort_anals = λ words. words;
  allocates = λ count. true;
}

analyze-SameSettings_example :
    SameSettings
      (analyze no_name no_files checker 5 true machine (some beta_code) option_quick true).0
      machine
analyze-SameSettings_example =
    analyze-SameSettings no_name no_files checker 5 true machine (some beta_code) option_quick true

analyze-IsAnswer_example :
    IsAnswer
      (accepted true true true option_quick beta_code)
      (analyze no_name no_files checker 5 true machine (some beta_code) option_quick true).1
analyze-IsAnswer_example =
    analyze-IsAnswer no_name no_files checker 5 true machine beta_code option_quick true

-- The dictionary is missing and the request wants it.
analyze_without_dictionary :
    (analyze no_name no_files checker 5 true machine (some beta_code) option_hq_dictionary true).1
    ≡ (Status.stemlib_error, none)
unfolding analyze analyze_in hq_dictionary_available files_present
analyze_without_dictionary = refl

hq_dictionary_available-cached_example :
    hq_dictionary_available no_files (hq_dictionary_available one_byte context).1
    ≡ hq_dictionary_available one_byte context
hq_dictionary_available-cached_example = hq_dictionary_available-cached one_byte no_files context

-- A lemma of 70 letters.
abbrev long : List ℕ
long = replicate 70 b'a'

copy_analysis-truncated_example :
    test_bit 2 (copy_analysis no_name (word long beta_code)).1 ≡ leb 64 (length long)
copy_analysis-truncated_example =
    copy_analysis-truncated no_name (word long beta_code) 2 64 long refl
