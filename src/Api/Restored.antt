-- ===== src/Api/Restored.antt =====
-- Whatever the engine does and however a request ends, the context has the settings that it had, and
-- the context that was active is active again.
use libmorpheus.Prelude.{
  if◌then◌else◌, ◌∙◌, ℕ, ◌≡◌, refl, ap, sym, Bool, true, false, not, ◌&&◌, Option, none, some, List,
  length, any, leb, ◌==◌, ◌^◌, ◌-◌, Bool-cases, inl, inr,
}
use libmorpheus.Api.Status.{Status, Language, greek, latin, italian}
use libmorpheus.Api.Generate.{is_greek}
use libmorpheus.Api.Analyze.{
  AnalysisContext, saved_state, restore_request_state, hq_dictionary_available, same_language,
  present_in, has_option, known_options, dialect_mask, option_hq_dictionary,
}
use libmorpheus.Api.Analysing.{
  Session, Checker, run_request, with_input, analyze_in, analyze, input_size,
}

-- The two machines have the same active context, and contexts with the same settings.
abbrev pub SameSettings : Session → Session → Type 0
SameSettings m n = (m.active ≡ n.active) × (saved_state m.context ≡ saved_state n.context)

-- The context knows the availability for its language.
abbrev is_cached : AnalysisContext → Bool
is_cached context =
    context.hq_availability_checked
    && same_language context.hq_availability_language context.language

module _ (names : ℕ → Option (List ℕ)) (files : List ℕ → Option (List ℕ)) (checker : Checker)
    (self : ℕ) where
  run_request-SameSettings :
      (m : Session) (input : List ℕ) (options : ℕ)
      → SameSettings (run_request names files checker self m input options).0 m
  unfolding run_request restore_request_state saved_state
  run_request-SameSettings m input options = (refl, refl)

  with_input-SameSettings :
      (m : Session) (input : List ℕ) (options : ℕ)
      → SameSettings (with_input names files checker self m input options).0 m
  with_input-SameSettings m input options = elim (Bool-cases (leb input_size (length input))) [
    | inl long ↦ rw long (refl, refl)
    | inr short ↦ elim (Bool-cases (any (λ byte. byte == 0) input)) [
      | inl nul ↦ rw (short, nul) (refl, refl)
      | inr text ↦ rw (short, text) (run_request-SameSettings m input options)
    ]
  ]

  hq-SameSettings :
      (context : AnalysisContext)
      → saved_state (hq_dictionary_available files context).1 ≡ saved_state context
  unfolding hq_dictionary_available saved_state
  hq-SameSettings context = elim (Bool-cases (is_cached context)) [
    | inl cached ↦ rw cached refl
    | inr fresh ↦ rw fresh refl
  ]

  analyze_in-SameSettings :
      (m : Session) (input : List ℕ) (options : ℕ)
      → SameSettings (analyze_in names files checker self m input options).0 m
  unfolding analyze_in
  analyze_in-SameSettings m input options =
      elim (Bool-cases (has_option options (2 ^ 64 - 1 - known_options))) [
        | inl unknown ↦ rw unknown (refl, refl)
        | inr known ↦
            elim (Bool-cases
              (has_option options dialect_mask && not (is_greek m.context.language))) [
                | inl foreign ↦ rw (known, foreign) (refl, refl)
                | inr fits ↦ elim (Bool-cases (has_option options option_hq_dictionary)) [
                  | inl wanted ↦ rw (known, fits, wanted) (with_hq hq.0)
                  | inr plain ↦ rw (known, fits, plain) (with_input-SameSettings m input options)
                ]
              ]
      ]
    where
      hq : Bool × AnalysisContext
      hq = hq_dictionary_available files m.context

      looked : Session
      looked = record { active = m.active; context = hq.1 }

      with_hq :
          (b : Bool)
          → SameSettings
              (if b
                then with_input names files checker self looked input options
                else (looked, (Status.stemlib_error, none))).0
              m
      with_hq true =
          let kept = with_input-SameSettings looked input options in
          (kept.0, kept.1 ∙ hq-SameSettings m.context)
      with_hq false = (refl, hq-SameSettings m.context)

  -- Whatever the engine does and however the call ends, the options of the request are gone from the
  -- context, and the active context is the one that was active before.
  pub analyze-SameSettings :
      (given : Bool) (m : Session) (input : Option (List ℕ)) (options : ℕ) (slot : Bool)
      → SameSettings (analyze names files checker self given m input options slot).0 m
  unfolding analyze
  analyze-SameSettings given m none options slot = (refl, refl)
  analyze-SameSettings given m (some input) options slot = elim (Bool-cases (given && slot)) [
    | inl all ↦ rw all (analyze_in-SameSettings m input options)
    | inr missing ↦ rw missing (refl, refl)
  ]

same_language_self : (language : Language) → same_language language language ≡ true
same_language_self greek = refl
same_language_self latin = refl
same_language_self italian = refl

-- The context that keeps an answer for its language.
abbrev answered : AnalysisContext → Bool → AnalysisContext
answered context available = record {
  language = context.language;
  stemlib_path = context.stemlib_path;
  crasis_disabled = context.crasis_disabled;
  quick_enabled = context.quick_enabled;
  hq_mode = context.hq_mode;
  wanted_dialects = context.wanted_dialects;
  wanted_dialects_initialized = context.wanted_dialects_initialized;
  hq_availability_checked = true;
  hq_availability_language = context.language;
  hq_available = available;
  runtime_error = context.runtime_error;
}

module _ (files : List ℕ → Option (List ℕ)) (context : AnalysisContext) where
  hq-cached :
      is_cached context ≡ true
      → hq_dictionary_available files context ≡ (context.hq_available, context)
  unfolding hq_dictionary_available
  hq-cached e = rw e refl

  hq-fresh :
      is_cached context ≡ false
      → hq_dictionary_available files context ≡ (
        present_in files context.stemlib_path context.language,
        answered context (present_in files context.stemlib_path context.language),
      )
  unfolding hq_dictionary_available
  hq-fresh e = rw e refl

-- The availability of the dictionary is looked up once for a language: the next answer is the same,
-- whatever has become of the files, and the context stays as it is.
pub hq_dictionary_available-cached :
    (files files' : List ℕ → Option (List ℕ)) (context : AnalysisContext)
    → hq_dictionary_available files' (hq_dictionary_available files context).1
      ≡ hq_dictionary_available files context
hq_dictionary_available-cached files files' context = elim (Bool-cases (is_cached context)) [
  | inl cached ↦
      let e = hq-cached files context cached in
      ap (λ (p : Bool × AnalysisContext). hq_dictionary_available files' p.1) e
      ∙ hq-cached files' context cached
      ∙ sym e
  | inr fresh ↦
      let e = hq-fresh files context fresh in
      let there = answered context (present_in files context.stemlib_path context.language) in
      ap (λ (p : Bool × AnalysisContext). hq_dictionary_available files' p.1) e
      ∙ hq-cached files' there (same_language_self context.language)
      ∙ sym e
]
