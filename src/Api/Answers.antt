-- ===== src/Api/Answers.antt =====
-- The answers of `morpheus_analyze`: what holds of the arguments of a call that succeeds, and which
-- texts the truncated fields of an analysis name.
use Prim.Native.Nat.{bit_or}
use libmorpheus.Prelude.{
  ℕ, zero, suc, ◌+◌, ◌-◌, ◌^◌, ◌≤◌, ◌<◌, ◌≡◌, ◌≢◌, refl, ap, sym, ◌∙◌, Bool, true, false, not, ◌&&◌,
  ◌||◌, ◌⊎◌, Option, none, some, List, [], ◌∷◌, length, length-map, any, get_elem?, leb, ltb, ◌==◌,
  Bool-cases, inl, inr, arith, if◌then◌else◌,
}
use native.Mathlib.Nat.{pow-suc}
use libmorpheus.Prelude.Bits.{test_bit, test_bit-bit_or, test_bit-pow, test_bit-zero}
use libmorpheus.Api.Status.{Status}
use libmorpheus.Api.Generate.{is_greek}
use libmorpheus.Api.Results.{AnalysisResult}
use libmorpheus.Api.Analyze.{
  AnalysisContext, hq_dictionary_available, has_option, known_options, dialect_mask,
  option_hq_dictionary,
}
use libmorpheus.Api.Copy.{Analysis, copy_analysis, truncated_by, texts_of}
use libmorpheus.Api.Analysing.{
  Session, Checker, Analysed, run_request, with_input, after_check, analyze_in, analyze, input_size,
}
use libmorpheus.Bridge.Form.{GkWord, copy_text}

test_bit-set :
    (k j t capacity : ℕ) (text : List ℕ)
    → test_bit k (if (copy_text capacity text).1 then bit_or t (2 ^ j) else t)
      ≡ (test_bit k t || ((j == k) && leb capacity (length text)))
unfolding copy_text
test_bit-set k j t capacity text = elim (Bool-cases (leb capacity (length text))) [
  | inl cut ↦ rw cut (ground (arith, test_bit-bit_or k t (2 ^ j), test_bit-pow k j))
  | inr fits ↦ rw fits (ground arith)
]

truncated_by-low :
    (k j t : ℕ) (texts : List (ℕ × List ℕ))
    → k < j
    → test_bit k (truncated_by (2 ^ j) t texts) ≡ test_bit k t
unfolding truncated_by
truncated_by-low k j t [] h = refl
truncated_by-low k j t ((capacity, text) ∷ texts) h = rw (sym (pow-suc 2 j)) (
    truncated_by-low k (suc j) _ texts (omega arith)
    ∙ test_bit-set k j t capacity text
    ∙ ground arith)

truncated_by-at :
    (texts : List (ℕ × List ℕ)) (i j k t capacity : ℕ) (text : List ℕ)
    → get_elem? texts i ≡ some (capacity, text)
    → k ≡ j + i
    → ((l : ℕ) → j ≤ l → test_bit l t ≡ false)
    → test_bit k (truncated_by (2 ^ j) t texts) ≡ leb capacity (length text)
unfolding truncated_by
truncated_by-at [] i j k t capacity text g e clear = cc
truncated_by-at ((size, first) ∷ texts) zero j k t capacity text g e clear =
    let same : Path (ℕ × List ℕ) (size, first) (capacity, text) = cc in
    let here : (j == k) ≡ true = ground arith in
    rw (sym (pow-suc 2 j)) (
      truncated_by-low k (suc j) _ texts (omega arith)
      ∙ test_bit-set k j t size first
      ∙ rw (clear k (omega arith), here) (ap (λ (p : ℕ × List ℕ). leb p.0 (length p.1)) same))
truncated_by-at ((size, first) ∷ texts) (suc i) j k t capacity text g e clear =
    rw (sym (pow-suc 2 j)) (
      truncated_by-at texts i (suc j) k _ capacity text g (omega arith)
        (λ l h. test_bit-set l j t size first ∙ ground (arith, clear l)))

-- The truncated fields of an analysis name just the texts that do not fit: bit `k` is set when the
-- `k`-th text with its NUL is longer than its array.
pub copy_analysis-truncated :
    (names : ℕ → Option (List ℕ)) (source : GkWord) (k capacity : ℕ) (text : List ℕ)
    → get_elem? (texts_of source) k ≡ some (capacity, text)
    → test_bit k (copy_analysis names source).1 ≡ leb capacity (length text)
unfolding copy_analysis
copy_analysis-truncated names source k capacity text g =
    truncated_by-at (texts_of source) k 0 k 0 capacity text g (omega arith) (λ l h. test_bit-zero l)

-- The calls that reach the engine, but for the dictionary that a request may want.
abbrev pub accepted : (given slot greek : Bool) → (options : ℕ) → List ℕ → Bool
accepted given slot greek options beta_code =
    given
    && slot
    && not (has_option options (2 ^ 64 - 1 - known_options))
    && not (has_option options dialect_mask && not greek)
    && ltb (length beta_code) input_size
    && not (any (λ byte. byte == 0) beta_code)

-- An answer: a result for a call that was accepted, with a word of truncated fields for each
-- analysis, or a failure without a result.
abbrev pub IsAnswer : Bool → Analysed → Type 0
IsAnswer accepts answer =
    ((answer.0 ≡ Status.ok)
      × (accepts ≡ true)
      × ((r : AnalysisResult Analysis) × (answer.1 ≡ some r)
          × (length r.truncated_fields ≡ length r.analyses)))
    ⊎ ((answer.0 ≢ Status.ok) × (answer.1 ≡ none))

module _ (names : ℕ → Option (List ℕ)) (files : List ℕ → Option (List ℕ)) (checker : Checker)
    (self : ℕ) where
  after_check-IsAnswer :
      (status : Status) (word : Option (List GkWord)) (accepts : Bool)
      → accepts ≡ true
      → IsAnswer accepts (after_check names files checker self status word)
  after_check-IsAnswer Status.ok none accepts h = inr (λ e. absurd cc, refl)
  after_check-IsAnswer Status.ok (some words) accepts h =
      let sorted = checker.sort_anals words in
      elim (Bool-cases (checker.allocates (length words))) [
        | inl given ↦ rw given (
            inl (
              refl,
              h,
              (
                _,
                refl,
                length-map sorted (λ word. (copy_analysis names word).1)
                    ∙ sym (length-map sorted (λ word. (copy_analysis names word).0)),
              ),
            ))
        | inr refused ↦ rw refused (inr (λ e. absurd cc, refl))
      ]
  after_check-IsAnswer Status.invalid_argument word accepts h = inr (λ e. absurd cc, refl)
  after_check-IsAnswer Status.abi_mismatch word accepts h = inr (λ e. absurd cc, refl)
  after_check-IsAnswer Status.no_memory word accepts h = inr (λ e. absurd cc, refl)
  after_check-IsAnswer Status.input_too_long word accepts h = inr (λ e. absurd cc, refl)
  after_check-IsAnswer Status.out_of_range word accepts h = inr (λ e. absurd cc, refl)
  after_check-IsAnswer Status.internal_error word accepts h = inr (λ e. absurd cc, refl)
  after_check-IsAnswer Status.buffer_too_small word accepts h = inr (λ e. absurd cc, refl)
  after_check-IsAnswer Status.stemlib_error word accepts h = inr (λ e. absurd cc, refl)
  after_check-IsAnswer Status.result_limit_exceeded word accepts h = inr (λ e. absurd cc, refl)

  with_input-IsAnswer :
      (m : Session) (input : List ℕ) (options : ℕ) (accepts : Bool)
      → ((leb input_size (length input) ≡ false)
          → (any (λ byte. byte == 0) input ≡ false)
          → accepts ≡ true)
      → IsAnswer accepts (with_input names files checker self m input options).1
  unfolding run_request
  with_input-IsAnswer m input options accepts h =
      elim (Bool-cases (leb input_size (length input))) [
        | inl long ↦ rw long (inr (λ e. absurd cc, refl))
        | inr short ↦ elim (Bool-cases (any (λ byte. byte == 0) input)) [
          | inl nul ↦ rw (short, nul) (inr (λ e. absurd cc, refl))
          | inr text ↦ rw (short, text) (after_check-IsAnswer _ _ accepts (h short text))
        ]
      ]

  accepted-all :
      (greek : Bool) (options : ℕ) (input : List ℕ)
      → has_option options (2 ^ 64 - 1 - known_options) ≡ false
      → (has_option options dialect_mask && not greek) ≡ false
      → leb input_size (length input) ≡ false
      → any (λ byte. byte == 0) input ≡ false
      → accepted true true greek options input ≡ true
  accepted-all greek options input known fits short text =
      let less : ltb (length input) input_size ≡ true = ground arith in
      rw (known, fits, less, text) refl

  analyze_in-IsAnswer :
      (m : Session) (input : List ℕ) (options : ℕ) (accepts : Bool)
      → ((has_option options (2 ^ 64 - 1 - known_options) ≡ false)
          → ((has_option options dialect_mask && not (is_greek m.context.language)) ≡ false)
          → (leb input_size (length input) ≡ false)
          → (any (λ byte. byte == 0) input ≡ false)
          → accepts ≡ true)
      → IsAnswer accepts (analyze_in names files checker self m input options).1
  unfolding analyze_in
  analyze_in-IsAnswer m input options accepts h =
      elim (Bool-cases (has_option options (2 ^ 64 - 1 - known_options))) [
        | inl unknown ↦ rw unknown (inr (λ e. absurd cc, refl))
        | inr known ↦ elim (Bool-cases (has_option options dialect_mask && not greek)) [
          | inl foreign ↦ rw (known, foreign) (inr (λ e. absurd cc, refl))
          | inr fits ↦ elim (Bool-cases (has_option options option_hq_dictionary)) [
            | inl wanted ↦ elim (Bool-cases hq.0) [
              | inl there ↦
                  rw (known, fits, wanted, there)
                    (with_input-IsAnswer looked input options accepts (h known fits))
              | inr missing ↦ rw (known, fits, wanted, missing) (inr (λ e. absurd cc, refl))
            ]
            | inr plain ↦
                rw (known, fits, plain) (with_input-IsAnswer m input options accepts (h known fits))
          ]
        ]
      ]
    where
      greek : Bool
      greek = is_greek m.context.language

      hq : Bool × AnalysisContext
      hq = hq_dictionary_available files m.context

      looked : Session
      looked = record { active = m.active; context = hq.1 }

  -- A call answers with a result only for arguments that pass every check (no unknown option, a
  -- dialect only for Greek, less than 60 bytes, no NUL), and then with as many truncated fields as
  -- analyses; every other answer is a failure without a result.
  pub analyze-IsAnswer :
      (given : Bool) (m : Session) (input : List ℕ) (options : ℕ) (slot : Bool)
      → IsAnswer
          (accepted given slot (is_greek m.context.language) options input)
          (analyze names files checker self given m (some input) options slot).1
  unfolding analyze
  analyze-IsAnswer true m input options true =
      analyze_in-IsAnswer m input options _
        (accepted-all (is_greek m.context.language) options input)
  analyze-IsAnswer true m input options false = inr (λ e. absurd cc, refl)
  analyze-IsAnswer false m input options slot = inr (λ e. absurd cc, refl)
