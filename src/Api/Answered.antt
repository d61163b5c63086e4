-- ===== src/Api/Answered.antt =====
-- Which results `morpheus_generate` may leave, whatever its environment answers.
use libmorpheus.Prelude.{
  ℕ, ◌≤◌, ◌≡◌, ◌≢◌, refl, ◌∙◌, sym, Bool, true, false, not, Option, none, some, List, length,
  length-map, any, ltb, leb, ◌==◌, if◌then◌else◌, Bool-cases, inl, inr, arith,
}
use libmorpheus.Api.Status.{Status}
use libmorpheus.Api.Generation.{
  Options, Normalized, Validated, limited_to, refused, max_limit, requested_limit, validate_options,
  copy_generation,
}
use libmorpheus.Api.Generate.{
  Context, Answers, Generated, NormalizeStatus, normalize_ok, normalize_invalid,
  normalize_not_found, normalize_no_memory, normalize_engine_error, normalize_limit,
  normalize_status, ensure_generation_service, canonical_size, canonical_loop, collect,
  after_normalize, is_greek, with_service, with_limit, generate_in, generate,
}
use libmorpheus.Api.Forms.{matching, result_of, collect-matching}

-- What a call may leave: the status ok with a result whose two arrays have one length, at most the
-- maximum, or another status and no result.
abbrev pub IsAnswered : Generated → Type 0
IsAnswered (status, some r) =
    (status ≡ Status.ok)
    × (length r.generations ≡ length r.truncated_fields)
    × (length r.generations ≤ max_limit)
IsAnswered (status, none) = status ≢ Status.ok

collect-IsAnswered :
    (options : Option Options) (limit : ℕ) (allocated : Bool) (items : List Normalized)
    → limit ≤ max_limit
    → IsAnswered (collect options limit allocated items)
collect-IsAnswered options limit allocated items h =
    rw (collect-matching options limit allocated items)
      (elim (Bool-cases (ltb limit (length (matching options items)))) [
        | inl over ↦ rw over (λ e. cc)
        | inr fits ↦ rw fits (both allocated (matching options items) (ground arith))
      ])
  where
    both :
        (allocated : Bool) (found : List Normalized)
        → length found ≤ max_limit
        → IsAnswered
            (if allocated then (Status.ok, some (result_of found)) else (Status.no_memory, none))
    both true found small =
        let copies = length-map found copy_generation in
        let masks = length-map found (λ (item : Normalized). item.truncated_fields) in
        (refl, copies ∙ sym masks, omega (arith, copies))
    both false found small = λ e. cc

after_normalize-IsAnswered :
    (options : Option Options) (limit : ℕ) (allocated : Bool) (status : NormalizeStatus)
    (items : List Normalized)
    → limit ≤ max_limit
    → IsAnswered (after_normalize options limit allocated status items)
unfolding after_normalize normalize_status
after_normalize-IsAnswered options limit allocated normalize_ok items h =
    collect-IsAnswered options limit allocated items h
after_normalize-IsAnswered options limit true normalize_not_found items h =
    (refl, refl, omega arith)
after_normalize-IsAnswered options limit false normalize_not_found items h = λ e. cc
after_normalize-IsAnswered options limit allocated normalize_invalid items h = λ e. cc
after_normalize-IsAnswered options limit allocated normalize_no_memory items h = λ e. cc
after_normalize-IsAnswered options limit allocated normalize_engine_error items h = λ e. cc
after_normalize-IsAnswered options limit allocated normalize_limit items h = λ e. cc

with_service-IsAnswered :
    (options : Option Options) (limit : ℕ) (canonical : List ℕ) (answers : Answers)
    (context : Context) (status : Status)
    → limit ≤ max_limit
    → IsAnswered (with_service options limit canonical answers context status).1
with_service-IsAnswered options limit canonical answers context Status.ok h =
    after_normalize-IsAnswered options limit answers.result_allocated _ _ h
with_service-IsAnswered options limit canonical answers context Status.invalid_argument h = λ e. cc
with_service-IsAnswered options limit canonical answers context Status.abi_mismatch h = λ e. cc
with_service-IsAnswered options limit canonical answers context Status.no_memory h = λ e. cc
with_service-IsAnswered options limit canonical answers context Status.input_too_long h = λ e. cc
with_service-IsAnswered options limit canonical answers context Status.out_of_range h = λ e. cc
with_service-IsAnswered options limit canonical answers context Status.internal_error h = λ e. cc
with_service-IsAnswered options limit canonical answers context Status.buffer_too_small h = λ e. cc
with_service-IsAnswered options limit canonical answers context Status.stemlib_error h = λ e. cc
with_service-IsAnswered options limit canonical answers context Status.result_limit_exceeded h =
    λ e. cc

-- One early return in front of the rest.
guarded :
    (test : Bool) (context : Context) (status : Status) (rest : Context × Generated)
    → status ≢ Status.ok
    → IsAnswered rest.1
    → IsAnswered (if test then (context, (status, none)) else rest).1
guarded true context status rest h r = h
guarded false context status rest h r = r

with_limit-IsAnswered :
    (context : Context) (lemma : List ℕ) (options : Option Options) (limit : ℕ) (answers : Answers)
    → limit ≤ max_limit
    → IsAnswered (with_limit context lemma options limit answers).1
with_limit-IsAnswered context lemma options limit answers h =
    let canonical = canonical_loop 0 lemma in
    let ensured = ensure_generation_service context answers in
    guarded (length lemma == 0) context _ _ (λ e. cc)
      (guarded (leb canonical_size (length lemma)) context _ _ (λ e. cc)
        (guarded (any (λ byte. byte == 0) lemma) context _ _ (λ e. cc)
          (guarded (length canonical == 0) context _ _ (λ e. cc)
            (with_service-IsAnswered options limit canonical answers ensured.0 ensured.1 h))))

-- The status of options that are refused is not ok, and the limit of the others is bounded.
abbrev IsValidated : Validated → Type 0
IsValidated (limited_to limit) = limit ≤ max_limit
IsValidated (refused status) = status ≢ Status.ok

validate_options-IsValidated : (options : Option Options) → IsValidated (validate_options options)
unfolding validate_options requested_limit
validate_options-IsValidated none = omega arith
validate_options-IsValidated (some options) = ground arith

generate_in-IsAnswered :
    (context : Context) (lemma : List ℕ) (options : Option Options) (answers : Answers)
    → IsAnswered (generate_in context lemma options answers).1
generate_in-IsAnswered context lemma options answers =
    guarded (not (is_greek context.language)) context _ _ (λ e. cc)
      (after (validate_options options) (validate_options-IsValidated options))
  where
    after :
        (v : Validated)
        → IsValidated v
        → IsAnswered
            (elim v as (λ _. Context × Generated) [
              | refused status ↦ (context, (status, none))
              | limited_to limit ↦ with_limit context lemma options limit answers
            ]).1
    after (limited_to limit) h = with_limit-IsAnswered context lemma options limit answers h
    after (refused status) h = h

-- Whatever the arguments and the answers are, there is a result exactly with the status ok, and its
-- two arrays have one length, at most the maximum.
pub generate-IsAnswered :
    (context : Option Context) (lemma : Option (List ℕ)) (options : Option Options) (slot : Bool)
    (answers : Answers)
    → IsAnswered (generate context lemma options slot answers).1
unfolding generate
generate-IsAnswered none lemma options slot answers = λ e. cc
generate-IsAnswered (some context) none options slot answers = λ e. cc
generate-IsAnswered (some context) (some lemma) options true answers =
    generate_in-IsAnswered context lemma options answers
generate-IsAnswered (some context) (some lemma) options false answers = λ e. cc
