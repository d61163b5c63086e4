-- ===== src/Api/Generate.antt =====
-- `morpheus_generate` and the generation service of a context: src/api/generation.c. What the
-- allocator, the index file, the service and the normalizer answer is in the record `Answers`.
use libmorpheus.Prelude.{
  ℕ, ◌+◌, ◌-◌, ◌^◌, Bool, true, false, ◌&&◌, ◌||◌, not, Option, none, some, List, [], ◌∷◌, length,
  any, ltb, leb, ◌==◌, if◌then◌else◌,
}
use libmorpheus.GenerIndex.Format.{GenerIndex}
use libmorpheus.GenerIndex.Open.{IndexStatus, Opened}
use libmorpheus.Api.Status.{Status, Language, greek, latin, italian}
use libmorpheus.Api.Generation.{
  Options, Normalized, Generation, limited_to, refused, max_limit, validate_options,
  generation_matches, copy_generation,
}

-- The fields of `morpheus_runtime_context` that the interface reads and writes; the two Booleans
-- tell whether the pointer to the service and the one to its cleanup are set.
pub record Context : Type 0 where
  pub language : Language
  pub stemlib_path : List ℕ
  pub generation_index : Option GenerIndex
  pub generation_service : Bool
  pub generation_cleanup : Bool

pub data ServiceStatus : Type 0 where
  service_ok service_invalid service_not_found service_no_memory service_engine_error
        service_stopped :
      ServiceStatus

pub data NormalizeStatus : Type 0 where
  normalize_ok normalize_invalid normalize_not_found normalize_no_memory normalize_engine_error
        normalize_limit :
      NormalizeStatus

pub record GenerationResult : Type 0 where
  pub generations : List Generation
  pub truncated_fields : List ℕ

-- `path_allocated`, `result_allocated`: the answers of `malloc` and of `generation_result_create`.
-- `opened`: of `morpheus_gener_index_open_file`. `created`: of
-- `morpheus_generation_service_create_at_path`. `normalize`: of `morpheus_generation_normalize` for
-- a lemma and a limit, with the forms that it leaves.
pub record Answers : Type 0 where
  pub path_allocated : Bool
  pub opened : Opened
  pub created : ServiceStatus
  pub normalize : List ℕ → ℕ → NormalizeStatus × List Normalized
  pub result_allocated : Bool

-- The service over an index that is open: the context keeps both, or nothing.
abbrev pub keep_service : Context → Option GenerIndex → ServiceStatus → Context × Status
keep_service context index service_ok = (
  record {
    language = context.language;
    stemlib_path = context.stemlib_path;
    generation_index = index;
    generation_service = true;
    generation_cleanup = true;
  },
  Status.ok,
)
keep_service context index service_invalid = (context, Status.internal_error)
keep_service context index service_not_found = (context, Status.internal_error)
keep_service context index service_no_memory = (context, Status.no_memory)
keep_service context index service_engine_error = (context, Status.internal_error)
keep_service context index service_stopped = (context, Status.internal_error)

abbrev pub after_open : Context → IndexStatus → Option GenerIndex → ServiceStatus → Context × Status
after_open context IndexStatus.ok index created = keep_service context index created
after_open context IndexStatus.invalid index created = (context, Status.stemlib_error)
after_open context IndexStatus.io_error index created = (context, Status.stemlib_error)
after_open context IndexStatus.no_memory index created = (context, Status.no_memory)
after_open context IndexStatus.not_found index created = (context, Status.stemlib_error)

-- `sizeof suffix` is 13.
unfoldable pub ensure_generation_service : Context → Answers → Context × Status
ensure_generation_service context answers =
    if context.generation_service
    then (context, Status.ok)
    else if ltb (2 ^ 64 - 1 - 13) (length context.stemlib_path)
    then (context, Status.input_too_long)
    else if not answers.path_allocated
    then (context, Status.no_memory)
    else after_open context answers.opened.0 answers.opened.1 answers.created

unfoldable pub normalize_status : NormalizeStatus → Status
normalize_status normalize_ok = Status.ok
normalize_status normalize_invalid = Status.internal_error
normalize_status normalize_not_found = Status.internal_error
normalize_status normalize_no_memory = Status.no_memory
normalize_status normalize_engine_error = Status.internal_error
normalize_status normalize_limit = Status.result_limit_exceeded

-- MAXWORDSIZE
abbrev pub canonical_size : ℕ
canonical_size = 60

abbrev pub is_separator : ℕ → Bool
is_separator byte = byte == b'-' || byte == b'_' || byte == b'^' || byte == b'+'

-- The loop that writes `canonical`, from position `input` on.
unfoldable pub canonical_loop : ℕ → List ℕ → List ℕ
canonical_loop input [] = []
canonical_loop input (byte ∷ lemma) =
    let rest = canonical_loop (input + 1) lemma in
    if (input == 0 && byte == b'!') || is_separator byte then rest else byte ∷ rest

-- The forms that match are counted; `none` when there are more than `limit`.
unfoldable pub count_loop : Option Options → ℕ → ℕ → List Normalized → Option ℕ
count_loop options limit output [] = some output
count_loop options limit output (item ∷ items) =
    let next = count_loop options limit (output + 1) items in
    let same = count_loop options limit output items in
    if generation_matches item options
    then (if ltb limit (output + 1) then none else next)
    else same

unfoldable pub copy_loop : Option Options → List Normalized → GenerationResult
copy_loop options [] = record { generations = []; truncated_fields = [] }
copy_loop options (item ∷ items) =
    let rest = copy_loop options items in
    if not (generation_matches item options) then rest else record {
      generations = copy_generation item ∷ rest.generations;
      truncated_fields = item.truncated_fields ∷ rest.truncated_fields;
    }

-- A status, and what the call leaves in `*result`.
abbrev pub Generated : Type 0
Generated = Status × Option GenerationResult

-- The forms of the normalizer, counted and then copied.
unfoldable pub collect : Option Options → ℕ → Bool → List Normalized → Generated
collect options limit allocated items = elim (count_loop options limit 0 items) [
  | none ↦ (Status.result_limit_exceeded, none)
  | some output ↦
      if allocated then (Status.ok, some (copy_loop options items)) else (Status.no_memory, none)
]

-- What follows the call of the normalizer.
unfoldable pub after_normalize :
    Option Options → ℕ → Bool → NormalizeStatus → List Normalized → Generated
after_normalize options limit allocated normalize_ok items = collect options limit allocated items
after_normalize options limit allocated normalize_not_found items =
    if allocated
    then (Status.ok, some (record { generations = []; truncated_fields = [] }))
    else (Status.no_memory, none)
after_normalize options limit allocated normalize_invalid items =
    (normalize_status normalize_invalid, none)
after_normalize options limit allocated normalize_no_memory items =
    (normalize_status normalize_no_memory, none)
after_normalize options limit allocated normalize_engine_error items =
    (normalize_status normalize_engine_error, none)
after_normalize options limit allocated normalize_limit items =
    (normalize_status normalize_limit, none)

abbrev pub is_greek : Language → Bool
is_greek greek = true
is_greek latin = false
is_greek italian = false

-- What follows `ensure_generation_service`.
abbrev pub with_service :
    Option Options → ℕ → List ℕ → Answers → Context → Status → Context × Generated
with_service options limit canonical answers context Status.ok =
    let answer = answers.normalize canonical max_limit in
    (context, after_normalize options limit answers.result_allocated answer.0 answer.1)
with_service options limit canonical answers context Status.invalid_argument =
    (context, (Status.invalid_argument, none))
with_service options limit canonical answers context Status.abi_mismatch =
    (context, (Status.abi_mismatch, none))
with_service options limit canonical answers context Status.no_memory =
    (context, (Status.no_memory, none))
with_service options limit canonical answers context Status.input_too_long =
    (context, (Status.input_too_long, none))
with_service options limit canonical answers context Status.out_of_range =
    (context, (Status.out_of_range, none))
with_service options limit canonical answers context Status.internal_error =
    (context, (Status.internal_error, none))
with_service options limit canonical answers context Status.buffer_too_small =
    (context, (Status.buffer_too_small, none))
with_service options limit canonical answers context Status.stemlib_error =
    (context, (Status.stemlib_error, none))
with_service options limit canonical answers context Status.result_limit_exceeded =
    (context, (Status.result_limit_exceeded, none))

-- The checks of the lemma, `lemma` being its `length` bytes.
abbrev pub with_limit : Context → List ℕ → Option Options → ℕ → Answers → Context × Generated
with_limit context lemma options limit answers =
    let canonical = canonical_loop 0 lemma in
    let ensured = ensure_generation_service context answers in
    if length lemma == 0
    then (context, (Status.invalid_argument, none))
    else if leb canonical_size (length lemma)
    then (context, (Status.input_too_long, none))
    else if any (λ byte. byte == 0) lemma
    then (context, (Status.invalid_argument, none))
    else if length canonical == 0
    then (context, (Status.invalid_argument, none))
    else with_service options limit canonical answers ensured.0 ensured.1

abbrev pub generate_in : Context → List ℕ → Option Options → Answers → Context × Generated
generate_in context lemma options answers =
    if not (is_greek context.language)
    then (context, (Status.invalid_argument, none))
    else elim (validate_options options) [
      | refused status ↦ (context, (status, none))
      | limited_to limit ↦ with_limit context lemma options limit answers
    ]

-- `none` is a null pointer, `slot` tells whether the pointer `result` is given.
unfoldable pub generate :
    Option Context
    → Option (List ℕ)
    → Option Options
    → (slot : Bool) → Answers
    → Option Context × Generated
generate none lemma options slot answers = (none, (Status.invalid_argument, none))
generate (some context) none options slot answers = (some context, (Status.invalid_argument, none))
generate (some context) (some lemma) options slot answers =
    let ended = generate_in context lemma options answers in
    if slot then (some ended.0, ended.1) else (some context, (Status.invalid_argument, none))

-- `generation_context_cleanup`
unfoldable pub generation_context_cleanup : Context → Context
generation_context_cleanup context = record {
  language = context.language;
  stemlib_path = context.stemlib_path;
  generation_index = none;
  generation_service = false;
  generation_cleanup = false;
}
