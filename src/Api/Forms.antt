-- ===== src/Api/Forms.antt =====
-- The forms that `morpheus_generate` returns: src/api/generation.c.
use libmorpheus.Prelude.{
  ℕ, ◌+◌, ◌≤◌, ◌<◌, ◌≡◌, refl, ap, Bool, true, false, Option, none, some, List, [], ◌∷◌, map,
  filter, length, any, ltb, ◌==◌, if◌then◌else◌, Bool-cases, inl, inr, arith,
}
use libmorpheus.Api.Status.{Status, greek}
use libmorpheus.Api.Generation.{
  Options, Normalized, limited_to, max_limit, validate_options, generation_matches, copy_generation,
}
use libmorpheus.Api.Wanted.{Wanted, IsCopy, generation_matches-Wanted, copy_generation-IsCopy}
use libmorpheus.Api.Generate.{
  Context, Answers, GenerationResult, normalize_ok, ensure_generation_service, canonical_size,
  canonical_loop, count_loop, copy_loop, collect, after_normalize, is_greek, with_service,
  with_limit, generate_in, generate,
}

abbrev pub matching : Option Options → List Normalized → List Normalized
matching options items = filter (λ item. generation_matches item options) items

abbrev pub result_of : List Normalized → GenerationResult
result_of items = record {
  generations = map copy_generation items;
  truncated_fields = map (λ item. item.truncated_fields) items;
}

module _ (options : Option Options) where
  count_loop-matching :
      (limit output : ℕ) (items : List Normalized)
      → output ≤ limit
      → count_loop options limit output items ≡ (
          if ltb limit (output + length (matching options items))
          then none
          else some (output + length (matching options items)))
  unfolding count_loop
  count_loop-matching limit output [] h = ground arith
  count_loop-matching limit output (item ∷ items) h =
      elim (Bool-cases (generation_matches item options)) [
        | inl fits ↦ rw fits (ground (arith, count_loop-matching limit (output + 1) items))
        | inr skips ↦ rw skips (count_loop-matching limit output items h)
      ]

  copy_loop-matching :
      (items : List Normalized) → copy_loop options items ≡ result_of (matching options items)
  unfolding copy_loop
  copy_loop-matching [] = refl
  copy_loop-matching (item ∷ items) = elim (Bool-cases (generation_matches item options)) [
    | inl fits ↦ rw (fits, copy_loop-matching items)
    | inr skips ↦ rw skips (copy_loop-matching items)
  ]

  -- The forms that match are returned in the order of the normalizer, each with its mask of truncated
  -- fields, when there are at most as many as the limit and memory for them; with more the status
  -- tells that, and without memory too.
  pub collect-matching :
      (limit : ℕ) (allocated : Bool) (items : List Normalized)
      → collect options limit allocated items ≡ (
          if ltb limit (length (matching options items))
          then (Status.result_limit_exceeded, none)
          else if allocated
          then (Status.ok, some (result_of (matching options items)))
          else (Status.no_memory, none))
  unfolding collect
  collect-matching limit allocated items =
      let counted = count_loop-matching limit 0 items (omega arith) in
      elim (Bool-cases (ltb limit (length (matching options items)))) [
        | inl over ↦
            let none_left : count_loop options limit 0 items ≡ none = ground (arith, counted) in
            rw (collect, none_left) (rw over)
        | inr fits ↦
            let all : count_loop options limit 0 items ≡ some (length (matching options items)) =
              ground (arith, counted) in
            rw (collect, all) (rw (fits, copy_loop-matching items))
      ]

admitted :
    (context : Context) (lemma : List ℕ) (options : Option Options) (answers : Answers) (limit : ℕ)
    → context.language ≡ greek
    → validate_options options ≡ limited_to limit
    → generate_in context lemma options answers ≡ with_limit context lemma options limit answers
admitted context lemma options answers limit g v =
    let here : is_greek context.language ≡ true = ap is_greek g in rw (generate_in, here, v)

accepted :
    (context : Context) (lemma : List ℕ) (options : Option Options) (answers : Answers) (limit : ℕ)
    → 1 ≤ length lemma
    → length lemma < canonical_size
    → any (λ byte. byte == 0) lemma ≡ false
    → 1 ≤ length (canonical_loop 0 lemma)
    → with_limit context lemma options limit answers
      ≡ with_service options limit
          (canonical_loop 0 lemma)
          answers
          (ensure_generation_service context answers).0
          (ensure_generation_service context answers).1
accepted context lemma options answers limit low high text left = ground arith

answered :
    (context : Context) (lemma : List ℕ) (options : Option Options) (answers : Answers) (limit : ℕ)
    (items : List Normalized)
    → context.language ≡ greek
    → validate_options options ≡ limited_to limit
    → 1 ≤ length lemma
    → length lemma < canonical_size
    → any (λ byte. byte == 0) lemma ≡ false
    → 1 ≤ length (canonical_loop 0 lemma)
    → (ensure_generation_service context answers).1 ≡ Status.ok
    → answers.normalize (canonical_loop 0 lemma) max_limit ≡ (normalize_ok, items)
    → generate (some context) (some lemma) options true answers ≡ (
      some (ensure_generation_service context answers).0,
      if ltb limit (length (matching options items))
          then (Status.result_limit_exceeded, none)
          else if answers.result_allocated
          then (Status.ok, some (result_of (matching options items)))
          else (Status.no_memory, none),
    )
answered context lemma options answers limit items g v low high text left ready normal =
    unfold generate in
    rw
      (
        admitted context lemma options answers limit g v,
        accepted context lemma options answers limit low high text left,
        ready,
        normal,
      )
      (unfold after_normalize in rw (collect-matching options limit answers.result_allocated items))

-- A request for a Greek lemma of 1 to 59 bytes without a NUL, of which something is left without its
-- separators, reaches the normalizer if the options are accepted and the service is there; the
-- answer is the forms that match, each copied with its mask of truncated fields, in their order, or
-- the status for more of them than the limit or for no memory, and the context is the one with the
-- service. A form matches just when every filter of the request that is set agrees with it, and a
-- copy has the texts, the flags and the traits of its form.
pub generate-matching :
    (context : Context) (lemma : List ℕ) (options : Option Options) (answers : Answers) (limit : ℕ)
    (items : List Normalized)
    → context.language ≡ greek
    → validate_options options ≡ limited_to limit
    → 1 ≤ length lemma
    → length lemma < canonical_size
    → any (λ byte. byte == 0) lemma ≡ false
    → 1 ≤ length (canonical_loop 0 lemma)
    → (ensure_generation_service context answers).1 ≡ Status.ok
    → answers.normalize (canonical_loop 0 lemma) max_limit ≡ (normalize_ok, items)
    → (generate (some context) (some lemma) options true answers ≡ (
      some (ensure_generation_service context answers).0,
      if ltb limit (length (matching options items))
          then (Status.result_limit_exceeded, none)
          else if answers.result_allocated
          then (Status.ok, some (result_of (matching options items)))
          else (Status.no_memory, none),
    ))
      × ((form : Normalized)
          → (generation_matches form options ≡ true → Wanted options form)
            × (Wanted options form → generation_matches form options ≡ true))
      × ((form : Normalized) → IsCopy form (copy_generation form))
generate-matching context lemma options answers limit items g v low high text left ready normal = (
  answered context lemma options answers limit items g v low high text left ready normal,
  generation_matches-Wanted options,
  copy_generation-IsCopy,
)
