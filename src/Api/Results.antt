-- ===== src/Api/Results.antt =====
-- Reading results: src/api/result.c, and the functions of src/api/generation.c that do the same for
-- generated forms. `count` of a result is the length of its first array. Reading outside an array is
-- a fault.
use libmorpheus.Prelude.{
  ℕ, zero, suc, ◌≤◌, ◌≡◌, refl, ◌∙◌, sym, Bool, true, false, not, Option, none, some, List, [], ◌∷◌,
  map, length, length-map, get_elem?, leb, ltb, if◌then◌else◌, inl, inr, ◌⊎◌, arith,
}
use libmorpheus.GenerIndex.Bytes.{Run, done, fault}
use libmorpheus.Api.Status.{Status}
use libmorpheus.Api.Generation.{Normalized, Generation, generation_size, copy_generation}
use libmorpheus.Api.Generate.{GenerationResult}
use libmorpheus.Api.Forms.{result_of}

-- A result of an analysis, whatever an analysis is.
pub record AnalysisResult {ℓ} (A : Type ℓ) : Type ℓ where
  pub analyses : List A
  pub truncated_fields : List ℕ

-- A status, and what is stored through the last argument.
abbrev pub Got {ℓ} : Type ℓ → Type ℓ
Got A = Status × Option A

abbrev pub item_of {ℓ} : {A : Type ℓ} → Option A → Run (Got A)
item_of none = fault
item_of (some a) = done (Status.ok, some a)

-- The tests on the result's count, on the place for the answer and on its size, then the copy.
unfoldable pub copy_from {ℓ} :
    {A : Type ℓ} → (size count : ℕ) → List A → ℕ → (slot : Bool) → (buffer_size : ℕ) → Run (Got A)
copy_from size count items index slot buffer_size =
    if not slot
    then done (Status.invalid_argument, none)
    else if leb count index
    then done (Status.out_of_range, none)
    else if ltb buffer_size size
    then done (Status.buffer_too_small, none)
    else item_of (get_elem? items index)

unfoldable pub result_count {ℓ} : {A : Type ℓ} → Option (AnalysisResult A) → ℕ
result_count none = 0
result_count (some result) = length result.analyses

-- `size` is `sizeof(morpheus_analysis)`.
unfoldable pub result_copy {ℓ} :
    {A : Type ℓ} → (size : ℕ) → Option (AnalysisResult A) → ℕ → Bool → ℕ → Run (Got A)
result_copy size none index slot buffer_size = done (Status.invalid_argument, none)
result_copy size (some result) index slot buffer_size =
    copy_from size (length result.analyses) result.analyses index slot buffer_size

unfoldable pub result_get {ℓ} :
    {A : Type ℓ} → (size : ℕ) → Option (AnalysisResult A) → ℕ → Bool → Run (Got A)
result_get size result index slot = result_copy size result index slot size

unfoldable pub result_truncated_fields {ℓ} :
    {A : Type ℓ} → Option (AnalysisResult A) → ℕ → Bool → Run (Got ℕ)
result_truncated_fields none index slot = done (Status.invalid_argument, none)
result_truncated_fields (some result) index slot =
    copy_from 0 (length result.analyses) result.truncated_fields index slot 0

unfoldable pub generation_result_count : Option GenerationResult → ℕ
generation_result_count none = 0
generation_result_count (some result) = length result.generations

unfoldable pub generation_result_copy :
    Option GenerationResult → ℕ → Bool → ℕ → Run (Got Generation)
generation_result_copy none index slot buffer_size = done (Status.invalid_argument, none)
generation_result_copy (some result) index slot buffer_size =
    copy_from generation_size (length result.generations) result.generations index slot buffer_size

unfoldable pub generation_result_get : Option GenerationResult → ℕ → Bool → Run (Got Generation)
generation_result_get result index slot = generation_result_copy result index slot generation_size

unfoldable pub generation_result_truncated_fields : Option GenerationResult → ℕ → Bool → Run (Got ℕ)
generation_result_truncated_fields none index slot = done (Status.invalid_argument, none)
generation_result_truncated_fields (some result) index slot =
    copy_from 0 (length result.generations) result.truncated_fields index slot 0

-- The answer for the item that is at the index, or for an index out of range.
abbrev pub at_index {ℓ} : {A : Type ℓ} → Option A → Got A
at_index none = (Status.out_of_range, none)
at_index (some a) = (Status.ok, some a)

module _ {ℓ} {A : Type ℓ} where
  get_elem?-cases :
      (xs : List A) (i : ℕ)
      → ((leb (length xs) i ≡ true) × (get_elem? xs i ≡ none))
        ⊎ ((leb (length xs) i ≡ false) × ((a : A) × (get_elem? xs i ≡ some a)))
  get_elem?-cases [] i = inl (ground arith, refl)
  get_elem?-cases (x ∷ xs) zero = inr (ground arith, (x, refl))
  get_elem?-cases (x ∷ xs) (suc i) = elim (get_elem?-cases xs i) [
    | inl (out, e) ↦ inl (ground arith, e)
    | inr (inside, e) ↦ inr (ground arith, e)
  ]

  copy_from-at :
      (size : ℕ) (xs : List A) (i buffer_size : ℕ)
      → size ≤ buffer_size
      → copy_from size (length xs) xs i true buffer_size ≡ done (at_index (get_elem? xs i))
  unfolding copy_from
  copy_from-at size xs i buffer_size h = elim (get_elem?-cases xs i) [
    | inl (out, e) ↦ rw (out, e)
    | inr (inside, (a, e)) ↦
        let room : ltb buffer_size size ≡ false = ground arith in rw (inside, room, e)
  ]

-- If the two arrays of a result have one length, the analysis and the truncated fields that are asked
-- for are those at the index, every other index is out of range, and nothing else is read.
pub result-at {ℓ} :
    {A : Type ℓ} (size : ℕ) (result : AnalysisResult A) (i : ℕ)
    → length result.truncated_fields ≡ length result.analyses
    → (result_get size (some result) i true ≡ done (at_index (get_elem? result.analyses i)))
      × (result_truncated_fields (some result) i true
          ≡ done (at_index (get_elem? result.truncated_fields i)))
unfolding result_get result_copy result_truncated_fields
result-at size result i h = (
  copy_from-at size result.analyses i size (omega arith),
  rw (sym h) (copy_from-at 0 result.truncated_fields i 0 (omega arith)),
)

-- From the result of a request the forms are read in their order, each with its truncated fields.
pub generation_result-at :
    (forms : List Normalized) (i : ℕ)
    → (generation_result_count (some (result_of forms)) ≡ length forms)
      × (generation_result_get (some (result_of forms)) i true
          ≡ done (at_index (get_elem? (map copy_generation forms) i)))
      × (generation_result_truncated_fields (some (result_of forms)) i true
          ≡ done (at_index (get_elem? (map (λ form. form.truncated_fields) forms) i)))
unfolding generation_result_count generation_result_get generation_result_copy
    generation_result_truncated_fields
generation_result-at forms i =
    let copies = length-map forms copy_generation in
    let masks = length-map forms (λ (form : Normalized). form.truncated_fields) in
    (
      copies,
      copy_from-at generation_size (map copy_generation forms) i generation_size (omega arith),
      rw (copies ∙ sym masks) (
          copy_from-at 0 (map (λ (form : Normalized). form.truncated_fields) forms) i 0
            (omega arith)),
    )
