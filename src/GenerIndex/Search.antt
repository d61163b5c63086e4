-- ===== src/GenerIndex/Search.antt =====
-- `morpheus_gener_index_lookup` is the search of the lemma list: the binary search ends, reads
-- nothing outside the file, and finds the entry of the key exactly when there is one.
use libmorpheus.Prelude.{
  ℕ, zero, suc, ◌+◌, ◌%◌, ◌^◌, ◌≤◌, ◌<◌, ◌≡◌, refl, true, false, Bool-cases, inl, inr, ◌⊎◌, Option,
  none, some, List, [], ◌∷◌, get_elem?, length, arith, Ordering, strcmp, strcmp_trans, strcmp_lt,
  strcmp_gt, strcmp-eq, ◌==◌,
}
use native.Mathlib.Decide.{dec_lt}
use libmorpheus.GenerIndex.Bytes.{done, size_max}
use libmorpheus.GenerIndex.Format.{GenerIndex, CString, LemmaEntry}
use libmorpheus.GenerIndex.Open.{ok, not_found}
use libmorpheus.GenerIndex.Lookup.{Answer, LemmaView, middle_of, lookup_loop, lookup}
use libmorpheus.GenerIndex.Tables.{LemmaAt, find_lemma}
use libmorpheus.GenerIndex.WellFormed.{Contents, Holds}
use libmorpheus.GenerIndex.Sorted.{
  LemmaTable-at, LemmaTable-sorted, find_lemma-none, find_lemma-some,
}

-- What a call answers for the result of the specification.
abbrev pub answer : Option LemmaEntry → Answer LemmaView
answer none = (not_found, none)
answer (some e) = (ok, some (record { first_block = e.first_block; block_count = e.block_count }))

entry_at :
    (t : List LemmaEntry) (k : ℕ) → k < length t → (e : LemmaEntry) × (get_elem? t k ≡ some e)
entry_at [] k h = absurd (omega arith)
entry_at (x ∷ t) zero h = (x, refl)
entry_at (x ∷ t) (suc k) h = entry_at t k (omega arith)

get_elem?-past : (t : List LemmaEntry) (k : ℕ) → length t ≤ k → get_elem? t k ≡ none
get_elem?-past [] k h = refl
get_elem?-past (x ∷ t) zero h = absurd (omega arith)
get_elem?-past (x ∷ t) (suc k) h = get_elem?-past t k (omega arith)

pub Ordering-cases : (o : Ordering) → (o ≡ Ordering.lt) ⊎ ((o ≡ Ordering.gt) ⊎ (o ≡ Ordering.eq))
Ordering-cases Ordering.lt = inl refl
Ordering-cases Ordering.gt = inr (inl refl)
Ordering-cases Ordering.eq = inr (inr refl)

middle_bounds :
    (low high : ℕ)
    → low < high
    → high ≤ size_max
    → (low ≤ middle_of low high) × (middle_of low high < high)
middle_bounds low high h k = omega arith

module _ (index : GenerIndex) (c : Contents) (held : Holds index c) (b : ℕ) (s : CString) where
  abbrev key : CString
  key = b ∷ s

  -- Every entry before `low` has a smaller key than the one looked for.
  abbrev Below : ℕ → Type 0
  Below low =
      (k : ℕ) (e : LemmaEntry)
      → k < low
      → get_elem? c.lemmas k ≡ some e
      → strcmp key e.key ≡ Ordering.gt

  abbrev Above : ℕ → Type 0
  Above high =
      (k : ℕ) (e : LemmaEntry)
      → high ≤ k
      → get_elem? c.lemmas k ≡ some e
      → strcmp key e.key ≡ Ordering.lt

  sorted :
      (j k : ℕ) (d e : LemmaEntry)
      → j < k
      → get_elem? c.lemmas j ≡ some d
      → get_elem? c.lemmas k ≡ some e
      → strcmp d.key e.key ≡ Ordering.lt
  sorted j k d e =
      LemmaTable-sorted index c.lemmas j k 0 0 index.block_count none d e held.lemmas_held

  module _ (m : ℕ) (e : LemmaEntry) (at : get_elem? c.lemmas m ≡ some e) where
    shrink-Above : strcmp key e.key ≡ Ordering.lt → Above m
    shrink-Above q k d le g = elim (dec_lt m k) [
      | yes lt ↦ strcmp_trans key e.key d.key q (sorted m k e d lt at g)
      | no n ↦ let same : k ≡ m = omega arith in let eq : d ≡ e = cc in rw eq q
    ]

    shrink-Below : strcmp key e.key ≡ Ordering.gt → Below (m + 1)
    shrink-Below q k d lt g = elim (dec_lt k m) [
      | yes less ↦
          strcmp_lt d.key key
            (strcmp_trans d.key e.key key (sorted k m d e less g at) (strcmp_gt key e.key q))
      | no n ↦ let same : k ≡ m = omega arith in let eq : d ≡ e = cc in rw eq q
    ]

    hit : strcmp key e.key ≡ Ordering.eq → find_lemma c.lemmas key ≡ some e
    hit q = find_lemma-some c.lemmas m e key at q (λ j d lt g r.
        let less : strcmp d.key e.key ≡ Ordering.lt = sorted j m d e lt g at in
        cc (strcmp-eq key d.key r))

  miss : (n : ℕ) → Below n → Above n → find_lemma c.lemmas key ≡ none
  miss n below above = find_lemma-none c.lemmas key (λ k e g q. elim (dec_lt k n) [
    | yes lt ↦ cc (below k e lt g)
    | no ge ↦ cc (above k e (omega arith) g)
  ])

  -- One round of the loop, at an entry that stands in the middle of the range.
  lookup_loop_step :
      (fuel low high m : ℕ) (e : LemmaEntry)
      → (low == high) ≡ false
      → middle_of low high ≡ m
      → LemmaAt index m e
      → lookup_loop (suc fuel) index key low high ≡ elim (strcmp key e.key) [
        | Ordering.lt ↦ lookup_loop fuel index key low m
        | Ordering.gt ↦ lookup_loop fuel index key ((m + 1) % 2 ^ 64) high
        | Ordering.eq ↦ done (answer (some e))
      ]
  unfolding lookup_loop
  lookup_loop_step fuel low high m e goes mid at = ground arith

  lookup_loop-eq :
      (fuel low high : ℕ)
      → high < low + fuel
      → low ≤ high
      → high ≤ index.lemma_count
      → Below low
      → Above high
      → lookup_loop fuel index key low high ≡ done (answer (find_lemma c.lemmas key))
  lookup_loop-eq zero low high f o r below above = absurd (omega arith)
  lookup_loop-eq (suc fuel) low high f o r below above = elim (Bool-cases (low == high)) [
    | inl ended ↦
        let same : low ≡ high = ground arith in
        unfold lookup_loop in rw (lookup_loop, ended) (rw (miss low below (rw (← same) at above)))
    | inr goes ↦
        let m = middle_of low high in
        let (lo, hi) =
          middle_bounds low high (ground arith) (omega (arith, held.sections.lemma_bound)) in
        let (e, at) = entry_at c.lemmas m (omega (arith, held.lemmas_length)) in
        let (here, _, _, _) =
          LemmaTable-at index c.lemmas m 0 m 0 index.block_count none e held.lemmas_held at
            (omega arith) in
        rw (lookup_loop_step fuel low high m e goes refl here)
          (elim (Ordering-cases (strcmp key e.key)) [
            | inl lt ↦ rw lt (
                lookup_loop-eq fuel low m (omega arith) lo (omega arith) below
                  (shrink-Above m e at lt))
            | inr (inl gt) ↦
                let next : (m + 1) % 2 ^ 64 ≡ m + 1 = omega (arith, held.sections.lemma_bound) in
                rw (gt, next)
                  (lookup_loop-eq fuel (m + 1) high (omega arith) (omega arith) r
                    (shrink-Below m e at gt) above)
            | inr (inr eq) ↦ rw (eq, hit m e at eq)
          ])
  ]

-- On an index that holds contents a lookup is the search of the lemma list: the loop ends within
-- its fuel, no read faults, and the view is that of the entry with the key, if there is one.
pub lookup-eq-find_lemma :
    (index : GenerIndex) (c : Contents) (b : ℕ) (s : CString)
    → Holds index c
    → lookup (some index) (some (b ∷ s)) true ≡ done (answer (find_lemma c.lemmas (b ∷ s)))
unfolding lookup
lookup-eq-find_lemma index c b s held =
    lookup_loop-eq index c held b s (suc index.lemma_count) 0 index.lemma_count (omega arith)
      (omega arith) (omega arith) (λ k e lt g. absurd (omega arith))
      (λ k e ge g. cc (get_elem?-past c.lemmas k (omega (arith, held.lemmas_length))))
