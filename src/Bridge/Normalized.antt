-- ===== src/Bridge/Normalized.antt =====
-- What `morpheus_generation_normalize` answers on an index that holds contents, and that the answer
-- does not depend on how `qsort` sorts.
use mathlib.Core.Path.{subst}
use mathlib.Core.List.{Perm, Pairwise, Pairwise-singleton}
use mathlib.Core.List.Perm
use libmorpheus.Prelude.{
  ℕ, suc, ◌≤◌, ◌<◌, ◌≡◌, refl, sym, ap, ◌∙◌, Bool, true, false, Option, none, some, Option-cases,
  List, [], ◌∷◌, length, ltb, ◌==◌, if◌then◌else◌, inl, inr, arith,
}
use libmorpheus.Prelude.Ascending.{IsSort, Ascending, sorts_agree}
use libmorpheus.GenerIndex.Bytes.{done}
use libmorpheus.GenerIndex.Format.{GenerIndex, CString}
use libmorpheus.GenerIndex.Tables.{find_lemma}
use libmorpheus.GenerIndex.WellFormed.{Contents, Holds}
use libmorpheus.Api.Generation.{Normalized}
use libmorpheus.Api.Generate.{
  ServiceStatus, service_ok, service_invalid, service_not_found, service_no_memory,
  service_engine_error, service_stopped, normalize_ok, normalize_invalid, normalize_not_found,
  normalize_no_memory, normalize_engine_error, normalize_limit,
}
use libmorpheus.Bridge.Compare.{compare_records, records-IsComparison}
use libmorpheus.Bridge.Normalizer.{
  Collector, NormalizeAnswer, collect_form, after_generate, nothing_collected, hard_limit,
  generation_normalize, service_status,
}
use libmorpheus.Bridge.Numbering.{Numbered-Distinct}
use libmorpheus.Bridge.Collected.{Numbered, IsCollecting, Collected, collect_form-IsKept}
use libmorpheus.Gener.Service.{Engine, Visited}
use libmorpheus.Gener.Visits.{visit_lemma, records_of}
use libmorpheus.Gener.Walk.{service_generate-eq-visit_lemma}
use libmorpheus.Gener.Described.{IsCall}
use libmorpheus.Gener.Called.{visit_lemma-IsCall}
use libmorpheus.Gener.Kept.{visit_records-Keeps}

-- `qsort` is only called for two records or more.
abbrev pub sorted_of : (List Normalized → List Normalized) → List Normalized → List Normalized
sorted_of qsort records = if ltb 1 (length records) then qsort records else records

sorted_of-IsSort :
    (qsort : List Normalized → List Normalized)
    → IsSort compare_records qsort
    → IsSort compare_records (sorted_of qsort)
sorted_of-IsSort qsort sorts = record { rearranges = rearranges; ascends = ascends }
  where
    long : (l : List Normalized) → ltb 1 (suc (suc (length l))) ≡ true
    long l = ground arith

    rearranges : (l : List Normalized) → Perm (sorted_of qsort l) l
    rearranges [] = Perm.rfl
    rearranges (x ∷ []) = Perm.rfl
    rearranges (x ∷ y ∷ l) = rw (sorted_of, long l) (sorts.rearranges (x ∷ y ∷ l))

    ascends : (l : List Normalized) → Ascending compare_records (sorted_of qsort l)
    ascends [] = Pairwise.nil
    ascends (x ∷ []) = Pairwise-singleton _ x
    ascends (x ∷ y ∷ l) = rw (sorted_of, long l) (sorts.ascends (x ∷ y ∷ l))

-- The answer, by the status of the service.
abbrev pub outcome :
    (List Normalized → List Normalized) → ServiceStatus → Collector → NormalizeAnswer
outcome qsort service_ok collect = (normalize_ok, some (sorted_of qsort collect.records))
outcome qsort service_stopped collect =
    (if collect.limit_exceeded then normalize_limit else normalize_no_memory, none)
outcome qsort service_not_found collect = (normalize_not_found, none)
outcome qsort service_no_memory collect = (normalize_no_memory, none)
outcome qsort service_invalid collect = (normalize_invalid, none)
outcome qsort service_engine_error collect = (normalize_engine_error, none)

after_generate-eq-outcome :
    (qsort : List Normalized → List Normalized) (limit : ℕ) (status : ServiceStatus)
    (collect : Collector) (n : ℕ)
    → Collected limit status collect n
    → after_generate qsort status collect n ≡ outcome qsort status collect
unfolding after_generate service_status
after_generate-eq-outcome qsort limit service_ok collect n h = ground (arith, h.1, h.2)
after_generate-eq-outcome qsort limit service_stopped collect n h = ground (arith, h.1)
after_generate-eq-outcome qsort limit service_invalid collect n h = ground (arith, h.1)
after_generate-eq-outcome qsort limit service_not_found collect n h = ground (arith, h.1)
after_generate-eq-outcome qsort limit service_no_memory collect n h = ground (arith, h.1)
after_generate-eq-outcome qsort limit service_engine_error collect n h = ground (arith, h.1)

outcome_same :
    (qsort other : List Normalized → List Normalized) (status : ServiceStatus) (collect : Collector)
    → sorted_of qsort collect.records ≡ sorted_of other collect.records
    → outcome qsort status collect ≡ outcome other status collect
outcome_same qsort other service_ok collect e = ap (λ rs. (normalize_ok, some rs)) e
outcome_same qsort other service_stopped collect e = refl
outcome_same qsort other service_invalid collect e = refl
outcome_same qsort other service_not_found collect e = refl
outcome_same qsort other service_no_memory collect e = refl
outcome_same qsort other service_engine_error collect e = refl

outcome-ok :
    (qsort : List Normalized → List Normalized) (status : ServiceStatus) (collect : Collector)
    (rs : List Normalized)
    → outcome qsort status collect ≡ (normalize_ok, some rs)
    → sorted_of qsort collect.records ≡ rs
outcome-ok qsort service_ok collect rs h = cc
outcome-ok qsort service_stopped collect rs h = absurd (ground arith)
outcome-ok qsort service_invalid collect rs h = absurd cc
outcome-ok qsort service_not_found collect rs h = absurd cc
outcome-ok qsort service_no_memory collect rs h = absurd cc
outcome-ok qsort service_engine_error collect rs h = absurd cc

collecting :
    (limit : ℕ) (status : ServiceStatus) (collect : Collector) (n : ℕ)
    → Collected limit status collect n
    → IsCollecting limit collect
collecting limit service_ok collect n h = h.0
collecting limit service_stopped collect n h = h.0
collecting limit service_invalid collect n h = h.0
collecting limit service_not_found collect n h = h.0
collecting limit service_no_memory collect n h = h.0
collecting limit service_engine_error collect n h = h.0

module _ {E : Type 0} (engine : Engine E) (names : ℕ → Option (List ℕ)) (reallocs : ℕ → Bool)
    (index : GenerIndex) (c : Contents) (held : Holds index c) (limit b : ℕ) (s : CString)
    (e : E) where
  -- The run of the service that the normalizer starts.
  abbrev pub run_of : Visited E Collector
  run_of =
      visit_lemma engine (collect_form reallocs limit names) c (b ∷ s) (find_lemma c.lemmas (b ∷ s))
        e nothing_collected

  run_of-Collected : Collected limit run_of.status run_of.state run_of.form_count
  run_of-Collected = elim (Option-cases (find_lemma c.lemmas (b ∷ s))) [
    | inl absent ↦ rw absent (start, refl)
    | inr (entry, found) ↦ rw found (
        visit_records-Keeps engine (collect_form reallocs limit names) (Collected limit)
          (collect_form-IsKept reallocs limit names) (b ∷ s) (records_of c entry) _ refl
          (start, refl, refl))
  ]
    where
      start : IsCollecting limit nothing_collected
      start = record { numbered = tt; fits = omega arith; bounded = omega arith }

  -- With all its arguments and a limit in range, the normalizer makes a call of the service as it is
  -- described, with its collector as the visitor, and answers by the status of that call: the forms
  -- collected and sorted, or the status and nothing. The test of the two counts never fails, and the
  -- records are at most `limit`, numbered in the order of the visits.
  pub generation_normalize-eq-outcome :
      (qsort : List Normalized → List Normalized)
      → 0 < limit
      → limit ≤ hard_limit
      → (generation_normalize qsort names reallocs true engine true
            (some index)
            (some (b ∷ s))
            limit
            true
            e
          ≡ done (run_of.engine, outcome qsort run_of.status run_of.state))
        × (length run_of.state.records ≤ limit)
        × Numbered 0 run_of.state.records
        × IsCall engine
            (collect_form reallocs limit names)
            c
            (b ∷ s)
            (find_lemma c.lemmas (b ∷ s))
            e
            nothing_collected
            run_of
  unfolding generation_normalize
  generation_normalize-eq-outcome qsort pos most =
      let given : (length (b ∷ s) == 0) ≡ false = ground arith in
      let positive : (limit == 0) ≡ false = ground arith in
      let in_range : ltb hard_limit limit ≡ false = ground arith in
      let run =
        service_generate-eq-visit_lemma engine (collect_form reallocs limit names) index c b s e
          nothing_collected 0 held in
      let kept = collecting limit run_of.status run_of.state run_of.form_count run_of-Collected in
      let answer =
        after_generate-eq-outcome qsort limit run_of.status run_of.state run_of.form_count
          run_of-Collected in
      (
        rw (given, positive, in_range, run, answer) refl,
        omega (arith, kept.fits, kept.bounded),
        kept.numbered,
        visit_lemma-IsCall engine (collect_form reallocs limit names) c (b ∷ s)
            (find_lemma c.lemmas (b ∷ s)) e nothing_collected,
      )

  -- The answer is the same whichever function sorts, if it sorts.
  pub generation_normalize-determined :
      (qsort other : List Normalized → List Normalized)
      → IsSort compare_records qsort
      → IsSort compare_records other
      → 0 < limit
      → limit ≤ hard_limit
      → generation_normalize qsort names reallocs true engine true
          (some index)
          (some (b ∷ s))
          limit
          true
          e
        ≡ generation_normalize other names reallocs true engine true
            (some index)
            (some (b ∷ s))
            limit
            true
            e
  generation_normalize-determined qsort other sorts others pos most =
      let (first, _, numbered, _) = generation_normalize-eq-outcome qsort pos most in
      let (second, _, _, _) = generation_normalize-eq-outcome other pos most in
      first
      ∙ ap (λ a. done (run_of.engine, a))
          (outcome_same qsort other run_of.status run_of.state (
            sorts_agree records-IsComparison (sorted_of-IsSort qsort sorts)
              (sorted_of-IsSort other others) run_of.state.records
              (Numbered-Distinct run_of.state.records numbered)))
      ∙ sym second

  -- If the call succeeds, and the sorting function sorts, the result is the forms collected, each as
  -- often, in ascending order.
  pub generation_normalize-Ascending :
      (qsort : List Normalized → List Normalized) (e' : E) (rs : List Normalized)
      → IsSort compare_records qsort
      → 0 < limit
      → limit ≤ hard_limit
      → generation_normalize qsort names reallocs true engine true
          (some index)
          (some (b ∷ s))
          limit
          true
          e
        ≡ done (e', (normalize_ok, some rs))
      → Ascending compare_records rs × Perm rs run_of.state.records
  generation_normalize-Ascending qsort e' rs sorts pos most h =
      let (answer, _, _, _) = generation_normalize-eq-outcome qsort pos most in
      let same : outcome qsort run_of.status run_of.state ≡ (normalize_ok, some rs) = cc in
      let sorted = outcome-ok qsort run_of.status run_of.state rs same in
      let sort = sorted_of-IsSort qsort sorts in
      (
        subst (Ascending compare_records) sorted (sort.ascends run_of.state.records),
        subst (λ l. Perm l run_of.state.records) sorted (sort.rearranges run_of.state.records),
      )
