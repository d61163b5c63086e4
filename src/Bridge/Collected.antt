-- ===== src/Bridge/Collected.antt =====
-- What the collector of src/bridge/generation_normalizer.c keeps: its records are numbered in the
-- order of the visits, and their number is within the capacity and the limit.
use libmorpheus.Prelude.{
  ℕ, suc, ◌+◌, ◌≤◌, ◌<◌, ◌≡◌, refl, Bool, true, false, ◌||◌, Option, some, Option-cases, List, [],
  ◌∷◌, ◌++◌, length, length-append, ◌==◌, inl, inr, Bool-cases, arith,
}
use libmorpheus.Api.Generation.{Normalized}
use libmorpheus.Api.Generate.{
  ServiceStatus, service_ok, service_invalid, service_not_found, service_no_memory,
  service_engine_error, service_stopped,
}
use libmorpheus.Bridge.Form.{GkWord}
use libmorpheus.Bridge.Normalizer.{Collector, grow_result, record_of, collect_form, append_form}
use libmorpheus.Gener.Kept.{IsKept}

-- The records stand in the order of their `source_order`, which counts from `n`.
abbrev pub Numbered : ℕ → List Normalized → Type 0
Numbered n [] = Unit
Numbered n (r ∷ rs) = (r.source_order ≡ n) × Numbered (suc n) rs

Numbered-append :
    (n : ℕ) (rs : List Normalized) (r : Normalized)
    → Numbered n rs
    → r.source_order ≡ n + length rs
    → Numbered n (rs ++ r ∷ [])
Numbered-append n [] r h e = (omega arith, tt)
Numbered-append n (x ∷ rs) r h e = (h.0, Numbered-append (suc n) rs r h.1 (omega arith))

pub record IsCollecting (limit : ℕ) (collect : Collector) : Type 0 where
  pub numbered : Numbered 0 collect.records
  pub fits : length collect.records ≤ collect.capacity
  pub bounded : collect.capacity ≤ limit

abbrev pub flagged : Collector → Bool
flagged collect = collect.limit_exceeded || collect.no_memory

-- What holds of the collector, by the status of the service: while it is `service_ok` there are as
-- many records as forms were counted, and a visit is stopped just when a flag is set.
abbrev pub Collected : ℕ → ServiceStatus → Collector → ℕ → Type 0
Collected limit service_ok collect n =
    IsCollecting limit collect × (flagged collect ≡ false) × (length collect.records ≡ n)
Collected limit service_stopped collect n = IsCollecting limit collect × (flagged collect ≡ true)
Collected limit service_invalid collect n = IsCollecting limit collect × (flagged collect ≡ false)
Collected limit service_not_found collect n = IsCollecting limit collect × (flagged collect ≡ false)
Collected limit service_no_memory collect n = IsCollecting limit collect × (flagged collect ≡ false)
Collected limit service_engine_error collect n =
    IsCollecting limit collect × (flagged collect ≡ false)

-- What a visit leaves, by its answer.
abbrev pub Outcome : ℕ → ℕ → Bool × Collector → Type 0
Outcome limit n (true, collect) = Collected limit service_ok collect (n + 1)
Outcome limit n (false, collect) = IsCollecting limit collect × (flagged collect ≡ true)

Outcome-at :
    (limit n : ℕ) (a : Bool × Collector)
    → Outcome limit n a
    → (b : Bool) → a.0 ≡ b
    → Collected limit (elim b [ true ↦ service_ok | false ↦ service_stopped ]) a.1 (n + 1)
Outcome-at limit n (true, collect) h true e = h
Outcome-at limit n (true, collect) h false e = absurd cc
Outcome-at limit n (false, collect) h true e = absurd cc
Outcome-at limit n (false, collect) h false e = h

module _ (reallocs : ℕ → Bool) (limit : ℕ) (names : ℕ → Option (List ℕ)) where
  grow_result-bounds :
      (capacity grown : ℕ)
      → grow_result reallocs limit capacity ≡ some grown
      → (capacity < grown) × (grown ≤ limit)
  unfolding grow_result
  grow_result-bounds capacity grown h = ground arith

  append_form-Collected :
      (form : GkWord) (collect : Collector) (n capacity : ℕ)
      → Collected limit service_ok collect n
      → length collect.records < capacity
      → capacity ≤ limit
      → Collected limit service_ok
          (append_form reallocs limit names form collect capacity).1
          (n + 1)
  unfolding record_of
  append_form-Collected form collect n capacity h room most =
      let r = record_of names form (length collect.records) in
      let size = length-append collect.records (r ∷ []) in
      (
        record {
          numbered = Numbered-append 0 collect.records r h.0.numbered (omega arith);
          fits = omega (arith, size);
          bounded = most;
        },
        h.1,
        omega (arith, size, h.2),
      )

  flag_set :
      (collect : Collector) (exceeded full : Bool)
      → IsCollecting limit collect
      → (exceeded || full) ≡ true
      → Outcome limit 0 (
        false,
        record {
          records = collect.records;
          capacity = collect.capacity;
          limit_exceeded = exceeded;
          no_memory = full;
        },
      )
  flag_set collect exceeded full h e =
      (record { numbered = h.numbered; fits = h.fits; bounded = h.bounded }, e)

  -- A visit either appends the record of the form, or sets a flag and keeps the records.
  pub collect_form-Outcome :
      (form : GkWord) (collect : Collector) (n : ℕ)
      → Collected limit service_ok collect n
      → Outcome limit n (collect_form reallocs limit names form collect)
  unfolding collect_form
  collect_form-Outcome form collect n h = elim (Bool-cases (length collect.records == limit)) [
    | inl full ↦ rw full (flag_set collect true collect.no_memory h.0 refl)
    | inr more ↦ elim (Bool-cases (length collect.records == collect.capacity)) [
      | inl grows ↦ elim (Option-cases (grow_result reallocs limit collect.capacity)) [
        | inl failed ↦
            rw (more, grows, failed)
              (flag_set collect collect.limit_exceeded true h.0 (ground arith))
        | inr (grown, e) ↦
            let bounds = grow_result-bounds collect.capacity grown e in
            rw (more, grows, e)
              (append_form-Collected form collect n grown h (ground arith) bounds.1)
      ]
      | inr room ↦
          let size : length collect.records < collect.capacity = less collect h.0 room in
          rw (more, room) (append_form-Collected form collect n collect.capacity h size h.0.bounded)
    ]
  ]
    where
      less :
          (collect : Collector)
          → IsCollecting limit collect
          → (length collect.records == collect.capacity) ≡ false
          → length collect.records < collect.capacity
      less collect h room = ground (arith, h.fits)

  pub collect_form-IsKept : IsKept (collect_form reallocs limit names) (Collected limit)
  collect_form-IsKept = record {
    visit = λ form s n h answer e.
        Outcome-at limit n (collect_form reallocs limit names form s)
          (collect_form-Outcome form s n h) answer e;
    no_memory = λ s n h. (h.0, h.1);
    engine_error = λ s n h. (h.0, h.1);
  }
