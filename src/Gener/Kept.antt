-- ===== src/Gener/Kept.antt =====
-- What holds of the visitor's state after every visit holds when the service ends: a property of the
-- status, the state and the count that the visitor keeps is an invariant of the whole run.
use mathlib.Core.Path.{subst}
use libmorpheus.Prelude.{
  sym, ℕ, ◌+◌, ◌≡◌, Bool, true, false, Option, none, some, List, [], ◌∷◌, length, ◌==◌, Bool-cases,
  inl, inr, arith,
}
use libmorpheus.GenerIndex.Bytes.{size_max}
use libmorpheus.GenerIndex.Format.{CString, RecordEntry}
use libmorpheus.Api.Generate.{
  ServiceStatus, service_ok, service_no_memory, service_engine_error, service_stopped,
}
use libmorpheus.Bridge.Form.{GkWord}
use libmorpheus.Gener.Service.{
  Engine, RuntimeError, no_error, error_no_memory, error_internal, Visited, visit_forms,
  record_forms, record_keys, after_forms, generate_entry, goes_on, is_error, runtime_status,
}
use libmorpheus.Gener.Visits.{visit_records, proceed-on, proceed-off}

-- The visitor keeps `Inv`, and a failure between two visits does too.
pub record IsKept {S : Type 0} (visitor : GkWord → S → Bool × S)
    (Inv : ServiceStatus → S → ℕ → Type 0) : Type 0 where
  pub visit :
      (form : GkWord) (s : S) (n : ℕ)
      → Inv service_ok s n
      → (answer : Bool) → (visitor form s).0 ≡ answer
      → Inv (elim answer [ true ↦ service_ok | false ↦ service_stopped ]) (visitor form s).1 (n + 1)
  pub no_memory : (s : S) (n : ℕ) → Inv service_ok s n → Inv service_no_memory s n
  pub engine_error : (s : S) (n : ℕ) → Inv service_ok s n → Inv service_engine_error s n

module _ {E S : Type 0} (engine : Engine E) (visitor : GkWord → S → Bool × S)
    (Inv : ServiceStatus → S → ℕ → Type 0) (kept : IsKept visitor Inv) where
  abbrev Keeps : Visited E S → Type 0
  Keeps v = Inv v.status v.state v.form_count

  visit_forms-Keeps :
      (forms : List GkWord) (e : E) (s : S) (n : ℕ)
      → Inv service_ok s n
      → Keeps (visit_forms engine visitor forms e s n)
  unfolding visit_forms
  visit_forms-Keeps [] e s n h = h
  visit_forms-Keeps (form ∷ forms) e s n h = elim (Bool-cases (length form.workword == 0)) [
    | inl last ↦ rw last h
    | inr more ↦ elim (Bool-cases (n == size_max)) [
      | inl full ↦ rw (more, full) (kept.engine_error s n h)
      | inr room ↦ elim (Bool-cases (visitor form s).0) [
        | inl on ↦
            rw (more, room, on)
              (visit_forms-Keeps forms e (visitor form s).1 (n + 1) (kept.visit form s n h true on))
        | inr off ↦ rw (more, room, off) (kept.visit form s n h false off)
      ]
    ]
  ]

  failed-Keeps :
      (error : RuntimeError) (s : S) (n : ℕ) → Inv service_ok s n → Inv (runtime_status error) s n
  unfolding runtime_status
  failed-Keeps no_error s n h = kept.engine_error s n h
  failed-Keeps error_no_memory s n h = kept.no_memory s n h
  failed-Keeps error_internal s n h = kept.engine_error s n h

  after_forms-Keeps :
      (e : E) (forms : Option (List GkWord)) (s : S) (n : ℕ)
      → Inv service_ok s n
      → Keeps (after_forms engine visitor e forms s n)
  after_forms-Keeps e none s n h = failed-Keeps (engine.error e) s n h
  after_forms-Keeps e (some forms) s n h = elim (Bool-cases (is_error (engine.error e))) [
    | inl bad ↦ rw bad (failed-Keeps (engine.error e) s n h)
    | inr good ↦ rw good (visit_forms-Keeps forms e s n h)
  ]

  generate_entry-Keeps :
      (lemma : CString) (kind : ℕ) (stem keys : CString) (v : Visited E S)
      → Inv service_ok v.state v.form_count
      → Keeps (generate_entry engine visitor lemma kind stem keys v)
  unfolding generate_entry
  generate_entry-Keeps lemma kind stem keys v h =
      elim (Bool-cases (engine.allocates v.engine (length keys + 1))) [
        | inl given ↦
            let answer = record_forms engine visitor v.engine kind lemma stem (record_keys keys) in
            rw given (after_forms-Keeps answer.0 answer.1 v.state v.form_count h)
        | inr refused ↦ rw refused (kept.no_memory v.state v.form_count h)
      ]

  ok_status : (status : ServiceStatus) → goes_on status ≡ true → status ≡ service_ok
  ok_status status h = ground arith

  pub visit_records-Keeps :
      (lemma : CString) (es : List RecordEntry) (v : Visited E S)
      → goes_on v.status ≡ true
      → Keeps v
      → Keeps (visit_records engine visitor lemma es v)
  visit_records-Keeps lemma [] v ok h = h
  visit_records-Keeps lemma (x ∷ es) v ok h =
      let w = generate_entry engine visitor lemma x.kind x.stem x.keys v in
      let rest = visit_records engine visitor lemma es in
      let start = subst (λ status. Inv status v.state v.form_count) (ok_status v.status ok) h in
      let here = generate_entry-Keeps lemma x.kind x.stem x.keys v start in
      elim (Bool-cases (goes_on w.status)) [
        | inl on ↦
            subst Keeps (sym (proceed-on engine visitor rest w on))
              (visit_records-Keeps lemma es w on here)
        | inr off ↦ subst Keeps (sym (proceed-off engine visitor rest w off)) here
      ]
