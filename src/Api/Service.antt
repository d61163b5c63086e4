-- ===== src/Api/Service.antt =====
-- The generation service of a context: made once, kept, and taken away by the cleanup.
use libmorpheus.Prelude.{
  ◌-◌, ◌^◌, ◌≡◌, ◌≢◌, refl, sym, Bool, true, false, not, Option, none, length, ltb, if◌then◌else◌,
  inl, inr, ◌⊎◌,
}
use libmorpheus.Api.Status.{Status}
use libmorpheus.GenerIndex.Format.{GenerIndex}
use libmorpheus.GenerIndex.Open.{IndexStatus}
use libmorpheus.Api.Generate.{
  ServiceStatus, service_ok, service_invalid, service_not_found, service_no_memory,
  service_engine_error, service_stopped, keep_service, after_open, Context, Answers,
  ensure_generation_service, generation_context_cleanup,
}

abbrev pub IsEnsured : Context → Context × Status → Type 0
IsEnsured context (after, status) =
    ((status ≡ Status.ok) × (after.generation_service ≡ true))
    ⊎ ((status ≢ Status.ok) × (after ≡ context))

kept :
    (context : Context) (index : Option GenerIndex) (created : ServiceStatus)
    → IsEnsured context (keep_service context index created)
kept context index service_ok = inl (refl, refl)
kept context index service_invalid = inr (λ e. cc, refl)
kept context index service_not_found = inr (λ e. cc, refl)
kept context index service_no_memory = inr (λ e. cc, refl)
kept context index service_engine_error = inr (λ e. cc, refl)
kept context index service_stopped = inr (λ e. cc, refl)

opened :
    (context : Context) (status : IndexStatus) (index : Option GenerIndex) (created : ServiceStatus)
    → IsEnsured context (after_open context status index created)
opened context IndexStatus.ok index created = kept context index created
opened context IndexStatus.invalid index created = inr (λ e. cc, refl)
opened context IndexStatus.io_error index created = inr (λ e. cc, refl)
opened context IndexStatus.no_memory index created = inr (λ e. cc, refl)
opened context IndexStatus.not_found index created = inr (λ e. cc, refl)

refused_early :
    (test : Bool) (context : Context) (status : Status) (rest : Context × Status)
    → status ≢ Status.ok
    → IsEnsured context rest
    → IsEnsured context (if test then (context, status) else rest)
refused_early true context status rest h r = inr (h, refl)
refused_early false context status rest h r = r

there_already :
    (test : Bool) (context : Context) (rest : Context × Status)
    → test ≡ context.generation_service
    → IsEnsured context rest
    → IsEnsured context (if test then (context, Status.ok) else rest)
there_already true context rest e r = inl (refl, sym e)
there_already false context rest e r = r

-- Making the service ends with it in the context and the status ok, or with the context as it was
-- and another status, so that a later request tries again.
pub ensure_generation_service-IsEnsured :
    (context : Context) (answers : Answers)
    → IsEnsured context (ensure_generation_service context answers)
unfolding ensure_generation_service
ensure_generation_service-IsEnsured context answers =
    there_already context.generation_service context _ refl (
      refused_early (ltb (2 ^ 64 - 1 - 13) (length context.stemlib_path)) context _ _ (λ e. cc)
        (refused_early (not answers.path_allocated) context _ _ (λ e. cc)
          (opened context answers.opened.0 answers.opened.1 answers.created)))

kept_on :
    (made : Context) (later : Answers)
    → made.generation_service ≡ true
    → ensure_generation_service made later ≡ (made, Status.ok)
unfolding ensure_generation_service
kept_on made later there = rw there

-- A service that is there is kept, whatever would be answered; after the cleanup it is made anew.
pub ensure_generation_service-again :
    (context : Context) (answers later : Answers)
    → (ensure_generation_service context answers).1 ≡ Status.ok
    → (ensure_generation_service (ensure_generation_service context answers).0 later
        ≡ ((ensure_generation_service context answers).0, Status.ok))
      × ((generation_context_cleanup
            (ensure_generation_service context answers).0).generation_service
          ≡ false)
      × ((generation_context_cleanup (ensure_generation_service context answers).0).generation_index
          ≡ none)
unfolding generation_context_cleanup
ensure_generation_service-again context answers later ready =
    elim (ensure_generation_service-IsEnsured context answers) [
      | inl (status, there) ↦
          (kept_on (ensure_generation_service context answers).0 later there, refl, refl)
      | inr (other, same) ↦ absurd (other ready)
    ]
