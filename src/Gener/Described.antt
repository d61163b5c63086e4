-- ===== src/Gener/Described.antt =====
-- What a call of the generation service does, described apart from its code: the keys of a record,
-- the question to the engine, and the visits up to a failure or the visitor's stop.
use libmorpheus.Prelude.{
  ℕ, ◌+◌, ◌≡◌, ◌≢◌, ◌⊎◌, Bool, true, false, Option, none, some, List, [], ◌∷◌, ◌++◌, map, length,
  ◌==◌, if◌then◌else◌,
}
use libmorpheus.GenerIndex.Bytes.{size_max}
use libmorpheus.GenerIndex.Format.{CString, LemmaEntry, RecordEntry}
use libmorpheus.GenerIndex.WellFormed.{Contents}
use libmorpheus.Api.Generate.{
  ServiceStatus, service_ok, service_not_found, service_no_memory, service_engine_error,
  service_stopped,
}
use libmorpheus.Bridge.Form.{GkWord}
use libmorpheus.Greeklib.Letters.{is_space}
use libmorpheus.Gener.Service.{RuntimeError, no_error, error_no_memory, Engine, Visited}
use libmorpheus.Gener.Visits.{records_of}

abbrev pub AllAre : (ℕ → Bool) → Bool → CString → Type 0
AllAre p answer [] = Unit
AllAre p answer (c ∷ s) = (p c ≡ answer) × AllAre p answer s

-- A string that is empty or begins with a space.
abbrev pub StartsSpaced : CString → Type 0
StartsSpaced [] = Unit
StartsSpaced (c ∷ s) = is_space c ≡ true

abbrev pub comma_to_space : ℕ → ℕ
comma_to_space c = if c == 44 then 32 else c

-- The keys that the engine gets: in the first word of the record's keys every comma is a space.
pub record IsKeys (source keys : CString) : Type 0 where
  pub blank : CString
  pub word : CString
  pub rest : CString
  pub parts : source ≡ blank ++ (word ++ rest)
  pub blank_spaces : AllAre is_space true blank
  pub word_letters : AllAre is_space false word
  pub rest_spaced : StartsSpaced rest
  pub result : keys ≡ blank ++ (map comma_to_space word ++ rest)

-- The status for what the runtime context has recorded.
abbrev pub IsFailure : RuntimeError → ServiceStatus → Type 0
IsFailure error status =
    ((error ≡ error_no_memory) × (status ≡ service_no_memory))
    ⊎ ((error ≢ error_no_memory) × (status ≡ service_engine_error))

module _ {E S : Type 0} (engine : Engine E) (visitor : GkWord → S → Bool × S) where
  -- The question for a record: its kind chooses the function of the engine and the mode.
  abbrev pub IsAsked : E → CString → RecordEntry → CString → E × Option (List GkWord) → Type 0
  IsAsked e lemma r keys answer =
      (r.kind ≡ 4 → answer ≡ engine.irreg_forms e lemma r.stem keys 2048)
      × (r.kind ≡ 5 → answer ≡ engine.irreg_forms e lemma r.stem keys 0)
      × (r.kind ≢ 4 → r.kind ≢ 5 → answer ≡ engine.stem_forms e lemma r.stem keys)

  -- From the visitor's state and the count the forms of a record lead to a status, a state and a
  -- count. Forms are visited up to the first one without a text; each one is counted, the last one,
  -- at which the visitor stops, too.
  pub data OfForms : List GkWord → S → ℕ → ServiceStatus → S → ℕ → Type 0 where
    no_form : (s : S) (count : ℕ) → OfForms [] s count service_ok s count
    no_text :
        (form : GkWord) (forms : List GkWord) (s : S) (count : ℕ)
        → length form.workword ≡ 0
        → OfForms (form ∷ forms) s count service_ok s count
    count_full :
        (form : GkWord) (forms : List GkWord) (s : S) (count : ℕ)
        → length form.workword ≢ 0
        → count ≡ size_max
        → OfForms (form ∷ forms) s count service_engine_error s count
    form_visited :
        (form : GkWord) (forms : List GkWord) (s s' t : S) (count last : ℕ) (status : ServiceStatus)
        → length form.workword ≢ 0
        → count ≢ size_max
        → visitor form s ≡ (true, s')
        → OfForms forms s' (count + 1) status t last
        → OfForms (form ∷ forms) s count status t last
    form_stops :
        (form : GkWord) (forms : List GkWord) (s s' : S) (count : ℕ)
        → length form.workword ≢ 0
        → count ≢ size_max
        → visitor form s ≡ (false, s')
        → OfForms (form ∷ forms) s count service_stopped s' (count + 1)

  -- What a record leads to.
  pub data OfRecord (lemma : CString) (r : RecordEntry) (v : Visited E S)
      : Visited E S → Type 0 where
    keys_refused :
        engine.allocates v.engine (length r.keys + 1) ≡ false
        → OfRecord lemma r v (record {
          status = service_no_memory;
          engine = v.engine;
          state = v.state;
          form_count = v.form_count;
        })
    forms_refused :
        (keys : CString) (e : E) (status : ServiceStatus)
        → engine.allocates v.engine (length r.keys + 1) ≡ true
        → IsKeys r.keys keys
        → IsAsked v.engine lemma r keys (e, none)
        → IsFailure (engine.error e) status
        → OfRecord lemma r v
            (record { status = status; engine = e; state = v.state; form_count = v.form_count })
    error_recorded :
        (keys : CString) (e : E) (forms : List GkWord) (status : ServiceStatus)
        → engine.allocates v.engine (length r.keys + 1) ≡ true
        → IsKeys r.keys keys
        → IsAsked v.engine lemma r keys (e, some forms)
        → engine.error e ≢ no_error
        → IsFailure (engine.error e) status
        → OfRecord lemma r v
            (record { status = status; engine = e; state = v.state; form_count = v.form_count })
    record_visited :
        (keys : CString) (e : E) (forms : List GkWord) (status : ServiceStatus) (t : S) (last : ℕ)
        → engine.allocates v.engine (length r.keys + 1) ≡ true
        → IsKeys r.keys keys
        → IsAsked v.engine lemma r keys (e, some forms)
        → engine.error e ≡ no_error
        → OfForms forms v.state v.form_count status t last
        → OfRecord lemma r v (record { status = status; engine = e; state = t; form_count = last })

  -- Records are visited in their order, up to the first one that does not end with `service_ok`.
  pub data OfRecords (lemma : CString) : List RecordEntry → Visited E S → Visited E S → Type 0 where
    no_record : (v : Visited E S) → OfRecords lemma [] v v
    record_done :
        (r : RecordEntry) (rs : List RecordEntry) (v w u : Visited E S)
        → OfRecord lemma r v w
        → w.status ≡ service_ok
        → OfRecords lemma rs w u
        → OfRecords lemma (r ∷ rs) v u
    record_ends :
        (r : RecordEntry) (rs : List RecordEntry) (v w : Visited E S)
        → OfRecord lemma r v w
        → w.status ≢ service_ok
        → OfRecords lemma (r ∷ rs) v w

  -- What a call leads to: for a lemma that is not there nothing is asked, and else its records are
  -- visited, all of them in the engine's context.
  abbrev pub IsCall : Contents → CString → Option LemmaEntry → E → S → Visited E S → Type 0
  IsCall c lemma none e s v =
      v ≡ record { status = service_not_found; engine = e; state = s; form_count = 0 }
  IsCall c lemma (some entry) e s v =
      (w : Visited E S) × OfRecords lemma (records_of c entry)
        (record { status = service_ok; engine = engine.begin e; state = s; form_count = 0 }) w
      × (v ≡ record {
        status = w.status;
        engine = engine.finish w.engine;
        state = w.state;
        form_count = w.form_count;
      })
