-- ===== src/Gener/Examples.antt =====
-- A run of the generation service over the sample index, with an engine that gives two forms of a
-- stem and a visitor that counts.
use libmorpheus.Prelude.{ℕ, ◌+◌, ◌≡◌, refl, Bool, true, Option, some, List, [], ◌∷◌, ◌++◌}
use libmorpheus.GenerIndex.Bytes.{done}
use libmorpheus.GenerIndex.Format.{CString}
use libmorpheus.GenerIndex.Tables.{find_lemma}
use libmorpheus.GenerIndex.Examples.{sample_key, sample_index, sample_contents, sample-Holds}
use libmorpheus.Bridge.Form.{GkWord, GkString}
use libmorpheus.Greeklib.Letters.{is_space}
use libmorpheus.Gener.Service.{Engine, no_error, separate_keys, record_keys, service_generate}
use libmorpheus.Gener.Service.{Visited}
use libmorpheus.Gener.Described.{IsCall}
use libmorpheus.Gener.Called.{service_generate-IsCall}

abbrev pub bare : List ℕ → GkString
bare text = record { dialect = 0; gkstring = text }

-- A form with a text of its own; person, number and the rest are those of a nominative singular.
abbrev pub word : (lemma text : List ℕ) → GkWord
word lemma text = record {
  forminfo = record {
    voice = 0;
    mood = 0;
    tense = 0;
    person = 0;
    number = 1;
    grammatical_case = 32;
    degree = 0;
    gender = 8;
  };
  stemtype = 4096;
  dialect = 0;
  geogregion = 0;
  morphflags = [];
  domains = [];
  lemma = lemma;
  dictform = [];
  engform = [];
  preverb = bare [];
  aug1 = bare [];
  stem = bare text;
  suffix = bare [];
  endstring = bare [];
  rawprvb = [];
  rawword = [];
  workword = text;
  crasis = [];
}

-- Two forms of every stem; the state counts the calls.
abbrev pub two_forms : ℕ → (lemma stem keys : CString) → ℕ × Option (List GkWord)
two_forms e lemma stem keys =
    (e + 1, some (word lemma (stem ++ b'o' ∷ b's' ∷ []) ∷ word lemma (stem ++ b'e' ∷ []) ∷ []))

abbrev pub plain_engine : Engine ℕ
plain_engine = record {
  begin = λ e. e;
  finish = λ e. e;
  allocates = λ e size. true;
  stem_forms = two_forms;
  irreg_forms = λ e lemma stem keys mode. two_forms e lemma stem keys;
  error = λ e. no_error;
}

abbrev counting : GkWord → ℕ → Bool × ℕ
counting form n = (true, n + 1)

-- The commas of the first word separate keys.
keys_separated :
    record_keys (b'o' ∷ b',' ∷ b'u' ∷ b' ' ∷ b'm' ∷ b',' ∷ [])
    ≡ b'o' ∷ b' ' ∷ b'u' ∷ b' ' ∷ b'm' ∷ b',' ∷ []
unfolding record_keys separate_keys is_space
keys_separated = refl

service_generate-IsCall_example :
    (v : Visited ℕ ℕ) × (service_generate plain_engine counting true
        (some sample_index)
        (some (b'q' ∷ sample_key))
        true
        true
        0
        0
        7
      ≡ done v)
    × IsCall plain_engine counting sample_contents
        (b'q' ∷ sample_key)
        (find_lemma sample_contents.lemmas (b'q' ∷ sample_key))
        0
        0
        v
service_generate-IsCall_example =
    service_generate-IsCall plain_engine counting sample_index sample_contents b'q' sample_key 0 0 7
      sample-Holds
