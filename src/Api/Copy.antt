-- ===== src/Api/Copy.antt =====
-- The copy of an analysis of the engine: `copy_analysis` of src/api/analyze.c.
use Prim.Native.Nat.{bit_or}
use libmorpheus.Prelude.{ℕ, ◌*◌, Option, List, [], ◌∷◌, if◌then◌else◌}
use libmorpheus.Bridge.Values.{
  public_dialect, public_region, public_person, public_number, public_gender, public_case,
  public_tense, public_mood, public_voice, public_degree,
}
use libmorpheus.Bridge.Flags.{public_morph_flags}
use libmorpheus.Bridge.PartOfSpeech.{public_part_of_speech}
use libmorpheus.Bridge.Form.{GkWord, copy_text, text_capacity}

-- `morpheus_analysis`
pub record Analysis : Type 0 where
  pub struct_size : ℕ
  pub part_of_speech : ℕ
  pub dialect : ℕ
  pub geographic_region : ℕ
  pub person : ℕ
  pub number : ℕ
  pub gender : ℕ
  pub grammatical_case : ℕ
  pub tense : ℕ
  pub mood : ℕ
  pub voice : ℕ
  pub degree : ℕ
  pub raw : List ℕ
  pub workword : List ℕ
  pub lemma : List ℕ
  pub preverb : List ℕ
  pub augment : List ℕ
  pub stem : List ℕ
  pub suffix : List ℕ
  pub ending : List ℕ
  pub crasis : List ℕ
  pub dictionary_form : List ℕ
  pub english_form : List ℕ
  pub raw_preverb : List ℕ
  pub domains : List ℕ
  pub morph_flags : List ℕ

-- MORPHEUS_DOMAIN_CAPACITY and `sizeof(morpheus_analysis)`
abbrev pub domain_capacity : ℕ
domain_capacity = 24

abbrev pub analysis_size : ℕ
analysis_size = 852

-- The texts of an analysis in the order of their bits in the truncated fields, from bit 0 on, each
-- with the capacity of its array.
abbrev pub texts_of : GkWord → List (ℕ × List ℕ)
texts_of source =
    (text_capacity, source.rawword)
    ∷ (text_capacity, source.workword)
    ∷ (text_capacity, source.lemma)
    ∷ (text_capacity, source.preverb.gkstring)
    ∷ (text_capacity, source.aug1.gkstring)
    ∷ (text_capacity, source.stem.gkstring)
    ∷ (text_capacity, source.suffix.gkstring)
    ∷ (text_capacity, source.endstring.gkstring)
    ∷ (text_capacity, source.crasis)
    ∷ (text_capacity, source.dictform)
    ∷ (text_capacity, source.engform)
    ∷ (text_capacity, source.rawprvb)
    ∷ (domain_capacity, source.domains)
    ∷ []

-- The calls of `copy_text` one after the other, the next one having the bit `bit`.
unfoldable pub truncated_by : (bit truncated : ℕ) → List (ℕ × List ℕ) → ℕ
truncated_by bit truncated [] = truncated
truncated_by bit truncated ((capacity, text) ∷ texts) =
    truncated_by (bit * 2) (if (copy_text capacity text).1 then bit_or truncated bit else truncated)
      texts

-- The analysis and its truncated fields.
unfoldable pub copy_analysis : (ℕ → Option (List ℕ)) → GkWord → Analysis × ℕ
copy_analysis name_of_stemtype source =
    let info = source.forminfo in
    let part_of_speech = public_part_of_speech name_of_stemtype source.stemtype in
    (
      record {
        struct_size = analysis_size;
        part_of_speech = part_of_speech;
        dialect = public_dialect source.dialect;
        geographic_region = public_region source.geogregion;
        person = public_person info.person;
        number = public_number info.number;
        gender = public_gender info.gender;
        grammatical_case = public_case info.grammatical_case;
        tense = public_tense info.tense;
        mood = public_mood info.mood;
        voice = public_voice info.voice;
        degree = public_degree info.degree part_of_speech source.morphflags;
        raw = (copy_text text_capacity source.rawword).0;
        workword = (copy_text text_capacity source.workword).0;
        lemma = (copy_text text_capacity source.lemma).0;
        preverb = (copy_text text_capacity source.preverb.gkstring).0;
        augment = (copy_text text_capacity source.aug1.gkstring).0;
        stem = (copy_text text_capacity source.stem.gkstring).0;
        suffix = (copy_text text_capacity source.suffix.gkstring).0;
        ending = (copy_text text_capacity source.endstring.gkstring).0;
        crasis = (copy_text text_capacity source.crasis).0;
        dictionary_form = (copy_text text_capacity source.dictform).0;
        english_form = (copy_text text_capacity source.engform).0;
        raw_preverb = (copy_text text_capacity source.rawprvb).0;
        domains = (copy_text domain_capacity source.domains).0;
        morph_flags = public_morph_flags source.morphflags;
      },
      truncated_by 1 0 (texts_of source),
    )
