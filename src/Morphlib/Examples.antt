-- ===== src/Morphlib/Examples.antt =====
-- Examples for src/morphlib/endio.c and morphstrcmp.c.
use libmorpheus.Prelude.{
  ◌^◌, ◌≡◌, refl, true, false, some, [], ◌∷◌, ◌++◌, length, replicate, arith, ◌<◌, ◌≤◌,
}
use libmorpheus.GenerIndex.Bytes.{done}
use libmorpheus.Bridge.Form.{WordForm}
use libmorpheus.Morphlib.WordForms.{pack_word_form, unpack_word_form}
use libmorpheus.Morphlib.PackedForms.{FitsFields, unpack_word_form-pack_word_form}
use libmorpheus.Morphlib.Endio.{Ending, set_endheader, get_endheader}
use libmorpheus.Morphlib.Headers.{get_endheader-set_endheader}
use mathlib.Core.Bool.{false≢true}
use libmorpheus.Prelude.{strcmp, take, map, filter}
use libmorpheus.Greeklib.Letters.{is_alpha}
use libmorpheus.Morphlib.Morphstrcmp.{Comptab, morphstrcmp, morphstrncmp, dictstrncmp}
use libmorpheus.Morphlib.Folded.{folded, IsMade, morphstrcmp-eq-strcmp}
use libmorpheus.Morphlib.DictOrder.{dictstrncmp-eq-strcmp}

abbrev traits : WordForm
traits = record {
  voice = 1;
  mood = 6;
  tense = 9;
  person = 3;
  number = 4;
  grammatical_case = 33;
  degree = 2;
  gender = 8;
}

traits-FitsFields : FitsFields traits
traits-FitsFields = record {
  voice = omega arith;
  mood = omega arith;
  tense = omega arith;
  person = omega arith;
  number = omega arith;
  grammatical_case = omega arith;
  degree = omega arith;
  gender = omega arith;
}

-- A group with the text "os".
abbrev group : Ending
group = record {
  forminfo = traits;
  steminfo = 268435457;
  derivtype = 0;
  dialect = 65535;
  geogregion = 7;
  morphflags = replicate 13 1 ++ 33 ∷ [];
  domains = 0 ∷ 2 ∷ replicate 19 0;
  gkstring = 111 ∷ 115 ∷ 0 ∷ replicate 57 9;
}

unpack_word_form-pack_word_form_example :
    (unpack_word_form (pack_word_form traits) ≡ traits) × (pack_word_form traits < 2 ^ 32)
unpack_word_form-pack_word_form_example = unpack_word_form-pack_word_form traits traits-FitsFields

get_endheader-set_endheader_example :
    ((set_endheader 9 8).1 ≡ true)
    × (length (set_endheader 9 8).0 ≡ 8)
    × (get_endheader false
          (length ((set_endheader 9 8).0 ++ replicate 120 1))
          ((set_endheader 9 8).0 ++ replicate 120 1)
        ≡ ((some 2, 9), replicate 120 1))
get_endheader-set_endheader_example =
    get_endheader-set_endheader 9 2 8 false (replicate 120 1) (omega arith) (omega arith)
      (omega arith) (omega arith) refl

-- The context before the first comparison.
abbrev fresh : Comptab
fresh = record { comparison_table = λ i. 0; comparison_table_initialized = false }

-- An iota subscript and an i.
morphstrcmp-eq-strcmp_example :
    ((morphstrcmp fresh (some (b'w' ∷ b'|' ∷ [])) (some (b'w' ∷ b'i' ∷ b's' ∷ []))).0
      ≡ done (strcmp (map folded (b'w' ∷ b'|' ∷ [])) (map folded (b'w' ∷ b'i' ∷ b's' ∷ []))))
    × ((morphstrncmp fresh (some (b'w' ∷ b'|' ∷ [])) (some (b'w' ∷ b'i' ∷ b's' ∷ [])) 2).0
        ≡ done (
            strcmp
              (take 2 (map folded (b'w' ∷ b'|' ∷ [])))
              (take 2 (map folded (b'w' ∷ b'i' ∷ b's' ∷ [])))))
    × IsMade (morphstrcmp fresh (some (b'w' ∷ b'|' ∷ [])) (some (b'w' ∷ b'i' ∷ b's' ∷ []))).1
    × (1 ≤ 2
        → IsMade
            (morphstrncmp fresh (some (b'w' ∷ b'|' ∷ [])) (some (b'w' ∷ b'i' ∷ b's' ∷ [])) 2).1)
    × (2 < 1
        → (morphstrncmp fresh (some (b'w' ∷ b'|' ∷ [])) (some (b'w' ∷ b'i' ∷ b's' ∷ [])) 2).1
          ≡ fresh)
morphstrcmp-eq-strcmp_example =
    morphstrcmp-eq-strcmp fresh (b'w' ∷ b'|' ∷ []) (b'w' ∷ b'i' ∷ b's' ∷ []) 2
      (λ e. absurd (false≢true e)) refl refl

dictstrncmp-eq-strcmp_example :
    ((dictstrncmp fresh (some (b'a' ∷ b'/' ∷ b'g' ∷ [])) (some (b'a' ∷ b'g' ∷ [])) 5).0
      ≡ done (
          strcmp
            (take 5 (filter is_alpha (b'a' ∷ b'/' ∷ b'g' ∷ [])))
            (take 5 (filter is_alpha (b'a' ∷ b'g' ∷ [])))))
    × (1 ≤ 5
        → IsMade (dictstrncmp fresh (some (b'a' ∷ b'/' ∷ b'g' ∷ [])) (some (b'a' ∷ b'g' ∷ [])) 5).1)
    × (5 < 1
        → (dictstrncmp fresh (some (b'a' ∷ b'/' ∷ b'g' ∷ [])) (some (b'a' ∷ b'g' ∷ [])) 5).1
          ≡ fresh)
dictstrncmp-eq-strcmp_example =
    dictstrncmp-eq-strcmp fresh (b'a' ∷ b'/' ∷ b'g' ∷ []) (b'a' ∷ b'g' ∷ []) 5
      (λ e. absurd (false≢true e))
