-- ===== src/Bridge/PartOfSpeech.antt =====
-- The part of speech of a stem type: `morpheus_public_part_of_speech` of src/bridge/legacy_values.c.
-- The name of a stem type is what `NameOfStemtype` finds in the tables of the stem library, a
-- parameter.
use Prim.Native.Nat.{bit_and, Ordering}
use libmorpheus.Prelude.{
  ℕ, Bool, true, false, Option, none, some, List, [], ◌∷◌, any, strcmp, ◌!=◌, if◌then◌else◌,
}

-- PPARTMASK, NOUNSTEM and ADJSTEM of src/includes/stemtype.h
abbrev pub ppart_mask : ℕ
ppart_mask = 14680064

abbrev pub noun_stem : ℕ
noun_stem = 4096

abbrev pub adj_stem : ℕ
adj_stem = 2048

abbrev name_adverb : List ℕ
name_adverb = b'a' ∷ b'd' ∷ b'v' ∷ b'e' ∷ b'r' ∷ b'b' ∷ []

abbrev name_article : List ℕ
name_article = b'a' ∷ b'r' ∷ b't' ∷ b'i' ∷ b'c' ∷ b'l' ∷ b'e' ∷ []

abbrev name_demonstr : List ℕ
name_demonstr = b'd' ∷ b'e' ∷ b'm' ∷ b'o' ∷ b'n' ∷ b's' ∷ b't' ∷ b'r' ∷ []

abbrev name_indef : List ℕ
name_indef = b'i' ∷ b'n' ∷ b'd' ∷ b'e' ∷ b'f' ∷ []

abbrev name_indef_pron : List ℕ
name_indef_pron = b'i' ∷ b'n' ∷ b'd' ∷ b'e' ∷ b'f' ∷ b'_' ∷ b'p' ∷ b'r' ∷ b'o' ∷ b'n' ∷ []

abbrev name_indef_rel_pron : List ℕ
name_indef_rel_pron =
    b'i' ∷ b'n' ∷ b'd' ∷ b'e' ∷ b'f' ∷ b'_' ∷ b'r' ∷ b'e' ∷ b'l' ∷ b'_' ∷ b'p' ∷ b'r' ∷ b'o' ∷ b'n'
    ∷ []

abbrev name_interrog : List ℕ
name_interrog = b'i' ∷ b'n' ∷ b't' ∷ b'e' ∷ b'r' ∷ b'r' ∷ b'o' ∷ b'g' ∷ []

abbrev name_pers_pron : List ℕ
name_pers_pron = b'p' ∷ b'e' ∷ b'r' ∷ b's' ∷ b'_' ∷ b'p' ∷ b'r' ∷ b'o' ∷ b'n' ∷ []

abbrev name_pron1 : List ℕ
name_pron1 = b'p' ∷ b'r' ∷ b'o' ∷ b'n' ∷ b'1' ∷ []

abbrev name_pron3 : List ℕ
name_pron3 = b'p' ∷ b'r' ∷ b'o' ∷ b'n' ∷ b'3' ∷ []

abbrev name_pron_adj1 : List ℕ
name_pron_adj1 = b'p' ∷ b'r' ∷ b'o' ∷ b'n' ∷ b'_' ∷ b'a' ∷ b'd' ∷ b'j' ∷ b'1' ∷ []

abbrev name_pron_adj3 : List ℕ
name_pron_adj3 = b'p' ∷ b'r' ∷ b'o' ∷ b'n' ∷ b'_' ∷ b'a' ∷ b'd' ∷ b'j' ∷ b'3' ∷ []

abbrev name_relative : List ℕ
name_relative = b'r' ∷ b'e' ∷ b'l' ∷ b'a' ∷ b't' ∷ b'i' ∷ b'v' ∷ b'e' ∷ []

abbrev name_rel_pron : List ℕ
name_rel_pron = b'r' ∷ b'e' ∷ b'l' ∷ b'_' ∷ b'p' ∷ b'r' ∷ b'o' ∷ b'n' ∷ []

abbrev name_numeral : List ℕ
name_numeral = b'n' ∷ b'u' ∷ b'm' ∷ b'e' ∷ b'r' ∷ b'a' ∷ b'l' ∷ []

abbrev name_prep : List ℕ
name_prep = b'p' ∷ b'r' ∷ b'e' ∷ b'p' ∷ []

abbrev name_conj : List ℕ
name_conj = b'c' ∷ b'o' ∷ b'n' ∷ b'j' ∷ []

abbrev name_connect : List ℕ
name_connect = b'c' ∷ b'o' ∷ b'n' ∷ b'n' ∷ b'e' ∷ b'c' ∷ b't' ∷ []

abbrev name_particle : List ℕ
name_particle = b'p' ∷ b'a' ∷ b'r' ∷ b't' ∷ b'i' ∷ b'c' ∷ b'l' ∷ b'e' ∷ []

abbrev name_expletive : List ℕ
name_expletive = b'e' ∷ b'x' ∷ b'p' ∷ b'l' ∷ b'e' ∷ b't' ∷ b'i' ∷ b'v' ∷ b'e' ∷ []

abbrev name_exclam : List ℕ
name_exclam = b'e' ∷ b'x' ∷ b'c' ∷ b'l' ∷ b'a' ∷ b'm' ∷ []

abbrev name_alphabetic : List ℕ
name_alphabetic = b'a' ∷ b'l' ∷ b'p' ∷ b'h' ∷ b'a' ∷ b'b' ∷ b'e' ∷ b't' ∷ b'i' ∷ b'c' ∷ []

abbrev name_indecl_noun : List ℕ
name_indecl_noun = b'i' ∷ b'n' ∷ b'd' ∷ b'e' ∷ b'c' ∷ b'l' ∷ b'_' ∷ b'n' ∷ b'o' ∷ b'u' ∷ b'n' ∷ []

abbrev name_irreg_decl3 : List ℕ
name_irreg_decl3 = b'i' ∷ b'r' ∷ b'r' ∷ b'e' ∷ b'g' ∷ b'_' ∷ b'd' ∷ b'e' ∷ b'c' ∷ b'l' ∷ b'3' ∷ []

abbrev name_indecl : List ℕ
name_indecl = b'i' ∷ b'n' ∷ b'd' ∷ b'e' ∷ b'c' ∷ b'l' ∷ []

abbrev is_eq : Ordering → Bool
is_eq Ordering.lt = false
is_eq Ordering.eq = true
is_eq Ordering.gt = false

unfoldable pub stem_type_name_is : Option (List ℕ) → List ℕ → Bool
stem_type_name_is none candidate = false
stem_type_name_is (some name) candidate = is_eq (strcmp name candidate)

abbrev pub pronoun_names : List (List ℕ)
pronoun_names =
    name_demonstr ∷ name_indef ∷ name_indef_pron ∷ name_indef_rel_pron ∷ name_interrog
    ∷ name_pers_pron ∷ name_pron1 ∷ name_pron3 ∷ name_pron_adj1 ∷ name_pron_adj3 ∷ name_relative
    ∷ name_rel_pron ∷ []

abbrev pub noun_names : List (List ℕ)
noun_names = name_alphabetic ∷ name_indecl_noun ∷ name_irreg_decl3 ∷ []

abbrev pub one_of : Option (List ℕ) → List (List ℕ) → Bool
one_of name names = any (stem_type_name_is name) names

-- The tests on the name, which come before those on the class of the stem.
abbrev pub part_of_name : Option (List ℕ) → ℕ → ℕ
part_of_name name stemtype =
    if stem_type_name_is name name_adverb
    then 4
    else if stem_type_name_is name name_article
    then 5
    else if one_of name pronoun_names
    then 6
    else if stem_type_name_is name name_numeral
    then 7
    else if stem_type_name_is name name_prep
    then 8
    else if one_of name (name_conj ∷ name_connect ∷ [])
    then 9
    else if one_of name (name_particle ∷ name_expletive ∷ [])
    then 10
    else if stem_type_name_is name name_exclam
    then 11
    else if one_of name noun_names
    then 1
    else if stem_type_name_is name name_indecl
    then 0
    else if bit_and stemtype noun_stem != 0
    then 1
    else if bit_and stemtype adj_stem != 0
    then 3
    else 0

unfoldable pub public_part_of_speech : (ℕ → Option (List ℕ)) → ℕ → ℕ
public_part_of_speech name_of_stemtype stemtype =
    if bit_and stemtype ppart_mask != 0
    then 2
    else part_of_name (name_of_stemtype stemtype) stemtype
