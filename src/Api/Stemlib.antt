-- ===== src/Api/Stemlib.antt =====
-- The files of a stem library that a context needs: the names that src/api/context.c takes from
-- src/includes/libfiles.h, endfiles.h and gkdict.h, and the directories of the languages.
use libmorpheus.Prelude.{ℕ, List, [], ◌∷◌}
use libmorpheus.Api.Status.{Language, greek, latin, italian}

abbrev pub vowcontracts : List ℕ
vowcontracts =
    b'r' ∷ b'u' ∷ b'l' ∷ b'e' ∷ 95 ∷ b'f' ∷ b'i' ∷ b'l' ∷ b'e' ∷ b's' ∷ 47 ∷ b'v' ∷ b'o' ∷ b'w'
    ∷ b'c' ∷ b'o' ∷ b'n' ∷ b't' ∷ b'r' ∷ 46 ∷ b't' ∷ b'a' ∷ b'b' ∷ b'l' ∷ b'e' ∷ []

abbrev pub conseuph : List ℕ
conseuph =
    b'r' ∷ b'u' ∷ b'l' ∷ b'e' ∷ 95 ∷ b'f' ∷ b'i' ∷ b'l' ∷ b'e' ∷ b's' ∷ 47 ∷ b'c' ∷ b'o' ∷ b'n'
    ∷ b's' ∷ b'e' ∷ b'u' ∷ b'p' ∷ b'h' ∷ 46 ∷ b't' ∷ b'a' ∷ b'b' ∷ b'l' ∷ b'e' ∷ []

abbrev pub stemtypes : List ℕ
stemtypes =
    b'r' ∷ b'u' ∷ b'l' ∷ b'e' ∷ 95 ∷ b'f' ∷ b'i' ∷ b'l' ∷ b'e' ∷ b's' ∷ 47 ∷ b's' ∷ b't' ∷ b'e'
    ∷ b'm' ∷ b't' ∷ b'y' ∷ b'p' ∷ b'e' ∷ b's' ∷ 46 ∷ b't' ∷ b'a' ∷ b'b' ∷ b'l' ∷ b'e' ∷ []

abbrev pub derivtypes : List ℕ
derivtypes =
    b'r' ∷ b'u' ∷ b'l' ∷ b'e' ∷ 95 ∷ b'f' ∷ b'i' ∷ b'l' ∷ b'e' ∷ b's' ∷ 47 ∷ b'd' ∷ b'e' ∷ b'r'
    ∷ b'i' ∷ b'v' ∷ b't' ∷ b'y' ∷ b'p' ∷ b'e' ∷ b's' ∷ 46 ∷ b't' ∷ b'a' ∷ b'b' ∷ b'l' ∷ b'e' ∷ []

abbrev pub domainlist : List ℕ
domainlist =
    b'r' ∷ b'u' ∷ b'l' ∷ b'e' ∷ 95 ∷ b'f' ∷ b'i' ∷ b'l' ∷ b'e' ∷ b's' ∷ 47 ∷ b'd' ∷ b'o' ∷ b'm'
    ∷ b'a' ∷ b'i' ∷ b'n' ∷ b'l' ∷ b'i' ∷ b's' ∷ b't' ∷ 46 ∷ b't' ∷ b'a' ∷ b'b' ∷ b'l' ∷ b'e' ∷ []

abbrev pub rawpblist : List ℕ
rawpblist =
    b'r' ∷ b'u' ∷ b'l' ∷ b'e' ∷ 95 ∷ b'f' ∷ b'i' ∷ b'l' ∷ b'e' ∷ b's' ∷ 47 ∷ b'r' ∷ b'a' ∷ b'w' ∷ 95
    ∷ b'p' ∷ b'r' ∷ b'e' ∷ b'v' ∷ b'e' ∷ b'r' ∷ b'b' ∷ b's' ∷ 46 ∷ b't' ∷ b'a' ∷ b'b' ∷ b'l' ∷ b'e'
    ∷ []

abbrev pub nomindex : List ℕ
nomindex =
    b's' ∷ b't' ∷ b'e' ∷ b'm' ∷ b'i' ∷ b'n' ∷ b'd' ∷ b's' ∷ 47 ∷ b'n' ∷ b'o' ∷ b'm' ∷ b'i' ∷ b'n'
    ∷ b'd' ∷ []

abbrev pub nomindex_lindex : List ℕ
nomindex_lindex =
    b's' ∷ b't' ∷ b'e' ∷ b'm' ∷ b'i' ∷ b'n' ∷ b'd' ∷ b's' ∷ 47 ∷ b'n' ∷ b'o' ∷ b'm' ∷ b'i' ∷ b'n'
    ∷ b'd' ∷ 46 ∷ b'l' ∷ b'i' ∷ b'n' ∷ b'd' ∷ b'e' ∷ b'x' ∷ []

abbrev pub vbindex : List ℕ
vbindex =
    b's' ∷ b't' ∷ b'e' ∷ b'm' ∷ b'i' ∷ b'n' ∷ b'd' ∷ b's' ∷ 47 ∷ b'v' ∷ b'b' ∷ b'i' ∷ b'n' ∷ b'd'
    ∷ []

abbrev pub vbindex_lindex : List ℕ
vbindex_lindex =
    b's' ∷ b't' ∷ b'e' ∷ b'm' ∷ b'i' ∷ b'n' ∷ b'd' ∷ b's' ∷ 47 ∷ b'v' ∷ b'b' ∷ b'i' ∷ b'n' ∷ b'd'
    ∷ 46 ∷ b'l' ∷ b'i' ∷ b'n' ∷ b'd' ∷ b'e' ∷ b'x' ∷ []

abbrev pub nendlist : List ℕ
nendlist =
    b'e' ∷ b'n' ∷ b'd' ∷ b't' ∷ b'a' ∷ b'b' ∷ b'l' ∷ b'e' ∷ b's' ∷ 47 ∷ b'i' ∷ b'n' ∷ b'd' ∷ b'i'
    ∷ b'c' ∷ b'e' ∷ b's' ∷ 47 ∷ b'n' ∷ b'e' ∷ b'n' ∷ b'd' ∷ b'i' ∷ b'n' ∷ b'd' ∷ []

abbrev pub vendlist : List ℕ
vendlist =
    b'e' ∷ b'n' ∷ b'd' ∷ b't' ∷ b'a' ∷ b'b' ∷ b'l' ∷ b'e' ∷ b's' ∷ 47 ∷ b'i' ∷ b'n' ∷ b'd' ∷ b'i'
    ∷ b'c' ∷ b'e' ∷ b's' ∷ 47 ∷ b'v' ∷ b'b' ∷ b'e' ∷ b'n' ∷ b'd' ∷ b'i' ∷ b'n' ∷ b'd' ∷ []

abbrev pub derendlist : List ℕ
derendlist =
    b'd' ∷ b'e' ∷ b'r' ∷ b'i' ∷ b'v' ∷ b's' ∷ 47 ∷ b'i' ∷ b'n' ∷ b'd' ∷ b'i' ∷ b'c' ∷ b'e' ∷ b's'
    ∷ 47 ∷ b'd' ∷ b'e' ∷ b'r' ∷ b'i' ∷ b'v' ∷ b'i' ∷ b'n' ∷ b'd' ∷ []

abbrev pub ppasslist : List ℕ
ppasslist =
    b'r' ∷ b'u' ∷ b'l' ∷ b'e' ∷ 95 ∷ b'f' ∷ b'i' ∷ b'l' ∷ b'e' ∷ b's' ∷ 47 ∷ b'p' ∷ b'p' ∷ b'a'
    ∷ b's' ∷ b's' ∷ b'l' ∷ b'i' ∷ b's' ∷ b't' ∷ 46 ∷ b't' ∷ b'a' ∷ b'b' ∷ b'l' ∷ b'e' ∷ []

abbrev pub required_files : List (List ℕ)
required_files =
    vowcontracts ∷ conseuph ∷ stemtypes ∷ derivtypes ∷ domainlist ∷ rawpblist ∷ nomindex
    ∷ nomindex_lindex ∷ vbindex ∷ vbindex_lindex ∷ nendlist ∷ vendlist ∷ derendlist ∷ []

abbrev pub runtime_language_directory : Language → List ℕ
runtime_language_directory greek = b'G' ∷ b'r' ∷ b'e' ∷ b'e' ∷ b'k' ∷ []
runtime_language_directory latin = b'L' ∷ b'a' ∷ b't' ∷ b'i' ∷ b'n' ∷ []
runtime_language_directory italian = b'I' ∷ b't' ∷ b'a' ∷ b'l' ∷ b'i' ∷ b'a' ∷ b'n' ∷ []
