-- ===== src/Greeklib/Quantity.antt =====
-- The quantity of a syllable: src/greeklib/quantprim.c and getquantity.c.
use libmorpheus.Prelude.{
  ℕ, zero, suc, ◌+◌, ◌-◌, Bool, false, ◌&&◌, ◌||◌, not, Option, none, some, length, ◌==◌,
  if◌then◌else◌,
}
use libmorpheus.Greeklib.Letters.{
  CString, char_at, is_cons, is_lvwl, is_shvwl, is_accent, is_breath, is_quant, hardlong, hardshort,
  subscr, acute,
}
use libmorpheus.Greeklib.Syllables.{is_diphth, getsyll, getaccent}

-- `LONG` and `SHORT`; where a function returns `I_ERR` the model has `none`.
pub data Quantity : Type 0 where
  long short : Quantity

-- `while (!Is_cons(*s) && *s)`: the first length mark before a consonant or the end. The fuel is
-- the length of the word: each round moves on by one.
unfoldable pub marked_quantity : ℕ → CString → ℕ → Option Quantity
marked_quantity zero word s = none
marked_quantity (suc n) word s =
    let rest = marked_quantity n word (s + 1) in
    if is_cons (char_at word s) || char_at word s == 0
    then none
    else if char_at word s == hardlong
    then some long
    else if char_at word s == hardshort
    then some short
    else rest

-- `long_by_isub(word + p)`
unfoldable pub long_by_isub : CString → ℕ → Bool
long_by_isub word p =
    if char_at word p == 0
    then false
    else char_at word (p + 1) == subscr
      || (is_breath (char_at word (p + 1)) && char_at word (p + 2) == subscr)

-- `*(p+1) == 0 || (Is_accent(*(p+1)) && *(p+2) == 0)`
abbrev pub is_final : CString → ℕ → Bool
is_final word p =
    char_at word (p + 1) == 0 || (is_accent (char_at word (p + 1)) && char_at word (p + 2) == 0)

-- The quantity of the vowel at `p`, with no mark on it.
unfoldable pub vowel_quantity : CString → ℕ → Bool → Bool → Option Quantity
vowel_quantity word p is_ending is_oblique =
    if long_by_isub word p
    then some long
    else if is_diphth p word
    then (if char_at word p == b'i'
          && (char_at word (p - 1) == b'a' || char_at word (p - 1) == b'o')
        then (if is_ending && not is_oblique && is_final word p then some short else some long)
        else some long)
    else if is_lvwl (char_at word p)
    then some long
    else if is_shvwl (char_at word p)
    then (if char_at word (p + 1) == subscr then some long else some short)
    else none

unfoldable pub quantprim : CString → ℕ → Bool → Bool → Option Quantity
quantprim word syll is_ending is_oblique = elim (getsyll word syll) [
  | none ↦ none
  | some p ↦ elim (marked_quantity (length word) word p) [
    | some q ↦ some q
    | none ↦ vowel_quantity word p is_ending is_oblique
  ]
]

-- `getaccent(nom, PENULT) == ACUTE`
abbrev pub is_acute : Option ℕ → Bool
is_acute none = false
is_acute (some c) = c == acute

-- `nom` is `none` for a null pointer.
abbrev pub nominative_quantity : Option CString → Option Quantity
nominative_quantity none = some short
nominative_quantity (some nom) = if is_acute (getaccent nom 1) then some long else some short

unfoldable pub getquantity : CString → ℕ → Option CString → Bool → Bool → Option Quantity
getquantity word syll nom is_ending is_oblique = elim (getsyll word syll) [
  | none ↦ none
  | some p ↦
      let mark = char_at word (p + 1) in
      if is_quant mark
      then (if mark == hardlong
          then some long
          else if mark == hardshort
          then some short
          else nominative_quantity nom)
      else quantprim word syll is_ending is_oblique
]
