-- ===== src/Greeklib/Syllables.antt =====
-- Syllables of a word, from the end: src/greeklib/isdiphth.c, getsyll.c, nsylls.c, getaccp.c,
-- getaccent.c and checkaccent.c. A pointer into a word is a position, `P_ERR` is `none`.
use libmorpheus.Prelude.{
  ℕ, zero, suc, ◌+◌, ◌-◌, Bool, true, false, ◌&&◌, ◌||◌, not, Option, none, some, length, ltb, ◌==◌,
  ◌!=◌, if◌then◌else◌,
}
use libmorpheus.Greeklib.Letters.{
  CString, char_at, to_lower, is_vowel, is_accent, is_breath, is_quant, diaeresis, no_mark,
}

-- The two letters of a possible diphthong, in lower case.
unfoldable pub diphthong_letters : ℕ → ℕ → Bool
diphthong_letters c1 c2 =
    if not (is_vowel c1)
    then false
    else if c1 == b'a' || c1 == b'e' || c1 == b'o'
    then true
    else if c2 == b'i'
    then c1 == b'u'
    else if c2 == b'u'
    then c1 == b'h'
    else false

-- Is the letter at `p` the second one of a diphthong?
unfoldable pub is_diphth : ℕ → CString → Bool
is_diphth p word =
    if ltb (length word) p || p == 0
    then false
    else let c2 = to_lower (char_at word p) in
      if c2 != b'i' && c2 != b'u'
      then false
      else if char_at word (p + 1) == diaeresis
      then false
      else diphthong_letters (to_lower (char_at word (p - 1))) c2

unfoldable pub starts_w_diphth : CString → Bool
starts_w_diphth stem =
    if char_at stem 0 == 0 || char_at stem 1 == 0 then false else is_diphth 1 stem

-- A vowel that counts: the first of a diphthong, or one that stands alone.
abbrev pub is_nucleus : CString → ℕ → Bool
is_nucleus word p = is_vowel (char_at word p) && not (is_diphth p word)

-- The loop of `getsyll`, with `length` positions left.
unfoldable pub getsyll_loop : CString → ℕ → ℕ → ℕ → Option ℕ
getsyll_loop word syll zero syllcount = none
getsyll_loop word syll (suc p) syllcount =
    let rest = getsyll_loop word syll p (if is_nucleus word p then syllcount + 1 else syllcount) in
    if is_vowel (char_at word p) && syllcount == syll then some p else rest

unfoldable pub getsyll : CString → ℕ → Option ℕ
getsyll word syll = if ltb 2 syll then none else getsyll_loop word syll (length word) 0

unfoldable pub nsylls_loop : CString → ℕ → ℕ → ℕ
nsylls_loop word zero syllcount = syllcount
nsylls_loop word (suc p) syllcount =
    nsylls_loop word p (if is_nucleus word p then syllcount + 1 else syllcount)

unfoldable pub nsylls : CString → ℕ
nsylls word = nsylls_loop word (length word) 0

unfoldable pub getsyll2 : CString → ℕ → Option ℕ
getsyll2 word syll = if nsylls word == 0 then some 0 else elim (getsyll word syll) [
  | none ↦ none
  | some p ↦ if is_diphth p word then some (p - 1) else some p
]

-- `while (Is_breath(*p) || Is_quant(*p)) p++`, with the length of the word as fuel: the NUL ends it.
unfoldable pub skip_marks : ℕ → CString → ℕ → ℕ
skip_marks zero word p = p
skip_marks (suc n) word p =
    let rest = skip_marks n word (p + 1) in
    if is_breath (char_at word p) || is_quant (char_at word p) then rest else p

unfoldable pub getaccp : CString → ℕ → Option ℕ
getaccp word syll = elim (getsyll word syll) [
  | none ↦ none
  | some p ↦ some (skip_marks (length word) word (p + 1))
]

-- `none` is `C_ERR`.
unfoldable pub getaccent : CString → ℕ → Option ℕ
getaccent word syll = elim (getaccp word syll) [
  | none ↦ none
  | some p ↦ if is_accent (char_at word p) then some (char_at word p) else some no_mark
]

-- `Is_accent(*acc = getaccent(word, syll))`
abbrev pub accent_of : Option ℕ → Option ℕ
accent_of none = none
accent_of (some c) = if is_accent c then some c else none

-- The syllable and its accent; `none` is the result -1, with `*syll == -1` and `NOACCENT`.
unfoldable pub checkaccent : CString → Option (ℕ × ℕ)
checkaccent word = elim (accent_of (getaccent word 0)) [
  | some c ↦ some (0, c)
  | none ↦ elim (accent_of (getaccent word 1)) [
    | some c ↦ some (1, c)
    | none ↦ elim (accent_of (getaccent word 2)) [ some c ↦ some (2, c) | none ↦ none ]
  ]
]
