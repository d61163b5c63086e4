-- ===== src/Greeklib/Edit.antt =====
-- Editing a word in place: src/greeklib/cinsert.c, strsqz.c, xstrings.c, stripchar.c, subchar.c,
-- standalpha.c, shortanalog.c, aspirate.c, addaccent.c and addbreath.c. A function returns the string
-- that it leaves; a pointer into the word is a position.
use libmorpheus.Prelude.{
  ℕ, zero, suc, ◌+◌, ◌-◌, ◌%◌, Bool, true, false, ◌&&◌, ◌||◌, not, [], ◌∷◌, ◌++◌, length, take,
  drop, leb, ltb, ◌==◌, ◌!=◌, if◌then◌else◌,
}
use libmorpheus.Greeklib.Letters.{
  CString, char_at, is_vowel, is_breath, is_quant, is_unasp, circumflex, hardlong, diaeresis,
  ucase_marker,
}
use libmorpheus.Greeklib.Syllables.{is_diphth}

-- Insert `(char)c` before position `p`. A NUL ends the string there.
unfoldable pub cinsert : ℕ → CString → ℕ → CString
cinsert c word p = if c % 256 == 0 then take p word else take p word ++ (c % 256 ∷ drop p word)

-- Squeeze out `n` characters from position `p` on, or all there are.
unfoldable pub strsqz : CString → ℕ → ℕ → CString
strsqz word p n =
    let rest = drop p word in
    let amount = if ltb (length rest) n then length rest else n in take p word ++ drop amount rest

-- The buffer after the copy, and whether the source fits into `len` bytes with its NUL; with no
-- room at all the buffer stays as it is.
unfoldable pub str_ncpy : CString → CString → ℕ → CString × Bool
str_ncpy dest source len =
    if len == 0
    then (dest, false)
    else let copy_length = if ltb (length source) len then length source else len - 1 in
      (take copy_length source, ltb (length source) len)

-- Nothing is written unless the whole result fits into `len` bytes.
unfoldable pub str_ncat : CString → CString → ℕ → CString × Bool
str_ncat dest source len =
    if len == 0 || leb len (length dest) || leb (len - length dest) (length source)
    then (dest, false)
    else (dest ++ source, true)

unfoldable pub stripchar : CString → ℕ → CString
stripchar [] c = []
stripchar (x ∷ s) c = let rest = stripchar s c in if x != c % 256 then x ∷ rest else rest

unfoldable pub stripacute : CString → CString
stripacute s = stripchar s b'/'

unfoldable pub striphyph : CString → CString
striphyph s = stripchar s b'-'

unfoldable pub subchar : CString → ℕ → ℕ → CString
subchar [] c1 c2 = []
subchar (x ∷ s) c1 c2 = (if x == c1 % 256 then c2 % 256 else x) ∷ subchar s c1 c2

-- "a_" becomes "h".
unfoldable pub standalpha : CString → CString
standalpha [] = []
standalpha (c ∷ []) = c ∷ []
standalpha (c ∷ d ∷ s) =
    let long_alpha = b'h' ∷ standalpha s in
    let other = c ∷ standalpha (d ∷ s) in if c == b'a' && d == hardlong then long_alpha else other

-- The letter that a long vowel is written with when it is short.
unfoldable pub shortanalog : ℕ → ℕ
shortanalog c = if c == b'h' then b'e' else if c == b'w' then b'o' else c

unfoldable pub aspirate : ℕ → ℕ
aspirate c =
    if not (is_unasp c)
    then c
    else if c == b't' || c == b'd'
    then b'q'
    else if c == b'p' || c == b'b'
    then b'f'
    else if c == b'k' || c == b'g'
    then b'x'
    else c

-- `do p++; while (Is_breath(*p) || Is_quant(*p))`, with the length of the word as fuel.
unfoldable pub after_marks : ℕ → CString → ℕ → ℕ
after_marks zero word p = p
after_marks (suc n) word p =
    let rest = after_marks n word (p + 1) in
    if is_breath (char_at word p) || is_quant (char_at word p) then rest else p

-- The accent at its place behind the marks; a circumflex takes the place of a long mark.
unfoldable pub put_accent : CString → ℕ → ℕ → CString
put_accent word accent p =
    if accent == circumflex && char_at word (p - 1) == hardlong
    then cinsert accent (strsqz word (p - 1) 1) (p - 1)
    else cinsert accent word p

unfoldable pub addaccent : CString → ℕ → ℕ → CString
addaccent word accent position =
    if leb (length word) position
    then word
    else if char_at word 0 == ucase_marker
        && is_breath (char_at word 1)
        && (position == 2 || (position == 3 && is_diphth position word))
    then cinsert accent word 2
    else put_accent word accent (after_marks (length word) word (position + 1))

-- Where the breathing of a word goes.
unfoldable pub breath_place : CString → ℕ
breath_place w =
    let c = char_at w 0 in
    if c == b'a' || c == b'e' || c == b'o'
    then (if (char_at w 1 == b'i' || char_at w 1 == b'u') && char_at w 2 != diaeresis then 2 else 1)
    else if c == b'w' || c == b'h'
    then (if char_at w 1 == b'u' then 2 else 1)
    else if is_vowel c
    then 1
    else 0

unfoldable pub addbreath : CString → ℕ → CString
addbreath [] c = []
addbreath (x ∷ w) c = if is_breath c then cinsert c (x ∷ w) (breath_place (x ∷ w)) else x ∷ w
