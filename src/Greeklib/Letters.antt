-- ===== src/Greeklib/Letters.antt =====
-- The character classes of Beta Code: the macros of src/includes/greek.h, and those of ctype.h that
-- src/greeklib uses, in the C locale. A character is its byte.
use libmorpheus.Prelude.{
  ℕ, ◌+◌, ◌-◌, Bool, true, false, ◌&&◌, ◌||◌, List, [], ◌∷◌, get_or, leb, ◌==◌, ◌!=◌, if◌then◌else◌,
}

-- A C string: its bytes before the NUL.
abbrev pub CString : Type 0
CString = List ℕ

-- `*(word + i)`, which is the NUL at the end of the string.
abbrev pub char_at : CString → ℕ → ℕ
char_at word i = get_or word i 0

abbrev pub is_lower : ℕ → Bool
is_lower c = leb b'a' c && leb c b'z'

abbrev pub is_upper : ℕ → Bool
is_upper c = leb b'A' c && leb c b'Z'

abbrev pub is_alpha : ℕ → Bool
is_alpha c = is_lower c || is_upper c

unfoldable pub to_lower : ℕ → ℕ
to_lower c = if is_upper c then c + 32 else c

unfoldable pub to_upper : ℕ → ℕ
to_upper c = if is_lower c then c - 32 else c

unfoldable pub is_space : ℕ → Bool
is_space c = c == 32 || (leb 9 c && leb c 13)

abbrev pub one_of : ℕ → List ℕ → Bool
one_of c [] = false
one_of c (x ∷ xs) = c == x || one_of c xs

unfoldable pub is_alph : ℕ → Bool
is_alph c = is_alpha c && c != b'j' && c != b'v' && c != b'J' && c != b'V'

unfoldable pub is_shvwl : ℕ → Bool
is_shvwl c = one_of c (b'a' ∷ b'e' ∷ b'i' ∷ b'o' ∷ b'u' ∷ b'A' ∷ b'E' ∷ b'I' ∷ b'O' ∷ b'U' ∷ [])

unfoldable pub is_lvwl : ℕ → Bool
is_lvwl c = one_of c (b'h' ∷ b'w' ∷ b'H' ∷ b'W' ∷ [])

unfoldable pub is_vowel : ℕ → Bool
is_vowel c = is_shvwl c || is_lvwl c

unfoldable pub is_cons : ℕ → Bool
is_cons c = is_alph c && (if is_vowel c then false else true)

unfoldable pub is_dblcons : ℕ → Bool
is_dblcons c = one_of c (b'c' ∷ b'y' ∷ b'z' ∷ [])

abbrev pub acute : ℕ
acute = b'/'

-- The backslash.
abbrev pub grave : ℕ
grave = 92

abbrev pub circumflex : ℕ
circumflex = b'='

-- `NOACCENT` and `NOBREATH`
abbrev pub no_mark : ℕ
no_mark = 32

unfoldable pub is_accent : ℕ → Bool
is_accent c = one_of c (acute ∷ grave ∷ circumflex ∷ [])

abbrev pub diaeresis : ℕ
diaeresis = b'+'

abbrev pub ucase_marker : ℕ
ucase_marker = b'*'

abbrev pub subscr : ℕ
subscr = b'|'

abbrev pub hardlong : ℕ
hardlong = b'_'

abbrev pub hardshort : ℕ
hardshort = b'^'

abbrev pub stemsep : ℕ
stemsep = b'-'

abbrev pub roughbr : ℕ
roughbr = b'('

abbrev pub smoothbr : ℕ
smoothbr = b')'

unfoldable pub is_quant : ℕ → Bool
is_quant c = one_of c (hardlong ∷ hardshort ∷ [])

unfoldable pub is_breath : ℕ → Bool
is_breath c = one_of c (roughbr ∷ smoothbr ∷ [])

unfoldable pub is_diacrit : ℕ → Bool
is_diacrit c = is_accent c || is_quant c || is_breath c || c == subscr || c == diaeresis

unfoldable pub is_smooth : ℕ → Bool
is_smooth c = one_of c (b'p' ∷ b't' ∷ b'k' ∷ [])

unfoldable pub is_middle : ℕ → Bool
is_middle c = one_of c (b'b' ∷ b'd' ∷ b'g' ∷ [])

-- `Is_rough`, which is also `Is_asp`
unfoldable pub is_asp : ℕ → Bool
is_asp c = one_of c (b'f' ∷ b'q' ∷ b'x' ∷ [])

unfoldable pub is_unasp : ℕ → Bool
is_unasp c = is_smooth c || is_middle c

unfoldable pub is_stop : ℕ → Bool
is_stop c = is_unasp c || is_asp c

unfoldable pub is_liquid : ℕ → Bool
is_liquid c = one_of c (b'l' ∷ b'r' ∷ [])
