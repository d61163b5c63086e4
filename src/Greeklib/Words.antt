-- ===== src/Greeklib/Words.antt =====
-- Standardising whole words: src/greeklib/standword.c, zap2ndbreath.c, normucase.c, beta_tolower.c and
-- endsinstr.c.
use libmorpheus.Prelude.{
  ℕ, zero, suc, Bool, true, false, ◌&&◌, ◌||◌, not, [], ◌∷◌, length, ◌==◌, ◌!=◌, if◌then◌else◌,
}
use mathlib.Core.List.{reverse}
use libmorpheus.Greeklib.Letters.{
  CString, is_alpha, is_lower, to_upper, is_cons, is_accent, one_of, acute, grave, diaeresis,
  ucase_marker, roughbr, smoothbr,
}
use libmorpheus.Greeklib.Strip.{stripacc, stripdiaer, zap_rr_breath}

-- , . : ; " < > [ ] ^ -
unfoldable pub is_junk : ℕ → Bool
is_junk c = one_of c (44 ∷ 46 ∷ 58 ∷ 59 ∷ 34 ∷ 60 ∷ 62 ∷ 91 ∷ 93 ∷ 94 ∷ 45 ∷ [])

unfoldable pub skip_junk : CString → CString
skip_junk [] = []
skip_junk (c ∷ s) = if is_junk c then skip_junk s else c ∷ s

-- The loop of `standword` on what is left to read; `first` tells that nothing has been read. The
-- fuel is the length of what is left.
unfoldable pub standword_loop : ℕ → Bool → CString → CString
standword_loop zero first s = []
standword_loop (suc n) first [] = []
standword_loop (suc n) first (c ∷ s) =
    let rest = standword_loop n false (if is_accent c then (stripacc s).0 else s) in
    let d = if c == grave then acute else c in
    if d == ucase_marker && not first then rest else if not (is_junk d) then d ∷ rest else rest

unfoldable pub standword : CString → CString
standword word =
    let w = zap_rr_breath (stripdiaer word) in
    let a = skip_junk w in standword_loop (length a) (length a == length w) a

unfoldable pub zap2acc_loop : Bool → CString → CString
zap2acc_loop haveacc [] = []
zap2acc_loop haveacc (c ∷ s) =
    let mark = c == acute || c == grave || c == b'=' in
    let rest = zap2acc_loop (mark || haveacc) s in if mark && haveacc then rest else c ∷ rest

unfoldable pub zap2acc : CString → CString
zap2acc s = zap2acc_loop false s

-- The loop of `zap_extra_breath`.
unfoldable pub zap_breath_loop : Bool → CString → CString
zap_breath_loop breath_is_extra [] = []
zap_breath_loop breath_is_extra (c ∷ s) =
    let breath = c == roughbr || c == smoothbr in
    let rest = zap_breath_loop (is_cons c || breath || breath_is_extra) s in
    if is_cons c
    then c ∷ rest
    else if breath
    then (if not breath_is_extra then c ∷ rest else rest)
    else c ∷ rest

-- A word may begin with rho and its rough breathing.
unfoldable pub zap_extra_breath : CString → CString
zap_extra_breath [] = []
zap_extra_breath (c ∷ []) = zap_breath_loop false (c ∷ [])
zap_extra_breath (c ∷ d ∷ s) =
    if c == b'r' && d == roughbr
    then c ∷ d ∷ zap_breath_loop false s
    else zap_breath_loop false (c ∷ d ∷ s)

unfoldable pub extra_breath_loop : Bool → CString → Bool
extra_breath_loop breath_is_extra [] = false
extra_breath_loop breath_is_extra (c ∷ s) =
    let breath = c == roughbr || c == smoothbr in
    let rest = extra_breath_loop (is_cons c || breath || breath_is_extra) s in
    if is_cons c
    then rest
    else if breath
    then (if not breath_is_extra then rest else true)
    else rest

unfoldable pub has_extra_breath : CString → Bool
has_extra_breath [] = false
has_extra_breath (c ∷ []) = extra_breath_loop false (c ∷ [])
has_extra_breath (c ∷ d ∷ s) =
    if c == b'r' && d == roughbr
    then extra_breath_loop false s
    else extra_breath_loop false (c ∷ d ∷ s)

-- The first letter of a string, and the string without it; the letter 0 when there is none.
unfoldable pub pull_letter : CString → ℕ × CString
pull_letter [] = (0, [])
pull_letter (c ∷ s) = let (l, rest) = pull_letter s in if is_alpha c then (c, s) else (l, c ∷ rest)

-- "*)/andra" becomes "a)/ndra".
unfoldable pub beta_tolower : CString → CString × Bool
beta_tolower [] = ([], false)
beta_tolower (c ∷ s) =
    let (l, rest) = pull_letter s in
    if c != ucase_marker
    then (c ∷ s, false)
    else if l == 0
    then (c ∷ s, false)
    else (l ∷ rest, true)

-- "*(/ellhn" becomes "E(/llhn".
unfoldable pub normucase : CString → CString × Bool
normucase [] = ([], false)
normucase (c ∷ s) =
    let (l, rest) = pull_letter s in
    if c != ucase_marker
    then (c ∷ s, false)
    else if not (is_lower l)
    then (c ∷ s, false)
    else (to_upper l ∷ rest, true)

unfoldable pub ignored_diacritic : ℕ → Bool
ignored_diacritic c = is_accent c || c == diaeresis

unfoldable pub skip_ignored : CString → CString
skip_ignored [] = []
skip_ignored (c ∷ s) = if ignored_diacritic c then skip_ignored s else c ∷ s

-- The loop of `ends_in`. A pointer that runs backwards is the list of the characters before it, the
-- nearest first. Each round takes one character of the second string.
unfoldable pub ends_loop : ℕ → CString → CString → Bool
ends_loop zero p1 p2 = true
ends_loop (suc n) p1 p2 = elim (skip_ignored p2) [
  | [] ↦ true
  | c ∷ t2 ↦ elim (skip_ignored p1) [
    | [] ↦ false
    | d ∷ t1 ↦ elim (d == c) [ true ↦ ends_loop n t1 t2 | false ↦ false ]
  ]
]

unfoldable pub ends_in : CString → CString → Bool
ends_in s1 s2 = ends_loop (suc (length s2)) (reverse s1) (reverse s2)
