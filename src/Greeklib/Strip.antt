-- ===== src/Greeklib/Strip.antt =====
-- Removing characters of a class: src/greeklib/stripacc.c, stripbreath.c, stripdiaer.c,
-- stripquant.c, stripstemsep.c, stripzeroend.c, stripmeta.c and `zap_rr_breath` of zap2ndbreath.c.
use libmorpheus.Prelude.{
  ℕ, zero, suc, ◌+◌, ◌-◌, Bool, ◌&&◌, [], ◌∷◌, length, take, drop, ◌==◌, if◌then◌else◌,
}
use libmorpheus.Greeklib.Letters.{
  CString, char_at, is_accent, is_breath, diaeresis, hardlong, hardshort, stemsep, roughbr,
  smoothbr,
}
use libmorpheus.Greeklib.Syllables.{nsylls}
use libmorpheus.Greeklib.Edit.{strsqz}

-- The loop that these functions share: from the end of the word, with `length` positions left, each
-- character of the class is squeezed out.
unfoldable pub strip_loop : (ℕ → Bool) → ℕ → CString → CString
strip_loop test zero word = word
strip_loop test (suc p) word =
    strip_loop test p (if test (char_at word p) then strsqz word p 1 else word)

unfoldable pub stripbreath : CString → CString
stripbreath word = strip_loop is_breath (length word) word

unfoldable pub stripdiaer : CString → CString
stripdiaer word = strip_loop (λ c. c == diaeresis) (length word) word

unfoldable pub stripshortmark : CString → CString
stripshortmark word = strip_loop (λ c. c == hardshort) (length word) word

unfoldable pub striplongmark : CString → CString
striplongmark word = strip_loop (λ c. c == hardlong) (length word) word

unfoldable pub stripquant : CString → CString
stripquant word = striplongmark (stripshortmark word)

unfoldable pub stripstemsep : CString → CString
stripstemsep word = strip_loop (λ c. c == stemsep) (length word) word

-- `*` at the end of the word, the zero ending
unfoldable pub stripzeroend : CString → CString
stripzeroend word =
    if length word == 0
    then word
    else if char_at word (length word - 1) == b'*'
    then take (length word - 1) word
    else word

-- The loop of `stripacc`, which also gives the number of a syllable.
unfoldable pub stripacc_loop : ℕ → CString → ℕ → CString × ℕ
stripacc_loop zero word rval = (word, rval)
stripacc_loop (suc p) word rval =
    let found = is_accent (char_at word p) in
    stripacc_loop p (if found then strsqz word p 1 else word)
      (if found && rval == 0 then nsylls (drop p word) + 1 else rval)

unfoldable pub stripacc : CString → CString × ℕ
stripacc word = stripacc_loop (length word) word 0

-- `s[0] == ')' && s[1] == 'r' && s[2] == '('`
abbrev pub doubled_rho : CString → Bool
doubled_rho s = char_at s 0 == smoothbr && char_at s 1 == b'r' && char_at s 2 == roughbr

-- The loop of `zap_rr_breath`, "r)r(" to "rr"; the fuel is the length of what is left.
unfoldable pub zap_rr_loop : ℕ → CString → CString
zap_rr_loop zero s = s
zap_rr_loop (suc n) [] = []
zap_rr_loop (suc n) (c ∷ s) =
    c ∷ zap_rr_loop n (if c == b'r' && doubled_rho s then b'r' ∷ drop 3 s else s)

-- The first character is not looked at.
unfoldable pub zap_rr_breath : CString → CString
zap_rr_breath [] = []
zap_rr_breath (c ∷ s) = c ∷ zap_rr_loop (length s) s

unfoldable pub stripmetachars : CString → CString
stripmetachars s = zap_rr_breath (stripstemsep (stripzeroend (stripquant s)))
