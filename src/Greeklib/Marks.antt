-- ===== src/Greeklib/Marks.antt =====
-- The marks that a word has: src/greeklib/hasaccent.c, naccents.c, getbreath.c, hasdiaer.c,
-- hasquant.c, longbyposition.c, gkstrlen.c and isblank.c.
use libmorpheus.Prelude.{
  ℕ, suc, ◌+◌, ◌-◌, Bool, true, false, ◌&&◌, ◌||◌, not, [], ◌∷◌, length, ◌==◌, if◌then◌else◌,
}
use libmorpheus.Greeklib.Letters.{
  CString, char_at, is_alpha, is_space, is_vowel, is_cons, is_dblcons, is_stop, is_liquid,
  is_accent, is_breath, is_quant, is_diacrit, hardlong, hardshort, diaeresis, no_mark,
}

unfoldable pub hasaccent : CString → Bool
hasaccent [] = false
hasaccent (c ∷ s) = if is_accent c then true else hasaccent s

-- The loop of `naccents`.
unfoldable pub naccents_loop : CString → ℕ → ℕ
naccents_loop [] r = r
naccents_loop (c ∷ s) r = naccents_loop s (if is_accent c then r + 1 else r)

unfoldable pub naccents : CString → ℕ
naccents p = naccents_loop p 0

unfoldable pub getbreath : CString → ℕ
getbreath [] = no_mark
getbreath (c ∷ s) = if is_breath c then c else getbreath s

unfoldable pub has_diaeresis : CString → Bool
has_diaeresis [] = false
has_diaeresis (c ∷ s) = if c == diaeresis then true else has_diaeresis s

unfoldable pub has_quant : CString → Bool
has_quant [] = false
has_quant (c ∷ s) = if c == hardlong || c == hardshort then true else has_quant s

unfoldable pub is_blank : CString → Bool
is_blank [] = true
is_blank (c ∷ s) = if is_space c then is_blank s else false

pub data Position : Type 0 where
  not_long long could_be_long : Position

-- The tests of `longbyposition` on the first letter that is no vowel, and the one behind it.
unfoldable pub position_of : ℕ → ℕ → Position
position_of c d =
    if is_dblcons c
    then long
    else if not (is_cons d)
    then not_long
    else if is_stop c && is_liquid d
    then could_be_long
    else if is_cons c
    then long
    else not_long

unfoldable pub longbyposition : CString → Position
longbyposition [] = not_long
longbyposition (c ∷ s) =
    let rest = longbyposition s in
    if is_vowel c || not (is_alpha c) then rest else position_of c (char_at s 0)

-- The loop of `gkstrlen`: one less for each mark that is no quantity.
unfoldable pub gkstrlen_loop : CString → ℕ → ℕ
gkstrlen_loop [] n = n
gkstrlen_loop (c ∷ s) n = gkstrlen_loop s (if is_diacrit c && not (is_quant c) then n - 1 else n)

-- `GKPRT_OFF` is '!'.
unfoldable pub gkstrlen : CString → ℕ
gkstrlen [] = 0
gkstrlen (c ∷ s) =
    if c == b'!' then gkstrlen_loop s (length s) else gkstrlen_loop (c ∷ s) (suc (length s))
