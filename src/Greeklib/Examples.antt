-- ===== src/Greeklib/Examples.antt =====
-- The Beta Code functions at some words, and the theorems at these words.
use libmorpheus.Prelude.{
  ◌+◌, ◌*◌, ◌≤◌, ◌<◌, ◌≡◌, ◌≢◌, refl, true, false, ◌||◌, none, some, [], ◌∷◌, ◌++◌, length, drop,
  any, count, ◌==◌, arith,
}
use mathlib.Core.List.{reverse}
use libmorpheus.Greeklib.Letters.{
  CString, char_at, to_lower, to_upper, is_space, is_alph, is_shvwl, is_lvwl, is_vowel, is_cons,
  is_dblcons, acute, grave, is_accent, diaeresis, ucase_marker, hardlong, hardshort, stemsep,
  roughbr, is_quant, is_breath, is_diacrit, is_smooth, is_middle, is_asp, is_unasp, is_stop,
  is_liquid,
}
use libmorpheus.Greeklib.Syllables.{
  diphthong_letters, is_diphth, starts_w_diphth, getsyll_loop, getsyll, nsylls_loop, nsylls,
  getsyll2, skip_marks, getaccp, getaccent, checkaccent,
}
use libmorpheus.Greeklib.Quantity.{
  long, quantprim, getquantity, marked_quantity, long_by_isub, vowel_quantity,
}
use libmorpheus.Greeklib.Marks.{
  hasaccent, naccents_loop, naccents, getbreath, has_diaeresis, has_quant, is_blank, position_of,
  longbyposition, gkstrlen_loop, gkstrlen,
}
use libmorpheus.Greeklib.Edit.{
  cinsert, strsqz, str_ncpy, str_ncat, stripchar, stripacute, striphyph, subchar, standalpha,
  shortanalog, aspirate, after_marks, put_accent, addaccent, breath_place, addbreath,
}
use libmorpheus.Greeklib.Strip.{
  strip_loop, stripbreath, stripdiaer, stripshortmark, striplongmark, stripquant, stripstemsep,
  stripzeroend, stripacc_loop, stripacc, zap_rr_loop, zap_rr_breath, stripmetachars,
}
use libmorpheus.Greeklib.Words.{
  is_junk, skip_junk, standword_loop, standword, zap2acc_loop, zap2acc, zap_breath_loop,
  zap_extra_breath, extra_breath_loop, has_extra_breath, pull_letter, beta_tolower, normucase,
  ignored_diacritic, skip_ignored, ends_loop, ends_in,
}
use libmorpheus.Greeklib.Diphthongs.{syllables_behind, nsylls-eq-syllables_behind}
use libmorpheus.Greeklib.Counting.{nuclei, getsyll_lem, quantity-known, getquantity-nom}
use libmorpheus.Greeklib.Stripped.{without, strip-without}
use libmorpheus.Greeklib.StripAccents.{stripacc_last}
use libmorpheus.Greeklib.StandardWord.{standword_lem}
use libmorpheus.Greeklib.KeepLetters.{letters, letters-standword}
use libmorpheus.Greeklib.Endings.{is_prefix, ends_in_lem}
use libmorpheus.Greeklib.Editing.{strsqz-cinsert}
use libmorpheus.Greeklib.Vax.{
  get_bytes, get_int32, get_short, put_bytes, put_int32, put_short, get_word, put_word, read_loop,
  vax_fread, write_loop, vax_fwrite,
}
use libmorpheus.Greeklib.VaxWords.{vax_fread-vax_fwrite}

program : Unit {0}
unfolding to_lower to_upper is_space is_alph is_shvwl is_lvwl is_vowel is_cons is_dblcons is_accent
    is_quant is_breath is_diacrit is_smooth is_middle is_asp is_unasp is_stop is_liquid
    diphthong_letters is_diphth starts_w_diphth getsyll_loop getsyll nsylls_loop nsylls getsyll2
    skip_marks getaccp getaccent checkaccent marked_quantity long_by_isub vowel_quantity quantprim
    getquantity hasaccent naccents_loop naccents getbreath has_diaeresis has_quant is_blank
    position_of longbyposition gkstrlen_loop gkstrlen cinsert strsqz str_ncpy str_ncat stripchar
    stripacute striphyph subchar standalpha shortanalog aspirate after_marks put_accent addaccent
    breath_place addbreath strip_loop stripbreath stripdiaer stripshortmark striplongmark stripquant
    stripstemsep stripzeroend stripacc_loop stripacc zap_rr_loop zap_rr_breath stripmetachars
    is_junk skip_junk standword_loop standword zap2acc_loop zap2acc zap_breath_loop zap_extra_breath
    extra_breath_loop has_extra_breath pull_letter beta_tolower normucase ignored_diacritic
    skip_ignored ends_loop ends_in nuclei get_bytes get_int32 get_short put_bytes put_int32
    put_short get_word put_word read_loop vax_fread write_loop vax_fwrite
program = tt

abbrev man : CString
man = b'a' ∷ 41 ∷ 47 ∷ b'n' ∷ b'q' ∷ b'r' ∷ b'w' ∷ b'p' ∷ b'o' ∷ b's' ∷ []

abbrev two_accents : CString
two_accents = b'a' ∷ 41 ∷ 47 ∷ b'n' ∷ b'q' ∷ b'r' ∷ b'w' ∷ b'p' ∷ b'o' ∷ 47 ∷ b's' ∷ []

abbrev plain : CString
plain = b'a' ∷ b'n' ∷ b'q' ∷ b'r' ∷ b'w' ∷ b'p' ∷ b'o' ∷ b's' ∷ []

abbrev menin : CString
menin = 45 ∷ b'm' ∷ b'h' ∷ 61 ∷ b'n' ∷ b'i' ∷ b'n' ∷ 44 ∷ []

abbrev achilles : CString
achilles = 42 ∷ 41 ∷ b'a' ∷ b'x' ∷ b'i' ∷ b'l' ∷ b'l' ∷ b'e' ∷ b'u' ∷ 47 ∷ b's' ∷ []

abbrev ending : CString
ending = b'p' ∷ b'o' ∷ 92 ∷ b's' ∷ []

abbrev front : CString
front = b'a' ∷ 41 ∷ 47 ∷ b'n' ∷ b'q' ∷ b'r' ∷ b'w' ∷ b'p' ∷ b'o' ∷ []

abbrev back : CString
back = b's' ∷ []

nsylls-man : nsylls man ≡ 3
unfolding program
nsylls-man = refl

getsyll-man : getsyll man 2 ≡ some 0
unfolding program
getsyll-man = refl

checkaccent-man : checkaccent man ≡ some (2, acute)
unfolding program
checkaccent-man = refl

stripacc-man : stripacc man ≡ ((b'a' ∷ 41 ∷ b'n' ∷ b'q' ∷ b'r' ∷ b'w' ∷ b'p' ∷ b'o' ∷ b's' ∷ []), 3)
unfolding program
stripacc-man = refl

stripacc_two :
    stripacc two_accents ≡ ((b'a' ∷ 41 ∷ b'n' ∷ b'q' ∷ b'r' ∷ b'w' ∷ b'p' ∷ b'o' ∷ b's' ∷ []), 1)
unfolding program
stripacc_two = refl

standword-menin : standword menin ≡ (b'm' ∷ b'h' ∷ 61 ∷ b'n' ∷ b'i' ∷ b'n' ∷ [])
unfolding program
standword-menin = refl

beta_tolower-achilles :
    beta_tolower achilles
    ≡ ((b'a' ∷ 41 ∷ b'x' ∷ b'i' ∷ b'l' ∷ b'l' ∷ b'e' ∷ b'u' ∷ 47 ∷ b's' ∷ []), true)
unfolding program
beta_tolower-achilles = refl

ends_in-man : ends_in man ending ≡ true
unfolding program
ends_in-man = refl

addbreath_eis : addbreath (b'e' ∷ b'i' ∷ b's' ∷ []) roughbr ≡ (b'e' ∷ b'i' ∷ 40 ∷ b's' ∷ [])
unfolding program
addbreath_eis = refl

addaccent_man :
    addaccent (b'a' ∷ 41 ∷ b'n' ∷ b'q' ∷ b'r' ∷ b'w' ∷ b'p' ∷ b'o' ∷ b's' ∷ []) acute 0
    ≡ (b'a' ∷ 41 ∷ 47 ∷ b'n' ∷ b'q' ∷ b'r' ∷ b'w' ∷ b'p' ∷ b'o' ∷ b's' ∷ [])
unfolding program
addaccent_man = refl

quantprim-man : quantprim man 1 false false ≡ some long
unfolding program
quantprim-man = refl

getsyll_lem_example :
    (0 < length man) × (is_vowel (char_at man 0) ≡ true) × (nsylls man ≡ 2 + nuclei man 1)
getsyll_lem_example = getsyll_lem man 2 0 getsyll-man

lt_man : 2 < nsylls man
lt_man = omega (arith, nsylls-man)

nsylls-eq-syllables_behind_example : nsylls man ≡ syllables_behind 0 man
nsylls-eq-syllables_behind_example = nsylls-eq-syllables_behind man

quantity-known_example :
    (quantprim man 2 false false ≢ none) × (getquantity man 2 none false false ≢ none)
quantity-known_example = quantity-known man 2 none false false (omega arith) lt_man

getquantity-nom_example :
    getquantity man 1 none true false ≡ getquantity man 1 (some plain) true false
getquantity-nom_example = getquantity-nom man 1 none (some plain) true false

strip-without_example :
    (stripbreath man ≡ without is_breath man)
    × (stripdiaer man ≡ without (λ c. c == diaeresis) man)
    × (stripquant man ≡ without (λ c. c == hardshort || c == hardlong) man)
    × (stripstemsep man ≡ without (λ c. c == stemsep) man)
strip-without_example = strip-without man

back_plain : any is_accent back ≡ false
unfolding program
back_plain = refl

acute_mark : is_accent acute ≡ true
unfolding program
acute_mark = refl

plain_word : any is_accent plain ≡ false
unfolding program
plain_word = refl

stripacc_last_example :
    ((stripacc (front ++ (acute ∷ back))).0 ≡ without is_accent (front ++ (acute ∷ back)))
    × ((stripacc (front ++ (acute ∷ back))).1 ≡ nsylls (acute ∷ back) + 1)
stripacc_last_example = stripacc_last front acute back acute_mark back_plain

standword_lem_example :
    (any is_junk (standword menin) ≡ false)
    × (any (λ c. c == grave) (standword menin) ≡ false)
    × (any (λ c. c == diaeresis) (standword menin) ≡ false)
    × (count is_accent (standword menin) ≤ 1)
    × (any (λ c. c == ucase_marker) (drop 1 (standword menin)) ≡ false)
standword_lem_example = standword_lem menin

letters-standword_example : letters (standword menin) ≡ letters menin
letters-standword_example = letters-standword menin

abbrev breathing : CString
breathing = 41 ∷ []

abbrev xilleus : CString
xilleus = b'x' ∷ b'i' ∷ b'l' ∷ b'l' ∷ b'e' ∷ b'u' ∷ 47 ∷ b's' ∷ []

ends_in_lem_example :
    ends_in man ending
    ≡ is_prefix
        (without ignored_diacritic (reverse ending))
        (without ignored_diacritic (reverse man))
ends_in_lem_example = ends_in_lem man ending

strsqz-cinsert_example :
    (length (cinsert acute plain 1) ≡ length plain + 1)
    × (strsqz (cinsert acute plain 1) 1 1 ≡ plain)
strsqz-cinsert_example = strsqz-cinsert acute plain 1 (λ h. omega arith) (omega arith)

vax_fwrite_words : vax_fwrite 4 (258 ∷ 7 ∷ []) 8 ≡ (2 ∷ 1 ∷ 0 ∷ 0 ∷ 7 ∷ 0 ∷ 0 ∷ 0 ∷ [], some 2)
unfolding program
vax_fwrite_words = refl

vax_fwrite_full : vax_fwrite 4 (258 ∷ 7 ∷ []) 5 ≡ (2 ∷ 1 ∷ 0 ∷ 0 ∷ 7 ∷ [], some 1)
unfolding program
vax_fwrite_full = refl

vax_fread_short : vax_fread 2 (some 2) false (2 ∷ 1 ∷ 9 ∷ []) ≡ ((258 ∷ [], some 1), [])
unfolding program
vax_fread_short = refl

vax_fread-vax_fwrite_example :
    ((vax_fwrite 4 (258 ∷ 7 ∷ []) 8).1 ≡ some 2)
    × (length (vax_fwrite 4 (258 ∷ 7 ∷ []) 8).0 ≡ 2 * 4)
    × (vax_fread 4 (some 2) false ((vax_fwrite 4 (258 ∷ 7 ∷ []) 8).0 ++ (9 ∷ []))
        ≡ ((258 ∷ 7 ∷ [], some 2), 9 ∷ []))
vax_fread-vax_fwrite_example =
    vax_fread-vax_fwrite 4 4 (258 ∷ 7 ∷ []) 8 false (9 ∷ []) refl (omega arith)
      (omega arith, (omega arith, tt))
