-- ===== src/Greeklib/KeepLetters.antt =====
-- `standword` keeps every letter of the word, in order: only marks and punctuation are lost.
use libmorpheus.Prelude.{
  ℕ, zero, suc, ◌≤◌, ◌≡◌, refl, ◌∙◌, Bool, true, false, ◌&&◌, [], ◌∷◌, length, drop, filter, ◌==◌,
  Bool-cases, inl, inr, arith,
}
use libmorpheus.Greeklib.Letters.{CString, is_alpha, is_accent, diaeresis}
use libmorpheus.Greeklib.Strip.{stripdiaer, zap_rr_loop, zap_rr_breath, doubled_rho}
use libmorpheus.Greeklib.Stripped.{without, strip-without}
use libmorpheus.Greeklib.StripAccents.{stripacc-without}
use libmorpheus.Greeklib.Words.{is_junk, skip_junk, standword_loop, standword}
use libmorpheus.Greeklib.StandardWord.{next, length-next}

abbrev pub letters : CString → CString
letters s = filter is_alpha s

accent_mark : (c : ℕ) → is_accent c ≡ true → is_alpha c ≡ false
unfolding is_accent
accent_mark c h = ground arith

junk_mark : (c : ℕ) → is_junk c ≡ true → is_alpha c ≡ false
unfolding is_junk
junk_mark c h = ground arith

letters-without :
    (test : ℕ → Bool)
    → ((c : ℕ) → test c ≡ true → is_alpha c ≡ false)
    → (s : CString) → letters (without test s) ≡ letters s
letters-without test h [] = refl
letters-without test h (c ∷ s) = elim (Bool-cases (test c)) [
  | inl mark ↦ rw (filter, mark, h c mark) (letters-without test h s)
  | inr other ↦ rw (filter, other) (ground (arith, letters-without test h s))
]

letters-next : (c : ℕ) (s : CString) → letters (next c s) ≡ letters s
letters-next c s = elim (Bool-cases (is_accent c)) [
  | inl mark ↦ rw (mark, stripacc-without s) (letters-without is_accent accent_mark s)
  | inr other ↦ rw other
]

letters-rho : (s : CString) → doubled_rho s ≡ true → letters (b'r' ∷ drop 3 s) ≡ letters s
letters-rho [] h = cc
letters-rho (a ∷ []) h = ground arith
letters-rho (a ∷ b ∷ []) h = ground arith
letters-rho (a ∷ b ∷ c ∷ s) h = ground arith

letters-cons : (c : ℕ) (s t : CString) → letters s ≡ letters t → letters (c ∷ s) ≡ letters (c ∷ t)
letters-cons c s t h = rw h

letters-zap_rr_loop : (n : ℕ) (s : CString) → letters (zap_rr_loop n s) ≡ letters s
unfolding zap_rr_loop
letters-zap_rr_loop zero s = refl
letters-zap_rr_loop (suc n) [] = refl
letters-zap_rr_loop (suc n) (c ∷ s) = elim (Bool-cases (c == b'r' && doubled_rho s)) [
  | inl rho ↦ rw (rho) (
      letters-cons c (zap_rr_loop n (b'r' ∷ drop 3 s)) s
        (letters-zap_rr_loop n (b'r' ∷ drop 3 s) ∙ letters-rho s (ground arith)))
  | inr other ↦ rw (other) (letters-cons c (zap_rr_loop n s) s (letters-zap_rr_loop n s))
]

letters-skip_junk : (s : CString) → letters (skip_junk s) ≡ letters s
unfolding skip_junk
letters-skip_junk [] = refl
letters-skip_junk (c ∷ s) = ground (arith, junk_mark c, letters-skip_junk s)

letters-standword_loop :
    (n : ℕ) (first : Bool) (s : CString)
    → length s ≤ n
    → letters (standword_loop n first s) ≡ letters s
unfolding standword_loop
letters-standword_loop zero first [] h = refl
letters-standword_loop zero first (c ∷ s) h = absurd (omega arith)
letters-standword_loop (suc n) first [] h = refl
letters-standword_loop (suc n) first (c ∷ s) h = ground (
  arith,
  junk_mark c,
  letters-next c s,
  length-next c s,
  letters-standword_loop n false (next c s),
)

letters-zap_rr_breath : (s : CString) → letters (zap_rr_breath s) ≡ letters s
unfolding zap_rr_breath
letters-zap_rr_breath [] = refl
letters-zap_rr_breath (c ∷ s) =
    letters-cons c (zap_rr_loop (length s) s) s (letters-zap_rr_loop (length s) s)

diaeresis_mark : (c : ℕ) → (c == diaeresis) ≡ true → is_alpha c ≡ false
diaeresis_mark c h = ground arith

-- The letters of a word are those of its standard form.
pub letters-standword : (word : CString) → letters (standword word) ≡ letters word
unfolding standword
letters-standword word =
    let a = skip_junk (zap_rr_breath (stripdiaer word)) in
    let (_, diaereses, _, _) = strip-without word in
    letters-standword_loop (length a) _ a (omega arith)
    ∙ letters-skip_junk (zap_rr_breath (stripdiaer word))
    ∙ letters-zap_rr_breath (stripdiaer word)
    ∙ rw diaereses (letters-without (λ c. c == diaeresis) diaeresis_mark word)
