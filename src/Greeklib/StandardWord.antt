-- ===== src/Greeklib/StandardWord.antt =====
-- What `standword` guarantees, and `ends_in` as a comparison of words without their marks.
use libmorpheus.Prelude.{
  ℕ, zero, suc, ◌≤◌, ◌≡◌, refl, Bool, false, ◌||◌, [], ◌∷◌, length, drop, any, count, ◌==◌,
  if◌then◌else◌, Bool-cases, inl, inr, arith,
}
use libmorpheus.Greeklib.Letters.{CString, is_accent, acute, grave, ucase_marker, diaeresis}
use libmorpheus.Greeklib.Strip.{stripacc, stripdiaer, zap_rr_loop, zap_rr_breath}
use libmorpheus.Greeklib.Stripped.{without, strip-without}
use libmorpheus.Greeklib.StripAccents.{stripacc-without}
use libmorpheus.Greeklib.Words.{is_junk, skip_junk, standword_loop, standword}

any-without : (p q : ℕ → Bool) (s : CString) → any p s ≡ false → any p (without q s) ≡ false
any-without p q [] h = refl
any-without p q (c ∷ s) h = ground (arith, any-without p q s)

any-without_self : (p : ℕ → Bool) (s : CString) → any p (without p s) ≡ false
any-without_self p [] = refl
any-without_self p (c ∷ s) = ground (arith, any-without_self p s)

length-without : (p : ℕ → Bool) (s : CString) → length (without p s) ≤ length s
length-without p [] = omega arith
length-without p (c ∷ s) = ground (arith, length-without p s)

-- What the loop reads next.
abbrev pub next : ℕ → CString → CString
next c s = if is_accent c then (stripacc s).0 else s

pub length-next : (c : ℕ) (s : CString) → length (next c s) ≤ length s
length-next c s = ground (arith, stripacc-without s, length-without is_accent s)

-- A character that is no longer there when it is in no string that is read.
standword_loop-any :
    (p : ℕ → Bool) (n : ℕ) (first : Bool) (s : CString)
    → p acute ≡ false
    → any p s ≡ false
    → any p (standword_loop n first s) ≡ false
unfolding standword_loop
standword_loop-any p zero first s pa h = refl
standword_loop-any p (suc n) first [] pa h = refl
standword_loop-any p (suc n) first (c ∷ s) pa h =
    ground (
      arith,
      standword_loop-any p n false (next c s),
      stripacc-without s,
      any-without p is_accent s,
    )

-- No junk and no grave accent is written.
abbrev is_unwanted : ℕ → Bool
is_unwanted c = is_junk c || c == grave

junk_acute : is_junk acute ≡ false
unfolding is_junk
junk_acute = refl

standword_loop-wanted :
    (n : ℕ) (first : Bool) (s : CString) → any is_unwanted (standword_loop n first s) ≡ false
unfolding standword_loop
standword_loop-wanted zero first s = refl
standword_loop-wanted (suc n) first [] = refl
standword_loop-wanted (suc n) first (c ∷ s) =
    ground (arith, standword_loop-wanted n false (next c s), junk_acute)

-- Behind the first character no marker of a capital is written.
standword_loop-marker :
    (n : ℕ) (s : CString) → any (λ c. c == ucase_marker) (standword_loop n false s) ≡ false
unfolding standword_loop
standword_loop-marker zero s = refl
standword_loop-marker (suc n) [] = refl
standword_loop-marker (suc n) (c ∷ s) = ground (arith, standword_loop-marker n (next c s))

count-any : (p : ℕ → Bool) (s : CString) → any p s ≡ false → count p s ≡ 0
count-any p [] h = refl
count-any p (c ∷ s) h = ground (arith, count-any p s)

standword_loop-plain :
    (n : ℕ) (first : Bool) (s : CString)
    → any is_accent s ≡ false
    → any is_accent (standword_loop n first s) ≡ false
unfolding standword_loop is_accent
standword_loop-plain zero first s h = refl
standword_loop-plain (suc n) first [] h = refl
standword_loop-plain (suc n) first (c ∷ s) h = ground (arith, standword_loop-plain n false s)

plain_mark : (c : ℕ) → is_accent c ≡ false → (c == grave) ≡ false
unfolding is_accent
plain_mark c h = ground arith

standword_loop-accents :
    (n : ℕ) (first : Bool) (s : CString) → count is_accent (standword_loop n first s) ≤ 1
unfolding standword_loop
standword_loop-accents zero first s = omega arith
standword_loop-accents (suc n) first [] = omega arith
standword_loop-accents (suc n) first (c ∷ s) = elim (Bool-cases (is_accent c)) [
  | inl accent ↦
      let clean =
        standword_loop-plain n false (without is_accent s) (any-without_self is_accent s) in
      let none_left = count-any is_accent _ clean in ground (arith, stripacc-without s)
  | inr plain ↦ ground (arith, standword_loop-accents n false s, plain_mark c plain)
]

any-drop : (p : ℕ → Bool) (s : CString) → any p s ≡ false → any p (drop 1 s) ≡ false
any-drop p [] h = refl
any-drop p (c ∷ s) h = ground arith

standword_loop-tail :
    (n : ℕ) (first : Bool) (s : CString)
    → any (λ c. c == ucase_marker) (drop 1 (standword_loop n first s)) ≡ false
unfolding standword_loop
standword_loop-tail zero first s = refl
standword_loop-tail (suc n) first [] = refl
standword_loop-tail (suc n) first (c ∷ s) = ground (
  arith,
  standword_loop-marker n (next c s),
  any-drop (λ (x : ℕ). x == ucase_marker) (standword_loop n false (next c s)),
)

any_after : (p : ℕ → Bool) (s : CString) → any p s ≡ false → any p (drop 3 s) ≡ false
any_after p [] h = refl
any_after p (a ∷ []) h = refl
any_after p (a ∷ b ∷ []) h = refl
any_after p (a ∷ b ∷ c ∷ s) h = ground arith

zap_rr_loop-any :
    (p : ℕ → Bool) (n : ℕ) (s : CString)
    → p b'r' ≡ false
    → any p s ≡ false
    → any p (zap_rr_loop n s) ≡ false
unfolding zap_rr_loop
zap_rr_loop-any p zero s r h = h
zap_rr_loop-any p (suc n) [] r h = refl
zap_rr_loop-any p (suc n) (c ∷ s) r h =
    ground (arith, any_after p s, zap_rr_loop-any p n (b'r' ∷ drop 3 s) r, zap_rr_loop-any p n s r)

skip_junk-any : (p : ℕ → Bool) (s : CString) → any p s ≡ false → any p (skip_junk s) ≡ false
unfolding skip_junk
skip_junk-any p [] h = refl
skip_junk-any p (c ∷ s) h = ground (arith, skip_junk-any p s)

any-or :
    (p q : ℕ → Bool) (s : CString)
    → any (λ c. p c || q c) s ≡ false
    → (any p s ≡ false) × (any q s ≡ false)
any-or p q [] h = (refl, refl)
any-or p q (c ∷ s) h = ground (arith, any-or p q s)

abbrev is_diaeresis : ℕ → Bool
is_diaeresis c = c == diaeresis

zap_rr_breath-any :
    (word : CString) → any is_diaeresis word ≡ false → any is_diaeresis (zap_rr_breath word) ≡ false
unfolding zap_rr_breath
zap_rr_breath-any [] h = refl
zap_rr_breath-any (c ∷ s) h = ground (arith, zap_rr_loop-any is_diaeresis (length s) s refl)

standword-diaeresis : (word : CString) → any is_diaeresis (standword word) ≡ false
unfolding standword
standword-diaeresis word =
    let (_, gone, _, _) = strip-without word in
    standword_loop-any is_diaeresis _ _ _ refl (
      skip_junk-any is_diaeresis _
        (zap_rr_breath-any (stripdiaer word) (rw gone (any-without_self is_diaeresis word))))

-- A standard word has no junk, no grave accent, no diaeresis, at most one accent, and no marker of
-- a capital behind its first character.
pub standword_lem :
    (word : CString)
    → (any is_junk (standword word) ≡ false)
      × (any (λ c. c == grave) (standword word) ≡ false)
      × (any (λ c. c == diaeresis) (standword word) ≡ false)
      × (count is_accent (standword word) ≤ 1)
      × (any (λ c. c == ucase_marker) (drop 1 (standword word)) ≡ false)
unfolding standword
standword_lem word =
    let a = skip_junk (zap_rr_breath (stripdiaer word)) in
    let first = length a == length (zap_rr_breath (stripdiaer word)) in
    let (junk, graves) =
      any-or is_junk (λ c. c == grave) (standword_loop (length a) first a)
        (standword_loop-wanted (length a) first a) in
    (
      junk,
      graves,
      standword-diaeresis word,
      standword_loop-accents (length a) first a,
      standword_loop-tail (length a) first a,
    )
