-- ===== src/Greeklib/Diphthongs.antt =====
-- `nsylls` of src/greeklib/nsylls.c against a count from the beginning of the word.
use libmorpheus.Prelude.{
  ℕ, zero, suc, ◌+◌, ◌-◌, ◌≤◌, ◌<◌, ◌≡◌, refl, ap, sym, ◌∙◌, Bool, true, false, ◌&&◌, ◌||◌, [], ◌∷◌,
  length, drop, get_or, ltb, ◌==◌, ◌!=◌, if◌then◌else◌, arith, inl, inr, Bool-cases,
}
use libmorpheus.Greeklib.Letters.{
  CString, char_at, to_lower, is_vowel, is_lvwl, is_shvwl, diaeresis,
}
use libmorpheus.Greeklib.Syllables.{is_diphth, diphthong_letters, nsylls}
use libmorpheus.Greeklib.Counting.{nuclei, nsylls-eq-nuclei}

-- The diphthongs, in lower case: ai, au, ei, eu, oi, ou, ui and hu.
unfoldable pub is_pair : ℕ → ℕ → Bool
is_pair c d =
    (d == b'i' && (c == b'a' || c == b'e' || c == b'o' || c == b'u'))
    || (d == b'u' && (c == b'a' || c == b'e' || c == b'o' || c == b'h'))

-- The first character, or the NUL.
abbrev pub head_of : CString → ℕ
head_of s = get_or s 0 0

-- The syllables of the rest of a word behind the character `previous`, or behind 0 at its beginning:
-- a vowel begins a syllable unless it closes a diphthong, which a diaeresis behind it prevents.
unfoldable pub syllables_behind : (previous : ℕ) → CString → ℕ
syllables_behind previous [] = 0
syllables_behind previous (c ∷ rest) =
    let more = syllables_behind c rest in
    if is_vowel c
    then (if is_pair (to_lower previous) (to_lower c) && head_of rest != diaeresis
        then more
        else suc more)
    else more

pair_lem : (c d : ℕ) → (d != b'i' && d != b'u') ≡ false → diphthong_letters c d ≡ is_pair c d
unfolding diphthong_letters is_pair is_vowel is_lvwl is_shvwl
pair_lem c d h = ground (arith, h)

-- The character before a position, or 0.
abbrev before : CString → ℕ → ℕ
before word zero = 0
before word (suc p) = char_at word p

closes : CString → ℕ → Bool
closes word p =
    is_pair (to_lower (before word p)) (to_lower (char_at word p))
    && char_at word (p + 1) != diaeresis

nothing_before : (d : ℕ) → is_pair (to_lower 0) d ≡ false
unfolding is_pair to_lower
nothing_before d = ground arith

not_second : (c d : ℕ) → (d != b'i' && d != b'u') ≡ true → is_pair c d ≡ false
unfolding is_pair
not_second c d h = ground (arith, h)

second_letter :
    (c d x : ℕ)
    → (if d != b'i' && d != b'u'
        then false
        else (if x == diaeresis then false else diphthong_letters c d))
      ≡ (is_pair c d && x != diaeresis)
second_letter c d x = elim (Bool-cases (d != b'i' && d != b'u')) [
  | inl other ↦ rw (other, not_second c d other) refl
  | inr second ↦ rw (second, pair_lem c d second) (ground arith)
]

is_diphth-closes : (word : CString) (p : ℕ) → p ≤ length word → is_diphth p word ≡ closes word p
unfolding is_diphth closes
is_diphth-closes word zero h =
    let inside : ltb (length word) 0 ≡ false = ground arith in
    rw (inside, nothing_before (to_lower (char_at word 0))) refl
is_diphth-closes word (suc p) h =
    let inside : ltb (length word) (suc p) ≡ false = ground arith in
    let later : (suc p == 0) ≡ false = ground arith in
    let back : suc p - 1 ≡ p = omega arith in
    rw (inside, later, back)
      (second_letter (to_lower (char_at word p)) (to_lower (char_at word (suc p)))
        (char_at word (suc p + 1)))

drop-char_at :
    (word : CString) (p : ℕ) → p < length word → drop p word ≡ char_at word p ∷ drop (suc p) word
drop-char_at [] p h = absurd (omega arith)
drop-char_at (c ∷ word) zero h = refl
drop-char_at (c ∷ word) (suc p) h = drop-char_at word p (omega arith)

head_of-drop : (word : CString) (p : ℕ) → head_of (drop p word) ≡ char_at word p
head_of-drop [] zero = refl
head_of-drop [] (suc p) = refl
head_of-drop (c ∷ word) zero = refl
head_of-drop (c ∷ word) (suc p) = head_of-drop word p

drop-all : (word : CString) → drop (length word) word ≡ []
drop-all [] = refl
drop-all (c ∷ word) = drop-all word

-- The syllables before a position and those behind it are all.
split_at :
    (word : CString) (k p : ℕ)
    → p + k ≡ length word
    → nuclei word p + syllables_behind (before word p) (drop p word) ≡ nuclei word (length word)
unfolding syllables_behind nuclei closes
split_at word zero p e =
    let end : p ≡ length word = omega arith in rw (end, drop-all word) (omega arith)
split_at word (suc k) p e =
    let rest = split_at word k (suc p) (omega arith) in
    let next : p + 1 ≡ suc p = omega arith in
    let second : is_diphth p word ≡ (
        is_pair (to_lower (before word p)) (to_lower (char_at word p))
        && char_at word (suc p) != diaeresis) =
      is_diphth-closes word p (omega arith)
      ∙ ap
          (λ n.
            is_pair (to_lower (before word p)) (to_lower (char_at word p))
            && char_at word n != diaeresis)
          next in
    rw (drop-char_at word p (omega arith), head_of-drop word (suc p)) (ground (arith, rest, second))

-- The number of syllables of a word is that of its vowels without those that close a diphthong (ai,
-- au, ei, eu, oi, ou, ui, hu, in upper or lower case), counted from its beginning; a diaeresis
-- behind a vowel keeps it apart.
pub nsylls-eq-syllables_behind : (word : CString) → nsylls word ≡ syllables_behind 0 word
unfolding nuclei
nsylls-eq-syllables_behind word =
    let all = split_at word (length word) 0 (omega arith) in
    nsylls-eq-nuclei word ∙ sym all ∙ omega arith
