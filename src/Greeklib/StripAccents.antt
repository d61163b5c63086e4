-- ===== src/Greeklib/StripAccents.antt =====
-- `stripacc`: the accents that it takes out, and the syllable that it names.
use native.Mathlib.Decide.{dec_le}
use libmorpheus.Prelude.{
  ℕ, zero, suc, ◌+◌, ◌≤◌, ◌<◌, ◌≡◌, ◌≢◌, refl, ap, ◌∙◌, true, false, [], ◌∷◌, ◌++◌, length,
  length-append, drop, any, ◌==◌, Bool-cases, inl, inr, arith,
}
use libmorpheus.Greeklib.Letters.{CString, char_at, is_accent}
use libmorpheus.Greeklib.Syllables.{nsylls}
use libmorpheus.Greeklib.Edit.{strsqz}
use libmorpheus.Greeklib.Strip.{strip_loop, stripacc_loop, stripacc}
use libmorpheus.Greeklib.Stripped.{without, strip_loop-without}

stripacc_loop-strip :
    (n : ℕ) (word : CString) (rval : ℕ)
    → (stripacc_loop n word rval).0 ≡ strip_loop is_accent n word
unfolding stripacc_loop strip_loop
stripacc_loop-strip zero word rval = refl
stripacc_loop-strip (suc p) word rval = stripacc_loop-strip p _ _

stripacc_loop-kept :
    (n : ℕ) (word : CString) (rval : ℕ) → rval ≢ 0 → (stripacc_loop n word rval).1 ≡ rval
unfolding stripacc_loop
stripacc_loop-kept zero word rval h = refl
stripacc_loop-kept (suc p) word rval h =
    let more : (rval == 0) ≡ false = ground arith in
    elim (Bool-cases (is_accent (char_at word p))) [
      | inl found ↦ rw (stripacc_loop, found, more) (stripacc_loop-kept p (strsqz word p 1) rval h)
      | inr other ↦ rw (stripacc_loop, other) (stripacc_loop-kept p word rval h)
    ]

pub stripacc-without : (word : CString) → (stripacc word).0 ≡ without is_accent word
unfolding stripacc
stripacc-without word = stripacc_loop-strip (length word) word 0 ∙ strip_loop-without is_accent word

-- Positions with no accent are passed over.
stripacc_loop_skip :
    (n m : ℕ) (word : CString) (rval : ℕ)
    → m ≤ n
    → ((j : ℕ) → m ≤ j → j < n → is_accent (char_at word j) ≡ false)
    → stripacc_loop n word rval ≡ stripacc_loop m word rval
unfolding stripacc_loop
stripacc_loop_skip zero zero word rval h plain = refl
stripacc_loop_skip zero (suc m) word rval h plain = absurd (omega arith)
stripacc_loop_skip (suc p) m word rval h plain = elim (dec_le m p) [
  | yes le ↦
      rw (plain p le (omega arith))
        (stripacc_loop_skip p m word rval le (λ j lo hi. plain j lo (omega arith)))
  | no gt ↦ let same : m ≡ suc p = omega arith in rw same
]

plain_at : (s : CString) (i : ℕ) → any is_accent s ≡ false → is_accent (char_at s i) ≡ false
unfolding is_accent
plain_at [] i h = refl
plain_at (c ∷ s) zero h = ground arith
plain_at (c ∷ s) (suc i) h = plain_at s i (ground arith)

char_at-append :
    (front : CString) (c : ℕ) (back : CString) → char_at (front ++ (c ∷ back)) (length front) ≡ c
char_at-append [] c back = refl
char_at-append (x ∷ front) c back = char_at-append front c back

char_at-beyond :
    (front : CString) (c : ℕ) (back : CString) (j : ℕ)
    → length front < j
    → any is_accent back ≡ false
    → is_accent (char_at (front ++ (c ∷ back)) j) ≡ false
char_at-beyond front c back zero h plain = absurd (omega arith)
char_at-beyond [] c back (suc j) h plain = plain_at back j plain
char_at-beyond (x ∷ front) c back (suc j) h plain =
    char_at-beyond front c back j (omega arith) plain

drop-append : (front back : CString) → drop (length front) (front ++ back) ≡ back
drop-append [] back = refl
drop-append (x ∷ front) back = drop-append front back

last_number :
    (front : CString) (a : ℕ) (back : CString)
    → is_accent a ≡ true
    → (stripacc_loop (suc (length front)) (front ++ (a ∷ back)) 0).1 ≡ nsylls (a ∷ back) + 1
unfolding stripacc_loop
last_number front a back accent =
    rw (stripacc_loop, char_at-append front a back, accent, drop-append front (a ∷ back))
      (stripacc_loop-kept (length front) _ (nsylls (a ∷ back) + 1) (omega arith))

-- `stripacc` takes out the accents and nothing else. Its result names a syllable by the last accent
-- of the word: it is one more than the number of syllables that begin behind that accent.
pub stripacc_last :
    (front : CString) (a : ℕ) (back : CString)
    → is_accent a ≡ true
    → any is_accent back ≡ false
    → ((stripacc (front ++ (a ∷ back))).0 ≡ without is_accent (front ++ (a ∷ back)))
      × ((stripacc (front ++ (a ∷ back))).1 ≡ nsylls (a ∷ back) + 1)
unfolding stripacc
stripacc_last front a back accent plain =
    let word = front ++ (a ∷ back) in
    (
      stripacc-without word,
      ap (λ (r : CString × ℕ). r.1)
            (stripacc_loop_skip (length word) (suc (length front)) word 0
              (omega (arith, length-append {0} front (a ∷ back)))
              (λ j lo hi. char_at-beyond front a back j lo plain))
          ∙ last_number front a back accent,
    )

-- A word with no accent stays as it is, and the result is 0.
pub stripacc_none : (word : CString) → any is_accent word ≡ false → stripacc word ≡ (word, 0)
unfolding stripacc stripacc_loop
stripacc_none word plain =
    stripacc_loop_skip (length word) 0 word 0 (omega arith) (λ j lo hi. plain_at word j plain)
