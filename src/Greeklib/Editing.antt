-- ===== src/Greeklib/Editing.antt =====
-- What the editing functions of src/greeklib do to a word: inserting and squeezing out undo each
-- other, a mark that is added can be stripped again, and copies stay in their buffers.
use libmorpheus.Prelude.{
  ℕ, zero, suc, ◌+◌, ◌-◌, ◌%◌, ◌≤◌, ◌<◌, ◌≡◌, ◌≢◌, refl, ap, ◌∙◌, Bool, true, false, ◌&&◌, not, [],
  ◌∷◌, ◌++◌, length, length-append, length-take, take, drop, any, count, ltb, ◌==◌, Bool-cases, inl,
  inr, arith, if◌then◌else◌,
}
use libmorpheus.Greeklib.Letters.{CString, is_breath, is_diacrit, is_quant}
use libmorpheus.Greeklib.Edit.{cinsert, strsqz, str_ncpy, str_ncat, breath_place, addbreath}
use libmorpheus.Greeklib.Strip.{stripbreath}
use libmorpheus.Greeklib.Stripped.{without, strip-without, strsqz-one, take_all}
use libmorpheus.Greeklib.Marks.{gkstrlen_loop, gkstrlen}

squeezed :
    (word : CString) (p c : ℕ)
    → p ≤ length word
    → take p (take p word ++ (c ∷ drop p word)) ++ drop (suc p) (take p word ++ (c ∷ drop p word))
      ≡ word
squeezed word zero c h = refl
squeezed [] (suc p) c h = absurd (omega arith)
squeezed (x ∷ s) (suc p) c h = ap (λ t. x ∷ t) (squeezed s p c (omega arith))

length-insert :
    (word : CString) (p c : ℕ)
    → p ≤ length word
    → length (take p word ++ (c ∷ drop p word)) ≡ length word + 1
length-insert word zero c h = omega arith
length-insert [] (suc p) c h = absurd (omega arith)
length-insert (x ∷ s) (suc p) c h = omega (arith, length-insert s p c (omega arith))

-- A character that is not the NUL, inserted inside the word or at its end, makes the word longer by
-- one, and squeezing out one character at the same place gives the word back.
pub strsqz-cinsert :
    (c : ℕ) (word : CString) (p : ℕ)
    → c % 256 ≢ 0
    → p ≤ length word
    → (length (cinsert c word p) ≡ length word + 1) × (strsqz (cinsert c word p) p 1 ≡ word)
unfolding cinsert
strsqz-cinsert c word p h le = elim (Bool-cases (c % 256 == 0)) [
  | inl nul ↦ absurd (ground arith)
  | inr char ↦
      let longer = length-insert word p (c % 256) le in
      rw char (
        longer,
        strsqz-one (take p word ++ ((c % 256) ∷ drop p word)) p (omega (arith, longer))
            ∙ squeezed word p (c % 256) le,
      )
]

-- A copy into a buffer of `len` bytes, `len` not 0, fits with its NUL, and it is the whole source
-- exactly if the result says so. A concatenation onto a string that fits fits again, whatever the
-- source is; it appends the source if the result says so and else leaves the string as it is.
pub str_n_lem :
    (dest source : CString) (len : ℕ)
    → length dest < len
    → (length (str_ncpy dest source len).0 < len)
      × ((str_ncpy dest source len).1 ≡ ltb (length source) len)
      × ((str_ncpy dest source len).1 ≡ true → (str_ncpy dest source len).0 ≡ source)
      × (length (str_ncat dest source len).0 < len)
      × ((str_ncat dest source len).1 ≡ ltb (length dest + length source) len)
      × ((str_ncat dest source len).0
          ≡ (if ltb (length dest + length source) len then dest ++ source else dest))
unfolding str_ncpy str_ncat
str_n_lem dest source len h = ground (
  arith,
  take_all source,
  length-take (length source) source,
  length-take (len - 1) source,
  length-append {0} dest source,
)

is_mark : ℕ → Bool
is_mark c = is_diacrit c && not (is_quant c)

length-without : (test : ℕ → Bool) (s : CString) → length (without test s) + count test s ≡ length s
length-without test [] = omega arith
length-without test (c ∷ s) = ground (arith, length-without test s)

gkstrlen_loop-count : (s : CString) (n : ℕ) → gkstrlen_loop s n ≡ n - count is_mark s
unfolding gkstrlen_loop is_mark
gkstrlen_loop-count [] n = omega arith
gkstrlen_loop-count (c ∷ s) n =
    ground (arith, gkstrlen_loop-count s (n - 1), gkstrlen_loop-count s n)

-- The length that `gkstrlen` gives is the number of the characters that are no diacritical marks,
-- where length marks count and the '!' at the front of a word does not.
pub gkstrlen_lem :
    (c : ℕ) (s : CString)
    → gkstrlen (c ∷ s)
      ≡ length (without (λ x. is_diacrit x && not (is_quant x)) (if c == b'!' then s else c ∷ s))
unfolding gkstrlen
gkstrlen_lem c s =
    unfold is_mark in
    ground (
      arith,
      gkstrlen_loop-count s (length s),
      gkstrlen_loop-count (c ∷ s) (suc (length s)),
      length-without is_mark s,
      length-without is_mark (c ∷ s),
    )

without-insert :
    (test : ℕ → Bool) (c : ℕ) (word : CString) (p : ℕ)
    → test c ≡ true
    → without test (take p word ++ (c ∷ drop p word)) ≡ without test word
without-insert test c word zero h = ground arith
without-insert test c [] (suc p) h = ground arith
without-insert test c (x ∷ s) (suc p) h = ground (arith, without-insert test c s p h)

without-none : (test : ℕ → Bool) (s : CString) → any test s ≡ false → without test s ≡ s
without-none test [] h = refl
without-none test (c ∷ s) h = ground (arith, without-none test s)

without-cinsert :
    (c : ℕ) (word : CString) (p : ℕ)
    → is_breath c ≡ true
    → without is_breath (cinsert c word p) ≡ without is_breath word
unfolding cinsert is_breath
without-cinsert c word p h = elim (Bool-cases (c == 40)) [
  | inl rough ↦
      let same : c ≡ 40 = ground arith in rw same (without-insert is_breath 40 word p refl)
  | inr other ↦
      let same : c ≡ 41 = ground arith in rw same (without-insert is_breath 41 word p refl)
]

without-addbreath :
    (word : CString) (c : ℕ)
    → any is_breath word ≡ false
    → without is_breath (addbreath word c) ≡ word
unfolding addbreath
without-addbreath [] c h = refl
without-addbreath (x ∷ w) c h = elim (Bool-cases (is_breath c)) [
  | inl breath ↦
      rw breath
        (without-cinsert c (x ∷ w) (breath_place (x ∷ w)) breath ∙ without-none is_breath (x ∷ w) h)
  | inr other ↦ rw other (without-none is_breath (x ∷ w) h)
]

-- A breathing that is added to a word without one is what `stripbreath` takes out again.
pub stripbreath-addbreath :
    (word : CString) (c : ℕ) → any is_breath word ≡ false → stripbreath (addbreath word c) ≡ word
stripbreath-addbreath word c h = (strip-without (addbreath word c)).0 ∙ without-addbreath word c h
