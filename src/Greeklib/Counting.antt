-- ===== src/Greeklib/Counting.antt =====
-- What `nsylls`, `getsyll` and the quantity functions mean: positions are counted
-- from the end of the word by the vowels that begin a syllable.
use libmorpheus.Prelude.{
  ℕ, zero, suc, ◌+◌, ◌≤◌, ◌<◌, ◌≡◌, ◌≢◌, Bool, true, ◌||◌, Option, none, some, length,
  if◌then◌else◌, Option-cases, inl, inr, arith,
}
use libmorpheus.Greeklib.Letters.{CString, char_at, is_vowel, is_lvwl, is_shvwl, is_quant}
use libmorpheus.Greeklib.Syllables.{is_nucleus, getsyll_loop, getsyll, nsylls_loop, nsylls}
use libmorpheus.Greeklib.Quantity.{vowel_quantity, quantprim, getquantity}

-- The syllables that begin before position `n`.
unfoldable pub nuclei : CString → ℕ → ℕ
nuclei word zero = 0
nuclei word (suc p) = if is_nucleus word p then suc (nuclei word p) else nuclei word p

nsylls_loop-eq : (word : CString) (n k : ℕ) → nsylls_loop word n k ≡ k + nuclei word n
unfolding nsylls_loop nuclei
nsylls_loop-eq word zero k = omega arith
nsylls_loop-eq word (suc p) k =
    ground (arith, nsylls_loop-eq word p (k + 1), nsylls_loop-eq word p k)

pub nsylls-eq-nuclei : (word : CString) → nsylls word ≡ nuclei word (length word)
unfolding nsylls
nsylls-eq-nuclei word = omega (arith, nsylls_loop-eq word (length word) 0)

getsyll_loop_sound :
    (word : CString) (syll n k p : ℕ)
    → getsyll_loop word syll n k ≡ some p
    → (p < n)
      × (is_vowel (char_at word p) ≡ true)
      × (k + nuclei word n ≡ syll + nuclei word (suc p))
unfolding getsyll_loop nuclei
getsyll_loop_sound word syll zero k p h = cc
getsyll_loop_sound word syll (suc n) k p h =
    ground (arith, getsyll_loop_sound word syll n (k + 1) p, getsyll_loop_sound word syll n k p)

-- `syll` counts the syllables that begin behind the one found, so the vowel found is in that
-- syllable from the end.
pub getsyll_lem :
    (word : CString) (syll p : ℕ)
    → getsyll word syll ≡ some p
    → (p < length word)
      × (is_vowel (char_at word p) ≡ true)
      × (nsylls word ≡ syll + nuclei word (suc p))
unfolding getsyll
getsyll_lem word syll p h =
    ground (arith, getsyll_loop_sound word syll (length word) 0 p, nsylls-eq-nuclei word)

getsyll_loop_complete :
    (word : CString) (syll n k : ℕ)
    → k ≤ syll
    → syll < k + nuclei word n
    → getsyll_loop word syll n k ≢ none
unfolding getsyll_loop nuclei
getsyll_loop_complete word syll zero k le lt h = absurd (omega arith)
getsyll_loop_complete word syll (suc n) k le lt h =
    ground (arith, getsyll_loop_complete word syll n (k + 1), getsyll_loop_complete word syll n k)

-- Each of the last three syllables that the word has is found.
pub getsyll-found :
    (word : CString) (syll : ℕ) → syll ≤ 2 → syll < nsylls word → getsyll word syll ≢ none
unfolding getsyll
getsyll-found word syll le lt h =
    ground (arith, nsylls-eq-nuclei word, getsyll_loop_complete word syll (length word) 0)

vowel_length : (c : ℕ) → is_vowel c ≡ true → (is_lvwl c || is_shvwl c) ≡ true
unfolding is_vowel
vowel_length c h = ground arith

vowel_quantity-known :
    (word : CString) (p : ℕ) (is_ending is_oblique : Bool)
    → is_vowel (char_at word p) ≡ true
    → vowel_quantity word p is_ending is_oblique ≢ none
unfolding vowel_quantity
vowel_quantity-known word p is_ending is_oblique v h =
    ground (arith, vowel_length (char_at word p) v)

-- Every syllable of the last three that the word has gets a quantity from `quantprim` and from
-- `getquantity`.
pub quantity-known :
    (word : CString) (syll : ℕ) (nom : Option CString) (is_ending is_oblique : Bool)
    → syll ≤ 2
    → syll < nsylls word
    → (quantprim word syll is_ending is_oblique ≢ none)
      × (getquantity word syll nom is_ending is_oblique ≢ none)
unfolding quantprim getquantity is_quant
quantity-known word syll nom is_ending is_oblique le lt = elim (Option-cases (getsyll word syll)) [
  | inl absent ↦ absurd (getsyll-found word syll le lt absent)
  | inr (p, found) ↦
      let known =
        vowel_quantity-known word p is_ending is_oblique (getsyll_lem word syll p found).1 in
      (ground arith, ground arith)
]

-- The nominative is never consulted: the branch of `getquantity` for a mark that is neither long
-- nor short cannot be reached, since `Is_quant` holds of these two marks only.
pub getquantity-nom :
    (word : CString) (syll : ℕ) (nom nom' : Option CString) (is_ending is_oblique : Bool)
    → getquantity word syll nom is_ending is_oblique
      ≡ getquantity word syll nom' is_ending is_oblique
unfolding getquantity is_quant
getquantity-nom word syll nom nom' is_ending is_oblique = ground arith
