-- ===== src/Greeklib/Endings.antt =====
-- `ends_in` compares the ends of two words without their accents and diaereses; `beta_tolower` and
-- `normucase` move the first letter of a capitalised word to its front.
use mathlib.Core.List.{reverse, reverse_aux}
use libmorpheus.Prelude.{
  ℕ, zero, suc, ◌+◌, ◌≤◌, ◌<◌, ◌≡◌, refl, Bool, true, false, [], ◌∷◌, ◌++◌, length, any, ◌==◌,
  if◌then◌else◌, arith,
}
use libmorpheus.Greeklib.Letters.{CString, is_alpha, is_lower, to_upper, ucase_marker}
use libmorpheus.Greeklib.Stripped.{without}
use libmorpheus.Greeklib.Words.{
  pull_letter, beta_tolower, normucase, ignored_diacritic, skip_ignored, ends_loop, ends_in,
}

abbrev pub is_prefix : CString → CString → Bool
is_prefix [] s = true
is_prefix (c ∷ t) [] = false
is_prefix (c ∷ t) (d ∷ s) = if d == c then is_prefix t s else false

length-reverse_aux : (s t : CString) → length (reverse_aux s t) ≡ length s + length t
length-reverse_aux [] t = omega arith
length-reverse_aux (c ∷ s) t = omega (arith, length-reverse_aux s (c ∷ t))

length-reverse : (s : CString) → length (reverse s) ≡ length s
length-reverse s = omega (arith, length-reverse_aux s [])

pull_letter-append :
    (pre : CString) (l : ℕ) (post : CString)
    → any is_alpha pre ≡ false
    → is_alpha l ≡ true
    → pull_letter (pre ++ (l ∷ post)) ≡ (l, pre ++ post)
unfolding pull_letter
pull_letter-append [] l post h a = ground arith
pull_letter-append (c ∷ pre) l post h a = ground (arith, pull_letter-append pre l post)

-- Both functions take the first letter of a word that begins with the marker of a capital and put it
-- in the marker's place, `normucase` in upper case if it is a lower case letter. Every other word is
-- left as it is by `beta_tolower`.
pub capital_lem :
    (pre : CString) (l : ℕ) (post : CString)
    → any is_alpha pre ≡ false
    → is_lower l ≡ true
    → (beta_tolower (ucase_marker ∷ (pre ++ (l ∷ post))) ≡ (l ∷ (pre ++ post), true))
      × (normucase (ucase_marker ∷ (pre ++ (l ∷ post))) ≡ (to_upper l ∷ (pre ++ post), true))
unfolding beta_tolower normucase
capital_lem pre l post h a =
    (ground (arith, pull_letter-append pre l post), ground (arith, pull_letter-append pre l post))

-- The mark-free form of a list, from what `skip_ignored` leaves.
abbrev shown : CString → CString
shown [] = []
shown (c ∷ t) = c ∷ without ignored_diacritic t

skip_ignored-shown : (s : CString) → without ignored_diacritic s ≡ shown (skip_ignored s)
unfolding skip_ignored
skip_ignored-shown [] = refl
skip_ignored-shown (c ∷ s) = ground (arith, skip_ignored-shown s)

length-skip_ignored : (s : CString) → length (skip_ignored s) ≤ length s
unfolding skip_ignored
length-skip_ignored [] = omega arith
length-skip_ignored (c ∷ s) = ground (arith, length-skip_ignored s)

-- One round, on what the skipping leaves.
ends_round :
    (n : ℕ) (p q : CString)
    → ((t u : CString)
        → length u < n
        → ends_loop n t u ≡ is_prefix (without ignored_diacritic u) (without ignored_diacritic t))
    → length q < suc n
    → elim q [
      | [] ↦ true
      | c ∷ t2 ↦ elim p [
        | [] ↦ false
        | d ∷ t1 ↦ elim (d == c) [ true ↦ ends_loop n t1 t2 | false ↦ false ]
      ]
    ]
      ≡ is_prefix (shown q) (shown p)
ends_round n p [] ih h = refl
ends_round n [] (c ∷ q) ih h = refl
ends_round n (d ∷ p) (c ∷ q) ih h = ground (arith, ih p q)

ends_loop-eq :
    (n : ℕ) (r s : CString)
    → length s < n
    → ends_loop n r s ≡ is_prefix (without ignored_diacritic s) (without ignored_diacritic r)
unfolding ends_loop
ends_loop-eq zero r s h = absurd (omega arith)
ends_loop-eq (suc n) r s h =
    rw (skip_ignored-shown r, skip_ignored-shown s)
      (ends_round n (skip_ignored r) (skip_ignored s) (ends_loop-eq n)
        (omega (arith, length-skip_ignored s)))

-- `ends_in` tells whether the one word, without its accents and diaereses, ends with the other.
pub ends_in_lem :
    (s1 s2 : CString)
    → ends_in s1 s2
      ≡ is_prefix (without ignored_diacritic (reverse s2)) (without ignored_diacritic (reverse s1))
unfolding ends_in
ends_in_lem s1 s2 =
    ends_loop-eq (suc (length s2)) (reverse s1) (reverse s2) (omega (arith, length-reverse s2))
