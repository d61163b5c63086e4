-- ===== src/Greeklib/Stripped.antt =====
-- The functions that squeeze characters out of a word, one by one and from its end, leave exactly
-- the other characters in their order.
use libmorpheus.Prelude.{
  ℕ, zero, suc, ◌+◌, ◌≤◌, ◌<◌, ◌≡◌, refl, ap, ◌∙◌, Bool, ◌||◌, not, List, [], ◌∷◌, ◌++◌, length,
  take, drop, filter, ◌==◌, Bool-cases, inl, inr, arith,
}
use mathlib.Core.List.{append_assoc, append-nil}
use libmorpheus.Greeklib.Letters.{
  CString, char_at, is_breath, diaeresis, hardlong, hardshort, stemsep,
}
use libmorpheus.Greeklib.Edit.{strsqz}
use libmorpheus.Greeklib.Strip.{
  strip_loop, stripbreath, stripdiaer, stripshortmark, striplongmark, stripquant, stripstemsep,
}

-- The characters outside a class.
abbrev pub without : (ℕ → Bool) → CString → CString
without test s = filter (λ c. not (test c)) s

take-suc :
    (word : CString) (p : ℕ)
    → p < length word
    → take (suc p) word ≡ take p word ++ (char_at word p ∷ [])
take-suc [] p h = absurd (omega arith)
take-suc (c ∷ s) zero h = refl
take-suc (c ∷ s) (suc p) h = ap (λ t. c ∷ t) (take-suc s p (omega arith))

drop-suc :
    (word : CString) (p : ℕ) → p < length word → drop p word ≡ char_at word p ∷ drop (suc p) word
drop-suc [] p h = absurd (omega arith)
drop-suc (c ∷ s) zero h = refl
drop-suc (c ∷ s) (suc p) h = drop-suc s p (omega arith)

filter-append : (p : ℕ → Bool) (xs ys : List ℕ) → filter p (xs ++ ys) ≡ filter p xs ++ filter p ys
filter-append p [] ys = refl
filter-append p (x ∷ xs) ys = ground (arith, filter-append p xs ys)

pub strsqz-one :
    (word : CString) (p : ℕ) → p < length word → strsqz word p 1 ≡ take p word ++ drop (suc p) word
unfolding strsqz
strsqz-one word p h = rw (drop-suc word p h) (ground arith)

take_front :
    (word rest : CString) (p : ℕ) → p ≤ length word → take p (take p word ++ rest) ≡ take p word
take_front word rest zero h = refl
take_front [] rest (suc p) h = absurd (omega arith)
take_front (c ∷ s) rest (suc p) h = ap (λ t. c ∷ t) (take_front s rest p (omega arith))

drop_front : (word rest : CString) (p : ℕ) → p ≤ length word → drop p (take p word ++ rest) ≡ rest
drop_front word rest zero h = refl
drop_front [] rest (suc p) h = absurd (omega arith)
drop_front (c ∷ s) rest (suc p) h = drop_front s rest p (omega arith)

length_cut :
    (word : CString) (p : ℕ)
    → p < length word
    → length (take p word ++ drop (suc p) word) + 1 ≡ length word
length_cut [] p h = absurd (omega arith)
length_cut (c ∷ s) zero h = omega arith
length_cut (c ∷ s) (suc p) h = omega (arith, length_cut s p (omega arith))

pub take_all : (word : CString) → take (length word) word ≡ word
take_all [] = refl
take_all (c ∷ s) = ap (λ t. c ∷ t) (take_all s)

drop_all : (word : CString) → drop (length word) word ≡ []
drop_all [] = refl
drop_all (c ∷ s) = drop_all s

module _ (test : ℕ → Bool) where
  without_last :
      (word : CString) (p : ℕ)
      → p < length word
      → without test (take (suc p) word)
        ≡ without test (take p word) ++ without test (char_at word p ∷ [])
  without_last word p h =
      rw (take-suc word p h) (filter-append (λ c. not (test c)) (take p word) (char_at word p ∷ []))

  -- With `n` positions left, what stands behind them is final.
  strip_loop-eq :
      (n : ℕ) (word : CString)
      → n ≤ length word
      → strip_loop test n word ≡ without test (take n word) ++ drop n word
  unfolding strip_loop
  strip_loop-eq zero word h = refl
  strip_loop-eq (suc p) word h = elim (Bool-cases (test (char_at word p))) [
    | inl found ↦
        rw (found, without_last word p h, filter, found, append-nil, strsqz-one word p h)
          (strip_loop-eq p (take p word ++ drop (suc p) word) (omega (arith, length_cut word p h))
            ∙ rw (
              take_front word (drop (suc p) word) p (omega arith),
              drop_front word (drop (suc p) word) p (omega arith),
            ))
    | inr other ↦
        rw (other, without_last word p h, filter, other)
          (strip_loop-eq p word (omega arith) ∙ rw (drop-suc word p h, append_assoc))
  ]

  pub strip_loop-without : (word : CString) → strip_loop test (length word) word ≡ without test word
  strip_loop-without word =
      strip_loop-eq (length word) word (omega arith) ∙ rw (take_all word, drop_all word, append-nil)

without-without :
    (p q : ℕ → Bool) (s : CString) → without p (without q s) ≡ without (λ c. q c || p c) s
without-without p q [] = refl
without-without p q (c ∷ s) = ground (arith, without-without p q s)

-- Each of the functions that squeeze a class of marks out of a word leaves the other characters, in
-- their order; `stripquant` takes out the short marks and the long ones.
pub strip-without :
    (word : CString)
    → (stripbreath word ≡ without is_breath word)
      × (stripdiaer word ≡ without (λ c. c == diaeresis) word)
      × (stripquant word ≡ without (λ c. c == hardshort || c == hardlong) word)
      × (stripstemsep word ≡ without (λ c. c == stemsep) word)
unfolding stripbreath stripdiaer stripquant stripshortmark striplongmark stripstemsep
strip-without word = (
  strip_loop-without is_breath word,
  strip_loop-without (λ c. c == diaeresis) word,
  rw
      (
        strip_loop-without (λ c. c == hardshort) word,
        strip_loop-without (λ c. c == hardlong) (without (λ c. c == hardshort) word),
      )
      (without-without (λ c. c == hardlong) (λ c. c == hardshort) word),
  strip_loop-without (λ c. c == stemsep) word,
)
