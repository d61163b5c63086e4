-- ===== src/Morphlib/DictOrder.antt =====
-- `dictstrncmp` of src/morphlib/morphstrcmp.c compares the letters of two words.
use Prim.Native.Nat.{Ordering}
use libmorpheus.Prelude.{
  ℕ, zero, suc, ◌≤◌, ◌<◌, ◌≡◌, refl, ap, ◌∙◌, true, false, some, List, [], ◌∷◌, take, filter,
  strcmp, ◌==◌, arith, inl, inr, Bool-cases,
}
use mathlib.Core.Bool.{false≢true}
use libmorpheus.GenerIndex.Bytes.{Run, done, fault}
use libmorpheus.Greeklib.Letters.{is_alpha}
use libmorpheus.Morphlib.Morphstrcmp.{
  Comptab, settle, skip_others, dict_bytes, dict_loop, dictstrncmp,
}
use libmorpheus.Morphlib.Folded.{
  folded, HasTable, with_table-IsMade, IsMade, settle-strcmp, above_nul, below,
}

abbrev letters_of : List ℕ → List ℕ
letters_of s = filter is_alpha s

-- A word that is empty or begins with a letter.
abbrev Starts : List ℕ → Type 0
Starts [] = Unit
Starts (c ∷ s) = is_alpha c ≡ true

skip_others_lem :
    (s : List ℕ) → Starts (skip_others s) × (letters_of (skip_others s) ≡ letters_of s)
unfolding skip_others
skip_others_lem [] = (tt, refl)
skip_others_lem (c ∷ s) = elim (Bool-cases (is_alpha c)) [
  | inl q ↦ rw q (q, rw q refl)
  | inr q ↦ rw q (skip_others_lem s)
]

letter_folded : (c : ℕ) → is_alpha c ≡ true → folded c ≡ c
letter_folded c h = elim (Bool-cases (c == 124)) [
  | inl q ↦ let e : c ≡ 124 = ground arith in absurd (false≢true (rw e at h))
  | inr q ↦ rw q refl
]

letter_not_nul : (c : ℕ) → is_alpha c ≡ true → (c == 0) ≡ false
letter_not_nul c h = elim (Bool-cases (c == 0)) [
  | inl q ↦ let e : c ≡ 0 = ground arith in absurd (false≢true (rw e at h))
  | inr q ↦ q
]

dict_bytes_lem :
    (n : ℕ) (more : List ℕ → List ℕ → Run Ordering) (s t : List ℕ)
    → ((a b : List ℕ) → more a b ≡ done (strcmp (take n (letters_of a)) (take n (letters_of b))))
    → Starts s
    → Starts t
    → dict_bytes folded more s t
      ≡ done (strcmp (take (suc n) (letters_of s)) (take (suc n) (letters_of t)))
unfolding strcmp
dict_bytes_lem n more [] [] rest h k = refl
dict_bytes_lem n more [] (d ∷ t) rest h k = rw k (ap done (below d (letter_not_nul d k)))
dict_bytes_lem n more (c ∷ s) [] rest h k =
    rw h (ap (λ o. settle o fault) (above_nul c (letter_not_nul c h)))
dict_bytes_lem n more (c ∷ s) (d ∷ t) rest h k =
    rw (h, k, letter_folded c h, letter_folded d k)
      (settle-strcmp c d (take n (letters_of s)) (take n (letters_of t)) (more s t) (rest s t))

dict_loop_lem :
    (n : ℕ) (s t : List ℕ)
    → dict_loop folded n s t ≡ done (strcmp (take n (letters_of s)) (take n (letters_of t)))
unfolding dict_loop strcmp
dict_loop_lem zero s t = refl
dict_loop_lem (suc n) s t =
    let (h, e) = skip_others_lem s in
    let (k, e') = skip_others_lem t in
    dict_bytes_lem n (λ a b. dict_loop folded n a b) (skip_others s) (skip_others t)
      (λ a b. dict_loop_lem n a b) h k
    ∙ rw (e, e') refl

-- In a context whose table, if it is made, is the one that `init_comptab` makes, two strings that are
-- not null are compared by their first n letters as `strcmp` compares these, without reading behind a
-- NUL. The table is made afterwards, and for n = 0 the context stays as it is.
pub dictstrncmp-eq-strcmp :
    (context : Comptab) (s1 s2 : List ℕ) (n : ℕ)
    → HasTable context
    → ((dictstrncmp context (some s1) (some s2) n).0
        ≡ done (strcmp (take n (filter is_alpha s1)) (take n (filter is_alpha s2))))
      × (1 ≤ n → IsMade (dictstrncmp context (some s1) (some s2) n).1)
      × (n < 1 → (dictstrncmp context (some s1) (some s2) n).1 ≡ context)
unfolding dictstrncmp strcmp
dictstrncmp-eq-strcmp context s1 s2 zero ready = (refl, λ le. absurd (omega (arith, le)), λ e. refl)
dictstrncmp-eq-strcmp context s1 s2 (suc n) ready =
    let made = with_table-IsMade context ready in
    (rw made.1 (dict_loop_lem (suc n) s1 s2), λ le. made, λ e. absurd (omega (arith, e)))
