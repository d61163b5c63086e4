-- ===== src/Morphlib/GroupMark.antt =====
-- The mark of a group in the domains of an ending: src/morphlib/endio.c.
use Prim.Native.Nat.{bit_and, bit_or}
use libmorpheus.Prelude.{
  ℕ, zero, suc, ◌<◌, ◌≡◌, refl, ap, Bool, true, false, ◌&&◌, ◌||◌, List, [], ◌∷◌, ◌++◌, length,
  get_or, set, ◌==◌, ◌!=◌, arith, inl, inr, Bool-cases,
}
use mathlib.Core.Bool.{false≢true}
use libmorpheus.Morphlib.Endio.{Ending, unmark_group, mark_group}

every : ℕ → (ℕ → Bool) → Bool
every zero p = true
every (suc n) p = p n && every n p

both : (a b : Bool) → (a && b) ≡ true → (a ≡ true) × (b ≡ true)
both true b e = (refl, e)
both false b e = absurd (false≢true e)

every-at : (n : ℕ) (p : ℕ → Bool) (i : ℕ) → every n p ≡ true → i < n → p i ≡ true
unfolding every
every-at zero p i e h = absurd (omega arith)
every-at (suc n) p i e h = elim (Bool-cases (i == n)) [
  | inl q ↦ let same : i ≡ n = ground arith in rw same ((both (p n) (every n p) e).0)
  | inr q ↦ every-at n p i (both (p n) (every n p) e).1 (ground arith)
]

-- The mark on a byte without it is seen, and taking it off gives the byte.
abbrev unmarked : ℕ → Bool
unmarked d =
    (bit_and d 32 != 0) || ((bit_and (bit_or d 32) 32 != 0) && (bit_and (bit_or d 32) 223 == d))

mark-bits :
    (d : ℕ)
    → d < 256
    → bit_and d 32 ≡ 0
    → ((bit_and (bit_or d 32) 32 != 0) ≡ true) × (bit_and (bit_or d 32) 223 ≡ d)
unfolding every
mark-bits d h e =
    let all : every 256 unmarked ≡ true = refl in
    let seen : unmarked d ≡ true = every-at 256 unmarked d all h in
    let zero_bit : (bit_and d 32 != 0) ≡ false = rw e refl in
    let split =
      both (bit_and (bit_or d 32) 32 != 0) (bit_and (bit_or d 32) 223 == d) (rw zero_bit at seen) in
    (split.0, ground (arith, split.1))

set-back :
    (ds : List ℕ) (v : ℕ)
    → 1 < length ds
    → (get_or (set ds 1 v) 0 0 ≡ get_or ds 0 0)
      × (get_or (set ds 1 v) 1 0 ≡ v)
      × (set (set ds 1 v) 1 (get_or ds 1 0) ≡ ds)
set-back [] v h = absurd (omega arith)
set-back (d ∷ []) v h = absurd (omega arith)
set-back (d ∷ e ∷ ds) v h = (refl, refl, refl)

set-last :
    (xs : List ℕ) (i v : ℕ)
    → i ≡ suc (length xs)
    → (set (xs ++ 0 ∷ 0 ∷ []) i v ≡ xs ++ 0 ∷ v ∷ []) × (get_or (xs ++ 0 ∷ 0 ∷ []) i 0 ≡ 0)
set-last [] i v e = rw e (refl, refl)
set-last (x ∷ xs) zero v e = absurd (omega arith)
set-last (x ∷ xs) (suc i) v e = let (a, b) = set-last xs i v (omega arith) in (ap (λ t. x ∷ t) a, b)

-- The ending with other flags and domains.
abbrev pub with_flags : Ending → List ℕ → List ℕ → Ending
with_flags g flags domains = record {
  forminfo = g.forminfo;
  steminfo = g.steminfo;
  derivtype = g.derivtype;
  dialect = g.dialect;
  geogregion = g.geogregion;
  morphflags = flags;
  domains = domains;
  gkstring = g.gkstring;
}

-- The mark is taken back, and the flag is set in its place.
pub unmark_group-marked :
    (g : Ending) (flags ds : List ℕ)
    → length flags ≡ 12
    → length ds ≡ 21
    → get_or ds 1 0 < 256
    → get_or ds 0 0 ≡ 0
    → bit_and (get_or ds 1 0) 32 ≡ 0
    → unmark_group (with_flags g (flags ++ 0 ∷ 0 ∷ []) (mark_group ds))
      ≡ with_flags g (flags ++ 0 ∷ 32 ∷ []) ds
unfolding mark_group
unmark_group-marked g flags ds lf ld byte none clear =
    let (a, b, c) = set-back ds (bit_or (get_or ds 1 0) 32) (omega (arith, ld)) in
    let (seen, back) = mark-bits (get_or ds 1 0) byte clear in
    let (put, was) = set-last flags 13 32 (omega (arith, lf)) in
    rw (a, none, b, seen, back, c, was, put) refl
