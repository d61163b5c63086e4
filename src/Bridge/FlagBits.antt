-- ===== src/Bridge/FlagBits.antt =====
-- Each flag of the interface is the flag of the engine that the table pairs with it.
use Prim.Native.Nat.{bit_or}
use libmorpheus.Prelude.{
  ℕ, zero, suc, ◌+◌, ◌/◌, ◌%◌, ◌^◌, ◌<◌, ◌≡◌, ◌≢◌, refl, ap, ◌∙◌, Bool, true, false, ◌&&◌, ◌||◌,
  List, [], ◌∷◌, some, length, get_or, get_elem?, set, any, replicate, length-set, ◌==◌, ltb,
  Bool-cases, inl, inr, arith,
}
use libmorpheus.Prelude.Bits.{test_bit, test_bit-bit_or, test_bit-pow, test_bit-zero}
use libmorpheus.Bridge.Values.{BitMapping, legacy_flag_is_set}
use libmorpheus.Bridge.Flags.{
  morph_flag_mappings, morph_flag_capacity, set_flag, flags_loop, public_morph_flags, has_flag,
}

get_or-set_self : (d : List ℕ) (i v : ℕ) → i < length d → get_or (set d i v) i 0 ≡ v
get_or-set_self [] i v h = absurd (omega arith)
get_or-set_self (x ∷ d) zero v h = refl
get_or-set_self (x ∷ d) (suc i) v h = get_or-set_self d i v (omega arith)

get_or-set_ne : (d : List ℕ) (i j v : ℕ) → i ≢ j → get_or (set d i v) j 0 ≡ get_or d j 0
get_or-set_ne [] i j v h = refl
get_or-set_ne (x ∷ d) zero zero v h = absurd (h refl)
get_or-set_ne (x ∷ d) zero (suc j) v h = refl
get_or-set_ne (x ∷ d) (suc i) zero v h = refl
get_or-set_ne (x ∷ d) (suc i) (suc j) v h = get_or-set_ne d i j v (λ e. h (ap suc e))

has_flag-set_flag :
    (d : List ℕ) (i n : ℕ) → i / 8 < length d → has_flag (set_flag d i) n ≡ (has_flag d n || i == n)
unfolding has_flag set_flag
has_flag-set_flag d i n h = elim (Bool-cases (i / 8 == n / 8)) [
  | inl here ↦
      let e : n / 8 ≡ i / 8 = ground arith in
      let old = get_or d (i / 8) 0 in
      let low : (i % 8 == n % 8) ≡ (i == n) = ground arith in
      rw (e, get_or-set_self d (i / 8) (bit_or old (2 ^ (i % 8))) h)
        (test_bit-bit_or (n % 8) old (2 ^ (i % 8))
          ∙ ap (λ b. test_bit (n % 8) old || b) (test_bit-pow (n % 8) (i % 8) ∙ low))
  | inr elsewhere ↦
      let ne : i / 8 ≢ n / 8 = ground arith in
      rw (get_or-set_ne d (i / 8) (n / 8) (bit_or (get_or d (i / 8) 0) (2 ^ (i % 8))) ne)
        (ground arith)
]

get_or-replicate : (k i : ℕ) → get_or (replicate {A = ℕ} k 0) i 0 ≡ 0
get_or-replicate zero i = refl
get_or-replicate (suc k) zero = refl
get_or-replicate (suc k) (suc i) = get_or-replicate k i

clear : (n : ℕ) → has_flag (replicate morph_flag_capacity 0) n ≡ false
unfolding has_flag
clear n =
    ap (test_bit (n % 8)) (get_or-replicate morph_flag_capacity (n / 8)) ∙ test_bit-zero (n % 8)

-- Whether a mapping of the list sets the flag.
abbrev mapped : List BitMapping → List ℕ → ℕ → Bool
mapped ms legacy_flags n = any (λ m. legacy_flag_is_set legacy_flags m.from && (m.into == n)) ms

-- Every flag of the table is in the bytes.
abbrev fit : ℕ → List BitMapping → Bool
fit bytes [] = true
fit bytes (m ∷ ms) = ltb (m.into / 8) bytes && fit bytes ms

length-set_flag : (d : List ℕ) (i : ℕ) → length (set_flag d i) ≡ length d
unfolding set_flag
length-set_flag d i = length-set d (i / 8) (bit_or (get_or d (i / 8) 0) (2 ^ (i % 8)))

or_assoc : (a b c : Bool) → ((a || b) || c) ≡ (a || (b || c))
or_assoc true b c = refl
or_assoc false b c = refl

has_flag-flags_loop :
    (ms : List BitMapping) (flags d : List ℕ) (n : ℕ)
    → fit (length d) ms ≡ true
    → has_flag (flags_loop ms flags d) n ≡ (has_flag d n || mapped ms flags n)
unfolding flags_loop
has_flag-flags_loop [] flags d n h = ground arith
has_flag-flags_loop (m ∷ ms) flags d n h = elim (Bool-cases (legacy_flag_is_set flags m.from)) [
  | inl on ↦
      let bound : m.into / 8 < length d = ground arith in
      let size : length (set_flag d m.into) ≡ length d = length-set_flag d m.into in
      rw on (
        has_flag-flags_loop ms flags (set_flag d m.into) n (rw size (ground arith))
        ∙ ap (λ b. b || mapped ms flags n) (has_flag-set_flag d m.into n bound)
        ∙ or_assoc (has_flag d n) (m.into == n) (mapped ms flags n))
  | inr off ↦ rw off (has_flag-flags_loop ms flags d n (ground arith))
]

-- The table has the flags in the order of their index.
abbrev numbered : ℕ → List BitMapping → Bool
numbered n [] = true
numbered n (m ∷ ms) = (m.into == n) && numbered (suc n) ms

mapped-late :
    (ms : List BitMapping) (flags : List ℕ) (n k : ℕ)
    → numbered n ms ≡ true
    → k < n
    → mapped ms flags k ≡ false
mapped-late [] flags n k h lt = refl
mapped-late (m ∷ ms) flags n k h lt = ground (arith, mapped-late ms flags (suc n) k)

into-at :
    (ms : List BitMapping) (n i : ℕ) (m : BitMapping)
    → numbered n ms ≡ true
    → get_elem? ms i ≡ some m
    → m.into ≡ n + i
into-at [] n i m h e = cc
into-at (k ∷ ms) n zero m h e =
    let same : k ≡ m = cc in
    let here : k.into ≡ n = ground arith in omega (arith, here, ap (λ x. x.into) same)
into-at (k ∷ ms) n (suc i) m h e =
    let later = into-at ms (suc n) i m (ground arith) e in omega (arith, later)

mapped-at :
    (ms : List BitMapping) (flags : List ℕ) (n i j : ℕ) (m : BitMapping)
    → numbered n ms ≡ true
    → get_elem? ms i ≡ some m
    → j ≡ n + i
    → mapped ms flags j ≡ legacy_flag_is_set flags m.from
mapped-at [] flags n i j m h e f = cc
mapped-at (k ∷ ms) flags n zero j m h e f =
    let same : m ≡ k = cc in rw same (ground (arith, mapped-late ms flags (suc n) j))
mapped-at (k ∷ ms) flags n (suc i) j m h e f = ground (arith, mapped-at ms flags (suc n) i j m)

-- Whatever bytes the engine has for the flags of a word, each flag of the interface is set just
-- when the flag of the engine that the table pairs with it is set.
pub public_morph_flags-at :
    (flags : List ℕ) (i : ℕ) (m : BitMapping)
    → get_elem? morph_flag_mappings i ≡ some m
    → has_flag (public_morph_flags flags) m.into ≡ legacy_flag_is_set flags m.from
unfolding public_morph_flags
public_morph_flags-at flags i m e =
    has_flag-flags_loop morph_flag_mappings flags (replicate morph_flag_capacity 0) m.into refl
    ∙ ap (λ b. b || mapped morph_flag_mappings flags m.into) (clear m.into)
    ∙ mapped-at morph_flag_mappings flags 0 i m.into m refl e
        (into-at morph_flag_mappings 0 i m refl e)
