-- ===== src/Bridge/Ranges.antt =====
-- What comes out of the conversions: values in the range of the interface, and dialects that go to
-- the engine and back unchanged.
use Prim.Native.Nat.{bit_and, bit_or}
use native.Mathlib.Nat.{pow-suc}
use libmorpheus.Prelude.{
  ℕ, zero, suc, ◌/◌, ◌^◌, ◌≤◌, ◌<◌, ◌≡◌, refl, Bool, true, ◌&&◌, List, [], ◌∷◌, ltb, ◌==◌, ◌!=◌,
  Bool-cases, inl, inr, arith,
}
use libmorpheus.Prelude.Bits.{bit_or-low}
use libmorpheus.Bridge.Values.{
  BitMapping, map_bits, dialects_to_public, public_dialect, legacy_dialect, regions_to_public,
  public_region, public_person, public_number, genders_to_public, public_gender, cases_to_public,
  public_case, public_tense, public_mood, public_degree, voices_to_public, public_voice,
}

bit_or-lt : (k x y : ℕ) → x < 2 ^ k → y < 2 ^ k → bit_or x y < 2 ^ k
bit_or-lt zero x y hx hy =
    let ex : x ≡ 0 = omega arith in let ey : y ≡ 0 = omega arith in rw (ex, ey) (omega arith)
bit_or-lt (suc k) x y hx hy =
    let p = pow-suc 2 k in
    omega
      (arith, p, bit_or-low x y, bit_or-lt k (x / 2) (y / 2) (omega (arith, p)) (omega (arith, p)))

-- Every bit that a mapping sets is among the `k` low ones.
abbrev fit : ℕ → List BitMapping → Bool
fit k [] = true
fit k (m ∷ ms) = ltb m.into (2 ^ k) && fit k ms

map_bits-lt :
    (k : ℕ) (ms : List BitMapping) (value result : ℕ)
    → fit k ms ≡ true
    → result < 2 ^ k
    → map_bits ms value result < 2 ^ k
unfolding map_bits
map_bits-lt k [] value result f h = h
map_bits-lt k (m ∷ ms) value result f h = elim (Bool-cases (bit_and value m.from != 0)) [
  | inl set ↦ rw set (
      map_bits-lt k ms value (bit_or result m.into) (ground arith)
        (bit_or-lt k result m.into h (ground arith)))
  | inr clear ↦ rw clear (map_bits-lt k ms value result (ground arith) h)
]

-- Whatever value the engine has for a trait, the one of the interface is in the range that the
-- options of a request are checked for.
pub public-range :
    (legacy part_of_speech : ℕ) (flags : List ℕ)
    → (public_dialect legacy < 2 ^ 9)
      × (public_region legacy < 2 ^ 15)
      × (public_gender legacy < 2 ^ 4)
      × (public_case legacy < 2 ^ 6)
      × (public_voice legacy < 2 ^ 3)
      × (public_person legacy ≤ 3)
      × (public_number legacy ≤ 3)
      × (public_tense legacy ≤ 8)
      × (public_mood legacy ≤ 9)
      × (public_degree legacy part_of_speech flags ≤ 3)
unfolding public_dialect public_region public_gender public_case public_voice public_person
    public_number public_tense public_mood public_degree
public-range legacy part_of_speech flags = (
  map_bits-lt 9 dialects_to_public legacy 0 refl (omega arith),
  map_bits-lt 15 regions_to_public legacy 0 refl (omega arith),
  map_bits-lt 4 genders_to_public legacy 0 refl (omega arith),
  map_bits-lt 6 cases_to_public legacy 0 refl (omega arith),
  map_bits-lt 3 voices_to_public legacy 0 refl (omega arith),
  ground arith,
  ground arith,
  ground arith,
  ground arith,
  ground arith,
)

-- The test at all numbers below a bound.
abbrev every : (ℕ → Bool) → ℕ → Bool
every test zero = true
every test (suc n) = test n && every test n

every-at : (test : ℕ → Bool) (n x : ℕ) → every test n ≡ true → x < n → test x ≡ true
every-at test zero x h lt = absurd (omega arith)
every-at test (suc n) x h lt = ground (arith, every-at test n x)

unchanged : ℕ → Bool
unchanged x = public_dialect (legacy_dialect x) == x

unchanged_table : every unchanged 512 ≡ true
unfolding unchanged public_dialect legacy_dialect map_bits
unchanged_table = refl

-- A set of known dialects of the interface goes to the engine and back unchanged.
pub public_dialect-legacy_dialect :
    (dialects : ℕ) → dialects < 2 ^ 9 → public_dialect (legacy_dialect dialects) ≡ dialects
unfolding unchanged
public_dialect-legacy_dialect dialects h =
    let same = every-at unchanged 512 dialects unchanged_table h in ground (arith, same)
