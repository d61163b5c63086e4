-- ===== src/Prelude/Bits.antt =====
-- Bits of the native numbers at variables: the digit recursion of `bit_and`, `bit_or` and the
-- tests on single bits, from the definitions that the native operations stand for.
use Prim.Native.Nat.{
  ℕ, zero, suc, ◌+◌, ◌-◌, ◌*◌, ◌/◌, ◌%◌, ◌^◌, ◌≤◌, ◌<◌, min, max, bit_and, bit_or, digits, bitwise,
  bit_and-bitwise, bit_or-bitwise,
}
use mathlib.Core.Path.{◌≡◌, refl, ap, sym, ◌∙◌}
use mathlib.Core.Bool.{Bool, false, ◌||◌}
use native.Mathlib.Nat.{pow-suc}
use native.Mathlib.Omega.{arith}
use libmorpheus.Prelude.Tests.{◌==◌, ◌!=◌}

-- A number has no more digits than its value, so any such fuel gives the same.
module _ (base : ℕ → ℕ) (join : ℕ → ℕ → ℕ) where
  spent : (y k : ℕ) → digits base join k 0 y ≡ base y
  spent y zero = refl
  spent y (suc k) = refl

  enough : (x y k l : ℕ) → x ≤ k → x ≤ l → digits base join k x y ≡ digits base join l x y
  enough zero y k l lo hi = spent y k ∙ sym (spent y l)
  enough (suc x) y zero l lo hi = absurd (omega arith)
  enough (suc x) y (suc k) zero lo hi = absurd (omega arith)
  enough (suc x) y (suc k) (suc l) lo hi =
      ap (λ (t : ℕ). t * 2 + join (suc x % 2) (y % 2))
        (enough (suc x / 2) (y / 2) k l (omega arith) (omega arith))

  -- The lowest digit apart from the others.
  low_digit :
      (x y : ℕ)
      → bitwise base join (suc x) y
        ≡ bitwise base join (suc x / 2) (y / 2) * 2 + join (suc x % 2) (y % 2)
  low_digit x y =
      ap (λ (t : ℕ). t * 2 + join (suc x % 2) (y % 2))
        (enough (suc x / 2) (y / 2) x (suc x / 2) (omega arith) (omega arith))

pub bit_and-none : (y : ℕ) → bit_and 0 y ≡ 0
bit_and-none y = bit_and-bitwise 0 y

pub bit_or-none : (y : ℕ) → bit_or 0 y ≡ y
bit_or-none y = bit_or-bitwise 0 y

pub bit_and-low : (x y : ℕ) → bit_and x y ≡ min (x % 2) (y % 2) + bit_and (x / 2) (y / 2) * 2
bit_and-low zero y = omega (arith, bit_and-none y, bit_and-none (y / 2))
bit_and-low (suc x) y =
    let step = low_digit (λ t. zero) min x y in
    omega (arith, step, bit_and-bitwise (suc x / 2) (y / 2), bit_and-bitwise (suc x) y)

pub bit_or-low : (x y : ℕ) → bit_or x y ≡ max (x % 2) (y % 2) + bit_or (x / 2) (y / 2) * 2
bit_or-low zero y = omega (arith, bit_or-none y, bit_or-none (y / 2))
bit_or-low (suc x) y =
    let step = low_digit (λ t. t) max x y in
    omega (arith, step, bit_or-bitwise (suc x / 2) (y / 2), bit_or-bitwise (suc x) y)

-- Bit `k` of a number.
unfoldable pub test_bit : ℕ → ℕ → Bool
test_bit zero a = a % 2 == 1
test_bit (suc k) a = test_bit k (a / 2)

bit_or-div : (a b : ℕ) → bit_or a b / 2 ≡ bit_or (a / 2) (b / 2)
bit_or-div a b = omega (arith, bit_or-low a b)

pub test_bit-bit_or : (k a b : ℕ) → test_bit k (bit_or a b) ≡ test_bit k a || test_bit k b
unfolding test_bit
test_bit-bit_or zero a b = ground (arith, bit_or-low a b)
test_bit-bit_or (suc k) a b = rw (bit_or-div a b) (test_bit-bit_or k (a / 2) (b / 2))

pub test_bit-zero : (k : ℕ) → test_bit k 0 ≡ false
unfolding test_bit
test_bit-zero zero = refl
test_bit-zero (suc k) = test_bit-zero k

no_digits : (k x : ℕ) → x ≤ k → bit_and x 0 ≡ 0
no_digits k zero le = bit_and-none 0
no_digits zero (suc x) le = absurd (omega arith)
no_digits (suc k) (suc x) le =
    let others = no_digits k (suc x / 2) (omega arith) in
    omega (arith, others, bit_and-low (suc x) 0)

pub bit_and-zero : (x : ℕ) → bit_and x 0 ≡ 0
bit_and-zero x = no_digits x x (omega arith)

pow_half : (k : ℕ) → 2 ^ suc k / 2 ≡ 2 ^ k
pow_half k = omega (arith, pow-suc 2 k)

pub test_bit-pow : (k j : ℕ) → test_bit k (2 ^ j) ≡ (j == k)
unfolding test_bit
test_bit-pow zero zero = refl
test_bit-pow zero (suc j) = ground (arith, pow-suc 2 j)
test_bit-pow (suc k) zero = ground (arith, test_bit-zero k)
test_bit-pow (suc k) (suc j) = ground (arith, pow_half j, test_bit-pow k j)

-- The C test `a & (1 << k)`.
pub bit_and-pow : (k a : ℕ) → (bit_and a (2 ^ k) != 0) ≡ test_bit k a
unfolding test_bit
bit_and-pow zero a = ground (arith, bit_and-low a 1, bit_and-zero (a / 2))
bit_and-pow (suc k) a =
    ground (arith, pow_half k, pow-suc 2 k, bit_and-low a (2 ^ suc k), bit_and-pow k (a / 2))

same_digits : (k x : ℕ) → x ≤ k → bit_or x 0 ≡ x
same_digits k zero le = bit_or-none 0
same_digits zero (suc x) le = absurd (omega arith)
same_digits (suc k) (suc x) le =
    let others = same_digits k (suc x / 2) (omega arith) in
    omega (arith, others, bit_or-low (suc x) 0)

pub bit_or-zero : (x : ℕ) → bit_or x 0 ≡ x
bit_or-zero x = same_digits x x (omega arith)

twice_shift : (n a : ℕ) → a * 2 ^ suc n ≡ a * 2 ^ n * 2
twice_shift n a = omega (arith, ap (λ (t : ℕ). a * t) (pow-suc 2 n))

-- A value in the low bits joins a multiple of the next power.
pub bit_or-join : (n a b : ℕ) → b < 2 ^ n → bit_or (a * 2 ^ n) b ≡ a * 2 ^ n + b
bit_or-join zero a b h = let e : b ≡ 0 = omega arith in rw e (rw bit_or-zero (omega arith))
bit_or-join (suc n) a b h = rw (twice_shift n a) (
    omega (
      arith,
      bit_or-low (a * 2 ^ n * 2) b,
      half (a * 2 ^ n),
      ap (λ (t : ℕ). bit_or t (b / 2)) (half (a * 2 ^ n)),
      bit_or-join n a (b / 2) (omega (arith, pow-suc 2 n)),
    ))
  where
    half : (x : ℕ) → x * 2 / 2 ≡ x
    half x = omega arith

pow_pos : (j : ℕ) → 1 ≤ 2 ^ j
pow_pos zero = omega arith
pow_pos (suc j) = omega (arith, pow-suc 2 j, pow_pos j)

bit_and-ones : (j v : ℕ) → v < 2 ^ j → bit_and v (2 ^ j - 1) ≡ v
bit_and-ones zero v h = let e : v ≡ 0 = omega arith in rw e (bit_and-none 0)
bit_and-ones (suc j) v h =
    let p = pow-suc 2 j in
    let q : 1 ≤ 2 ^ j = pow_pos j in
    let e : (2 ^ suc j - 1) / 2 ≡ 2 ^ j - 1 = omega (arith, p, q) in
    omega (
      arith,
      p,
      q,
      bit_and-low v (2 ^ suc j - 1),
      ap (λ (t : ℕ). bit_and (v / 2) t) e,
      bit_and-ones j (v / 2) (omega (arith, p)),
    )

-- The C test `v & ~mask`, where the mask has the `k` low bits and the word `j` bits more.
pub bit_and-mask : (j k v : ℕ) → v < 2 ^ (j + k) → bit_and v ((2 ^ j - 1) * 2 ^ k) ≡ 0 → v < 2 ^ k
bit_and-mask j zero v h z =
    let e : (2 ^ j - 1) * 2 ^ zero ≡ 2 ^ j - 1 = omega arith in
    let f : 2 ^ (j + zero) ≡ 2 ^ j = ap (λ (t : ℕ). 2 ^ t) (omega arith) in
    omega (arith, bit_and-ones j v (omega (arith, f)), ap (λ (t : ℕ). bit_and v t) e)
bit_and-mask j (suc k) v h z =
    let p = pow-suc 2 k in
    let e = twice_shift k (2 ^ j - 1) in
    let f : 2 ^ (j + suc k) ≡ 2 ^ (j + k) * 2 =
      ap (λ (t : ℕ). 2 ^ t) (omega arith) ∙ pow-suc 2 (j + k) in
    let half : (2 ^ j - 1) * 2 ^ k * 2 / 2 ≡ (2 ^ j - 1) * 2 ^ k = omega arith in
    let low : bit_and (v / 2) ((2 ^ j - 1) * 2 ^ k) ≡ 0 = omega (
      arith,
      bit_and-low v ((2 ^ j - 1) * 2 ^ k * 2),
      ap (λ (t : ℕ). bit_and v t) e,
      ap (λ (t : ℕ). bit_and (v / 2) t) half,
    ) in
    omega (arith, p, bit_and-mask j k (v / 2) (omega (arith, f)) low)

bit_or_comm_fuel : (n a b : ℕ) → a ≤ n → bit_or a b ≡ bit_or b a
bit_or_comm_fuel n zero b h = bit_or-none b ∙ sym (bit_or-zero b)
bit_or_comm_fuel zero (suc a) b h = absurd (omega arith)
bit_or_comm_fuel (suc n) (suc a) b h = omega (
  arith,
  bit_or-low (suc a) b,
  bit_or-low b (suc a),
  bit_or_comm_fuel n (suc a / 2) (b / 2) (omega arith),
)

pub bit_or_comm : (a b : ℕ) → bit_or a b ≡ bit_or b a
bit_or_comm a b = bit_or_comm_fuel a a b (omega arith)
