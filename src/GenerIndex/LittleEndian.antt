-- ===== src/GenerIndex/LittleEndian.antt =====
-- What `get_u32` and `get_u64` of src/api/gener_index.c read: the number that the bytes have in
-- little-endian order.
use Prim.Native.Nat.{bit_or}
use libmorpheus.Prelude.{ℕ, ◌+◌, ◌*◌, ◌%◌, ◌^◌, ◌<◌, ◌≡◌, List, [], ◌∷◌, arith}
use libmorpheus.Prelude.Bits.{bit_or-join}
use libmorpheus.GenerIndex.Bytes.{done, load, get_uint, get_u32, get_u64}

-- The bytes from a position on, the lowest first.
abbrev pub BytesAt : List ℕ → ℕ → List ℕ → Type 0
BytesAt file input [] = Unit
BytesAt file input (b ∷ bs) = (load file input ≡ done b) × (b < 2 ^ 8) × BytesAt file (input + 1) bs

abbrev pub little_endian : List ℕ → ℕ
little_endian [] = 0
little_endian (b ∷ bs) = b + little_endian bs * 2 ^ 8

join_byte :
    (value b : ℕ)
    → value * 2 ^ 8 < 2 ^ 32
    → b < 2 ^ 8
    → bit_or (value * 2 ^ 8 % 2 ^ 32) b ≡ b + value * 2 ^ 8
join_byte value b fits small =
    let e : value * 2 ^ 8 % 2 ^ 32 ≡ value * 2 ^ 8 = omega arith in
    rw e (omega (arith, bit_or-join 8 value b small))

join_long :
    (value b : ℕ)
    → value * 2 ^ 8 < 2 ^ 64
    → b < 2 ^ 8
    → bit_or (value * 2 ^ 8 % 2 ^ 64) b ≡ b + value * 2 ^ 8
join_long value b fits small =
    let e : value * 2 ^ 8 % 2 ^ 64 ≡ value * 2 ^ 8 = omega arith in
    rw e (omega (arith, bit_or-join 8 value b small))

here : (file : List ℕ) (i j b : ℕ) → i ≡ j → load file j ≡ done b → load file i ≡ done b
here file i j b same e = rw same e

-- Four bytes are read as their little-endian value.
pub get_u32-little_endian :
    (file : List ℕ) (input a b c d : ℕ)
    → BytesAt file input (a ∷ b ∷ c ∷ d ∷ [])
    → get_u32 file input ≡ done (little_endian (a ∷ b ∷ c ∷ d ∷ []))
unfolding get_u32 get_uint
get_u32-little_endian file input a b c d (ea, la, (eb, lb, (ec, lc, (ed, ld, _)))) = rw (
  here file (input + 3) (input + 1 + 1 + 1) d (omega arith) ed,
  here file (input + 2) (input + 1 + 1) c (omega arith) ec,
  here file (input + 1) (input + 1) b (omega arith) eb,
  here file (input + 0) input a (omega arith) ea,
  join_byte 0 d (omega arith) ld,
  join_byte (d + 0 * 2 ^ 8) c (omega arith) lc,
  join_byte (c + (d + 0 * 2 ^ 8) * 2 ^ 8) b (omega arith) lb,
  join_byte (b + (c + (d + 0 * 2 ^ 8) * 2 ^ 8) * 2 ^ 8) a (omega arith) la,
)

-- Eight bytes are read as their little-endian value.
pub get_u64-little_endian :
    (file : List ℕ) (input a b c d p q r s : ℕ)
    → BytesAt file input (a ∷ b ∷ c ∷ d ∷ p ∷ q ∷ r ∷ s ∷ [])
    → get_u64 file input ≡ done (little_endian (a ∷ b ∷ c ∷ d ∷ p ∷ q ∷ r ∷ s ∷ []))
unfolding get_u64 get_uint
get_u64-little_endian file input a b c d p q r s
      (ea, la, (eb, lb, (ec, lc, (ed, ld, (ep, lp, (eq, lq, (er, lr, (es, ls, _)))))))) =
    rw (
      here file (input + 7) (input + 1 + 1 + 1 + 1 + 1 + 1 + 1) s (omega arith) es,
      here file (input + 6) (input + 1 + 1 + 1 + 1 + 1 + 1) r (omega arith) er,
      here file (input + 5) (input + 1 + 1 + 1 + 1 + 1) q (omega arith) eq,
      here file (input + 4) (input + 1 + 1 + 1 + 1) p (omega arith) ep,
      here file (input + 3) (input + 1 + 1 + 1) d (omega arith) ed,
      here file (input + 2) (input + 1 + 1) c (omega arith) ec,
      here file (input + 1) (input + 1) b (omega arith) eb,
      here file (input + 0) (input) a (omega arith) ea,
      join_long 0 s (omega arith) ls,
      join_long (s + 0 * 2 ^ 8) r (omega arith) lr,
      join_long (r + (s + 0 * 2 ^ 8) * 2 ^ 8) q (omega arith) lq,
      join_long (q + (r + (s + 0 * 2 ^ 8) * 2 ^ 8) * 2 ^ 8) p (omega arith) lp,
      join_long (p + (q + (r + (s + 0 * 2 ^ 8) * 2 ^ 8) * 2 ^ 8) * 2 ^ 8) d (omega arith) ld,
      join_long (d + (p + (q + (r + (s + 0 * 2 ^ 8) * 2 ^ 8) * 2 ^ 8) * 2 ^ 8) * 2 ^ 8) c
          (omega arith) lc,
      join_long
          (c + (d + (p + (q + (r + (s + 0 * 2 ^ 8) * 2 ^ 8) * 2 ^ 8) * 2 ^ 8) * 2 ^ 8) * 2 ^ 8) b
          (omega arith) lb,
      join_long
          (b
            + (c + (d + (p + (q + (r + (s + 0 * 2 ^ 8) * 2 ^ 8) * 2 ^ 8) * 2 ^ 8) * 2 ^ 8) * 2 ^ 8)
              * 2 ^ 8)
          a (omega arith) la,
    )
