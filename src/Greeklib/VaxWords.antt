-- ===== src/Greeklib/VaxWords.antt =====
-- What is written in the byte order of the VAX is read back.
use Prim.Native.Nat.{bit_or}
use libmorpheus.Prelude.{
  ℕ, suc, ◌+◌, ◌-◌, ◌*◌, ◌/◌, ◌%◌, ◌^◌, ◌≤◌, ◌<◌, ◌≡◌, refl, ap, sym, ◌∙◌, Bool, true, false,
  Option, some, List, [], ◌∷◌, ◌++◌, length, length-append, ◌==◌, arith, inl, inr, ◌⊎◌,
}
use mathlib.Core.Path.{subst₂}
use native.Mathlib.Nat.{suc-mul}
use libmorpheus.Prelude.Bits.{bit_or-join, bit_or_comm, bit_or-none}
use libmorpheus.Greeklib.Vax.{
  get_bytes, get_int32, get_short, put_bytes, put_int32, put_short, word_bytes, get_word, put_word,
  read_loop, vax_fread, write_loop, vax_fwrite, after_value, Read,
}

-- Bytes of ascending weight.
join :
    (n value c : ℕ)
    → value < 2 ^ n
    → c * 2 ^ n < 2 ^ 32
    → bit_or value (c * 2 ^ n % 2 ^ 32) ≡ value + c * 2 ^ n
join n value c h fits =
    let e : c * 2 ^ n % 2 ^ 32 ≡ c * 2 ^ n = omega arith in
    rw e (omega (arith, bit_or_comm value (c * 2 ^ n), bit_or-join n c value h))

low_byte : (a : ℕ) → a < 256 → a % 256 ≡ a
low_byte a h = omega arith

first : (a : ℕ) → a < 256 → bit_or 0 (a * 1 % 2 ^ 32) ≡ a
first a h = let e : a * 1 % 2 ^ 32 ≡ a = omega arith in rw e (bit_or-none a)

get_int32-bytes :
    (a b c d : ℕ) (f : List ℕ)
    → a < 256
    → b < 256
    → c < 256
    → d < 256
    → get_int32 (a ∷ b ∷ c ∷ d ∷ f) ≡ (some (a + b * 2 ^ 8 + c * 2 ^ 16 + d * 2 ^ 24), f)
unfolding get_int32 get_bytes
get_int32-bytes a b c d f ha hb hc hd = rw (
  low_byte a ha,
  low_byte b hb,
  low_byte c hc,
  low_byte d hd,
  first a ha,
  join 8 a b (omega arith) (omega arith),
  join 16 (a + b * 2 ^ 8) c (omega arith) (omega arith),
  join 24 (a + b * 2 ^ 8 + c * 2 ^ 16) d (omega arith) (omega arith),
)

get_short-bytes :
    (a b : ℕ) (f : List ℕ) → a < 256 → b < 256 → get_short (a ∷ b ∷ f) ≡ (some (a + b * 2 ^ 8), f)
unfolding get_short get_bytes
get_short-bytes a b f ha hb =
    let short : (a + b * 2 ^ 8) % 2 ^ 16 ≡ a + b * 2 ^ 8 = omega arith in
    rw (low_byte a ha, low_byte b hb, first a ha, join 8 a b (omega arith) (omega arith), short)

abbrev HasWord : (bytes value room : ℕ) → List ℕ → Type 0
HasWord bytes value room f =
    ((put_word bytes value room).1 ≡ true)
    × (length (put_word bytes value room).0 ≡ bytes)
    × (get_word bytes ((put_word bytes value room).0 ++ f) ≡ (some value, f))

short_word : (value r : ℕ) (f : List ℕ) → value < 2 ^ 16 → HasWord 2 value (suc (suc r)) f
unfolding put_short put_bytes get_word put_word
short_word value r f v =
    let whole : value / 1 % 256 + value / 256 % 256 * 2 ^ 8 ≡ value = omega arith in
    (
      refl,
      refl,
      get_short-bytes (value / 1 % 256) (value / 256 % 256) f (omega arith) (omega arith)
          ∙ ap (λ (t : ℕ). (some t, f)) whole,
    )

long_word :
    (value r : ℕ) (f : List ℕ) → value < 2 ^ 32 → HasWord 4 value (suc (suc (suc (suc r)))) f
unfolding put_int32 put_bytes get_word put_word
long_word value r f v =
    let whole : value / 1 % 256
          + value / 256 % 256 * 2 ^ 8
          + value / 65536 % 256 * 2 ^ 16
          + value / 16777216 % 256 * 2 ^ 24
        ≡ value =
      omega arith in
    (
      refl,
      refl,
      get_int32-bytes (value / 1 % 256) (value / 256 % 256) (value / 65536 % 256)
            (value / 16777216 % 256) f (omega arith) (omega arith) (omega arith) (omega arith)
          ∙ ap (λ (t : ℕ). (some t, f)) whole,
    )

-- A word that was written with room for it is read back, whatever follows it.
get_word-put_word :
    (bytes value room : ℕ) (f : List ℕ)
    → (bytes ≡ 2) ⊎ (bytes ≡ 4)
    → bytes ≤ room
    → value < 2 ^ (8 * bytes)
    → HasWord bytes value room f
get_word-put_word bytes value room f (inl two) h v =
    let e : room ≡ suc (suc (room - 2)) = omega arith in
    subst₂ (λ b n. HasWord b value n f) (sym two) (sym e)
      (short_word value (room - 2) f (rw two at v))
get_word-put_word bytes value room f (inr four) h v =
    let e : room ≡ suc (suc (suc (suc (room - 4)))) = omega arith in
    subst₂ (λ b n. HasWord b value n f) (sym four) (sym e)
      (long_word value (room - 4) f (rw four at v))

abbrev pub AllBelow : ℕ → List ℕ → Type 0
AllBelow bound [] = Unit
AllBelow bound (value ∷ values) = (value < bound) × AllBelow bound values

append_assoc : (xs ys zs : List ℕ) → (xs ++ ys) ++ zs ≡ xs ++ (ys ++ zs)
append_assoc [] ys zs = refl
append_assoc (x ∷ xs) ys zs = ap (λ t. x ∷ t) (append_assoc xs ys zs)

mul_suc : (n b : ℕ) → suc n * b ≡ n * b + b
mul_suc n b = suc-mul n b

read_step :
    (bytes : ℕ) (failed : Bool) (n j : ℕ) (stream : List ℕ) (value : ℕ) (rest : List ℕ)
    → get_word bytes stream ≡ (some value, rest)
    → read_loop bytes failed (suc n) j stream
      ≡ after_value value (read_loop bytes failed n (j + 1) rest)
unfolding read_loop
read_step bytes failed n j stream value rest e =
    rw (read_loop, e)
      (ap (λ (r : Read (Option ℕ)). after_value value (read_loop bytes failed n (j + 1) r.1)) e)

loop_back :
    (bytes : ℕ) (failed : Bool) (values : List ℕ) (i j room : ℕ) (f : List ℕ)
    → (bytes ≡ 2) ⊎ (bytes ≡ 4)
    → length values * bytes ≤ room
    → AllBelow (2 ^ (8 * bytes)) values
    → ((write_loop bytes values i room).1 ≡ some (i + length values))
      × (length (write_loop bytes values i room).0 ≡ length values * bytes)
      × (read_loop bytes failed (length values) j ((write_loop bytes values i room).0 ++ f)
          ≡ ((values, some (j + length values)), f))
unfolding write_loop read_loop
loop_back bytes failed [] i j room f w h v =
    (ap some (omega arith), omega arith, ap (λ (t : ℕ). (([], some t), f)) (omega arith))
loop_back bytes failed (value ∷ values) i j room f w h (small, v) =
    let n = length values in
    let more : suc n * bytes ≡ n * bytes + bytes = omega (arith, mul_suc n bytes) in
    let rest = (write_loop bytes values (i + 1) (room - bytes)).0 in
    let (all, len, back) =
      get_word-put_word bytes value room (rest ++ f) w (omega (arith, more)) small in
    let (count, total, again) =
      loop_back bytes failed values (i + 1) (j + 1) (room - bytes) f w (omega (arith, more)) v in
    let whole : write_loop bytes (value ∷ values) i room
        ≡ ((put_word bytes value room).0 ++ rest, some (i + suc n)) =
      rw (write_loop, all, len)
        (ap (λ (o : Option ℕ). ((put_word bytes value room).0 ++ rest, o))
          (count ∙ ap some (omega arith))) in
    rw whole (
      refl,
      length-append {0} (put_word bytes value room).0 rest ∙ omega (arith, len, total, more),
      read_step bytes failed n j _ value (rest ++ f)
            (rw (append_assoc (put_word bytes value room).0 rest f) back)
          ∙ ap (after_value value) again
          ∙ ap (λ (t : ℕ). ((value ∷ values, some t), f)) (omega arith),
    )

-- What `vax_fwrite` writes of words of 2 or 4 bytes, or of what it takes for doubles, `vax_fread`
-- reads back, whatever follows it in the stream; each value takes its size, and a double 4 bytes.
pub vax_fread-vax_fwrite :
    (size bytes : ℕ) (values : List ℕ) (room : ℕ) (failed : Bool) (f : List ℕ)
    → word_bytes size ≡ some bytes
    → length values * bytes ≤ room
    → AllBelow (2 ^ (8 * bytes)) values
    → ((vax_fwrite size values room).1 ≡ some (length values))
      × (length (vax_fwrite size values room).0 ≡ length values * bytes)
      × (vax_fread size (some (length values)) failed ((vax_fwrite size values room).0 ++ f)
          ≡ ((values, some (length values)), f))
unfolding vax_fread vax_fwrite
vax_fread-vax_fwrite size bytes [] room failed f w h v = (refl, omega arith, refl)
vax_fread-vax_fwrite size bytes (value ∷ values) room failed f w h v =
    let width : (bytes ≡ 2) ⊎ (bytes ≡ 4) = ground arith in
    let wide : (size == 1) ≡ false = ground arith in
    let (count, total, again) = loop_back bytes failed (value ∷ values) 0 0 room f width h v in
    let some_left : (suc (length values) == 0) ≡ false = ground arith in
    rw (wide, w, some_left)
      (
        count ∙ ap some (omega arith),
        total,
        again ∙ ap (λ (t : ℕ). ((value ∷ values, some t), f)) (omega arith),
      )
