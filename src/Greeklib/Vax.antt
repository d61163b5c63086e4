-- ===== src/Greeklib/Vax.antt =====
-- Words in files in the byte order of the VAX: src/greeklib/vaxwords.c and keyio.c. A stream that is
-- read is the list of its bytes; a stream that is written takes a number of bytes more before
-- `fputc` fails, and the bytes that it took are the result.
use Prim.Native.Nat.{bit_or}
use libmorpheus.Prelude.{
  ℕ, zero, suc, ◌+◌, ◌-◌, ◌*◌, ◌/◌, ◌%◌, ◌^◌, Bool, true, false, ◌&&◌, ◌||◌, Option, none, some,
  List, [], ◌∷◌, ◌++◌, length, take, drop, ltb, ◌==◌, if◌then◌else◌,
}

-- What a reader gives, and the bytes behind what it took.
abbrev pub Read {ℓ} : Type ℓ → Type ℓ
Read A = A × List ℕ

-- The loop of `get_int32` and `get_short` with `n` bytes to read, the next one being byte `i`. The
-- value is an unsigned int.
unfoldable pub get_bytes : (n i value : ℕ) → List ℕ → Read (Option ℕ)
get_bytes zero i value f = (some value, f)
get_bytes (suc n) i value [] = (none, [])
get_bytes (suc n) i value (c ∷ f) =
    get_bytes n (i + 1) (bit_or value (c % 256 * 2 ^ (8 * i) % 2 ^ 32)) f

unfoldable pub get_int32 : List ℕ → Read (Option ℕ)
get_int32 f = get_bytes 4 0 0 f

abbrev pub as_short : Option ℕ → Option ℕ
as_short none = none
as_short (some value) = some (value % 2 ^ 16)

unfoldable pub get_short : List ℕ → Read (Option ℕ)
get_short f = let got = get_bytes 2 0 0 f in (as_short got.0, got.1)

-- The bytes that were written, and whether all were. `room` is what the stream takes.
abbrev pub Written : Type 0
Written = List ℕ × Bool

unfoldable pub put_bytes : (n i value room : ℕ) → Written
put_bytes zero i value room = ([], true)
put_bytes (suc n) i value zero = ([], false)
put_bytes (suc n) i value (suc room) =
    let rest = put_bytes n (i + 1) value room in (value / 2 ^ (8 * i) % 256 ∷ rest.0, rest.1)

unfoldable pub put_int32 : (value room : ℕ) → Written
put_int32 value room = put_bytes 4 0 value room

unfoldable pub put_short : (value room : ℕ) → Written
put_short value room = put_bytes 2 0 value room

-- How a call reads one value, for the size of the values; 8 is a double in the source, of which one
-- 32-bit word is moved. `none` is a size that is refused; 1 is done by `fread` and not here.
abbrev pub word_bytes : ℕ → Option ℕ
word_bytes size = if size == 2 then some 2 else if size == 4 || size == 8 then some 4 else none

unfoldable pub get_word : ℕ → List ℕ → Read (Option ℕ)
get_word bytes f = if bytes == 2 then get_short f else get_int32 f

unfoldable pub put_word : ℕ → (value room : ℕ) → Written
put_word bytes value room = if bytes == 2 then put_short value room else put_int32 value room

-- The values read and what the call returns, `none` for -1.
abbrev pub Values : Type 0
Values = List ℕ × Option ℕ

abbrev pub after_value : (value : ℕ) → Read Values → Read Values
after_value value rest = ((value ∷ rest.0.0, rest.0.1), rest.1)

-- The loop of `vax_fread` with `left` values to read and `i` read; `failed` is what `ferror` says.
unfoldable pub read_loop : (bytes : ℕ) → (failed : Bool) → (left i : ℕ) → List ℕ → Read Values
read_loop bytes failed zero i f = (([], some i), f)
read_loop bytes failed (suc left) i f =
    let rest = read_loop bytes failed left (i + 1) (get_word bytes f).1 in
    elim ((get_word bytes f).0) [
      | some value ↦ after_value value rest
      | none ↦ (([], if i == 0 && failed then none else some i), (get_word bytes f).1)
    ]

-- `fread` of single bytes.
abbrev pub read_chars : Bool → ℕ → List ℕ → Read Values
read_chars failed nswap f =
    let count = length (take nswap f) in
    ((take nswap f, if ltb count nswap && failed then none else some count), drop nswap f)

abbrev pub read_words : Bool → Option ℕ → ℕ → List ℕ → Read Values
read_words failed none nswap f = (([], none), f)
read_words failed (some bytes) nswap f = read_loop bytes failed nswap 0 f

-- `nswap` is `none` for a negative number; the buffer and the stream are there.
unfoldable pub vax_fread : (size : ℕ) → (nswap : Option ℕ) → (failed : Bool) → List ℕ → Read Values
vax_fread size none failed f = (([], none), f)
vax_fread size (some nswap) failed f =
    if nswap == 0
    then (([], some 0), f)
    else if size == 1
    then read_chars failed nswap f
    else read_words failed (word_bytes size) nswap f

-- The loop of `vax_fwrite` over the values that are left, `i` being written.
unfoldable pub write_loop : (bytes : ℕ) → List ℕ → (i room : ℕ) → List ℕ × Option ℕ
write_loop bytes [] i room = ([], some i)
write_loop bytes (value ∷ values) i room =
    let written = put_word bytes value room in
    let rest = write_loop bytes values (i + 1) (room - length written.0) in
    if written.1
    then (written.0 ++ rest.0, rest.1)
    else (written.0, if i == 0 then none else some i)

-- `fwrite` of single bytes; `ferror` holds when the stream takes no more.
abbrev pub write_chars : List ℕ → ℕ → List ℕ × Option ℕ
write_chars values room =
    (take room values, if ltb room (length values) then none else some (length values))

abbrev pub write_words : Option ℕ → List ℕ → ℕ → List ℕ × Option ℕ
write_words none values room = ([], none)
write_words (some bytes) values room = write_loop bytes values 0 room

-- The buffer holds the values, `nswap` is their number.
unfoldable pub vax_fwrite : (size : ℕ) → List ℕ → (room : ℕ) → List ℕ × Option ℕ
vax_fwrite size [] room = ([], some 0)
vax_fwrite size (value ∷ values) room =
    if size == 1
    then write_chars (value ∷ values) room
    else write_words (word_bytes size) (value ∷ values) room
