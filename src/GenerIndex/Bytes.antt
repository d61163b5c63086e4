-- ===== src/GenerIndex/Bytes.antt =====
-- Reading the bytes of a generation index file: the helpers `get_u32`, `get_u64`, `payload_hash`,
-- `add_size` and `table_size` of src/api/gener_index.c, over a file held in memory.
-- A read outside the file is the result `fault`, so memory safety is a property of the model.
use Prim.Native.Nat.{bit_or, bit_xor}
use libmorpheus.Prelude.{
  ℕ, zero, suc, ◌+◌, ◌-◌, ◌*◌, ◌/◌, ◌%◌, ◌^◌, Bool, true, false, ◌&&◌, ◌||◌, Option, none, some,
  List, [], ◌∷◌, get_elem?, ltb, ◌!=◌, if◌then◌else◌,
}

-- `reject` is the early `return 0` of a validator. `fault` is an access outside the file or through
-- a null pointer, and `stuck` a loop that ran out of fuel: neither is a value of the C code.
pub data Run {ℓ} (A : Type ℓ) : Type ℓ where
  done : A → Run A
  reject : Run A
  fault : Run A
  stuck : Run A

infixl 5 ◌>>=◌ ◌>>◌
abbrev pub ◌>>=◌ {ℓ κ} : {A : Type ℓ} {B : Type κ} → Run A → (A → Run B) → Run B
done a >>= f = f a
reject >>= f = reject
fault >>= f = fault
stuck >>= f = stuck

abbrev pub ◌>>◌ {ℓ} : {B : Type ℓ} → Run (Unit {0}) → Run B → Run B
m >> k = m >>= λ _. k

abbrev pub guard : Bool → Run (Unit {0})
guard true = done tt
guard false = reject

abbrev pub require {ℓ} : {A : Type ℓ} → Option A → Run A
require none = reject
require (some a) = done a

-- A null pointer that is read through.
abbrev pub deref {ℓ} : {A : Type ℓ} → Option A → Run A
deref none = fault
deref (some a) = done a

unfoldable pub load : List ℕ → ℕ → Run ℕ
load file i = deref (get_elem? file i)

-- for (byte = n - 1; byte >= 0; byte--) value = (value << 8) | input[byte], on `width` bits
unfoldable pub get_uint : ℕ → List ℕ → ℕ → ℕ → ℕ → Run ℕ
get_uint width file input value zero = done value
get_uint width file input value (suc byte) = load file (input + byte) >>= λ b.
    get_uint width file input (bit_or (value * 2 ^ 8 % 2 ^ width) b) byte

unfoldable pub get_u32 : List ℕ → ℕ → Run ℕ
get_u32 file input = get_uint 32 file input 0 4

unfoldable pub get_u64 : List ℕ → ℕ → Run ℕ
get_u64 file input = get_uint 64 file input 0 8

-- The loop of `payload_hash` (FNV-1a), over the bytes still to be read.
unfoldable pub hash_bytes : ℕ → List ℕ → ℕ
hash_bytes hash [] = hash
hash_bytes hash (b ∷ bs) = hash_bytes (bit_xor hash b * 1099511628211 % 2 ^ 64) bs

unfoldable pub payload_hash : List ℕ → ℕ
payload_hash payload = hash_bytes 14695981039346656037 payload

abbrev pub size_max : ℕ
size_max = 2 ^ 64 - 1

unfoldable pub add_size : ℕ → ℕ → Option ℕ
add_size total amount =
    if ltb (size_max - total) amount then none else some ((total + amount) % 2 ^ 64)

unfoldable pub table_size : ℕ → ℕ → Option ℕ
table_size count entry_size =
    if ltb size_max count || (count != 0 && ltb (size_max / count) entry_size)
    then none
    else some (count * entry_size % 2 ^ 64)
