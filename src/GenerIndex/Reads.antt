-- ===== src/GenerIndex/Reads.antt =====
-- The byte readers of src/api/gener_index.c never leave a file that is long enough, and read
-- little-endian numbers.
use Prim.Native.Nat.{bit_or}
use libmorpheus.Prelude.{
  ℕ, zero, suc, ◌+◌, ◌-◌, ◌*◌, ◌%◌, ◌^◌, ◌≤◌, ◌<◌, ◌≡◌, refl, none, some, List, [], ◌∷◌, length,
  drop, length-drop, get_elem?, arith, Bool-cases, inl, inr, ◌==◌, leb,
}
use libmorpheus.GenerIndex.Bytes.{
  Run, done, reject, fault, stuck, ◌>>=◌, load, get_uint, get_u32, get_u64,
}
use libmorpheus.GenerIndex.Format.{GenerIndex, scan_string, string_at, prepend}

-- A run that neither leaves the file nor runs out of fuel.
abbrev pub Clean {ℓ} : {A : Type ℓ} → Run A → Type 0
Clean (done a) = Unit
Clean reject = Unit
Clean fault = ⊥
Clean stuck = ⊥

pub >>=-Clean {ℓ κ} :
    {A : Type ℓ} {B : Type κ} (m : Run A) (f : A → Run B)
    → Clean m
    → ((a : A) → m ≡ done a → Clean (f a))
    → Clean (m >>= f)
>>=-Clean (done a) f c h = h a refl
>>=-Clean reject f c h = tt
>>=-Clean fault f c h = c
>>=-Clean stuck f c h = c

pub >>=-eq-done {ℓ κ} :
    {A : Type ℓ} {B : Type κ} (m : Run A) (f : A → Run B) {b : B}
    → (m >>= f) ≡ done b
    → (a : A) × (m ≡ done a) × (f a ≡ done b)
>>=-eq-done (done a) f h = (a, refl, h)
>>=-eq-done reject f h = cc
>>=-eq-done fault f h = cc
>>=-eq-done stuck f h = cc

-- The run ends with a value.
abbrev pub Ends {ℓ} : {A : Type ℓ} → Run A → Type ℓ
Ends {A = A} m = (a : A) × (m ≡ done a)

-- The same as a test that computes.
abbrev pub IsDone {ℓ} : {A : Type ℓ} → Run A → Type 0
IsDone (done a) = Unit
IsDone reject = ⊥
IsDone fault = ⊥
IsDone stuck = ⊥

pub IsDone→Ends {ℓ} : {A : Type ℓ} (m : Run A) → IsDone m → Ends m
IsDone→Ends (done a) h = (a, refl)
IsDone→Ends reject h = absurd h
IsDone→Ends fault h = absurd h
IsDone→Ends stuck h = absurd h

get_elem?-lt : (xs : List ℕ) (i : ℕ) → i < length xs → (x : ℕ) × (get_elem? xs i ≡ some x)
get_elem?-lt [] i h = absurd (omega arith)
get_elem?-lt (x ∷ xs) zero h = (x, refl)
get_elem?-lt (x ∷ xs) (suc i) h = get_elem?-lt xs i (omega arith)

pub load-Ends : (file : List ℕ) (i : ℕ) → i < length file → Ends (load file i)
unfolding load
load-Ends file i h = let (x, e) = get_elem?-lt file i h in (x, rw e)

pub get_uint-Ends :
    (width : ℕ) (file : List ℕ) (input value n : ℕ)
    → input + n ≤ length file
    → Ends (get_uint width file input value n)
unfolding get_uint
get_uint-Ends width file input value zero h = (value, refl)
get_uint-Ends width file input value (suc n) h =
    let (b, e) = load-Ends file (input + n) (omega arith) in
    rw e (get_uint-Ends width file input (bit_or (value * 2 ^ 8 % 2 ^ width) b) n (omega arith))

pub get_u32-Ends : (file : List ℕ) (input : ℕ) → input + 4 ≤ length file → Ends (get_u32 file input)
unfolding get_u32
get_u32-Ends file input h = get_uint-Ends 32 file input 0 4 h

pub get_u64-Ends : (file : List ℕ) (input : ℕ) → input + 8 ≤ length file → Ends (get_u64 file input)
unfolding get_u64
get_u64-Ends file input h = get_uint-Ends 64 file input 0 8 h

scan_string-Ends : (bytes : List ℕ) (n : ℕ) → n ≤ length bytes → Ends (scan_string bytes n)
unfolding scan_string
scan_string-Ends bytes zero h = (none, refl)
scan_string-Ends [] (suc n) h = absurd (omega arith)
scan_string-Ends (b ∷ bs) (suc n) h =
    let (s, e) = scan_string-Ends bs n (omega arith) in
    elim (Bool-cases (b == 0)) [
      | inl q ↦ (some [], rw (scan_string, q))
      | inr q ↦ (prepend b s, rw (scan_string, q, e))
    ]

pub string_at-Ends :
    (index : GenerIndex) (offset : ℕ)
    → index.strings + index.string_size ≤ length index.file
    → Ends (string_at index offset)
unfolding string_at
string_at-Ends index offset h = elim (Bool-cases (leb index.string_size offset)) [
  | inl past ↦ (none, rw past)
  | inr inside ↦ rw inside (
      scan_string-Ends (drop (index.strings + offset) index.file) (index.string_size - offset)
        (omega (arith, length-drop (index.strings + offset) index.file)))
]
