-- ===== src/Bridge/Values.antt =====
-- The conversions of src/bridge/legacy_values.c, with the values that src/includes/dialect.h and
-- greek.h give to the engine and include/morpheus/morpheus.h to the interface.
use Prim.Native.Nat.{bit_and, bit_or}
use libmorpheus.Prelude.{
  ℕ, ◌-◌, ◌/◌, ◌%◌, ◌^◌, Bool, ◌&&◌, ◌||◌, List, [], ◌∷◌, get_or, ltb, ◌==◌, ◌!=◌, if◌then◌else◌,
}

-- A bit of the value that comes in, and the bit that it becomes.
pub record BitMapping : Type 0 where
  pub from : ℕ
  pub into : ℕ

abbrev pub maps : ℕ → ℕ → BitMapping
maps from into = record { from = from; into = into }

-- The uses of `MAP_BIT` of a function, one after the other.
unfoldable pub map_bits : List BitMapping → (value result : ℕ) → ℕ
map_bits [] value result = result
map_bits (m ∷ ms) value result =
    map_bits ms value (if bit_and value m.from != 0 then bit_or result m.into else result)

abbrev pub dialects_to_public : List BitMapping
dialects_to_public =
    maps 16 1
    ∷ maps 2 2
    ∷ maps 128 4
    ∷ maps 64 8
    ∷ maps 8 16
    ∷ maps 32 32
    ∷ maps 1024 64
    ∷ maps 256 128
    ∷ maps 2048 256
    ∷ []

unfoldable pub public_dialect : ℕ → ℕ
public_dialect legacy = map_bits dialects_to_public legacy 0

abbrev pub dialects_to_legacy : List BitMapping
dialects_to_legacy =
    maps 1 16
    ∷ maps 2 2
    ∷ maps 4 128
    ∷ maps 8 64
    ∷ maps 16 8
    ∷ maps 32 32
    ∷ maps 64 1024
    ∷ maps 128 256
    ∷ maps 256 2048
    ∷ []

unfoldable pub legacy_dialect : ℕ → ℕ
legacy_dialect public_value = map_bits dialects_to_legacy public_value 0

abbrev pub regions_to_public : List BitMapping
regions_to_public =
    maps 8192 1
    ∷ maps 128 2
    ∷ maps 32768 4
    ∷ maps 512 8
    ∷ maps 4096 16
    ∷ maps 16384 32
    ∷ maps 2048 64
    ∷ maps 4 128
    ∷ maps 32 256
    ∷ maps 16 512
    ∷ maps 2 1024
    ∷ maps 64 2048
    ∷ maps 1 4096
    ∷ maps 256 8192
    ∷ maps 1024 16384
    ∷ []

unfoldable pub public_region : ℕ → ℕ
public_region legacy = map_bits regions_to_public legacy 0

unfoldable pub public_person : ℕ → ℕ
public_person legacy =
    if legacy == 1 then 1 else if legacy == 2 then 2 else if legacy == 4 then 3 else 0

unfoldable pub public_number : ℕ → ℕ
public_number legacy =
    if legacy == 1 then 1 else if legacy == 2 then 2 else if legacy == 4 then 3 else 0

abbrev pub genders_to_public : List BitMapping
genders_to_public = maps 8 1 ∷ maps 2 2 ∷ maps 1 4 ∷ maps 4 8 ∷ []

unfoldable pub public_gender : ℕ → ℕ
public_gender legacy = map_bits genders_to_public legacy 0

abbrev pub cases_to_public : List BitMapping
cases_to_public = maps 32 1 ∷ maps 8 2 ∷ maps 4 4 ∷ maps 2 8 ∷ maps 1 16 ∷ maps 16 32 ∷ []

unfoldable pub public_case : ℕ → ℕ
public_case legacy = map_bits cases_to_public legacy 0

unfoldable pub public_tense : ℕ → ℕ
public_tense legacy =
    if legacy == 1
    then 1
    else if legacy == 10
    then 2
    else if legacy == 3
    then 3
    else if legacy == 12
    then 4
    else if legacy == 5
    then 5
    else if legacy == 6
    then 6
    else if legacy == 15
    then 7
    else if legacy == 8
    then 8
    else 0

unfoldable pub public_mood : ℕ → ℕ
public_mood legacy =
    if legacy == 9
    then 1
    else if legacy == 7
    then 2
    else if legacy == 4
    then 3
    else if legacy == 1
    then 4
    else if legacy == 5
    then 5
    else if legacy == 3
    then 6
    else if legacy == 6
    then 7
    else if legacy == 2
    then 8
    else if legacy == 8
    then 9
    else 0

abbrev pub voices_to_public : List BitMapping
voices_to_public = maps 1 1 ∷ maps 4 2 ∷ maps 2 4 ∷ []

unfoldable pub public_voice : ℕ → ℕ
public_voice legacy = map_bits voices_to_public legacy 0

-- MORPHFLAG_STORAGE_BYTES
abbrev pub flag_bytes : ℕ
flag_bytes = 14

-- Flag `number` of the bytes, counted from 1; the array has `flag_bytes` of them.
unfoldable pub legacy_flag_is_set : List ℕ → ℕ → Bool
legacy_flag_is_set flags number =
    ltb ((number - 1) / 8) flag_bytes
    && (bit_and (get_or flags ((number - 1) / 8) 0) (2 ^ ((number - 1) % 8)) != 0)

-- 11 is IRREG_COMP and 10 IRREG_SUPERL; the part of speech 3 is the adjective.
unfoldable pub public_degree : ℕ → (part_of_speech : ℕ) → List ℕ → ℕ
public_degree legacy part_of_speech flags =
    if legacy == 1 || legacy_flag_is_set flags 11
    then 2
    else if legacy == 2 || legacy_flag_is_set flags 10
    then 3
    else if part_of_speech == 3
    then 1
    else 0
