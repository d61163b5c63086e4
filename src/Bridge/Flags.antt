-- ===== src/Bridge/Flags.antt =====
-- The morphological flags: the table of src/bridge/legacy_values.c, with the numbers of
-- src/includes/morphflags.h, and the bytes that the interface gets.
use libmorpheus.Prelude.{
  ℕ, ◌/◌, ◌%◌, ◌^◌, Bool, List, [], ◌∷◌, get_or, set, replicate, if◌then◌else◌,
}
use Prim.Native.Nat.{bit_or}
use libmorpheus.Prelude.Bits.{test_bit}
use libmorpheus.Bridge.Values.{BitMapping, maps, legacy_flag_is_set}

-- MORPHEUS_MORPH_FLAG_CAPACITY
abbrev pub morph_flag_capacity : ℕ
morph_flag_capacity = 11

-- The number of a flag in the engine, and its index in the interface.
abbrev pub morph_flag_mappings : List BitMapping
morph_flag_mappings =
    maps 16 0
    ∷ maps 80 1
    ∷ maps 79 2
    ∷ maps 9 3
    ∷ maps 24 4
    ∷ maps 47 5
    ∷ maps 54 6
    ∷ maps 2 7
    ∷ maps 7 8
    ∷ maps 82 9
    ∷ maps 46 10
    ∷ maps 63 11
    ∷ maps 37 12
    ∷ maps 22 13
    ∷ maps 67 14
    ∷ maps 61 15
    ∷ maps 62 16
    ∷ maps 41 17
    ∷ maps 34 18
    ∷ maps 3 19
    ∷ maps 65 20
    ∷ maps 78 21
    ∷ maps 59 22
    ∷ maps 66 23
    ∷ maps 110 24
    ∷ maps 26 25
    ∷ maps 20 26
    ∷ maps 51 27
    ∷ maps 35 28
    ∷ maps 29 29
    ∷ maps 55 30
    ∷ maps 68 31
    ∷ maps 11 32
    ∷ maps 25 33
    ∷ maps 10 34
    ∷ maps 4 35
    ∷ maps 38 36
    ∷ maps 60 37
    ∷ maps 14 38
    ∷ maps 69 39
    ∷ maps 33 40
    ∷ maps 73 41
    ∷ maps 81 42
    ∷ maps 17 43
    ∷ maps 52 44
    ∷ maps 19 45
    ∷ maps 53 46
    ∷ maps 12 47
    ∷ maps 48 48
    ∷ maps 28 49
    ∷ maps 49 50
    ∷ maps 76 51
    ∷ maps 8 52
    ∷ maps 31 53
    ∷ maps 64 54
    ∷ maps 30 55
    ∷ maps 23 56
    ∷ maps 58 57
    ∷ maps 72 58
    ∷ maps 74 59
    ∷ maps 27 60
    ∷ maps 39 61
    ∷ maps 40 62
    ∷ maps 57 63
    ∷ maps 15 64
    ∷ maps 44 65
    ∷ maps 18 66
    ∷ maps 36 67
    ∷ maps 71 68
    ∷ maps 13 69
    ∷ maps 42 70
    ∷ maps 70 71
    ∷ maps 6 72
    ∷ maps 5 73
    ∷ maps 1 74
    ∷ maps 50 75
    ∷ maps 83 76
    ∷ maps 56 77
    ∷ maps 43 78
    ∷ maps 21 79
    ∷ maps 45 80
    ∷ maps 32 81
    ∷ maps 77 82
    ∷ maps 75 83
    ∷ []

-- `destination[index/8u]|=(uint8_t)(UINT8_C(1)<<(index%8u))`
unfoldable pub set_flag : List ℕ → ℕ → List ℕ
set_flag destination index =
    set destination (index / 8) (bit_or (get_or destination (index / 8) 0) (2 ^ (index % 8)))

unfoldable pub flags_loop : List BitMapping → List ℕ → List ℕ → List ℕ
flags_loop [] legacy_flags destination = destination
flags_loop (m ∷ ms) legacy_flags destination =
    flags_loop ms legacy_flags
      (if legacy_flag_is_set legacy_flags m.from then set_flag destination m.into else destination)

unfoldable pub public_morph_flags : List ℕ → List ℕ
public_morph_flags legacy_flags =
    flags_loop morph_flag_mappings legacy_flags (replicate morph_flag_capacity 0)

-- A flag of the bytes of the interface.
unfoldable pub has_flag : List ℕ → ℕ → Bool
has_flag flags index = test_bit (index % 8) (get_or flags (index / 8) 0)
