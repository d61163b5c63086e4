-- ===== src/Bridge/Examples.antt =====
-- The conversions at some values, and the theorems at these.
use libmorpheus.Prelude.{[], ◌∷◌, ◌≡◌, refl, arith}
use libmorpheus.Bridge.Values.{
  map_bits, public_dialect, legacy_dialect, public_degree, legacy_flag_is_set,
}
use libmorpheus.Bridge.Ranges.{public_dialect-legacy_dialect}

-- Attic and Ionic.
attic_ionic : legacy_dialect 18 ≡ 10
unfolding legacy_dialect map_bits
attic_ionic = refl

-- Bit 2 of the second byte is flag 11, of irregular comparatives.
irregular : public_degree 0 3 (0 ∷ 4 ∷ []) ≡ 2
unfolding public_degree legacy_flag_is_set
irregular = refl

public_dialect-legacy_dialect_example : public_dialect (legacy_dialect 18) ≡ 18
public_dialect-legacy_dialect_example = public_dialect-legacy_dialect 18 (omega arith)
