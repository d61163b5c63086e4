-- ===== src/Api/Requests.antt =====
-- What `morpheus_generate` promises: the options it accepts, the forms it returns, the context.
use Prim.Native.Nat.{bit_and}
use libmorpheus.Prelude.{
  ℕ, ◌+◌, ◌-◌, ◌*◌, ◌^◌, ◌≤◌, ◌<◌, ◌≡◌, refl, ap, ◌∙◌, sym, false, some, ◌==◌, if◌then◌else◌, arith,
}
use libmorpheus.Prelude.Bits.{bit_and-mask}
use libmorpheus.Api.Generation.{
  Options, limited_to, max_limit, default_limit, options_size, beyond, enum_at_most,
  requested_limit, bad_traits, validate_options,
}

-- A value without bits beyond the `k` low ones.
beyond-low :
    (k v : ℕ)
    → (j : ℕ) → j + k ≡ 32
    → v < 2 ^ 32
    → 2 ^ 32 - 1 - (2 ^ k - 1) ≡ (2 ^ j - 1) * 2 ^ k
    → beyond v (2 ^ k - 1) ≡ false
    → v < 2 ^ k
unfolding beyond
beyond-low k v j sum word mask h =
    bit_and-mask j k v (omega (arith, ap (λ (t : ℕ). 2 ^ t) sum))
      (ap (bit_and v) (sym mask) ∙ ground arith)

-- The traits of a request are in range.
pub record InRange (options : Options) : Type 0 where
  pub part_of_speech_bound : options.part_of_speech ≤ 11
  pub person_bound : options.person ≤ 3
  pub number_bound : options.number ≤ 3
  pub tense_bound : options.tense ≤ 8
  pub mood_bound : options.mood ≤ 9
  pub degree_bound : options.degree ≤ 3
  pub gender_bound : options.gender < 2 ^ 4
  pub case_bound : options.grammatical_case < 2 ^ 6
  pub voice_bound : options.voice < 2 ^ 3
  pub dialect_bound : options.dialect < 2 ^ 9
  pub region_bound : options.geographic_region < 2 ^ 15

-- The bit masks of the options are 32-bit words.
pub record AreWords (options : Options) : Type 0 where
  pub gender_word : options.gender < 2 ^ 32
  pub case_word : options.grammatical_case < 2 ^ 32
  pub voice_word : options.voice < 2 ^ 32
  pub dialect_word : options.dialect < 2 ^ 32
  pub region_word : options.geographic_region < 2 ^ 32

bad_traits-InRange :
    (options : Options) → AreWords options → bad_traits options ≡ false → InRange options
unfolding bad_traits enum_at_most
bad_traits-InRange options words h = record {
  part_of_speech_bound = ground arith;
  person_bound = ground arith;
  number_bound = ground arith;
  tense_bound = ground arith;
  mood_bound = ground arith;
  degree_bound = ground arith;
  gender_bound = beyond-low 4 options.gender 28 refl words.gender_word refl (ground arith);
  case_bound = beyond-low 6 options.grammatical_case 26 refl words.case_word refl (ground arith);
  voice_bound = beyond-low 3 options.voice 29 refl words.voice_word refl (ground arith);
  dialect_bound = beyond-low 9 options.dialect 23 refl words.dialect_word refl (ground arith);
  region_bound =
      beyond-low 15 options.geographic_region 17 refl words.region_word refl (ground arith);
}

-- Options that are accepted have the right version and size and only traits that are in range; the
-- limit is the one given, or the default for 0, and it is between 1 and the maximum.
pub validate_options-InRange :
    (options : Options) (limit : ℕ)
    → AreWords options
    → validate_options (some options) ≡ limited_to limit
    → (options.version ≡ 1)
      × (options_size ≤ options.struct_size)
      × InRange options
      × (limit ≡ (if options.result_limit == 0 then default_limit else options.result_limit))
      × (1 ≤ limit)
      × (limit ≤ max_limit)
unfolding validate_options requested_limit
validate_options-InRange options limit words h =
    let traits : bad_traits options ≡ false = ground arith in
    (
      ground arith,
      ground arith,
      bad_traits-InRange options words traits,
      ground arith,
      ground arith,
      ground arith,
    )
