-- ===== src/Api/Generation.antt =====
-- The options, the filter and the parts of `morpheus_generate`: src/api/generation.c, with the types
-- of include/morpheus/morpheus.h and src/bridge/generation_normalizer.h.
use Prim.Native.Nat.{bit_and}
use libmorpheus.Prelude.{
  ℕ, ◌-◌, ◌^◌, Bool, true, false, ◌&&◌, ◌||◌, not, Option, none, some, List, ltb, leb, ◌==◌, ◌!=◌,
  if◌then◌else◌,
}
use libmorpheus.Api.Status.{Status}

-- The version, the size of the structure and the limit, and the filters of a request.
pub record Options : Type 0 where
  pub version : ℕ
  pub struct_size : ℕ
  pub result_limit : ℕ
  pub flags : ℕ
  pub part_of_speech : ℕ
  pub dialect : ℕ
  pub geographic_region : ℕ
  pub person : ℕ
  pub number : ℕ
  pub gender : ℕ
  pub grammatical_case : ℕ
  pub tense : ℕ
  pub mood : ℕ
  pub voice : ℕ
  pub degree : ℕ

-- A normalized form; the three arrays are lists of bytes.
pub record Normalized : Type 0 where
  pub surface : List ℕ
  pub lemma : List ℕ
  pub part_of_speech : ℕ
  pub dialect : ℕ
  pub geographic_region : ℕ
  pub person : ℕ
  pub number : ℕ
  pub gender : ℕ
  pub grammatical_case : ℕ
  pub tense : ℕ
  pub mood : ℕ
  pub voice : ℕ
  pub degree : ℕ
  pub morph_flags : List ℕ
  pub truncated_fields : ℕ
  pub source_order : ℕ

pub record Generation : Type 0 where
  pub struct_size : ℕ
  pub part_of_speech : ℕ
  pub dialect : ℕ
  pub geographic_region : ℕ
  pub person : ℕ
  pub number : ℕ
  pub gender : ℕ
  pub grammatical_case : ℕ
  pub tense : ℕ
  pub mood : ℕ
  pub voice : ℕ
  pub degree : ℕ
  pub surface : List ℕ
  pub lemma : List ℕ
  pub morph_flags : List ℕ

-- `sizeof(morpheus_generation_options)` and `sizeof(morpheus_generation)`.
abbrev pub options_size : ℕ
options_size = 64

abbrev pub generation_size : ℕ
generation_size = 188

abbrev pub default_limit : ℕ
default_limit = 4096

abbrev pub max_limit : ℕ
max_limit = 65536

abbrev pub exclude_duals : ℕ
exclude_duals = 1

abbrev pub number_dual : ℕ
number_dual = 2

-- `value & ~mask` on uint32_t is not 0.
unfoldable pub beyond : ℕ → ℕ → Bool
beyond value mask = bit_and value (2 ^ 32 - 1 - mask) != 0

unfoldable pub enum_at_most : ℕ → ℕ → Bool
enum_at_most value maximum = leb value maximum

-- The limit that `*limit` gets, or the status of the failure.
pub data Validated : Type 0 where
  limited_to : ℕ → Validated
  refused : Status → Validated

-- The limit of the request, 0 for the default.
unfoldable pub requested_limit : ℕ → Validated
requested_limit given =
    let requested = if given != 0 then given else default_limit in
    if ltb max_limit requested then refused Status.invalid_argument else limited_to requested

-- The trait filters that are out of range.
unfoldable pub bad_traits : Options → Bool
bad_traits options =
    ltb 11 options.part_of_speech
    || not (enum_at_most options.person 3)
    || not (enum_at_most options.number 3)
    || not (enum_at_most options.tense 8)
    || not (enum_at_most options.mood 9)
    || not (enum_at_most options.degree 3)
    || beyond options.gender 15
    || beyond options.grammatical_case 63
    || beyond options.voice 7
    || beyond options.dialect 511
    || beyond options.geographic_region 32767
    || ((bit_and options.flags exclude_duals != 0) && options.number == number_dual)

unfoldable pub validate_options : Option Options → Validated
validate_options none = limited_to default_limit
validate_options (some options) =
    if options.version != 1 || ltb options.struct_size options_size
    then refused Status.abi_mismatch
    else if beyond options.flags exclude_duals
    then refused Status.invalid_argument
    else if bad_traits options
    then refused Status.invalid_argument
    else requested_limit options.result_limit

unfoldable pub mask_matches : ℕ → ℕ → Bool
mask_matches filter value = filter == 0 || bit_and filter value != 0

-- A filter that is set and is not the value.
unfoldable pub differs : ℕ → ℕ → Bool
differs filter value = filter != 0 && filter != value

unfoldable pub generation_matches : Normalized → Option Options → Bool
generation_matches generation none = true
generation_matches generation (some options) =
    if differs options.part_of_speech generation.part_of_speech
    then false
    else if differs options.person generation.person
    then false
    else if differs options.number generation.number
    then false
    else if differs options.tense generation.tense
    then false
    else if differs options.mood generation.mood
    then false
    else if differs options.degree generation.degree
    then false
    else if options.dialect != 0
        && generation.dialect != 0
        && not (bit_and options.dialect generation.dialect != 0)
    then false
    else if not (mask_matches options.geographic_region generation.geographic_region)
        || not (mask_matches options.gender generation.gender)
        || not (mask_matches options.grammatical_case generation.grammatical_case)
        || not (mask_matches options.voice generation.voice)
    then false
    else if (bit_and options.flags exclude_duals != 0) && generation.number == number_dual
    then false
    else true

unfoldable pub copy_generation : Normalized → Generation
copy_generation source = record {
  struct_size = generation_size;
  part_of_speech = source.part_of_speech;
  dialect = source.dialect;
  geographic_region = source.geographic_region;
  person = source.person;
  number = source.number;
  gender = source.gender;
  grammatical_case = source.grammatical_case;
  tense = source.tense;
  mood = source.mood;
  voice = source.voice;
  degree = source.degree;
  surface = source.surface;
  lemma = source.lemma;
  morph_flags = source.morph_flags;
}
