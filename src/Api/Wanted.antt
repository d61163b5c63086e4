-- ===== src/Api/Wanted.antt =====
-- What the filter of a request lets through, and what a copied form has: src/api/generation.c.
use Prim.Native.Nat.{bit_and}
use libmorpheus.Prelude.{
  ℕ, ◌≡◌, ◌≢◌, refl, Bool, true, false, ◌&&◌, ◌||◌, not, Option, none, some, ◌⊎◌, ◌==◌, ◌!=◌,
  if◌then◌else◌, arith, inl, inr, Bool-cases,
}
use mathlib.Core.Bool.{false≢true, true≢false}
use libmorpheus.Api.Generation.{
  Options, Normalized, Generation, mask_matches, differs, generation_matches, copy_generation,
}

-- A filter of one value is 0 or the value; a filter of a set is 0 or meets the set.
abbrev pub IsValue : (filter value : ℕ) → Type 0
IsValue filter value = (filter ≡ 0) ⊎ (filter ≡ value)

abbrev pub Meets : (filter set : ℕ) → Type 0
Meets filter set = (filter ≡ 0) ⊎ (bit_and filter set ≢ 0)

-- A form that a request asks for; a form without a dialect is of every dialect, and the flag 1 of the
-- options leaves out duals, whose number is 2.
pub record IsWanted (options : Options) (form : Normalized) : Type 0 where
  pub part_of_speech : IsValue options.part_of_speech form.part_of_speech
  pub person : IsValue options.person form.person
  pub number : IsValue options.number form.number
  pub tense : IsValue options.tense form.tense
  pub mood : IsValue options.mood form.mood
  pub degree : IsValue options.degree form.degree
  pub dialect : (form.dialect ≡ 0) ⊎ Meets options.dialect form.dialect
  pub geographic_region : Meets options.geographic_region form.geographic_region
  pub gender : Meets options.gender form.gender
  pub grammatical_case : Meets options.grammatical_case form.grammatical_case
  pub voice : Meets options.voice form.voice
  pub dual : (bit_and options.flags 1 ≡ 0) ⊎ (form.number ≢ 2)

abbrev pub Wanted : Option Options → Normalized → Type 0
Wanted none form = Unit
Wanted (some options) form = IsWanted options form

-- A form as the caller gets it.
pub record IsCopy (source : Normalized) (copy : Generation) : Type 0 where
  pub struct_size : copy.struct_size ≡ 188
  pub surface : copy.surface ≡ source.surface
  pub lemma : copy.lemma ≡ source.lemma
  pub morph_flags : copy.morph_flags ≡ source.morph_flags
  pub part_of_speech : copy.part_of_speech ≡ source.part_of_speech
  pub dialect : copy.dialect ≡ source.dialect
  pub geographic_region : copy.geographic_region ≡ source.geographic_region
  pub person : copy.person ≡ source.person
  pub number : copy.number ≡ source.number
  pub gender : copy.gender ≡ source.gender
  pub grammatical_case : copy.grammatical_case ≡ source.grammatical_case
  pub tense : copy.tense ≡ source.tense
  pub mood : copy.mood ≡ source.mood
  pub voice : copy.voice ≡ source.voice
  pub degree : copy.degree ≡ source.degree

pub copy_generation-IsCopy : (source : Normalized) → IsCopy source (copy_generation source)
unfolding copy_generation
copy_generation-IsCopy source = record {
  struct_size = refl;
  surface = refl;
  lemma = refl;
  morph_flags = refl;
  part_of_speech = refl;
  dialect = refl;
  geographic_region = refl;
  person = refl;
  number = refl;
  gender = refl;
  grammatical_case = refl;
  tense = refl;
  mood = refl;
  voice = refl;
  degree = refl;
}

differs-IsValue : (f v : ℕ) → differs f v ≡ false → IsValue f v
unfolding differs
differs-IsValue f v h = elim (Bool-cases (f == 0)) [
  | inl q ↦ inl (ground (arith, q))
  | inr q ↦ inr (ground (arith, q, h))
]

IsValue-differs : (f v : ℕ) → IsValue f v → differs f v ≡ false
unfolding differs
IsValue-differs f v (inl e) = ground (arith, e)
IsValue-differs f v (inr e) = ground (arith, e)

mask_matches-Meets : (f v : ℕ) → mask_matches f v ≡ true → Meets f v
unfolding mask_matches
mask_matches-Meets f v h = elim (Bool-cases (f == 0)) [
  | inl q ↦ inl (ground (arith, q))
  | inr q ↦ inr (λ e. ground (arith, q, h, e))
]

Meets-mask_matches : (f v : ℕ) → Meets f v → mask_matches f v ≡ true
unfolding mask_matches
Meets-mask_matches f v (inl e) = ground (arith, e)
Meets-mask_matches f v (inr e) = ground (arith, e)

-- A guard that does not refuse.
passed :
    {refuses : Bool} {rest : Bool}
    → (if refuses then false else rest) ≡ true
    → (refuses ≡ false) × (rest ≡ true)
passed {refuses} {rest} h = elim (Bool-cases refuses) [
  | inl q ↦ absurd (false≢true (rw q at h))
  | inr q ↦ (q, rw q at h)
]

either-dialect :
    (f v : ℕ) → (f != 0 && v != 0 && not (bit_and f v != 0)) ≡ false → (v ≡ 0) ⊎ Meets f v
either-dialect f v h = elim (Bool-cases (v == 0)) [
  | inl q ↦ inl (ground (arith, q))
  | inr q ↦ elim (Bool-cases (f == 0)) [
    | inl z ↦ inr (inl (ground (arith, z)))
    | inr z ↦ inr (inr (λ e. ground (arith, q, z, h, e)))
  ]
]

dialect-either :
    (f v : ℕ) → (v ≡ 0) ⊎ Meets f v → (f != 0 && v != 0 && not (bit_and f v != 0)) ≡ false
dialect-either f v (inl e) = ground (arith, e)
dialect-either f v (inr (inl e)) = ground (arith, e)
dialect-either f v (inr (inr e)) = ground (arith, e)

either-dual : (f n : ℕ) → ((bit_and f 1 != 0) && n == 2) ≡ false → (bit_and f 1 ≡ 0) ⊎ (n ≢ 2)
either-dual f n h = elim (Bool-cases (bit_and f 1 != 0)) [
  | inl q ↦ inr (λ e. ground (arith, q, h, e))
  | inr q ↦ inl (ground (arith, q))
]

dual-either : (f n : ℕ) → (bit_and f 1 ≡ 0) ⊎ (n ≢ 2) → ((bit_and f 1 != 0) && n == 2) ≡ false
dual-either f n (inl e) = ground (arith, e)
dual-either f n (inr e) = ground (arith, e)

none_fails :
    (a b c d : Bool)
    → (not a || not b || not c || not d) ≡ false
    → (a ≡ true) × (b ≡ true) × (c ≡ true) × (d ≡ true)
none_fails true true true true h = (refl, refl, refl, refl)
none_fails true true true false h = absurd (true≢false h)
none_fails true true false d h = absurd (true≢false h)
none_fails true false c d h = absurd (true≢false h)
none_fails false b c d h = absurd (true≢false h)

matches-IsWanted :
    (o : Options) (g : Normalized) → generation_matches g (some o) ≡ true → IsWanted o g
unfolding generation_matches
matches-IsWanted o g h =
    let (pos, h1) = passed h in
    let (person, h2) = passed h1 in
    let (number, h3) = passed h2 in
    let (tense, h4) = passed h3 in
    let (mood, h5) = passed h4 in
    let (degree, h6) = passed h5 in
    let (dialect, h7) = passed h6 in
    let (masks, h8) = passed h7 in
    let (dual, h9) = passed h8 in
    let (region, gender, case_of, voice) =
      none_fails (mask_matches o.geographic_region g.geographic_region)
        (mask_matches o.gender g.gender) (mask_matches o.grammatical_case g.grammatical_case)
        (mask_matches o.voice g.voice) masks in
    record {
      part_of_speech = differs-IsValue o.part_of_speech g.part_of_speech pos;
      person = differs-IsValue o.person g.person person;
      number = differs-IsValue o.number g.number number;
      tense = differs-IsValue o.tense g.tense tense;
      mood = differs-IsValue o.mood g.mood mood;
      degree = differs-IsValue o.degree g.degree degree;
      dialect = either-dialect o.dialect g.dialect dialect;
      geographic_region = mask_matches-Meets o.geographic_region g.geographic_region region;
      gender = mask_matches-Meets o.gender g.gender gender;
      grammatical_case = mask_matches-Meets o.grammatical_case g.grammatical_case case_of;
      voice = mask_matches-Meets o.voice g.voice voice;
      dual = either-dual o.flags g.number dual;
    }

IsWanted-matches :
    (o : Options) (g : Normalized) → IsWanted o g → generation_matches g (some o) ≡ true
unfolding generation_matches
IsWanted-matches o g w =
    rw
      (
        IsValue-differs o.part_of_speech g.part_of_speech w.part_of_speech,
        IsValue-differs o.person g.person w.person,
        IsValue-differs o.number g.number w.number,
        IsValue-differs o.tense g.tense w.tense,
        IsValue-differs o.mood g.mood w.mood,
        IsValue-differs o.degree g.degree w.degree,
        dialect-either o.dialect g.dialect w.dialect,
        Meets-mask_matches o.geographic_region g.geographic_region w.geographic_region,
        Meets-mask_matches o.gender g.gender w.gender,
        Meets-mask_matches o.grammatical_case g.grammatical_case w.grammatical_case,
        Meets-mask_matches o.voice g.voice w.voice,
        dual-either o.flags g.number w.dual,
      )
      refl

-- The filter lets through what is wanted and nothing else.
pub generation_matches-Wanted :
    (options : Option Options) (form : Normalized)
    → (generation_matches form options ≡ true → Wanted options form)
      × (Wanted options form → generation_matches form options ≡ true)
unfolding generation_matches
generation_matches-Wanted none form = (λ e. tt, λ w. refl)
generation_matches-Wanted (some o) form = (matches-IsWanted o form, IsWanted-matches o form)
