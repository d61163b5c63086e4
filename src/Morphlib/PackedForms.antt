-- ===== src/Morphlib/PackedForms.antt =====
-- Packing the traits of an ending loses nothing.
use Prim.Native.Nat.{bit_and, bit_or}
use libmorpheus.Prelude.{ℕ, ◌+◌, ◌*◌, ◌/◌, ◌%◌, ◌^◌, ◌<◌, ◌≡◌, refl, arith}
use libmorpheus.Prelude.Bits.{bit_and-low, bit_and-zero, bit_or-join, bit_or_comm}
use libmorpheus.Bridge.Form.{WordForm}
use libmorpheus.Morphlib.WordForms.{pack_word_form, unpack_word_form}

-- The traits fit the bit fields of `word_form`.
pub record FitsFields (form : WordForm) : Type 0 where
  pub voice : form.voice < 8
  pub mood : form.mood < 16
  pub tense : form.tense < 16
  pub person : form.person < 8
  pub number : form.number < 8
  pub grammatical_case : form.grammatical_case < 64
  pub degree : form.degree < 4
  pub gender : form.gender < 16

-- The masks of the fields keep the low bits.
bit_and-1 : (x : ℕ) → bit_and x 1 ≡ x % 2
bit_and-1 x = omega (arith, bit_and-low x 1, bit_and-zero (x / 2))

bit_and-3 : (x : ℕ) → bit_and x 3 ≡ x % 4
bit_and-3 x = omega (arith, bit_and-low x 3, bit_and-1 (x / 2))

bit_and-7 : (x : ℕ) → bit_and x 7 ≡ x % 8
bit_and-7 x = omega (arith, bit_and-low x 7, bit_and-3 (x / 2))

bit_and-15 : (x : ℕ) → bit_and x 15 ≡ x % 16
bit_and-15 x = omega (arith, bit_and-low x 15, bit_and-7 (x / 2))

bit_and-31 : (x : ℕ) → bit_and x 31 ≡ x % 32
bit_and-31 x = omega (arith, bit_and-low x 31, bit_and-15 (x / 2))

bit_and-63 : (x : ℕ) → bit_and x 63 ≡ x % 64
bit_and-63 x = omega (arith, bit_and-low x 63, bit_and-31 (x / 2))

-- A field joins those below it.
join :
    (n value field : ℕ)
    → value < 2 ^ n
    → field * 2 ^ n < 2 ^ 32
    → bit_or value (field * 2 ^ n % 2 ^ 32) ≡ value + field * 2 ^ n
join n value field h fits =
    let e : field * 2 ^ n % 2 ^ 32 ≡ field * 2 ^ n = omega arith in
    rw e (omega (arith, bit_or_comm value (field * 2 ^ n), bit_or-join n field value h))

-- The value of the packed form: the fields side by side.
abbrev fields : WordForm → ℕ
fields f =
    f.voice
    + f.mood * 2 ^ 3
    + f.tense * 2 ^ 7
    + f.person * 2 ^ 11
    + f.number * 2 ^ 14
    + f.grammatical_case * 2 ^ 17
    + f.degree * 2 ^ 23
    + f.gender * 2 ^ 25

pack_word_form-fields : (f : WordForm) → FitsFields f → pack_word_form f ≡ fields f
unfolding pack_word_form
pack_word_form-fields f h =
    let v : bit_and f.voice 7 ≡ f.voice = omega (arith, bit_and-7 f.voice, h.voice) in
    let m : bit_and f.mood 15 ≡ f.mood = omega (arith, bit_and-15 f.mood, h.mood) in
    let t : bit_and f.tense 15 ≡ f.tense = omega (arith, bit_and-15 f.tense, h.tense) in
    let p : bit_and f.person 7 ≡ f.person = omega (arith, bit_and-7 f.person, h.person) in
    let n : bit_and f.number 7 ≡ f.number = omega (arith, bit_and-7 f.number, h.number) in
    let c : bit_and f.grammatical_case 63 ≡ f.grammatical_case =
      omega (arith, bit_and-63 f.grammatical_case, h.grammatical_case) in
    let d : bit_and f.degree 3 ≡ f.degree = omega (arith, bit_and-3 f.degree, h.degree) in
    let g : bit_and f.gender 15 ≡ f.gender = omega (arith, bit_and-15 f.gender, h.gender) in
    rw (
      v,
      m,
      t,
      p,
      n,
      c,
      d,
      g,
      join 3 f.voice f.mood (omega (arith, h.voice)) (omega (arith, h.mood)),
      join 7 (f.voice + f.mood * 2 ^ 3) f.tense (omega (arith, h.voice, h.mood))
          (omega (arith, h.tense)),
      join 11 (f.voice + f.mood * 2 ^ 3 + f.tense * 2 ^ 7) f.person
          (omega (arith, h.voice, h.mood, h.tense)) (omega (arith, h.person)),
      join 14 (f.voice + f.mood * 2 ^ 3 + f.tense * 2 ^ 7 + f.person * 2 ^ 11) f.number
          (omega (arith, h.voice, h.mood, h.tense, h.person)) (omega (arith, h.number)),
      join 17 (f.voice + f.mood * 2 ^ 3 + f.tense * 2 ^ 7 + f.person * 2 ^ 11 + f.number * 2 ^ 14)
          f.grammatical_case (omega (arith, h.voice, h.mood, h.tense, h.person, h.number))
          (omega (arith, h.grammatical_case)),
      join 23
          (f.voice
            + f.mood * 2 ^ 3
            + f.tense * 2 ^ 7
            + f.person * 2 ^ 11
            + f.number * 2 ^ 14
            + f.grammatical_case * 2 ^ 17)
          f.degree (omega (arith, h.voice, h.mood, h.tense, h.person, h.number, h.grammatical_case))
          (omega (arith, h.degree)),
      join 25
          (f.voice
            + f.mood * 2 ^ 3
            + f.tense * 2 ^ 7
            + f.person * 2 ^ 11
            + f.number * 2 ^ 14
            + f.grammatical_case * 2 ^ 17
            + f.degree * 2 ^ 23)
          f.gender
          (omega
            (arith, h.voice, h.mood, h.tense, h.person, h.number, h.grammatical_case, h.degree))
          (omega (arith, h.gender)),
    )

-- Traits that fit their fields are packed into 32 bits and unpacked unchanged.
pub unpack_word_form-pack_word_form :
    (f : WordForm)
    → FitsFields f
    → (unpack_word_form (pack_word_form f) ≡ f) × (pack_word_form f < 2 ^ 32)
unfolding unpack_word_form
unpack_word_form-pack_word_form f h =
    let e = pack_word_form-fields f h in
    let w = pack_word_form f in
    let e_voice : bit_and w 7 ≡ f.voice = omega (
      arith,
      bit_and-7 w,
      e,
      h.voice,
      h.mood,
      h.tense,
      h.person,
      h.number,
      h.grammatical_case,
      h.degree,
      h.gender,
    ) in
    let e_mood : bit_and (w / 2 ^ 3) 15 ≡ f.mood = omega (
      arith,
      bit_and-15 (w / 2 ^ 3),
      e,
      h.voice,
      h.mood,
      h.tense,
      h.person,
      h.number,
      h.grammatical_case,
      h.degree,
      h.gender,
    ) in
    let e_tense : bit_and (w / 2 ^ 7) 15 ≡ f.tense = omega (
      arith,
      bit_and-15 (w / 2 ^ 7),
      e,
      h.voice,
      h.mood,
      h.tense,
      h.person,
      h.number,
      h.grammatical_case,
      h.degree,
      h.gender,
    ) in
    let e_person : bit_and (w / 2 ^ 11) 7 ≡ f.person = omega (
      arith,
      bit_and-7 (w / 2 ^ 11),
      e,
      h.voice,
      h.mood,
      h.tense,
      h.person,
      h.number,
      h.grammatical_case,
      h.degree,
      h.gender,
    ) in
    let e_number : bit_and (w / 2 ^ 14) 7 ≡ f.number = omega (
      arith,
      bit_and-7 (w / 2 ^ 14),
      e,
      h.voice,
      h.mood,
      h.tense,
      h.person,
      h.number,
      h.grammatical_case,
      h.degree,
      h.gender,
    ) in
    let e_grammatical_case : bit_and (w / 2 ^ 17) 63 ≡ f.grammatical_case = omega (
      arith,
      bit_and-63 (w / 2 ^ 17),
      e,
      h.voice,
      h.mood,
      h.tense,
      h.person,
      h.number,
      h.grammatical_case,
      h.degree,
      h.gender,
    ) in
    let e_degree : bit_and (w / 2 ^ 23) 3 ≡ f.degree = omega (
      arith,
      bit_and-3 (w / 2 ^ 23),
      e,
      h.voice,
      h.mood,
      h.tense,
      h.person,
      h.number,
      h.grammatical_case,
      h.degree,
      h.gender,
    ) in
    let e_gender : bit_and (w / 2 ^ 25) 15 ≡ f.gender = omega (
      arith,
      bit_and-15 (w / 2 ^ 25),
      e,
      h.voice,
      h.mood,
      h.tense,
      h.person,
      h.number,
      h.grammatical_case,
      h.degree,
      h.gender,
    ) in
    (
      rw (e_voice, e_mood, e_tense, e_person, e_number, e_grammatical_case, e_degree, e_gender)
          refl,
      omega (
        arith, e, h.voice, h.mood, h.tense, h.person, h.number, h.grammatical_case, h.degree,
        h.gender,
      ),
    )
