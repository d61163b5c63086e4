-- ===== src/Morphlib/WordForms.antt =====
-- The traits of an ending in 32 bits: `pack_word_form` and `unpack_word_form` of
-- src/morphlib/endio.c.
use Prim.Native.Nat.{bit_and, bit_or}
use libmorpheus.Prelude.{ℕ, ◌*◌, ◌/◌, ◌%◌, ◌^◌}
use libmorpheus.Bridge.Form.{WordForm}

unfoldable pub pack_word_form : WordForm → ℕ
pack_word_form form =
    bit_or
      (bit_or
        (bit_or
          (bit_or
            (bit_or
              (bit_or (bit_or (bit_and form.voice 7) (bit_and form.mood 15 * 2 ^ 3 % 2 ^ 32))
                (bit_and form.tense 15 * 2 ^ 7 % 2 ^ 32))
              (bit_and form.person 7 * 2 ^ 11 % 2 ^ 32))
            (bit_and form.number 7 * 2 ^ 14 % 2 ^ 32))
          (bit_and form.grammatical_case 63 * 2 ^ 17 % 2 ^ 32))
        (bit_and form.degree 3 * 2 ^ 23 % 2 ^ 32))
      (bit_and form.gender 15 * 2 ^ 25 % 2 ^ 32)

unfoldable pub unpack_word_form : ℕ → WordForm
unpack_word_form packed = record {
  voice = bit_and packed 7;
  mood = bit_and (packed / 2 ^ 3) 15;
  tense = bit_and (packed / 2 ^ 7) 15;
  person = bit_and (packed / 2 ^ 11) 7;
  number = bit_and (packed / 2 ^ 14) 7;
  grammatical_case = bit_and (packed / 2 ^ 17) 63;
  degree = bit_and (packed / 2 ^ 23) 3;
  gender = bit_and (packed / 2 ^ 25) 15;
}
