-- ===== src/Bridge/Compare.antt =====
-- The order of normalized forms: `morpheus_normalized_generation_compare` of
-- src/bridge/generation_normalizer.c. A negative, a zero and a positive answer are `Ordering`.
use libmorpheus.Prelude.{
  ℕ, zero, suc, ◌≡◌, refl, Option, none, some, List, [], ◌∷◌, strcmp, ltb, if◌then◌else◌, Ordering,
  compare, arith,
}
use libmorpheus.Prelude.Comparison.{
  IsComparison, flip, order_then, lexicographic-IsComparison, preimage, compare-IsComparison,
  strcmp-IsComparison,
}
use libmorpheus.Api.Generation.{Normalized}
use libmorpheus.Bridge.Flags.{morph_flag_capacity}

unfoldable pub compare_u32 : ℕ → ℕ → Ordering
compare_u32 left right =
    if ltb right left then Ordering.gt else if ltb left right then Ordering.lt else Ordering.eq

unfoldable pub compare_u64 : ℕ → ℕ → Ordering
compare_u64 left right =
    if ltb right left then Ordering.gt else if ltb left right then Ordering.lt else Ordering.eq

abbrev head : List ℕ → ℕ
head [] = 0
head (x ∷ xs) = x

abbrev tail : List ℕ → List ℕ
tail [] = []
tail (x ∷ xs) = xs

-- C's `memcmp` of the first `size` bytes.
unfoldable pub memcmp : (size : ℕ) → List ℕ → List ℕ → Ordering
memcmp zero left right = Ordering.eq
memcmp (suc size) left right =
    order_then (compare (head left) (head right)) (memcmp size (tail left) (tail right))

unfoldable pub compare_records : Normalized → Normalized → Ordering
compare_records left right = order_then (compare_u32 left.part_of_speech right.part_of_speech) (
    order_then (compare_u32 left.tense right.tense) (
      order_then (compare_u32 left.voice right.voice) (
        order_then (compare_u32 left.mood right.mood) (
          order_then (compare_u32 left.degree right.degree) (
            order_then (compare_u32 left.number right.number) (
              order_then (compare_u32 left.person right.person) (
                order_then (compare_u32 left.grammatical_case right.grammatical_case) (
                  order_then (compare_u32 left.gender right.gender) (
                    order_then (compare_u32 left.dialect right.dialect) (
                      order_then (compare_u32 left.geographic_region right.geographic_region) (
                        order_then (strcmp left.surface right.surface) (
                          order_then (strcmp left.lemma right.lemma) (
                            order_then
                              (memcmp morph_flag_capacity left.morph_flags right.morph_flags)
                              (compare_u64 left.source_order right.source_order))))))))))))))

-- `none` is a null pointer.
unfoldable pub normalized_generation_compare : Option Normalized → Option Normalized → Ordering
normalized_generation_compare none none = Ordering.eq
normalized_generation_compare none (some right) = Ordering.lt
normalized_generation_compare (some left) none = Ordering.gt
normalized_generation_compare (some left) (some right) = compare_records left right

compare_u32-compare : (a b : ℕ) → compare_u32 a b ≡ compare a b
unfolding compare_u32
compare_u32-compare a b = ground arith

compare_u32-IsComparison : IsComparison compare_u32
unfolding compare_u32
compare_u32-IsComparison = record {
  flips = λ a b. ground arith;
  trans = λ a b c h k. ground arith;
  eq_left = λ a b c h. ground arith;
}

compare_u64-IsComparison : IsComparison compare_u64
unfolding compare_u64
compare_u64-IsComparison = record {
  flips = λ a b. ground arith;
  trans = λ a b c h k. ground arith;
  eq_left = λ a b c h. ground arith;
}

memcmp-IsComparison : (size : ℕ) → IsComparison (memcmp size)
unfolding memcmp
memcmp-IsComparison zero = record {
  flips = λ a b. refl;
  trans = λ a b c h k. h;
  eq_left = λ a b c h. refl;
}
memcmp-IsComparison (suc size) =
    lexicographic-IsComparison (preimage head compare-IsComparison)
      (preimage tail (memcmp-IsComparison size))

trait : (f : Normalized → ℕ) → IsComparison (λ a b. compare_u32 (f a) (f b))
trait f = preimage f compare_u32-IsComparison

pub records-IsComparison : IsComparison compare_records
unfolding compare_records
records-IsComparison = lexicographic-IsComparison (trait (λ r. r.part_of_speech)) (
    lexicographic-IsComparison (trait (λ r. r.tense)) (
      lexicographic-IsComparison (trait (λ r. r.voice)) (
        lexicographic-IsComparison (trait (λ r. r.mood)) (
          lexicographic-IsComparison (trait (λ r. r.degree)) (
            lexicographic-IsComparison (trait (λ r. r.number)) (
              lexicographic-IsComparison (trait (λ r. r.person)) (
                lexicographic-IsComparison (trait (λ r. r.grammatical_case)) (
                  lexicographic-IsComparison (trait (λ r. r.gender)) (
                    lexicographic-IsComparison (trait (λ r. r.dialect)) (
                      lexicographic-IsComparison (trait (λ r. r.geographic_region)) (
                        lexicographic-IsComparison
                          (preimage (λ (r : Normalized). r.surface) strcmp-IsComparison)
                          (lexicographic-IsComparison
                            (preimage (λ (r : Normalized). r.lemma) strcmp-IsComparison)
                            (lexicographic-IsComparison
                              (preimage (λ (r : Normalized). r.morph_flags)
                                (memcmp-IsComparison morph_flag_capacity))
                              (preimage (λ (r : Normalized). r.source_order)
                                compare_u64-IsComparison))))))))))))))

order_then-last : (o p : Ordering) → order_then o p ≡ Ordering.eq → p ≡ Ordering.eq
order_then-last Ordering.lt p h = absurd cc
order_then-last Ordering.eq p h = h
order_then-last Ordering.gt p h = absurd cc

-- Forms that compare as equal stand at one place of the source.
pub compare_records-source_order :
    (a b : Normalized) → compare_records a b ≡ Ordering.eq → a.source_order ≡ b.source_order
unfolding compare_records compare_u64
compare_records-source_order a b h = ground arith

-- The order of the forms, null pointers included, is that of a total preorder, and only forms with
-- one `source_order` compare as equal.
pub normalized_generation_compare-IsComparison :
    IsComparison normalized_generation_compare
    × ((a b : Normalized)
        → normalized_generation_compare (some a) (some b) ≡ Ordering.eq
        → a.source_order ≡ b.source_order)
unfolding normalized_generation_compare
normalized_generation_compare-IsComparison =
    (record { flips = flips; trans = trans; eq_left = eq_left }, compare_records-source_order)
  where
    flips :
        (a b : Option Normalized)
        → normalized_generation_compare b a ≡ flip (normalized_generation_compare a b)
    flips none none = refl
    flips none (some b) = refl
    flips (some a) none = refl
    flips (some a) (some b) = records-IsComparison.flips a b

    trans :
        (a b c : Option Normalized)
        → normalized_generation_compare a b ≡ Ordering.lt
        → normalized_generation_compare b c ≡ Ordering.lt
        → normalized_generation_compare a c ≡ Ordering.lt
    trans none none c h k = absurd cc
    trans none (some b) none h k = absurd cc
    trans none (some b) (some c) h k = refl
    trans (some a) none c h k = absurd cc
    trans (some a) (some b) none h k = absurd cc
    trans (some a) (some b) (some c) h k = records-IsComparison.trans a b c h k

    eq_left :
        (a b c : Option Normalized)
        → normalized_generation_compare a b ≡ Ordering.eq
        → normalized_generation_compare a c ≡ normalized_generation_compare b c
    eq_left none none c h = refl
    eq_left none (some b) c h = absurd cc
    eq_left (some a) none c h = absurd cc
    eq_left (some a) (some b) none h = refl
    eq_left (some a) (some b) (some c) h = records-IsComparison.eq_left a b c h
