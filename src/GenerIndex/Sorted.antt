-- ===== src/GenerIndex/Sorted.antt =====
-- The keys of a lemma table ascend, so that a key occurs once and one comparison excludes all the
-- entries on one side.
use libmorpheus.Prelude.{
  ℕ, zero, suc, ◌+◌, ◌≤◌, ◌<◌, ◌≡◌, ◌≢◌, refl, Option, none, some, List, [], ◌∷◌, get_elem?, arith,
  Ordering, strcmp, strcmp_trans,
}
use mathlib.Core.Path.{subst₂}
use libmorpheus.GenerIndex.Format.{GenerIndex, CString, LemmaEntry}
use libmorpheus.GenerIndex.Tables.{LemmaAt, LemmaTable, find_lemma}

module _ (index : GenerIndex) where
  -- What the table says of its place `k`.
  pub LemmaTable-at :
      (t : List LemmaEntry) (k item place expected total : ℕ) (previous : Option CString)
      (e : LemmaEntry)
      → LemmaTable index item expected previous total t
      → get_elem? t k ≡ some e
      → item + k ≡ place
      → LemmaAt index place e
        × (expected ≤ e.first_block)
        × (0 < e.block_count)
        × (e.first_block + e.block_count ≤ index.block_count)
  LemmaTable-at [] k item place expected total previous e h g p = cc
  LemmaTable-at (x ∷ t) zero item place expected total previous e h g p =
      let same : x ≡ e = cc in
      let here : item ≡ place = omega arith in
      (subst₂ (LemmaAt index) here same h.0, ground arith, ground arith, ground arith)
  LemmaTable-at (x ∷ t) (suc k) item place expected total previous e h g p =
      let (_, _, _, _, _, rest) = h in
      let (at, above, pos, fits) =
        LemmaTable-at t k (item + 1) place (expected + x.block_count) total (some x.key) e rest g
          (omega arith) in
      (at, omega arith, pos, fits)

  LemmaTable-above :
      (t : List LemmaEntry) (k item expected total : ℕ) (p : CString) (e : LemmaEntry)
      → LemmaTable index item expected (some p) total t
      → get_elem? t k ≡ some e
      → strcmp p e.key ≡ Ordering.lt
  LemmaTable-above [] k item expected total p e h g = cc
  LemmaTable-above (x ∷ t) zero item expected total p e h g = ground arith
  LemmaTable-above (x ∷ t) (suc k) item expected total p e h g = ground (
    arith,
    LemmaTable-above t k (item + 1) (expected + x.block_count) total x.key e,
    strcmp_trans p x.key e.key,
  )

  -- Entries further back have larger keys.
  pub LemmaTable-sorted :
      (t : List LemmaEntry) (j k item expected total : ℕ) (previous : Option CString)
      (d e : LemmaEntry)
      → LemmaTable index item expected previous total t
      → j < k
      → get_elem? t j ≡ some d
      → get_elem? t k ≡ some e
      → strcmp d.key e.key ≡ Ordering.lt
  LemmaTable-sorted [] j k item expected total previous d e h lt gj gk = cc
  LemmaTable-sorted (x ∷ t) j zero item expected total previous d e h lt gj gk =
      absurd (omega arith)
  LemmaTable-sorted (x ∷ t) zero (suc k) item expected total previous d e h lt gj gk =
      ground (arith, LemmaTable-above t k (item + 1) (expected + x.block_count) total x.key e)
  LemmaTable-sorted (x ∷ t) (suc j) (suc k) item expected total previous d e h lt gj gk =
      LemmaTable-sorted t j k (item + 1) (expected + x.block_count) total (some x.key) d e
        (ground arith) (omega arith) gj gk

-- Every place holds another key: the lookup finds nothing.
pub find_lemma-none :
    (t : List LemmaEntry) (key : CString)
    → ((k : ℕ) (e : LemmaEntry) → get_elem? t k ≡ some e → strcmp key e.key ≢ Ordering.eq)
    → find_lemma t key ≡ none
find_lemma-none [] key h = refl
find_lemma-none (x ∷ t) key h =
    ground (arith, h 0 x refl, find_lemma-none t key (λ k e g. h (suc k) e g))

-- The first place with the key is the one that is found.
pub find_lemma-some :
    (t : List LemmaEntry) (k : ℕ) (e : LemmaEntry) (key : CString)
    → get_elem? t k ≡ some e
    → strcmp key e.key ≡ Ordering.eq
    → ((j : ℕ) (d : LemmaEntry) → j < k → get_elem? t j ≡ some d → strcmp key d.key ≢ Ordering.eq)
    → find_lemma t key ≡ some e
find_lemma-some [] k e key g q h = cc
find_lemma-some (x ∷ t) zero e key g q h = ground arith
find_lemma-some (x ∷ t) (suc k) e key g q h = ground (
  arith,
  h 0 x (omega arith) refl,
  find_lemma-some t k e key g q (λ j d lt gj. h (suc j) d (omega arith) gj),
)
