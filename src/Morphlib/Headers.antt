-- ===== src/Morphlib/Headers.antt =====
-- A file of endings with its header, src/morphlib/endio.c.
use libmorpheus.Prelude.{
  ℕ, ◌+◌, ◌-◌, ◌*◌, ◌/◌, ◌%◌, ◌≤◌, ◌<◌, ◌≡◌, refl, ap, ◌∙◌, Bool, true, false, some, List, [], ◌∷◌,
  ◌++◌, length, length-append, ◌==◌, ltb, leb, arith, inr,
}
use native.Mathlib.Nat.{mul-div_cancel, mul-mod_left}
use mathlib.Core.List.{append-nil}
use libmorpheus.Greeklib.Vax.{vax_fread, vax_fwrite}
use libmorpheus.Morphlib.Endio.{
  set_endheader, get_endheader, count_endings, morph_version, valid_ending_io, write_values,
  EndHeader,
}
use libmorpheus.Morphlib.Calls.{Movable, move, write_values-step, append_assoc}

pub valid_ending_io-valid : (m : ℕ) → 0 < m → m ≤ 60 → valid_ending_io m ≡ true
unfolding valid_ending_io
valid_ending_io-valid m lo hi =
    let a : (m == 0) ≡ false = ground arith in
    let b : leb m 60 ≡ true = ground arith in rw (a, b) refl

count_endings-whole : (n m : ℕ) → n ≤ 2147483647 → count_endings (8 + n * (51 + m)) m ≡ (some n, m)
count_endings-whole n m h =
    let far : ltb (8 + n * (51 + m)) 8 ≡ false = ground arith in
    let rest : 8 + n * (51 + m) - 8 ≡ n * (51 + m) = omega arith in
    let div : n * (51 + m) / (51 + m) ≡ n = mul-div_cancel n (omega arith) in
    let left : n * (51 + m) % (51 + m) ≡ 0 = mul-mod_left n (51 + m) in
    let small : ltb 2147483647 n ≡ false = ground arith in rw (far, rest, div, left, small) refl

read_header :
    (failed : Bool) (filelen m : ℕ) (f g h : List ℕ)
    → vax_fread 4 (some 1) failed f ≡ ((morph_version ∷ [], some 1), g)
    → vax_fread 4 (some 1) failed g ≡ ((m ∷ [], some 1), h)
    → 0 < m
    → m ≤ 60
    → get_endheader failed filelen f ≡ (count_endings filelen m, h)
unfolding get_endheader
read_header failed filelen m f g h e e' lo hi =
    let a : (m == 0) ≡ false = ground arith in
    let b : ltb 60 m ≡ false = ground arith in rw (e, e', a, b) refl

-- The header that is written takes 8 bytes. Reading a file of at most INT_MAX endings, each as long
-- as its text and 51 bytes, after the header gives the number of endings and the length of their
-- texts, and leaves the stream behind the header.
pub get_endheader-set_endheader :
    (maxend n room : ℕ) (failed : Bool) (endings : List ℕ)
    → 0 < maxend
    → maxend ≤ 60
    → 8 ≤ room
    → n ≤ 2147483647
    → length endings ≡ n * (51 + maxend)
    → ((set_endheader maxend room).1 ≡ true)
      × (length (set_endheader maxend room).0 ≡ 8)
      × (get_endheader failed
            (length ((set_endheader maxend room).0 ++ endings))
            ((set_endheader maxend room).0 ++ endings)
          ≡ ((some n, maxend), endings))
unfolding set_endheader write_values
get_endheader-set_endheader m n room failed f lo hi h small e =
    let w = vax_fwrite 4 (morph_version ∷ []) room in
    let w' = vax_fwrite 4 (m ∷ []) (room - length w.0) in
    let word : Movable 4 (morph_version ∷ []) = inr (inr refl, (omega arith, tt)) in
    let (all, len, _) = move 4 (morph_version ∷ []) room failed f word (omega (arith, h)) in
    let (all', len', back') =
      move 4 (m ∷ []) (room - length w.0) failed f (inr (inr refl, (omega arith, tt)))
        (omega (arith, len)) in
    let (_, _, back) =
      move 4 (morph_version ∷ []) room failed (w'.0 ++ f) word (omega (arith, h)) in
    let inner : write_values ((4, m ∷ []) ∷ []) (room - length w.0) ≡ (w'.0 ++ [], true) =
      write_values-step 4 (m ∷ []) [] (room - length w.0) all' refl in
    let whole : set_endheader m room ≡ (w.0 ++ w'.0, true) =
      rw (set_endheader, valid_ending_io-valid m lo hi)
        (write_values-step 4 (morph_version ∷ []) ((4, m ∷ []) ∷ []) room all
            (ap (λ (r : List ℕ × Bool). r.1) inner)
          ∙ ap (λ (r : List ℕ × Bool). (w.0 ++ r.0, true))
              (inner ∙ ap (λ (t : List ℕ). (t, true)) (append-nil {0} w'.0))) in
    let eight : length (w.0 ++ w'.0) ≡ 8 = length-append {0} w.0 w'.0 ∙ omega (arith, len, len') in
    let long : length ((w.0 ++ w'.0) ++ f) ≡ 8 + n * (51 + m) =
      length-append {0} (w.0 ++ w'.0) f ∙ omega (arith, eight, e) in
    let read : get_endheader failed (8 + n * (51 + m)) (w.0 ++ (w'.0 ++ f)) ≡ ((some n, m), f) =
      read_header failed (8 + n * (51 + m)) m (w.0 ++ (w'.0 ++ f)) (w'.0 ++ f) f back back' lo hi
      ∙ ap (λ (t : EndHeader). (t, f)) (count_endings-whole n m small) in
    rw whole (
      refl,
      eight,
      rw long (
          ap (λ (t : List ℕ). get_endheader failed (8 + n * (51 + m)) t) (append_assoc w.0 w'.0 f)
          ∙ read),
    )
