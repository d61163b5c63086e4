-- ===== src/Morphlib/Calls.antt =====
-- Values of several sizes that are written one after the other are read back.
use libmorpheus.Prelude.{
  ℕ, suc, ◌+◌, ◌-◌, ◌*◌, ◌^◌, ◌≤◌, ◌≡◌, refl, ap, ◌∙◌, Bool, true, false, Option, some, List, [],
  ◌∷◌, ◌++◌, length, length-append, take, drop, ◌==◌, ltb, arith, inl, inr, ◌⊎◌, zero,
}
use libmorpheus.Greeklib.Vax.{vax_fread, vax_fwrite, read_chars, write_chars}
use libmorpheus.Greeklib.VaxWords.{AllBelow, vax_fread-vax_fwrite}
use libmorpheus.Morphlib.Endio.{write_values, read_values, ReadValues, read_all, after_call}

-- Values that a call moves without a loss: bytes, or words in their range.
abbrev pub Movable : ℕ → List ℕ → Type 0
Movable size values = (size ≡ 1) ⊎ (((size ≡ 2) ⊎ (size ≡ 4)) × AllBelow (2 ^ (8 * size)) values)

-- A call writes all its values, which take their sizes, and reading gives them back.
abbrev pub Moves : (size : ℕ) (values : List ℕ) (room : ℕ) (failed : Bool) → List ℕ → Type 0
Moves size values room failed f =
    ((vax_fwrite size values room).1 ≡ some (length values))
    × (length (vax_fwrite size values room).0 ≡ length values * size)
    × (vax_fread size (some (length values)) failed ((vax_fwrite size values room).0 ++ f)
        ≡ ((values, some (length values)), f))

take-all : (values : List ℕ) (n : ℕ) → length values ≤ n → take n values ≡ values
take-all [] zero h = refl
take-all [] (suc n) h = refl
take-all (x ∷ values) zero h = ground arith
take-all (x ∷ values) (suc n) h = ap (λ t. x ∷ t) (take-all values n (omega arith))

take-append : (xs ys : List ℕ) → take (length xs) (xs ++ ys) ≡ xs
take-append [] ys = refl
take-append (x ∷ xs) ys = ap (λ t. x ∷ t) (take-append xs ys)

drop-append : (xs ys : List ℕ) → drop (length xs) (xs ++ ys) ≡ ys
drop-append [] ys = refl
drop-append (x ∷ xs) ys = drop-append xs ys

read_chars-append :
    (xs : List ℕ) (failed : Bool) (f : List ℕ)
    → read_chars failed (length xs) (xs ++ f) ≡ ((xs, some (length xs)), f)
read_chars-append xs failed f =
    let whole : ltb (length xs) (length xs) ≡ false = ground arith in
    rw (take-append xs f, drop-append xs f, whole) refl

write_chars-all :
    (xs : List ℕ) (room : ℕ) → length xs ≤ room → write_chars xs room ≡ (xs, some (length xs))
write_chars-all xs room h =
    let fits : ltb room (length xs) ≡ false = ground arith in rw (take-all xs room h, fits) refl

chars :
    (values : List ℕ) (room : ℕ) (failed : Bool) (f : List ℕ)
    → length values ≤ room
    → Moves 1 values room failed f
unfolding vax_fread vax_fwrite
chars [] room failed f h = (refl, refl, refl)
chars (value ∷ values) room failed f h =
    let some_left : (suc (length values) == 0) ≡ false = ground arith in
    let w = write_chars-all (value ∷ values) room h in
    (
      ap (λ (r : List ℕ × Option ℕ). r.1) w,
      ap (λ (r : List ℕ × Option ℕ). length r.0) w ∙ omega arith,
      rw some_left (
          ap (λ (r : List ℕ × Option ℕ). read_chars failed (suc (length values)) (r.0 ++ f)) w
          ∙ read_chars-append (value ∷ values) failed f),
    )

pub move :
    (size : ℕ) (values : List ℕ) (room : ℕ) (failed : Bool) (f : List ℕ)
    → Movable size values
    → length values * size ≤ room
    → Moves size values room failed f
move size values room failed f (inl one) h =
    rw one (chars values room failed f (omega (arith, rw one at h)))
move size values room failed f (inr (inl two, v)) h =
    rw two (vax_fread-vax_fwrite 2 2 values room failed f refl (rw two at h) (rw two at v))
move size values room failed f (inr (inr four, v)) h =
    rw four (vax_fread-vax_fwrite 4 4 values room failed f refl (rw four at h) (rw four at v))

-- The calls with the number of their values, and the bytes they take.
abbrev pub counted : List (ℕ × List ℕ) → List (ℕ × ℕ)
counted [] = []
counted ((size, values) ∷ calls) = (size, length values) ∷ counted calls

abbrev pub contents : List (ℕ × List ℕ) → List (List ℕ)
contents [] = []
contents ((size, values) ∷ calls) = values ∷ contents calls

abbrev pub total : List (ℕ × List ℕ) → ℕ
total [] = 0
total ((size, values) ∷ calls) = length values * size + total calls

abbrev pub AllMovable : List (ℕ × List ℕ) → Type 0
AllMovable [] = Unit
AllMovable ((size, values) ∷ calls) = Movable size values × AllMovable calls

pub append_assoc : (xs ys zs : List ℕ) → (xs ++ ys) ++ zs ≡ xs ++ (ys ++ zs)
append_assoc [] ys zs = refl
append_assoc (x ∷ xs) ys zs = ap (λ t. x ∷ t) (append_assoc xs ys zs)

pub write_values-step :
    (size : ℕ) (values : List ℕ) (calls : List (ℕ × List ℕ)) (room : ℕ)
    → (vax_fwrite size values room).1 ≡ some (length values)
    → (write_values calls (room - length (vax_fwrite size values room).0)).1 ≡ true
    → write_values ((size, values) ∷ calls) room ≡ (
      (vax_fwrite size values room).0
          ++ (write_values calls (room - length (vax_fwrite size values room).0)).0,
      true,
    )
unfolding write_values
write_values-step size values calls room all ok =
    let w = vax_fwrite size values room in
    let more = (write_values calls (room - length w.0)).0 in
    let same : (length values == length values) ≡ true = ground arith in
    rw (write_values, all, same) (ap (λ (t : Bool). (w.0 ++ more, t)) ok)

-- What a sequence of calls writes with room for it is read back, whatever follows it.
pub read_values-write_values :
    (calls : List (ℕ × List ℕ)) (room : ℕ) (failed : Bool) (f : List ℕ)
    → AllMovable calls
    → total calls ≤ room
    → ((write_values calls room).1 ≡ true)
      × (length (write_values calls room).0 ≡ total calls)
      × (read_values failed (counted calls) ((write_values calls room).0 ++ f)
          ≡ (read_all (contents calls), f))
unfolding write_values read_values
read_values-write_values [] room failed f m h = (refl, refl, refl)
read_values-write_values ((size, values) ∷ calls) room failed f (m, ms) h =
    let w = vax_fwrite size values room in
    let more = (write_values calls (room - length w.0)).0 in
    let (all, len, back) = move size values room failed (more ++ f) m (omega (arith, h)) in
    let (ok, size_of_rest, again) =
      read_values-write_values calls (room - length w.0) failed f ms (omega (arith, h, len)) in
    let same : (length values == length values) ≡ true = ground arith in
    let whole = write_values-step size values calls room all ok in
    let read : read_values failed ((size, length values) ∷ counted calls) (w.0 ++ (more ++ f))
        ≡ (read_all (values ∷ contents calls), f) =
      rw (read_values, back, same)
        (ap (λ (r : ReadValues × List ℕ). (after_call values r.0, r.1)) again) in
    rw whole (
      refl,
      length-append {0} w.0 more ∙ omega (arith, len, size_of_rest),
      ap (λ (t : List ℕ). read_values failed ((size, length values) ∷ counted calls) t)
            (append_assoc w.0 more f)
          ∙ read,
    )
