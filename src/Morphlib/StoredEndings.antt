-- ===== src/Morphlib/StoredEndings.antt =====
-- An ending that is written is read back: src/morphlib/endio.c.
use Prim.Native.Nat.{bit_and}
use libmorpheus.Prelude.{
  ℕ, ◌-◌, ◌^◌, ◌<◌, ◌≡◌, true, List, [], ◌∷◌, ◌++◌, length, take, get_or, replicate, if◌then◌else◌,
}
use libmorpheus.Morphlib.WordForms.{pack_word_form}
use libmorpheus.Morphlib.PackedForms.{FitsFields}
use libmorpheus.Morphlib.Endio.{Ending, localtrimwhite, is_group_name, mark_group, stored_flags}

-- An ending as the engine keeps them: the arrays have their sizes, the numbers are in range, a group
-- has no domains, and the bit of the mark is not set in domains that are empty.
pub record Storable (g : Ending) : Type 0 where
  pub forminfo : FitsFields g.forminfo
  pub steminfo : g.steminfo < 2 ^ 32
  pub derivtype : g.derivtype < 2 ^ 32
  pub dialect : g.dialect < 2 ^ 16
  pub geogregion : g.geogregion < 2 ^ 32
  pub morphflags : length g.morphflags ≡ 14
  pub domains : length g.domains ≡ 21
  pub gkstring : length g.gkstring ≡ 60
  pub domain : get_or g.domains 1 0 < 256
  pub group : is_group_name g.morphflags ≡ true → get_or g.domains 0 0 ≡ 0
  pub unmarked : get_or g.domains 0 0 ≡ 0 → bit_and (get_or g.domains 1 0) 32 ≡ 0

-- What a file keeps of an ending: the text up to its NUL and the limit, the first 12 bytes of the
-- flags, and whether it is a group.
abbrev pub as_stored : Ending → (maxend : ℕ) → Ending
as_stored g maxend = record {
  forminfo = g.forminfo;
  steminfo = g.steminfo;
  derivtype = g.derivtype;
  dialect = g.dialect;
  geogregion = g.geogregion;
  morphflags = take 12 g.morphflags ++ 0 ∷ (if is_group_name g.morphflags then 32 else 0) ∷ [];
  domains = g.domains;
  gkstring = take maxend (localtrimwhite g.gkstring maxend) ++ replicate (60 - maxend) 0;
}

-- The domains that are written.
abbrev marked : Ending → List ℕ
marked g = if is_group_name g.morphflags then mark_group g.domains else g.domains

-- The text as it is written.
abbrev kept : Ending → ℕ → List ℕ
kept g m = take m (localtrimwhite g.gkstring m)

-- The calls after the text.
abbrev fixed_values : Ending → List (ℕ × List ℕ)
fixed_values g =
    (4, pack_word_form g.forminfo ∷ [])
    ∷ (2, g.dialect ∷ [])
    ∷ (4, g.geogregion ∷ [])
    ∷ (4, g.steminfo ∷ [])
    ∷ (4, g.derivtype ∷ [])
    ∷ (1, take stored_flags g.morphflags)
    ∷ (1, marked g)
    ∷ []
