-- ===== src/Morphlib/Endio.antt =====
-- The endings in a file: src/morphlib/endio.c, over the streams of src/greeklib/vaxwords.c. The
-- ending and the stream are there; what is recorded as an error is left out.
use Prim.Native.Nat.{bit_and, bit_or}
use libmorpheus.Prelude.{
  ℕ, zero, suc, ◌+◌, ◌-◌, ◌/◌, ◌%◌, Bool, true, false, not, ◌&&◌, ◌||◌, Option, none, some, List,
  [], ◌∷◌, ◌++◌, length, take, replicate, get_or, set, leb, ltb, ◌==◌, ◌!=◌, if◌then◌else◌,
}
use libmorpheus.GenerIndex.Bytes.{Run, done, fault}
use libmorpheus.Greeklib.Vax.{Read, vax_fread, vax_fwrite}
use libmorpheus.Bridge.Form.{WordForm}
use libmorpheus.Morphlib.WordForms.{pack_word_form, unpack_word_form}

-- `gk_string`; the three arrays have 60, 14 and 21 bytes.
pub record Ending : Type 0 where
  pub forminfo : WordForm
  pub steminfo : ℕ
  pub derivtype : ℕ
  pub dialect : ℕ
  pub geogregion : ℕ
  pub morphflags : List ℕ
  pub domains : List ℕ
  pub gkstring : List ℕ

-- MAXWORDSIZE, MORPHFLAG_BYTES, MORPHFLAG_STORAGE_BYTES and `sizeof stored_domains`
abbrev pub max_word : ℕ
max_word = 60

abbrev pub stored_flags : ℕ
stored_flags = 12

abbrev pub domain_bytes : ℕ
domain_bytes = 21

-- LEGACY_GROUP_DOMAIN_MASK, for byte LEGACY_GROUP_DOMAIN_INDEX of the domains
abbrev pub group_mask : ℕ
group_mask = 32

unfoldable pub valid_ending_io : ℕ → Bool
valid_ending_io maxend = not (maxend == 0) && leb maxend max_word

-- The loop of `localtrimwhite`, with `n` bytes to go.
unfoldable pub trim_loop : Bool → ℕ → List ℕ → List ℕ
trim_loop sdone zero s = s
trim_loop sdone (suc n) [] = []
trim_loop sdone (suc n) (c ∷ s) =
    let over = sdone || c == 0 in (if over then 0 else c) ∷ trim_loop over n s

unfoldable pub localtrimwhite : List ℕ → ℕ → List ℕ
localtrimwhite s n = trim_loop false n s

-- Flag GROUP_NAME, number 110, is bit 5 of byte 13.
unfoldable pub is_group_name : List ℕ → Bool
is_group_name flags = bit_and (get_or flags 13 0) group_mask != 0

-- The domains with the mark of a group.
unfoldable pub mark_group : List ℕ → List ℕ
mark_group domains = set domains 1 (bit_or (get_or domains 1 0) group_mask)

-- A call of `vax_fwrite` returned the number of values it was given.
abbrev pub all_written : Option ℕ → ℕ → Bool
all_written none count = false
all_written (some n) count = n == count

-- The calls of `vax_fwrite` one after the other, each with the size of its values: the bytes that
-- the stream took, and whether none of the calls failed.
unfoldable pub write_values : List (ℕ × List ℕ) → (room : ℕ) → List ℕ × Bool
write_values [] room = ([], true)
write_values ((size, values) ∷ rest) room =
    let written = vax_fwrite size values room in
    let more = write_values rest (room - length written.0) in
    if all_written written.1 (length values)
    then (written.0 ++ more.0, more.1)
    else (written.0, false)

-- The values of an ending, in the order of the file.
abbrev pub values_of : Ending → (maxend : ℕ) → (domains : List ℕ) → List (ℕ × List ℕ)
values_of g maxend domains =
    (1, take maxend (localtrimwhite g.gkstring maxend))
    ∷ (4, pack_word_form g.forminfo ∷ [])
    ∷ (2, g.dialect ∷ [])
    ∷ (4, g.geogregion ∷ [])
    ∷ (4, g.steminfo ∷ [])
    ∷ (4, g.derivtype ∷ [])
    ∷ (1, take stored_flags g.morphflags)
    ∷ (1, domains)
    ∷ []

-- `true` for the result 1 and `false` for -1. The ending that the caller holds has its text trimmed
-- by `localtrimwhite` afterwards, when the calls are reached.
unfoldable pub write_ending : Ending → (maxend room : ℕ) → List ℕ × Bool
write_ending g maxend room =
    let group = is_group_name g.morphflags in
    if not (valid_ending_io maxend)
    then ([], false)
    else if group && get_or g.domains 0 0 != 0
    then ([], false)
    else write_values (values_of g maxend (if group then mark_group g.domains else g.domains)) room

-- All the values of every call, or what the call that failed returned.
pub data ReadValues : Type 0 where
  read_all : List (List ℕ) → ReadValues
  read_stopped : Option ℕ → ReadValues

abbrev pub after_call : List ℕ → ReadValues → ReadValues
after_call values (read_all rest) = read_all (values ∷ rest)
after_call values (read_stopped nread) = read_stopped nread

-- The calls of `vax_fread` one after the other, each with the size and the number of its values.
unfoldable pub read_values : Bool → List (ℕ × ℕ) → List ℕ → ReadValues × List ℕ
read_values failed [] f = (read_all [], f)
read_values failed ((size, count) ∷ rest) f =
    let got = vax_fread size (some count) failed f in
    let more = read_values failed rest got.1 in
    if all_written got.0.1 count
    then (after_call got.0.0 more.0, more.1)
    else (read_stopped got.0.1, got.1)

-- The fixed part of an ending: its sizes and numbers of values.
abbrev pub layout : List (ℕ × ℕ)
layout = (4, 1) ∷ (2, 1) ∷ (4, 1) ∷ (4, 1) ∷ (4, 1) ∷ (1, 12) ∷ (1, 21) ∷ []

-- The mark of a group becomes the flag GROUP_NAME.
abbrev pub unmark_group : Ending → Ending
unmark_group g =
    if not (get_or g.domains 0 0 == 0 && bit_and (get_or g.domains 1 0) group_mask != 0)
    then g
    else record {
      forminfo = g.forminfo;
      steminfo = g.steminfo;
      derivtype = g.derivtype;
      dialect = g.dialect;
      geogregion = g.geogregion;
      morphflags = set g.morphflags 13 (bit_or (get_or g.morphflags 13 0) group_mask);
      domains = set g.domains 1 (bit_and (get_or g.domains 1 0) (255 - group_mask));
      gkstring = g.gkstring;
    }

-- What is returned, `none` for -1, and `*gstr`, if it is set.
abbrev pub ReadEnding : Type 0
ReadEnding = Option ℕ × Option Ending

-- What follows the calls. Other shapes of the values do not occur.
abbrev pub decoded : List ℕ → ReadValues → Run ReadEnding
decoded text (read_stopped nread) = done (nread, none)
decoded text
      (read_all (
        (form ∷ [])
        ∷ (dialect ∷ [])
        ∷ (region ∷ [])
        ∷ (stem ∷ [])
        ∷ (deriv ∷ [])
        ∷ flags
        ∷ domains
        ∷ [])) =
    done (
      some 1,
      some (
          unmark_group (record {
            forminfo = unpack_word_form form;
            steminfo = stem;
            derivtype = deriv;
            dialect = dialect;
            geogregion = region;
            morphflags = flags ++ 0 ∷ 0 ∷ [];
            domains = domains;
            gkstring = text ++ replicate (max_word - length text) 0;
          })),
    )
decoded text (read_all other) = fault

-- A result of at most 0.
abbrev pub at_most_zero : Option ℕ → Bool
at_most_zero none = true
at_most_zero (some n) = n == 0

-- The result and the rest of the stream.
unfoldable pub read_ending : (failed : Bool) → (maxend : ℕ) → List ℕ → Run ReadEnding × List ℕ
read_ending failed maxend f =
    let text = vax_fread 1 (some maxend) failed f in
    let more = read_values failed layout text.1 in
    if not (valid_ending_io maxend)
    then (done (none, none), f)
    else if at_most_zero text.0.1
    then (done (text.0.1, none), text.1)
    else if not (all_written text.0.1 maxend)
    then (done (none, none), text.1)
    else (decoded text.0.0 more.0, more.1)

-- MORPH_VERSION
abbrev pub morph_version : ℕ
morph_version = 44440001

-- `true` for the result 1 and `false` for -1; a number that is not positive is 0 here.
unfoldable pub set_endheader : (maxstring room : ℕ) → List ℕ × Bool
set_endheader maxstring room =
    if not (valid_ending_io maxstring)
    then ([], false)
    else write_values ((4, morph_version ∷ []) ∷ (4, maxstring ∷ []) ∷ []) room

-- The bytes of an ending without its text.
abbrev pub fixed_size : ℕ
fixed_size = 4 + 4 + 2 + 4 + 4 + stored_flags + domain_bytes

-- What is returned, `none` for -1, and `*maxp`.
abbrev pub EndHeader : Type 0
EndHeader = Option ℕ × ℕ

-- What follows the length, which is in range; `ftell` and `fseek` do not fail.
abbrev pub count_endings : (filelen maxend : ℕ) → EndHeader
count_endings filelen maxend =
    let unitsize = fixed_size + maxend in
    if ltb filelen 8
    then (none, maxend)
    else if ltb 2147483647 ((filelen - 8) / unitsize)
    then (none, maxend)
    else if (filelen - 8) % unitsize != 0
    then (some 0, maxend)
    else (some ((filelen - 8) / unitsize), maxend)

-- The result and the rest of the stream, for a file of `filelen` bytes.
unfoldable pub get_endheader : (failed : Bool) → (filelen : ℕ) → List ℕ → Read EndHeader
get_endheader failed filelen f =
    let version = vax_fread 4 (some 1) failed f in
    let len = vax_fread 4 (some 1) failed version.1 in
    if not (all_written version.0.1 1)
    then ((none, 0), version.1)
    else if get_or version.0.0 0 0 != morph_version
    then ((none, 0), version.1)
    else if not (all_written len.0.1 1)
    then ((none, 0), len.1)
    else if get_or len.0.0 0 0 == 0 || ltb max_word (get_or len.0.0 0 0)
    then ((none, 0), len.1)
    else (count_endings filelen (get_or len.0.0 0 0), len.1)
