-- ===== src/Bridge/Form.antt =====
-- The words of the engine, as far as the interface reads them (`gk_word` and `gk_analysis` of
-- src/includes/gkstring.h), and their text and traits in the interface.
use Prim.Native.Nat.{bit_and, bit_or}
use libmorpheus.Prelude.{ℕ, ◌-◌, Bool, List, length, take, leb, ltb, ◌==◌, ◌!=◌, if◌then◌else◌}

-- `word_form`
pub record WordForm : Type 0 where
  pub voice : ℕ
  pub mood : ℕ
  pub tense : ℕ
  pub person : ℕ
  pub number : ℕ
  pub grammatical_case : ℕ
  pub degree : ℕ
  pub gender : ℕ

-- `gk_string`: its dialect, as an unsigned short, and its text.
pub record GkString : Type 0 where
  pub dialect : ℕ
  pub gkstring : List ℕ

-- `dialect` is read as an unsigned short; texts are without their NUL.
pub record GkWord : Type 0 where
  pub forminfo : WordForm
  pub stemtype : ℕ
  pub dialect : ℕ
  pub geogregion : ℕ
  pub morphflags : List ℕ
  pub domains : List ℕ
  pub lemma : List ℕ
  pub dictform : List ℕ
  pub engform : List ℕ
  pub preverb : GkString
  pub aug1 : GkString
  pub stem : GkString
  pub suffix : GkString
  pub endstring : GkString
  pub rawprvb : List ℕ
  pub rawword : List ℕ
  pub workword : List ℕ
  pub crasis : List ℕ

-- The text that `copy_text` leaves, and whether it is cut.
unfoldable pub copy_text : (capacity : ℕ) → List ℕ → List ℕ × Bool
copy_text capacity source =
    let size = length source in
    let copied = if ltb size capacity then size else capacity - 1 in
    (take copied source, leb capacity size)

-- MORPHEUS_TEXT_CAPACITY
abbrev pub text_capacity : ℕ
text_capacity = 64

unfoldable pub effective_dialect : GkWord → ℕ
effective_dialect form =
    let augment = form.aug1.dialect in
    let ending = form.endstring.dialect in
    let stem = form.stem.dialect in
    let shared = bit_and stem ending in
    let union = bit_or (bit_or (bit_or form.preverb.dialect augment) stem) ending in
    let first = if shared == 0 then union else shared in
    let second = if augment != 0 then bit_and first augment else first in
    if form.dialect != 0 then bit_and second form.dialect else second
