-- ===== src/Morphlib/Morphstrcmp.antt =====
-- The comparisons of words: src/morphlib/morphstrcmp.c. A result is the sign of the source's int, a
-- string the list of its bytes before the NUL, and `none` is a null pointer. A table is a function
-- on bytes.
use Prim.Native.Nat.{compare, Ordering}
use libmorpheus.Prelude.{
  ℕ, zero, suc, Bool, true, not, Option, none, some, List, [], ◌∷◌, get_or, ◌==◌, if◌then◌else◌,
}
use libmorpheus.GenerIndex.Bytes.{Run, done, fault}
use libmorpheus.Greeklib.Letters.{is_alpha}

-- The table of a runtime context.
pub record Comptab : Type 0 where
  pub comparison_table : ℕ → ℕ
  pub comparison_table_initialized : Bool

-- The iota subscript, 124, matches as an i, 105.
unfoldable pub init_comptab : Comptab → Comptab
init_comptab context = record {
  comparison_table = λ i. if i == 124 then 105 else i;
  comparison_table_initialized = true;
}

abbrev pub with_table : Comptab → Comptab
with_table context =
    if not context.comparison_table_initialized then init_comptab context else context

-- `none` is the result 0.
unfoldable pub compare_nulls : Option (List ℕ) → Option (List ℕ) → Option Ordering
compare_nulls (some s1) (some s2) = none
compare_nulls none none = some Ordering.eq
compare_nulls (some s1) none = some Ordering.gt
compare_nulls none (some s2) = some Ordering.lt

-- The byte that a pointer into a string points to.
abbrev pub byte_at : List ℕ → ℕ
byte_at s = get_or s 0 0

abbrev pub nulls : Option Ordering → Run Ordering
nulls none = fault
nulls (some result) = done result

-- What is returned if two bytes differ, and what is done if not.
abbrev pub settle : Ordering → Run Ordering → Run Ordering
settle Ordering.lt next = done Ordering.lt
settle Ordering.eq next = next
settle Ordering.gt next = done Ordering.gt

-- The loop of `morphstrcmp`. It reads behind the NUL of `s2` if the table takes a byte of `s1` for it.
unfoldable pub morphstrcmp_loop : (comptab : ℕ → ℕ) → List ℕ → List ℕ → Run Ordering
morphstrcmp_loop comptab [] s2 = done (compare (comptab 0) (comptab (byte_at s2)))
morphstrcmp_loop comptab (c ∷ s1) [] = settle (compare (comptab c) (comptab 0)) fault
morphstrcmp_loop comptab (c ∷ s1) (d ∷ s2) =
    settle (compare (comptab c) (comptab d)) (morphstrcmp_loop comptab s1 s2)

-- The loop of `morphstrncmp` with `n` the counter after `--n`.
unfoldable pub morphstrncmp_loop : (comptab : ℕ → ℕ) → (n : ℕ) → List ℕ → List ℕ → Run Ordering
morphstrncmp_loop comptab zero s1 s2 = done (compare (comptab (byte_at s1)) (comptab (byte_at s2)))
morphstrncmp_loop comptab (suc n) [] s2 = done (compare (comptab 0) (comptab (byte_at s2)))
morphstrncmp_loop comptab (suc n) (c ∷ s1) [] = settle (compare (comptab c) (comptab 0)) fault
morphstrncmp_loop comptab (suc n) (c ∷ s1) (d ∷ s2) =
    settle (compare (comptab c) (comptab d)) (morphstrncmp_loop comptab n s1 s2)

-- `while (*s && !isalpha((unsigned char)*s)) s++;`
unfoldable pub skip_others : List ℕ → List ℕ
skip_others [] = []
skip_others (c ∷ s) = if is_alpha c then c ∷ s else skip_others s

-- A round of the loop of `dictstrncmp` behind the bytes that are skipped, and the rounds after it.
abbrev pub dict_bytes :
    (comptab : ℕ → ℕ) → (List ℕ → List ℕ → Run Ordering) → List ℕ → List ℕ → Run Ordering
dict_bytes comptab more [] t = done (compare (comptab 0) (comptab (byte_at t)))
dict_bytes comptab more (c ∷ s) [] = settle (compare (comptab c) (comptab 0)) fault
dict_bytes comptab more (c ∷ s) (d ∷ t) = settle (compare (comptab c) (comptab d)) (more s t)

-- The loop of `dictstrncmp` with `n` rounds to go.
unfoldable pub dict_loop : (comptab : ℕ → ℕ) → (n : ℕ) → List ℕ → List ℕ → Run Ordering
dict_loop comptab zero s1 s2 = done Ordering.eq
dict_loop comptab (suc n) s1 s2 =
    dict_bytes comptab (λ s t. dict_loop comptab n s t) (skip_others s1) (skip_others s2)

-- The strings behind the tests for null pointers, the table made at the first use.
abbrev pub with_strings :
    (Comptab → List ℕ → List ℕ → Run Ordering)
    → Comptab
    → Option (List ℕ)
    → Option (List ℕ)
    → Run Ordering × Comptab
with_strings cmp context (some s1) (some s2) = (cmp (with_table context) s1 s2, with_table context)
with_strings cmp context none s2 = (nulls (compare_nulls none s2), context)
with_strings cmp context (some s1) none = (nulls (compare_nulls (some s1) none), context)

unfoldable pub morphstrcmp : Comptab → Option (List ℕ) → Option (List ℕ) → Run Ordering × Comptab
morphstrcmp context s1 s2 =
    with_strings (λ t a b. morphstrcmp_loop t.comparison_table a b) context s1 s2

unfoldable pub morphstrncmp :
    Comptab → Option (List ℕ) → Option (List ℕ) → (n : ℕ) → Run Ordering × Comptab
morphstrncmp context s1 s2 zero = (done Ordering.eq, context)
morphstrncmp context s1 s2 (suc n) =
    with_strings (λ t a b. morphstrncmp_loop t.comparison_table n a b) context s1 s2

unfoldable pub dictstrncmp :
    Comptab → Option (List ℕ) → Option (List ℕ) → (n : ℕ) → Run Ordering × Comptab
dictstrncmp context s1 s2 zero = (done Ordering.eq, context)
dictstrncmp context s1 s2 (suc n) =
    with_strings (λ t a b. dict_loop t.comparison_table (suc n) a b) context s1 s2
