-- ===== src/Bridge/Numbering.antt =====
-- Records that are numbered in their order are distinct in the order of the normalizer.
use mathlib.Core.Logic.Or
use mathlib.Core.List.{Mem, mem-cons, not-mem-nil}
use native.Mathlib.Bridge.{le_prop}
use libmorpheus.Prelude.{ℕ, suc, ◌≤◌, ◌≡◌, sym, ap, ◌∙◌, List, [], ◌∷◌, arith}
use libmorpheus.Prelude.Ascending.{Distinct}
use libmorpheus.Api.Generation.{Normalized}
use libmorpheus.Bridge.Compare.{compare_records, compare_records-source_order}
use libmorpheus.Bridge.Collected.{Numbered}

Normalized-set : IsSet Normalized
Normalized-set = hlevel

-- A member of a list is its head or a member of the rest, for a conclusion that is a proposition.
mem_split {ℓ} :
    {A : Type ℓ} {P : Type 0} (a x : A) (l : List A)
    → IsProp P
    → Mem a (x ∷ l)
    → (a ≡ x → P)
    → (Mem a l → P)
    → P
mem_split a x l p m here there = Or.elim p (mem-cons.0 m) here there

Numbered-least :
    (n : ℕ) (rs : List Normalized)
    → Numbered n rs
    → (r : Normalized) → Mem r rs
    → n ≤ r.source_order
Numbered-least n [] h r m = absurd (not-mem-nil m)
Numbered-least n (x ∷ rs) h r m =
    mem_split {P = n ≤ r.source_order} r x rs le_prop m
      (λ e. omega (arith, h.0, ap (λ t. t.source_order) e))
      (λ k. omega (arith, Numbered-least (suc n) rs h.1 r k))

Numbered-injective :
    (n : ℕ) (rs : List Normalized)
    → Numbered n rs
    → (a b : Normalized) → Mem a rs
    → Mem b rs
    → a.source_order ≡ b.source_order
    → a ≡ b
Numbered-injective n [] h a b m k e = absurd (not-mem-nil m)
Numbered-injective n (x ∷ rs) h a b m k e =
    mem_split a x rs (Normalized-set a b) m
      (λ p.
        mem_split b x rs (Normalized-set a b) k (λ q. p ∙ sym q)
          (λ l.
            absurd (
              omega
                (arith, h.0, e, ap (λ t. t.source_order) p, Numbered-least (suc n) rs h.1 b l))))
      (λ j.
        mem_split b x rs (Normalized-set a b) k
          (λ q.
            absurd (
              omega (arith, h.0, e, ap (λ t. t.source_order) q, Numbered-least (suc n) rs h.1 a j)))
          (λ l. Numbered-injective (suc n) rs h.1 a b j l e))

pub Numbered-Distinct : (rs : List Normalized) → Numbered 0 rs → Distinct compare_records rs
Numbered-Distinct rs h a b m k e =
    Numbered-injective 0 rs h a b m k (compare_records-source_order a b e)
