-- ===== src/Greeklib/Standard.antt =====
-- What the functions on whole words guarantee of their results.
use libmorpheus.Prelude.{
  ℕ, ◌≤◌, ◌≡◌, refl, ap, Bool, true, false, ◌&&◌, [], ◌∷◌, count, ◌==◌, if◌then◌else◌, Bool-cases,
  inl, inr, arith,
}
use libmorpheus.Greeklib.Letters.{
  CString, is_accent, is_cons, is_alph, is_vowel, is_shvwl, is_lvwl, roughbr,
}
use libmorpheus.Greeklib.Stripped.{without}
use libmorpheus.Greeklib.Words.{
  zap2acc_loop, zap2acc, zap_breath_loop, zap_extra_breath, extra_breath_loop, has_extra_breath,
}

zap2acc_loop-count :
    (haveacc : Bool) (s : CString)
    → count is_accent (zap2acc_loop haveacc s) ≤ (if haveacc then 0 else 1)
unfolding zap2acc_loop is_accent
zap2acc_loop-count haveacc [] = ground arith
zap2acc_loop-count haveacc (c ∷ s) =
    ground (arith, zap2acc_loop-count true s, zap2acc_loop-count haveacc s)

zap2acc_loop-without :
    (haveacc : Bool) (s : CString)
    → without is_accent (zap2acc_loop haveacc s) ≡ without is_accent s
unfolding zap2acc_loop is_accent
zap2acc_loop-without haveacc [] = refl
zap2acc_loop-without haveacc (c ∷ s) =
    ground (arith, zap2acc_loop-without true s, zap2acc_loop-without haveacc s)

zap_breath_loop-clean :
    (extra : Bool) (s : CString) → extra_breath_loop extra (zap_breath_loop extra s) ≡ false
unfolding zap_breath_loop extra_breath_loop
zap_breath_loop-clean extra [] = refl
zap_breath_loop-clean extra (c ∷ s) =
    ground (arith, zap_breath_loop-clean true s, zap_breath_loop-clean extra s)

zap_breath_loop-same :
    (extra : Bool) (s : CString) → extra_breath_loop extra s ≡ false → zap_breath_loop extra s ≡ s
unfolding zap_breath_loop extra_breath_loop
zap_breath_loop-same extra [] h = refl
zap_breath_loop-same extra (c ∷ s) h =
    ground (arith, zap_breath_loop-same true s, zap_breath_loop-same extra s)

-- `zap2acc` leaves one accent at most, and nothing but accents is lost.
pub zap2acc_lem :
    (s : CString)
    → (count is_accent (zap2acc s) ≤ 1) × (without is_accent (zap2acc s) ≡ without is_accent s)
unfolding zap2acc
zap2acc_lem s = (zap2acc_loop-count false s, zap2acc_loop-without false s)

rho_cons : (is_cons b'r' ≡ true) × (is_cons roughbr ≡ false)
unfolding is_cons is_alph is_vowel is_shvwl is_lvwl
rho_cons = (refl, refl)

-- Behind an initial rho the loop itself counts a rough breathing as extra.
rho_extra :
    (c d : ℕ) (s : CString)
    → (c == b'r' && d == roughbr) ≡ true
    → extra_breath_loop false (c ∷ d ∷ s) ≡ true
unfolding extra_breath_loop
rho_extra c d s h = ground (arith, rho_cons)

extra_breath_loop-has :
    (s : CString) → extra_breath_loop false s ≡ false → has_extra_breath s ≡ false
unfolding has_extra_breath
extra_breath_loop-has [] h = refl
extra_breath_loop-has (c ∷ []) h = h
extra_breath_loop-has (c ∷ d ∷ s) h = elim (Bool-cases (c == b'r' && d == roughbr)) [
  | inl rho ↦ cc (rho_extra c d s rho)
  | inr plain ↦ rw plain h
]

-- After `zap_extra_breath` the test `has_extra_breath` fails, and a word for which it fails is not
-- changed.
pub zap_extra_breath_lem :
    (s : CString)
    → (has_extra_breath (zap_extra_breath s) ≡ false)
      × (has_extra_breath s ≡ false → zap_extra_breath s ≡ s)
unfolding has_extra_breath zap_extra_breath
zap_extra_breath_lem [] = (refl, λ h. refl)
zap_extra_breath_lem (c ∷ []) = (
  extra_breath_loop-has _ (zap_breath_loop-clean false (c ∷ [])),
  zap_breath_loop-same false (c ∷ []),
)
zap_extra_breath_lem (c ∷ d ∷ s) = elim (Bool-cases (c == b'r' && d == roughbr)) [
  | inl rho ↦ (
    rw rho (rw rho (zap_breath_loop-clean false s)),
    rw rho (λ h. ap (λ t. c ∷ d ∷ t) (zap_breath_loop-same false s h)),
  )
  | inr plain ↦ (
    rw plain (extra_breath_loop-has _ (zap_breath_loop-clean false (c ∷ d ∷ s))),
    rw plain (zap_breath_loop-same false (c ∷ d ∷ s)),
  )
]
