-- ===== src/Cstr/Tokens.antt =====
-- `strsep` cuts a string at its first delimiter.
use advanced_os.Base.{
  ℕ, ◌<◌, ◌≡◌, refl, sym, ap, ◌≢◌, ◌⊎◌, inl, inr, true, false, Option, none, some, List, [], ◌∷◌,
  ◌++◌, arith, ℕ_discrete, Bool-cases, All, ==_refl, ==_ne,
}
use mathlib.Core.Logic.Or
use mathlib.Core.List.{Mem, mem-cons}
use advanced_os.Cstr.{strchr, strsep, found}

abbrev pub Delimiter : List ℕ → ℕ → Type 0
Delimiter delims c = Mem c delims ⊎ (c ≡ 0)

abbrev pub Plain : List ℕ → ℕ → Type 0
Plain delims c = All (λ a. a ≢ c) delims × (c ≢ 0)

-- The token of a string, and what is left behind it.
pub data Separated (delims s : List ℕ) : List ℕ → Option (List ℕ) → Type 0 where
  whole : All (Plain delims) s → Separated delims s s none
  cut :
      {token : List ℕ} (d : ℕ) (rest : List ℕ)
      → s ≡ token ++ d ∷ rest
      → Delimiter delims d
      → All (Plain delims) token
      → Separated delims s token (some rest)

strchr-Mem : (delims : List ℕ) (c : ℕ) → found (strchr delims c) ≡ true → Delimiter delims c
unfolding strchr
strchr-Mem [] c e = inr (ground arith)
strchr-Mem (a ∷ delims) c e = elim (ℕ_discrete a c) [
  | yes q ↦ inl (rw q (mem-cons.1 (Or.inl refl)))
  | no n ↦ elim (strchr-Mem delims c (rw (==_ne a c n) at e)) [
    | inl m ↦ inl (mem-cons.1 (Or.inr m))
    | inr z ↦ inr z
  ]
]

strchr-Plain : (delims : List ℕ) (c : ℕ) → found (strchr delims c) ≡ false → Plain delims c
unfolding strchr
strchr-Plain [] c e = (tt, λ z. ground arith)
strchr-Plain (a ∷ delims) c e = elim (ℕ_discrete a c) [
  | yes q ↦ absurd (ground arith)
  | no n ↦ let p = strchr-Plain delims c (rw (==_ne a c n) at e) in ((n, p.0), p.1)
]

cons-Separated :
    (delims : List ℕ) (c : ℕ) (s token : List ℕ) (rest : Option (List ℕ))
    → Plain delims c
    → Separated delims s token rest
    → Separated delims (c ∷ s) (c ∷ token) rest
cons-Separated delims c s token rest p (whole a) = whole (p, a)
cons-Separated delims c s token rest p (cut d r e x a) = cut d r (ap (λ y. c ∷ y) e) x (p, a)

-- `strsep` gives the characters before the first delimiter, which are no members of `delims`, and
-- the string behind it; without a delimiter it gives the whole string and leaves NULL. In a list of
-- characters that holds a NUL, the NUL is a delimiter as well.
pub strsep-Separated :
    (s delims : List ℕ) → Separated delims s (strsep s delims).0 (strsep s delims).1
unfolding strsep
strsep-Separated [] delims = whole tt
strsep-Separated (c ∷ s) delims = elim (Bool-cases (found (strchr delims c))) [
  | inl e ↦ rw e (cut c s refl (strchr-Mem delims c e) tt)
  | inr e ↦
      rw e (cons-Separated delims c s _ _ (strchr-Plain delims c e) (strsep-Separated s delims))
]

-- A text without NUL and `d`, up to a `d`.
pub strsep-at :
    (d : ℕ) (s rest : List ℕ)
    → All (λ c. (0 < c) × (c ≢ d)) s
    → strsep (s ++ d ∷ rest) (d ∷ []) ≡ (s, some rest)
unfolding strsep strchr
strsep-at d [] rest a = rw (==_refl d) refl
strsep-at d (c ∷ s) rest a =
    rw (==_ne d c (λ e. a.0.1 (sym e)), ==_ne 0 c (omega (arith, a.0.0)), strsep-at d s rest a.1)
