-- ===== src/Cstr/Compare.antt =====
-- `strcmp` tells equal strings from different ones, and copies are equal to their sources.
use advanced_os.Base.{
  ℕ, ◌+◌, ◌<◌, ◌≡◌, ◌↔◌, refl, arith, ap, inl, inr, ◌==◌, Bool-cases, List, [], ◌∷◌, ◌++◌, All,
}
use advanced_os.Cstr.{strlen, strcmp, strcpy, strcat}

-- A character of a string: a byte that is not the NUL.
abbrev pub IsChar : ℕ → Type 0
IsChar c = (0 < c) × (c < 256)

-- On strings of bytes that are not NUL, `strcmp` gives 0 exactly for equal strings.
pub strcmp-eq_iff : (s t : List ℕ) → All IsChar s → All IsChar t → (strcmp s t ≡ 0) ↔ (s ≡ t)
unfolding strcmp
strcmp-eq_iff [] [] p q = (λ _. refl, λ _. refl)
strcmp-eq_iff [] (b ∷ t) p q = (λ e. absurd (omega arith), λ e. absurd (cc))
strcmp-eq_iff (a ∷ s) [] p q = (λ e. absurd (omega arith), λ e. absurd (cc))
strcmp-eq_iff (a ∷ s) (b ∷ t) p q =
    let ih = strcmp-eq_iff s t p.1 q.1 in
    elim (Bool-cases (a == b)) [
      | inl e ↦
          let same : a ≡ b = ground arith in rw e (λ h. ground (arith, ih.0 h), λ h. ih.1 (cc))
      | inr e ↦ rw e (λ h. absurd (ground arith), λ h. absurd (ground arith))
    ]

-- `strcpy` copies the string, `strcat` joins the two, and their lengths add up.
pub strcat-append :
    (d s : List ℕ) → (strcat d s ≡ d ++ s) × (strlen (strcat d s) ≡ strlen d + strlen s)
unfolding strcat strcpy strlen
strcat-append [] [] = (refl, omega arith)
strcat-append [] (c ∷ s) = let (a, b) = strcat-append [] s in (ap (λ x. c ∷ x) a, omega arith)
strcat-append (c ∷ d) s = let (a, b) = strcat-append d s in (ap (λ x. c ∷ x) a, omega arith)
