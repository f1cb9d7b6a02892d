-- ===== src/Format/Lines.antt =====
-- `getline` and `rub_out` of include/stdio.h.
use advanced_os.Base.{
  ℕ, ◌≡◌, refl, ◌≢◌, ◌⊎◌, inl, inr, true, ◌||◌, some, List, [], ◌∷◌, ◌++◌, reverse, ◌==◌,
  if◌then◌else◌, Bool-cases, drop, All, ==_ne,
}
use advanced_os.Console.{Console, print_char}
use advanced_os.Format.{getline, getline_from, rub_out}

-- What is left of typed characters and backspaces, in reverse.
abbrev pub edit : (res keys : List ℕ) → List ℕ
edit res [] = res
edit res (k ∷ keys) = if k == 8 then edit (drop 1 res) keys else edit (k ∷ res) keys

-- A key that does not end the line.
abbrev pub IsKey : ℕ → Type 0
IsKey k = (k ≢ 10) × (k ≢ 13)

-- `\n`, which the Enter key gives, or `\r`.
abbrev pub EndsLine : ℕ → Type 0
EndsLine k = (k ≡ 10) ⊎ (k ≡ 13)

ends_test : (k : ℕ) → EndsLine k → ((k == 13) || (k == 10)) ≡ true
ends_test k (inl e) = rw e refl
ends_test k (inr e) = rw e refl

getline_from-edit :
    (keys rest res : List ℕ) (enter : ℕ) (c : Console)
    → EndsLine enter
    → All IsKey keys
    → (w : Console) × (getline_from (keys ++ enter ∷ rest) res c
        ≡ some (record { line = reverse (edit res keys); left = rest; screen = w }))
unfolding getline_from
getline_from-edit [] rest [] enter c h a = (print_char enter c, rw (ends_test enter h) refl)
getline_from-edit [] rest (x ∷ res) enter c h a = (print_char enter c, rw (ends_test enter h) refl)
getline_from-edit (k ∷ keys) rest [] enter c h a = elim (Bool-cases (k == 8)) [
  | inl e ↦
      rw (==_ne k 13 a.0.1, ==_ne k 10 a.0.0, e) (getline_from-edit keys rest [] enter c h a.1)
  | inr e ↦
      rw (==_ne k 13 a.0.1, ==_ne k 10 a.0.0, e)
        (getline_from-edit keys rest (k ∷ []) enter (print_char k c) h a.1)
]
getline_from-edit (k ∷ keys) rest (x ∷ res) enter c h a = elim (Bool-cases (k == 8)) [
  | inl e ↦
      rw (==_ne k 13 a.0.1, ==_ne k 10 a.0.0, e)
        (getline_from-edit keys rest res enter (rub_out c) h a.1)
  | inr e ↦
      rw (==_ne k 13 a.0.1, ==_ne k 10 a.0.0, e)
        (getline_from-edit keys rest (k ∷ x ∷ res) enter (print_char k c) h a.1)
]

-- `getline` returns at the first `\n`, which is what the Enter key gives, or `\r`: with the text of
-- the keys before it that is left when each backspace takes away the character before, if there is
-- one, and with the keys behind it left over.
pub getline-edit :
    (keys rest : List ℕ) (enter : ℕ) (c : Console)
    → EndsLine enter
    → All IsKey keys
    → (w : Console) × (getline (keys ++ enter ∷ rest) c
        ≡ some (record { line = reverse (edit [] keys); left = rest; screen = w }))
unfolding getline
getline-edit keys rest enter c h a = getline_from-edit keys rest [] enter c h a
