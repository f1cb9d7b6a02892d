-- ===== src/User/Letters.antt =====
-- usr/fork.c: the child counts the letters of a string, and the parent prints their number when its
-- `wait` is over. A fork copies the stack alone, so that `LetterNr` is shared.
use advanced_os.Base.{
  ℕ, zero, suc, ◌+◌, ◌-◌, ◌^◌, ◌<◌, ◌≡◌, ap, ◌∙◌, inl, inr, Option, some, List, [], ◌∷◌, arith,
  ◌==◌, if◌then◌else◌, Bool-cases, length, get_or, codes,
}
use advanced_os.Memory.{u32}
use advanced_os.Cstr.{strlen, isalpha}
use advanced_os.Fat.Cells.{strlen-length}
use advanced_os.Base.Options.{◌>>=◌}
use advanced_os.Console.{Console}
use advanced_os.Format.{printf, int}

abbrev pub str : List ℕ
str = codes "129djwqhdsajd128dw9i39ie93i8494urjoiew98kdkd"

-- `n` rounds of the loop of `CountLetter`, from `i` on.
unfoldable pub count_from : (s : List ℕ) (n i letter_nr : ℕ) → ℕ
count_from s zero i letter_nr = letter_nr
count_from s (suc n) i letter_nr =
    count_from s n (i + 1) (if isalpha (get_or s i 0) then u32 (letter_nr + 1) else letter_nr)

-- `CountLetter`, which leaves `LetterNr`.
unfoldable pub count_letter : (s : List ℕ) (letter_nr : ℕ) → ℕ
count_letter s letter_nr = count_from s (strlen s) 0 letter_nr

-- What `main` does behind the `fork`, for its result: the parent, with the `LetterNr` that its
-- `wait` leaves, and the child, with the one that it has at the `fork`.
unfoldable pub main : (pid letter_nr : ℕ) → Console → Option (ℕ × Console)
main pid letter_nr c =
    if pid == 2 ^ 32 - 1
    then (do c' ← printf (codes "Error in fork!\n") [] c; some (letter_nr, c'))
    else if pid == 0
    then (do c' ← printf (codes "I'm child!\n") [] c; some (count_letter str letter_nr, c'))
    else (do
      c' ← printf (codes "LetterNr = %d, I'm parent!\n") (int letter_nr ∷ []) c
      some (letter_nr, c'))

-- The letters of a string.
abbrev pub letters : List ℕ → ℕ
letters [] = 0
letters (c ∷ s) = if isalpha c then letters s + 1 else letters s

count_from-letters :
    (s t : List ℕ) (i nr : ℕ)
    → ((j : ℕ) → get_or s (i + j) 0 ≡ get_or t j 0)
    → nr + length t < 2 ^ 32
    → count_from s (length t) i nr ≡ nr + letters t
unfolding count_from
count_from-letters s [] i nr h b = omega arith
count_from-letters s (c ∷ t) i nr h b =
    let e : get_or s i 0 ≡ c = ap (λ (n : ℕ). get_or s n 0) (omega arith) ∙ h 0 in
    let ih = λ (m : ℕ).
      count_from-letters s t (i + 1) m
        (λ j. ap (λ (n : ℕ). get_or s n 0) (omega arith) ∙ h (suc j)) in
    ap (λ (x : ℕ). count_from s (length t) (i + 1) (if isalpha x then u32 (nr + 1) else nr)) e
    ∙ elim (Bool-cases (isalpha c)) [
      | inl l ↦ rw l (ih (u32 (nr + 1)) (omega arith) ∙ omega arith)
      | inr o ↦ rw o (ih nr (omega arith))
    ]

-- `CountLetter` adds to `LetterNr` the number of the string's letters, for a string that leaves no
-- room for an overflow.
pub count_letter-letters :
    (s : List ℕ) (nr : ℕ) → nr + length s < 2 ^ 32 → count_letter s nr ≡ nr + letters s
unfolding count_letter
count_letter-letters s nr b =
    rw (strlen-length s)
      (count_from-letters s s 0 nr (λ j. ap (λ (n : ℕ). get_or s n 0) (omega arith)) b)
