-- ===== src/Format/Print.antt =====
-- `printf` and `sprintf` of include/stdio.h agree.
use advanced_os.Base.{
  ℕ, zero, suc, ◌≡◌, refl, sym, ◌≢◌, ◌⊎◌, inl, inr, Option, some, List, [], ◌∷◌, subst, arith, ◌==◌,
  if◌then◌else◌, Bool-cases, Option-cases, length, get_or, All, eq_of_some,
}
use advanced_os.Base.Options.{◌>>=◌}
use advanced_os.Format.{
  Arg, int, text, convert, print_conversion, behind, take_int, take_text, printf_from, sprintf_from,
  printf, sprintf, digit_length,
}
use advanced_os.Cstr.{strcat}
use advanced_os.Console.{Console, print, print_at, put_string}
use advanced_os.Format.Conversion.{IsCharacter, conversion_lem, is_c, print-char, print-strcat}

-- The arguments that a conversion leaves are the last ones.
convert-All :
    (P : Arg → Type 0) (spec : ℕ) (args : List Arg) {s : List ℕ} {left : List Arg}
    → convert spec args ≡ some (s, left)
    → All P args
    → All P left
unfolding convert take_int take_text
convert-All P spec [] {s} {left} e a = let n : left ≡ [] = ground arith in rw n tt
convert-All P spec (text u ∷ rest) {s} {left} e a =
    let n : (left ≡ rest) ⊎ (left ≡ text u ∷ rest) = ground arith in
    elim n [ inl q ↦ rw q a.1 | inr q ↦ rw q a ]
convert-All P spec (int v ∷ rest) {s} {left} e a =
    let n : (left ≡ rest) ⊎ (left ≡ int v ∷ rest) = ground arith in
    elim n [ inl q ↦ rw q a.1 | inr q ↦ rw q a ]

behind-All :
    (P : ℕ → Type 0) (n : ℕ) (s : List ℕ) {rest : List ℕ}
    → behind n s ≡ some rest
    → All P s
    → All P rest
unfolding behind
behind-All P zero [] e a = absurd (cc)
behind-All P zero (x ∷ s) e a = subst (All P) (eq_of_some e) a.1
behind-All P (suc n) [] e a = absurd (cc)
behind-All P (suc n) (x ∷ s) e a = behind-All P n s e a.1

-- A format without the character `c`, or arguments that are no NUL as characters.
abbrev pub HasNoNul : (format : List ℕ) → List Arg → Type 0
HasNoNul format args = All (λ ch. ch ≢ is_c) format ⊎ All IsCharacter args

get_or-All : (P : ℕ → Type 0) (n d : ℕ) (s : List ℕ) → P d → All P s → P (get_or s n d)
get_or-All P n d [] z a = z
get_or-All P zero d (x ∷ s) z a = a.0
get_or-All P (suc n) d (x ∷ s) z a = get_or-All P n d s z a.1

spec-HasNoNul :
    (n : ℕ) (format : List ℕ) (args : List Arg)
    → HasNoNul format args
    → (get_or format n 0 ≢ is_c) ⊎ All IsCharacter args
spec-HasNoNul n format args (inl f) = inl (get_or-All (λ ch. ch ≢ is_c) n 0 format (omega arith) f)
spec-HasNoNul n format args (inr a) = inr a

left-HasNoNul :
    (n spec : ℕ) (format : List ℕ) (args : List Arg) {rest s : List ℕ} {left : List Arg}
    → HasNoNul format args
    → behind n format ≡ some rest
    → convert spec args ≡ some (s, left)
    → HasNoNul rest left
left-HasNoNul n spec format args (inl f) b e = inl (behind-All (λ ch. ch ≢ is_c) n format b f)
left-HasNoNul n spec format args (inr a) b e = inr (convert-All IsCharacter spec args e a)

later-HasNoNul :
    (ch : ℕ) (format : List ℕ) (args : List Arg)
    → HasNoNul (ch ∷ format) args
    → HasNoNul format args
later-HasNoNul ch format args (inl f) = inl f.1
later-HasNoNul ch format args (inr a) = inr a

-- A screen on which a loop has printed what the other has appended.
abbrev on_screen : Option (List ℕ) → Console → Option Console
on_screen t c = t >>= λ s. some (print s c)

-- The two loops agree on `fuel`.
abbrev AgreeOn : ℕ → Type 0
AgreeOn fuel =
    (format : List ℕ) (args : List Arg) (buf : List ℕ) (c : Console)
    → HasNoNul format args
    → printf_from fuel format args (print buf c) ≡ on_screen (sprintf_from fuel format args buf) c

rest-agree :
    (fuel n : ℕ) (format str buf : List ℕ) (left : List Arg) (c : Console)
    → AgreeOn fuel
    → ((rest : List ℕ) → behind n format ≡ some rest → HasNoNul rest left)
    → (behind n format >>= λ rest. printf_from fuel rest left (print str (print buf c)))
      ≡ on_screen (behind n format >>= λ rest. sprintf_from fuel rest left (strcat buf str)) c
rest-agree fuel n format str buf left c agree h = elim (Option-cases (behind n format)) [
  | inl e ↦ rw e refl
  | inr (rest, e) ↦
      rw (e, sym (print-strcat buf str c)) (agree rest left (strcat buf str) c (h rest e))
]

conversion-agree :
    (fuel n : ℕ) (format : List ℕ) (args : List Arg) (buf : List ℕ) (c : Console)
    → AgreeOn fuel
    → HasNoNul format args
    → (do
      (c', left) ← print_conversion (get_or format n 0) args (print buf c)
      rest ← behind n format
      printf_from fuel rest left c')
      ≡ on_screen
          (do
            (str, left) ← convert (get_or format n 0) args
            rest ← behind n format
            sprintf_from fuel rest left (strcat buf str))
          c
conversion-agree fuel n format args buf c agree h =
    let spec = get_or format n 0 in
    rw (conversion_lem spec args (print buf c) (spec-HasNoNul n format args h))
      (elim (Option-cases (convert spec args)) [
        | inl e ↦ rw e refl
        | inr ((str, left), e) ↦ rw e (
            rest-agree fuel n format str buf left c agree
              (λ rest b. left-HasNoNul n spec format args h b e))
      ])

-- The two loops in step: what one has appended, the other has printed.
printf_from-sprintf_from : (fuel : ℕ) → AgreeOn fuel
unfolding printf_from sprintf_from
printf_from-sprintf_from zero [] args buf c h = refl
printf_from-sprintf_from (suc fuel) [] args buf c h = refl
printf_from-sprintf_from zero (ch ∷ format) args buf c h = refl
printf_from-sprintf_from (suc fuel) (ch ∷ format) args buf c h =
    let n = digit_length format in
    let h' = later-HasNoNul ch format args h in
    elim (Bool-cases (ch == b'%')) [
      | inl e ↦ rw e (conversion-agree fuel n format args buf c (printf_from-sprintf_from fuel) h')
      | inr e ↦
          let put = if ch == 13 then 10 else ch in
          rw (e, sym (print-char put (print buf c)), sym (print-strcat buf (put ∷ []) c))
            (printf_from-sprintf_from fuel format args (strcat buf (put ∷ [])) c h')
    ]

-- `printf` prints what `sprintf` makes of the same format and arguments, and it fails where
-- `sprintf` does, if the format has no character `c` or no `int` of the arguments is a NUL as a
-- character, which `printf` prints and `sprintf` leaves out.
pub printf-sprintf :
    (format : List ℕ) (args : List Arg) (c : Console)
    → HasNoNul format args
    → printf format args c ≡ (sprintf format args >>= λ t. some (print t c))
unfolding printf sprintf print print_at put_string
printf-sprintf format args c h = printf_from-sprintf_from (length format) format args [] c h
