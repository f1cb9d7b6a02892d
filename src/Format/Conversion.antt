-- ===== src/Format/Conversion.antt =====
-- The conversions of `printf` and `sprintf`, include/stdio.h.
use advanced_os.Base.{
  ℕ, ◌≡◌, refl, sym, ap, ◌≢◌, ◌⊎◌, inl, inr, true, Option, none, some, List, [], ◌∷◌, ◌++◌, arith,
  ◌==◌, Bool-cases, Option-cases, All, ==_ne,
}
use advanced_os.Memory.{u8}
use advanced_os.Base.Options.{◌>>=◌}
use advanced_os.Format.{
  Arg, int, text, convert, print_conversion, char_text, take_int, take_text, is_decimal,
  is_hexadecimal,
}
use advanced_os.Cstr.{strcat, itoa}
use advanced_os.Cstr.Compare.{strcat-append}
use advanced_os.Console.{Console, print, print_at, put_string, print_char, print_int}

-- Printing two texts one after the other.
put_string-append :
    (s t : List ℕ) (c : Console)
    → put_string (s ++ t) none c ≡ put_string t none (put_string s none c)
unfolding put_string
put_string-append [] t c = refl
put_string-append (a ∷ s) t c = put_string-append s t _

pub print-strcat : (s t : List ℕ) (c : Console) → print (strcat s t) c ≡ print t (print s c)
unfolding print print_at
print-strcat s t c = rw (strcat-append s t).0 (put_string-append s t c)

pub print-char : (ch : ℕ) (c : Console) → print (ch ∷ []) c ≡ print_char ch c
unfolding print print_at put_string print_char
print-char ch c = refl

-- An `int` that is no NUL as a character.
abbrev pub IsCharacter : Arg → Type 0
IsCharacter (int v) = u8 v ≢ 0
IsCharacter (text s) = Unit

abbrev pub is_c : ℕ
is_c = b'c'

-- What is printed of a text that was appended.
abbrev shown : Console → List ℕ × List Arg → Option (Console × List Arg)
shown c (s, rest) = some (print s c, rest)

abbrev number_text : (base : ℕ) → List Arg → Option (List ℕ × List Arg)
number_text base args = do (v, rest) ← take_int args; str ← itoa v base; some (str, rest)

abbrev number_print : (base : ℕ) → List Arg → Console → Option (Console × List Arg)
number_print base args c = do (v, rest) ← take_int args; c' ← print_int v base c; some (c', rest)

number_lem :
    (base : ℕ) (args : List Arg) (c : Console)
    → number_print base args c ≡ (number_text base args >>= shown c)
unfolding take_int print_int
number_lem base [] c = refl
number_lem base (text s ∷ rest) c = refl
number_lem base (int v ∷ rest) c = elim (Option-cases (itoa v base)) [
  | inl e ↦ rw (print_int, e) refl
  | inr (s, e) ↦ rw (print_int, e) refl
]

abbrev char_print : List Arg → Console → Option (Console × List Arg)
char_print args c = do (v, rest) ← take_int args; some (print_char (u8 v) c, rest)

abbrev char_append : List Arg → Option (List ℕ × List Arg)
char_append args = do (v, rest) ← take_int args; some (char_text v, rest)

char_lem :
    (args : List Arg) (c : Console)
    → All IsCharacter args
    → char_print args c ≡ (char_append args >>= shown c)
unfolding take_int
char_lem [] c h = refl
char_lem (text s ∷ rest) c h = refl
char_lem (int v ∷ rest) c h =
    rw (==_ne (u8 v) 0 h.0) (ap (λ (x : Console). some (x, rest)) (sym (print-char (u8 v) c)))

text_lem :
    (args : List Arg) (c : Console)
    → (take_text args >>= λ (p : List ℕ × List Arg). some (print p.0 c, p.1))
      ≡ (take_text args >>= shown c)
text_lem args c = refl

print-nil : (c : Console) → print [] c ≡ c
unfolding print print_at put_string
print-nil c = refl

-- Each conversion prints what it would append.
pub conversion_lem :
    (spec : ℕ) (args : List Arg) (c : Console)
    → (spec ≢ is_c) ⊎ All IsCharacter args
    → print_conversion spec args c ≡ (convert spec args >>= shown c)
unfolding print_conversion convert
conversion_lem spec args c h = elim (Bool-cases (is_decimal spec)) [
  | inl e ↦ rw e (number_lem 10 args c)
  | inr e ↦ elim (Bool-cases (is_hexadecimal spec)) [
    | inl e' ↦ rw (e, e') (number_lem 16 args c)
    | inr e' ↦ elim (Bool-cases (spec == b'c')) [
      | inl q ↦ rw (e, e', q) (char_lem args c (characters spec args h q))
      | inr n ↦ elim (Bool-cases (spec == b's')) [
        | inl q ↦ rw (e, e', n, q) refl
        | inr n' ↦ elim (Bool-cases (spec == b'%')) [
          | inl q ↦
              rw (e, e', n, n', q) (ap (λ (x : Console). some (x, args)) (sym (print-char b'%' c)))
          | inr n'' ↦
              rw (e, e', n, n', n'') (ap (λ (x : Console). some (x, args)) (sym (print-nil c)))
        ]
      ]
    ]
  ]
]
  where
    characters :
        (spec : ℕ) (args : List Arg)
        → (spec ≢ is_c) ⊎ All IsCharacter args
        → (spec == b'c') ≡ true
        → All IsCharacter args
    characters spec args (inl ne) q = absurd (ne (ground arith))
    characters spec args (inr a) q = a
