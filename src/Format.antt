-- ===== src/Format.antt =====
-- Formatted output and input, include/stdio.h. An argument list is what the caller passed; a run
-- that uses an argument that is not there, or of the other kind, or that reads behind the end of a
-- string, gives `none`.
pub mod Conversion
pub mod Print
pub mod Scan
pub mod Digits
pub mod Lines
use advanced_os.Base.{
  ℕ, zero, suc, ◌+◌, ◌-◌, ◌*◌, ◌^◌, ◌==◌, ◌&&◌, ◌||◌, leb, if◌then◌else◌, Bool, true, false, Option,
  none, some, List, [], ◌∷◌, ◌++◌, length, drop, get_or, reverse, codes,
}
use advanced_os.Base.Options.{◌>>=◌}
use advanced_os.Memory.{u32, u8}
use advanced_os.Cstr.{strcat, strcpy, itoa, isspace}
use advanced_os.Console.{Console, set_color, print, print_char, print_int, set_cursor, get_cursor}

-- What stands behind `...`: an `int` as its bit pattern, or a string.
pub data Arg : Type 0 where
  int : ℕ → Arg
  text : List ℕ → Arg

abbrev pub is_digit : ℕ → Bool
is_digit c = leb b'0' c && leb c b'9'

-- The loop of `read_int`: `ret` and `cnt`.
unfoldable pub read_digits : List ℕ → (ret cnt : ℕ) → ℕ × ℕ
read_digits [] ret cnt = (ret, cnt)
read_digits (c ∷ s) ret cnt =
    let rest = read_digits s (u32 (ret * 10 + (c - b'0'))) (cnt + 1) in
    if is_digit c then rest else (ret, cnt)

-- `read_int`: the number, and how many characters it takes.
unfoldable pub read_int : List ℕ → ℕ × ℕ
read_int [] = (0, 0)
read_int (c ∷ s) =
    let (ret, cnt) = read_digits s 0 1 in
    if c == b'-' then (u32 (2 ^ 32 - ret), cnt) else read_digits (c ∷ s) 0 0

-- `digitLength`: how long the width behind a `%` is.
unfoldable pub digit_length : List ℕ → ℕ
digit_length tail =
    if is_digit (get_or tail 0 0) || (get_or tail 0 0 == b'-') then (read_int tail).1 else 0

-- The format behind a conversion, `i += 1 + digitLength` and then `++i`; `none` behind the NUL.
unfoldable pub behind : (len : ℕ) (tail : List ℕ) → Option (List ℕ)
behind zero [] = none
behind zero (c ∷ tail) = some tail
behind (suc len) [] = none
behind (suc len) (c ∷ tail) = behind len tail

-- `va_arg(valist, int)` and `va_arg(valist, char*)`.
unfoldable pub take_int : List Arg → Option (ℕ × List Arg)
take_int (int v ∷ args) = some (v, args)
take_int _ = none

unfoldable pub take_text : List Arg → Option (List ℕ × List Arg)
take_text (text s ∷ args) = some (s, args)
take_text _ = none

-- The tests on the character of a conversion.
abbrev pub is_decimal : ℕ → Bool
is_decimal spec = (spec == b'd') || (spec == b'i')

abbrev pub is_hexadecimal : ℕ → Bool
is_hexadecimal spec = (spec == b'x') || (spec == b'X')

-- `char str[2]; str[0] = c; str[1] = '\0';`
abbrev pub char_text : ℕ → List ℕ
char_text c = if u8 c == 0 then [] else u8 c ∷ []

-- What a conversion of `sprintf` appends, and the arguments left.
unfoldable pub convert : (spec : ℕ) → List Arg → Option (List ℕ × List Arg)
convert spec args =
    if is_decimal spec
    then (do (v, rest) ← take_int args; str ← itoa v 10; some (str, rest))
    else if is_hexadecimal spec
    then (do (v, rest) ← take_int args; str ← itoa v 16; some (str, rest))
    else if spec == b'c'
    then (do (c, rest) ← take_int args; some (char_text c, rest))
    else if spec == b's'
    then take_text args
    else some (if spec == b'%' then b'%' ∷ [] else [], args)

-- The loop of `sprintf` over the format, with a unit of fuel for each character; `buf` is the text.
unfoldable pub sprintf_from :
    (fuel : ℕ) (format : List ℕ) → List Arg → (buf : List ℕ) → Option (List ℕ)
sprintf_from fuel [] args buf = some buf
sprintf_from zero (ch ∷ format) args buf = none
sprintf_from (suc fuel) (ch ∷ format) args buf =
    let n = digit_length format in
    let plain = sprintf_from fuel format args (strcat buf ((if ch == 13 then 10 else ch) ∷ [])) in
    if ch == b'%'
    then (do
      (str, left) ← convert (get_or format n 0) args
      rest ← behind n format
      sprintf_from fuel rest left (strcat buf str))
    else plain

-- `sprintf`: the string in `buf`.
unfoldable pub sprintf : (format : List ℕ) → List Arg → Option (List ℕ)
sprintf format args = sprintf_from (length format) format args []

-- What a conversion of `printf` prints, and the arguments left.
unfoldable pub print_conversion : (spec : ℕ) → List Arg → Console → Option (Console × List Arg)
print_conversion spec args c =
    if is_decimal spec
    then (do (v, rest) ← take_int args; c' ← print_int v 10 c; some (c', rest))
    else if is_hexadecimal spec
    then (do (v, rest) ← take_int args; c' ← print_int v 16 c; some (c', rest))
    else if spec == b'c'
    then (do (v, rest) ← take_int args; some (print_char (u8 v) c, rest))
    else if spec == b's'
    then (do (str, rest) ← take_text args; some (print str c, rest))
    else some (if spec == b'%' then print_char b'%' c else c, args)

-- The loop of `printf`.
unfoldable pub printf_from : (fuel : ℕ) (format : List ℕ) → List Arg → Console → Option Console
printf_from fuel [] args c = some c
printf_from zero (ch ∷ format) args c = none
printf_from (suc fuel) (ch ∷ format) args c =
    let n = digit_length format in
    let plain = printf_from fuel format args (print_char (if ch == 13 then 10 else ch) c) in
    if ch == b'%'
    then (do
      (c', left) ← print_conversion (get_or format n 0) args c
      rest ← behind n format
      printf_from fuel rest left c')
    else plain

-- `printf`.
unfoldable pub printf : (format : List ℕ) → List Arg → Console → Option Console
printf format args c = printf_from (length format) format args c

-- `put_error`, `put_exception` and `put_info`.
unfoldable pub put_error : List ℕ → Console → Console
put_error str c =
    set_color 15 0 (print (codes "\n") (print str (print (codes "Error: ") (set_color 4 0 c))))

unfoldable pub put_exception : List ℕ → Console → Console
put_exception str c =
    set_color 15 0 (print (codes "\n") (print str (print (codes "Exception: ") (set_color 4 0 c))))

unfoldable pub put_info : List ℕ → Console → Console
put_info str c =
    let ok =
      set_color 15 0 (print (codes "OK") (set_color 2 0 (print (codes "[ ") (set_color 15 0 c)))) in
    print (codes "\n") (print str (print (codes " ] ") ok))

-- A backspace of `getline`.
unfoldable pub rub_out : Console → Console
rub_out c =
    let left = set_cursor (u32 (get_cursor c + 2 ^ 32 - 2)) c in
    let blank = print_char b' ' left in set_cursor (u32 (get_cursor blank + 2 ^ 32 - 2)) blank

-- `getline`, for the characters that `getchar` gives, with the text so far in reverse: the line, the
-- characters that are left, and the screen. `none` waits for more.
unfoldable pub getline_from :
    (keys res : List ℕ)
    → Console
    → Option (record { line : List ℕ; left : List ℕ; screen : Console })
getline_from [] res c = none
getline_from (ch ∷ keys) [] c =
    let more =
      getline_from keys (if ch == 8 then [] else ch ∷ [])
        (if ch == 8 then c else print_char ch c) in
    if (ch == 13) || (ch == 10)
    then some (record { line = []; left = keys; screen = print_char ch c })
    else more
getline_from (ch ∷ keys) (a ∷ res) c =
    let more =
      getline_from keys (if ch == 8 then res else ch ∷ a ∷ res)
        (if ch == 8 then rub_out c else print_char ch c) in
    if (ch == 13) || (ch == 10)
    then some (record { line = reverse (a ∷ res); left = keys; screen = print_char ch c })
    else more

unfoldable pub getline :
    (keys : List ℕ) → Console → Option (record { line : List ℕ; left : List ℕ; screen : Console })
getline keys c = getline_from keys [] c
