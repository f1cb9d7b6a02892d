-- ===== src/Cstr.antt =====
-- The string functions of include/string.h. A string is the list of its characters before the NUL,
-- so that a read at the end of the list is the NUL; a buffer that a function writes is its result.
-- An `int` is its 32-bit pattern.
pub mod Numbers
pub mod Compare
pub mod Tokens
use advanced_os.Base.{
  ℕ, zero, suc, ◌+◌, ◌-◌, ◌*◌, ◌/◌, ◌%◌, ◌^◌, ◌==◌, ◌&&◌, ◌||◌, ltb, leb, if◌then◌else◌, Bool, true,
  false, Option, none, some, List, [], ◌∷◌, ◌++◌, length, map, update,
}
use advanced_os.Memory.{u32}

-- `strlen`: `while (str[len++]); len--;` counts the characters before the NUL.
unfoldable pub strlen : List ℕ → ℕ
strlen [] = 0
strlen (c ∷ s) = suc (strlen s)

-- `strcmp`: the difference of the first bytes that differ, or of the NULs.
unfoldable pub strcmp : (s1 s2 : List ℕ) → ℕ
strcmp [] [] = 0
strcmp [] (b ∷ t) = u32 (2 ^ 32 - b)
strcmp (a ∷ s) [] = a
strcmp (a ∷ s) (b ∷ t) = if a == b then strcmp s t else u32 (a + 2 ^ 32 - b)

-- `strcpy` and `strcat`: the string that the destination holds afterwards.
unfoldable pub strcpy : (src : List ℕ) → List ℕ
strcpy [] = []
strcpy (c ∷ s) = c ∷ strcpy s

unfoldable pub strcat : (dst src : List ℕ) → List ℕ
strcat [] src = strcpy src
strcat (c ∷ d) src = c ∷ strcat d src

-- `strncpy`: exactly `n` bytes are written.
unfoldable pub strncpy : (src : List ℕ) (n : ℕ) → List ℕ
strncpy src zero = []
strncpy [] (suc n) = 0 ∷ strncpy [] n
strncpy (c ∷ s) (suc n) = c ∷ strncpy s n

-- `strmcpy`: the characters from `start` up to `end`.
unfoldable pub strmcpy : (src : List ℕ) (start end : ℕ) → List ℕ
strmcpy [] start end = []
strmcpy (c ∷ s) zero zero = []
strmcpy (c ∷ s) zero (suc end) = c ∷ strmcpy s zero end
strmcpy (c ∷ s) (suc start) zero = []
strmcpy (c ∷ s) (suc start) (suc end) = strmcpy s start end

-- `atoi`.
unfoldable pub atoi_from : (res : ℕ) → List ℕ → ℕ
atoi_from res [] = res
atoi_from res (c ∷ s) = atoi_from (u32 (u32 (res * 10 + c) + 2 ^ 32 - b'0')) s

unfoldable pub atoi : List ℕ → ℕ
atoi s = atoi_from 0 s

-- The loop of `reverse` on an array, with `rounds` as fuel.
unfoldable pub reverse_loop : (rounds i j : ℕ) → (ℕ → ℕ) → ℕ → ℕ
reverse_loop zero i j s = s
reverse_loop (suc n) i j s =
    let rest = reverse_loop n (i + 1) (j - 1) (update (update s i (s j)) j (s i)) in
    if ltb i j then rest else s

-- `reverse` of a string of length `len` in an array. An empty string has `j = -1`, and no round.
unfoldable pub reverse_str : (len : ℕ) → (ℕ → ℕ) → ℕ → ℕ
reverse_str len s = reverse_loop len 0 (len - 1) s

-- `strchr`: the string from the first occurrence on. The test for the NUL stands in the body, so
-- that `c` itself is never found to be the NUL of a longer string by chance.
unfoldable pub strchr : (s : List ℕ) (c : ℕ) → Option (List ℕ)
strchr [] c = if 0 == c then some [] else none
strchr (a ∷ s) c = if a == c then some (a ∷ s) else strchr s c

abbrev pub found {ℓ} : {A : Type ℓ} → Option A → Bool
found none = false
found (some _) = true

-- `strsep` of a pointer that is not NULL: the token, and the pointer left, NULL at the end.
unfoldable pub strsep : (str delims : List ℕ) → List ℕ × Option (List ℕ)
strsep [] delims = ([], none)
strsep (c ∷ s) delims =
    let (token, rest) = strsep s delims in
    if found (strchr delims c) then ([], some s) else (c ∷ token, rest)

-- `bchars[d]`.
abbrev pub bchar : ℕ → ℕ
bchar d = if ltb d 10 then b'0' + d else b'A' + (d - 10)

-- The digit loop of `itoa`, with the free places of `tbuf` as fuel; `none` runs over its end. The
-- characters stand last digit written first, which is the order in which `buf` gets them.
unfoldable pub itoa_digits : (room i base : ℕ) → List ℕ → Option (List ℕ)
itoa_digits zero i base tbuf = if i == 0 then some tbuf else none
itoa_digits (suc room) i base tbuf =
    let rest = itoa_digits room (i / base) base (bchar (i % base) ∷ tbuf) in
    if i == 0 then some tbuf else rest

-- `itoa`.
unfoldable pub itoa : (i base : ℕ) → Option (List ℕ)
itoa i base = if i == 0 || ltb 16 base then some (b'0' ∷ []) else itoa_digits 32 i base []

-- `itoa_s`; a base above 16 writes nothing.
unfoldable pub itoa_s : (i base : ℕ) → Option (List ℕ)
itoa_s i base =
    if ltb 16 base
    then none
    else if leb (2 ^ 31) i
    then elim (itoa (2 ^ 32 - i) base) [ none ↦ none | some s ↦ some (b'-' ∷ s) ]
    else itoa i base

-- `tolower` and `toupper`, at one character.
abbrev pub lower_char : ℕ → ℕ
lower_char c = if leb b'A' c && leb c b'Z' then c + 32 else c

abbrev pub upper_char : ℕ → ℕ
upper_char c = if leb b'a' c && leb c b'z' then c - 32 else c

unfoldable pub tolower : List ℕ → List ℕ
tolower [] = []
tolower (c ∷ s) = lower_char c ∷ tolower s

unfoldable pub toupper : List ℕ → List ℕ
toupper [] = []
toupper (c ∷ s) = upper_char c ∷ toupper s

-- The character tests.
unfoldable pub isalpha : ℕ → Bool
isalpha c = (leb b'a' c && leb c b'z') || (leb b'A' c && leb c b'Z')

unfoldable pub isdigit : ℕ → Bool
isdigit c = leb b'0' c && leb c b'9'

unfoldable pub isspace : ℕ → Bool
isspace c = c == b' '

unfoldable pub isnum : List ℕ → Bool
isnum [] = true
isnum (c ∷ s) = if isdigit c then isnum s else false

unfoldable pub isin : (str : List ℕ) (c : ℕ) → Bool
isin [] c = false
isin (a ∷ s) c = if a == c then true else isin s c

-- `split`: the offsets of `c`, then the length; the count is that of the list.
unfoldable pub split_from : (i : ℕ) (str : List ℕ) (c : ℕ) → List ℕ
split_from i [] c = i ∷ []
split_from i (a ∷ s) c = let rest = split_from (i + 1) s c in if a == c then i ∷ rest else rest

unfoldable pub split : (str : List ℕ) (c : ℕ) → List ℕ
split str c = split_from 0 str c
