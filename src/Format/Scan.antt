-- ===== src/Format/Scan.antt =====
-- `sscanf` and `scanf` of include/stdio.h: what is stored through the pointers, in order. A run that
-- steps behind the end of the string or of the format, or that uses `offset` before it is set, gives
-- `none`.
use advanced_os.Base.{
  ℕ, zero, suc, ◌==◌, if◌then◌else◌, Option, none, some, List, [], ◌∷◌, ◌++◌, drop,
}
use advanced_os.Base.Options.{◌>>=◌}
use advanced_os.Cstr.{isspace}
use advanced_os.Console.{Console}
use advanced_os.Format.{read_int, getline}

-- What one conversion stores: `*pc`, `*pd` or the string at `pstr`.
pub data Stored : Type 0 where
  chr : ℕ → Stored
  num : ℕ → Stored
  word : List ℕ → Stored

-- `while (s[s_i] && !isspace(s[s_i]))`: the characters copied, and those left.
unfoldable pub take_word : List ℕ → List ℕ × List ℕ
take_word [] = ([], [])
take_word (a ∷ s) = let (w, rest) = take_word s in if isspace a then ([], a ∷ s) else (a ∷ w, rest)

-- `while (isspace(s[s_i])) s_i++;`
unfoldable pub skip_spaces : List ℕ → List ℕ
skip_spaces [] = []
skip_spaces (a ∷ s) = if isspace a then skip_spaces s else a ∷ s

-- `s_i += offset`, not behind the NUL.
unfoldable pub move : (offset : ℕ) → List ℕ → Option (List ℕ)
move zero s = some s
move (suc n) [] = none
move (suc n) (a ∷ s) = move n s

-- `s[s_i]`, and the string behind it.
unfoldable pub next_char : List ℕ → Option (ℕ × List ℕ)
next_char [] = none
next_char (a ∷ s) = some (a, s)

-- The position, what has been stored, and `offset`.
pub record Scan : Type 0 where
  pub rest : List ℕ
  pub out : List Stored
  pub offset : Option ℕ

-- A conversion by the character `spec`.
unfoldable pub scan_conversion : (spec : ℕ) → Scan → Option Scan
scan_conversion spec k =
    if spec == b'c'
    then (do
      (c, s) ← next_char k.rest
      some (record { rest = s; out = k.out ++ chr c ∷ []; offset = some 1 }))
    else if spec == b'd'
    then (let (n, cnt) = read_int k.rest in
        some (record { rest = drop cnt k.rest; out = k.out ++ num n ∷ []; offset = some cnt }))
    else if spec == b's'
    then (let (w, s) = take_word k.rest in
        some (record { rest = s; out = k.out ++ word w ∷ []; offset = some 0 }))
    else (do o ← k.offset; s ← move o k.rest; some (record k { rest = s }))

-- A character of the format that is no `%`.
unfoldable pub match_char : (ch : ℕ) → List ℕ → List ℕ
match_char ch [] = []
match_char ch (a ∷ s) = if ch == b' ' then skip_spaces (a ∷ s) else if ch == a then s else a ∷ s

-- The loop over the format.
unfoldable pub sscanf_from : (format : List ℕ) → Scan → Option (List Stored)
sscanf_from [] k = some k.out
sscanf_from (ch ∷ []) k = if ch == b'%' then none else some k.out
sscanf_from (ch ∷ spec ∷ format) k =
    let plain = sscanf_from (spec ∷ format) (record k { rest = match_char ch k.rest }) in
    if ch == b'%' then (do k' ← scan_conversion spec k; sscanf_from format k') else plain

-- `sscanf`.
unfoldable pub sscanf : (s format : List ℕ) → Option (List Stored)
sscanf s format = sscanf_from format (record { rest = s; out = []; offset = none })

-- `scanf`, for the characters that are typed: what is stored, and the screen.
unfoldable pub scanf : (keys format : List ℕ) → Console → Option (List Stored × Console)
scanf keys format c = do
  typed ← getline keys c
  out ← sscanf typed.line format
  some (out, typed.screen)
