-- ===== src/Fat/Entry.antt =====
-- Directory entries of include/fat12.h, as their 32 bytes in memory at an address `f`: the name at
-- 0, the extension at 8, the attribute at 11, the time at 22, the date at 24, the first cluster at
-- 26 and the length at 28.
use advanced_os.Base.{
  ℕ, zero, suc, ◌+◌, ◌-◌, ◌*◌, ◌/◌, ◌^◌, Bool, Option, some, List, [], ◌∷◌, ◌==◌, if◌then◌else◌,
  update, first_index,
}
use advanced_os.Base.Options.{◌>>=◌}
use advanced_os.Memory.{Mem, u8}
use advanced_os.Cstr.{strlen, tolower, strcmp}

abbrev pub entry_size : ℕ
entry_size = 32

abbrev pub fat_num_root_entry : ℕ
fat_num_root_entry = 224

abbrev pub fat_num_dir_entry : ℕ
fat_num_dir_entry = 16

-- The string in a buffer of `n` bytes from `a` on.
unfoldable pub string_in : (ℕ → ℕ) → (n a : ℕ) → List ℕ
string_in buf zero a = []
string_in buf (suc n) a =
    let rest = string_in buf n (a + 1) in if buf a == 0 then [] else buf a ∷ rest

-- `n` rounds from `i` on of a loop of `fat12_construct_file_name`: a field goes to `name[i + k]` up
-- to a space.
unfoldable pub copy_field : (field : ℕ → ℕ) → (k n i : ℕ) → (ℕ → ℕ) → ℕ → ℕ
copy_field field k zero i name = name
copy_field field k (suc n) i name =
    let rest = copy_field field k n (i + 1) (update name (i + k) (field i)) in
    if field i == b' ' then update name (i + k) 0 else rest

-- `strcat(name, ".")` in the buffer, and the string's length `k`.
unfoldable pub add_dot : (ℕ → ℕ) → record { dotted : ℕ → ℕ; k : ℕ }
add_dot name =
    let len = strlen (string_in name 13 0) in
    let dotted = update (update name len b'.') (len + 1) 0 in
    record { dotted = dotted; k = strlen (string_in dotted 13 0) }

-- The buffer of `fat12_construct_file_name` before `tolower`.
unfoldable pub name_buffer : Mem → (f : ℕ) → ℕ → ℕ
name_buffer m f =
    let name = copy_field (λ i. m (f + i)) 0 8 0 (λ _. 0) in
    let full = copy_field (λ i. m (f + 8 + i)) (add_dot name).k 3 0 (add_dot name).dotted in
    update (if m (f + 8) == b' ' then name else full) 12 0

-- `fat12_construct_file_name`.
unfoldable pub fat12_construct_file_name : Mem → (f : ℕ) → List ℕ
fat12_construct_file_name m f = tolower (string_in (name_buffer m f) 13 0)

-- The entry of a table at `base` that a name matches, among `n`: the scan of `fat12_find_entry`.
abbrev pub entry_at : (base i : ℕ) → ℕ
entry_at base i = base + i * entry_size

abbrev pub matches : Mem → (base : ℕ) (folder : List ℕ) → ℕ → Bool
matches m base folder i = strcmp folder (fat12_construct_file_name m (entry_at base i)) == 0

unfoldable pub scan_entries : Mem → (base n : ℕ) (folder : List ℕ) → Option ℕ
scan_entries m base n folder =
    first_index (matches m base folder) n 0 >>= λ i. some (entry_at base i)

-- The fields.
abbrev pub load16 : Mem → ℕ → ℕ
load16 m a = m a + m (a + 1) * 2 ^ 8

abbrev pub load32 : Mem → ℕ → ℕ
load32 m a = load16 m a + load16 m (a + 2) * 2 ^ 16

abbrev pub store16 : Mem → (a v : ℕ) → Mem
store16 m a v = update (update m a (u8 v)) (a + 1) (u8 (v / 2 ^ 8))

abbrev pub store_long : Mem → (a v : ℕ) → Mem
store_long m a v = store16 (store16 m a v) (a + 2) (v / 2 ^ 16)

abbrev pub attribute : Mem → (f : ℕ) → ℕ
attribute m f = m (f + 11)

abbrev pub start_cluster : Mem → (f : ℕ) → ℕ
start_cluster m f = load16 m (f + 26)

abbrev pub file_length : Mem → (f : ℕ) → ℕ
file_length m f = load32 m (f + 28)

-- `strcpy` to an address: the characters, and the NUL.
unfoldable pub strcpy_at : Mem → (a : ℕ) → List ℕ → Mem
strcpy_at m a [] = update m a 0
strcpy_at m a (c ∷ s) = strcpy_at (update m a c) (a + 1) s

-- `for ( ; j < j + n; ++j) field[j] = ' ';`
unfoldable pub pad_spaces : Mem → (n a : ℕ) → Mem
pad_spaces m zero a = m
pad_spaces m (suc n) a = pad_spaces (update m a b' ') n (a + 1)

-- A string copied to a field of `w` bytes and filled up with spaces from its `strlen` on.
unfoldable pub fill_field : Mem → (a w : ℕ) → List ℕ → Mem
fill_field m a w s =
    let copied = strcpy_at m a s in
    let len = strlen (string_in copied 20 a) in pad_spaces copied (w - len) (a + len)
