-- ===== src/Fat/Listing.antt =====
-- The listing of a directory: `fat12_show_file_attrib`, `fat12_show_file_entry` and `fat12_ls` of
-- include/fat12.h. `none` stands for a chain that needs more fuel.
use advanced_os.Base.{
  ℕ, zero, suc, ◌+◌, ◌*◌, ◌/◌, ◌%◌, ◌^◌, bit_and, Bool, true, false, ◌&&◌, not, Option, some, [],
  ◌∷◌, ◌==◌, if◌then◌else◌, codes,
}
use advanced_os.Base.Options.{◌>>=◌}
use advanced_os.Memory.{Mem, u32}
use advanced_os.Console.{Console, set_color}
use advanced_os.Format.{printf, int, text}
use advanced_os.Fat.{fat12_get_num_cluster, fat12_read_clusters, fat_sector_size}
use advanced_os.Fat.Dates.{int_to_date, int_to_time}
use advanced_os.Fat.Entry.{
  attribute, start_cluster, file_length, load16, entry_at, fat12_construct_file_name,
  fat_num_root_entry, fat_num_dir_entry,
}
use advanced_os.Fat.Volume.{Layout, Volume, get_curr_dir, fat_root_region_start}

-- The bits of `fat12_file_attr_t`.
abbrev pub attr_bit : (k attr : ℕ) → Bool
attr_bit k attr = attr / 2 ^ k % 2 == 1

abbrev pub is_read_only : ℕ → Bool
is_read_only = attr_bit 0

abbrev pub is_hidden : ℕ → Bool
is_hidden = attr_bit 1

abbrev pub is_system : ℕ → Bool
is_system = attr_bit 2

abbrev pub is_label : ℕ → Bool
is_label = attr_bit 3

abbrev pub is_directory : ℕ → Bool
is_directory = attr_bit 4

abbrev pub is_archive : ℕ → Bool
is_archive = attr_bit 5

-- `printf("%c", bit ? c : '-')`.
abbrev pub print_flag : (bit : Bool) (c : ℕ) → Console → Option Console
print_flag bit c = printf (codes "%c") (int (if bit then c else b'-') ∷ [])

-- `fat12_show_file_attrib`.
unfoldable pub fat12_show_file_attrib : (attr : ℕ) → Console → Option Console
fat12_show_file_attrib attr c = if is_label attr then printf (codes "<label> ") [] c else (do
  c1 ← print_flag (is_directory attr) b'd' c
  c2 ← print_flag (is_read_only attr) b'r' c1
  c3 ← print_flag (is_hidden attr) b'h' c2
  c4 ← print_flag (is_system attr) b's' c3
  print_flag (is_archive attr) b'a' c4)

-- `bootsector.BPB_RootDirectoryEntries`.
abbrev pub root_directory_entries : Layout → Mem → ℕ
root_directory_entries l m = load16 m (l.bootsector + 17)

-- What stands in the size column of `fat12_show_file_entry`.
unfoldable pub shown_size : Layout → (fat : ℕ → ℕ) (fuel : ℕ) → Mem → (f : ℕ) → Option ℕ
shown_size l fat fuel m f =
    if is_directory (attribute m f)
    then (do
      n ← fat12_get_num_cluster (root_directory_entries l m) fat fuel (start_cluster m f)
      some (u32 (n * fat_sector_size)))
    else some (file_length m f)

-- The color of a name: the last of the three tests that holds decides.
abbrev pub name_color : (attr : ℕ) → Console → Console
name_color attr c =
    let c1 = if is_directory attr then set_color 9 0 c else c in
    let c2 = if is_hidden attr then set_color 8 0 c1 else c1 in
    if is_system attr then set_color 5 0 c2 else c2

-- Is the entry shown: no disk label, not free and not deleted?
abbrev pub is_listed : Mem → (f : ℕ) → Bool
is_listed m f =
    not (is_label (attribute m f)) && (not (m f == 0) && not (bit_and (m f) 0xE5 == 0xE5))

-- `fat12_show_file_entry`.
unfoldable pub fat12_show_file_entry :
    Layout → (fat : ℕ → ℕ) (fuel : ℕ) → Mem → (f : ℕ) → Console → Option (Bool × Console)
fat12_show_file_entry l fat fuel m f c =
    let attr = attribute m f in
    let date = int_to_date (load16 m (f + 24)) in
    let time = int_to_time (load16 m (f + 22)) in
    if is_listed m f
    then (do
      c1 ← fat12_show_file_attrib attr c
      c2 ←
          printf (codes "  %04d/%02d/%02d")
            (int (date.year + 1980) ∷ int date.month ∷ int date.day ∷ []) c1
      c3 ←
          printf (codes "  %02d:%02d:%02d") (int time.hour ∷ int time.minute ∷ int time.second ∷ [])
            c2
      size ← shown_size l fat fuel m f
      c4 ← printf (codes "  %10d") (int size ∷ []) c3
      c5 ← printf (codes "  %s\n") (text (fat12_construct_file_name m f) ∷ []) (name_color attr c4)
      some (true, set_color 15 0 c5))
    else some (false, c)

-- The entries `i`, ..., `i + n - 1` of a directory.
unfoldable pub show_entries :
    Layout → (fat : ℕ → ℕ) (fuel : ℕ) → Mem → (base n i : ℕ) → Console → Option Console
show_entries l fat fuel m base zero i c = some c
show_entries l fat fuel m base (suc n) i c = do
  (_, c') ← fat12_show_file_entry l fat fuel m (entry_at base i) c
  show_entries l fat fuel m base n (i + 1) c'

-- `fat12_ls`.
unfoldable pub fat12_ls : Layout → (fuel : ℕ) → Volume → Option Volume
fat12_ls l fuel v =
    if get_curr_dir v == fat_root_region_start
    then (do
      c ← show_entries l v.fat fuel v.mem l.root_dir fat_num_root_entry 0 v.console
      some (record v { console = c }))
    else (do
      (_, m) ← fat12_read_clusters v.disk v.fat fuel l.subdir (get_curr_dir v) v.mem
      c ← show_entries l v.fat fuel m l.subdir fat_num_dir_entry 0 v.console
      some (record v { mem = m; console = c }))
