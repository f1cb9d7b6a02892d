-- ===== src/Examples/Directories.antt =====
-- The theorems on directories and files at a volume whose root directory has one entry.
use advanced_os.Base.{
  ℕ, ◌+◌, ◌<◌, ◌≡◌, refl, ◌≢◌, inr, true, false, none, some, List, [], ◌∷◌, ◌++◌, arith, ℕ_discrete,
  ◌==◌, if◌then◌else◌, codes, first_index, first_index-found, IsFirst,
}
use advanced_os.Memory.{Mem}
use advanced_os.Console.{Console}
use advanced_os.Cstr.{strcmp, tolower, strlen}
use advanced_os.Fat.{fat12_alloc}
use advanced_os.Fat.Entry.{
  entry_at, matches, start_cluster, file_length, fat_num_root_entry, fat12_construct_file_name,
  string_in, name_buffer, copy_field, add_dot, scan_entries,
}
use advanced_os.Fat.Names.{Fits}
use advanced_os.Fat.Volume.{
  Layout, Volume, is_free, fat12_create_file, fat12_find_entry, fat12_set_dir, fat12_rm,
}
use advanced_os.Fat.Chain.{last}
use advanced_os.Fat.Remove.{fat12_rm-removed}
use advanced_os.Sysfile.{do_fopen, do_fread, Files, buffer_of, do_fclose}
use advanced_os.Sysfile.Session.{do_fopen-do_fclose}
use advanced_os.Sysfile.Reading.{CanOpen, disk_byte, do_fopen-do_fread}
use advanced_os.Fat.Find.{
  fat12_construct_file_name-cong, scan_entries-found, fat12_create_file-fat12_find_entry,
}
use advanced_os.Fat.Paths.{fat12_set_dir-back}
use advanced_os.Sysfile.Streams.{Chunk, contents, fwrite_all, all_bytes, fwrite_all-appends}

abbrev pub shell_console : (path : List ℕ) (dir : ℕ) → Console
shell_console path dir = record {
  terminal_list = λ i. record { num = i; cursor = 0; buf = λ _. 0; path = codes "/"; dir = 19 };
  curr_terminal = 0;
  tmp_terminal = 0;
  video = λ _. 0;
  cursor_reg = 0;
  attribute_val = 15;
  curr_path = path;
  curr_dir = dir;
  enabled = true;
}

abbrev pub small_layout : Layout
small_layout = record { bootsector = 0x4000; phys_fat = 0x4200; root_dir = 0x6000; subdir = 0x8000 }

-- The entry 0 is in use.
abbrev pub one_entry : Mem
one_entry a = if a == 0x6000 then b'H' else 0

abbrev pub small_volume : (path : List ℕ) (dir : ℕ) → Volume
small_volume path dir = record {
  mem = one_entry;
  disk = λ s o. 0;
  fat = λ _. 0;
  phys = λ _. 0;
  console = shell_console path dir;
}

pub stem-Fits : Fits 8 (codes "test")
stem-Fits = ground arith

pub ext-Fits : Fits 3 (codes "txt")
ext-Fits = ground arith

pub one_entry-IsFirst : IsFirst (is_free one_entry 0x6000) fat_num_root_entry 0 1
one_entry-IsFirst = record {
  above = omega arith;
  below = omega arith;
  passes = refl;
  earlier = λ j a l. let e : j ≡ 0 = omega arith in rw e refl;
}

-- A name of one character, and an extension of NULs.
one_entry-name : fat12_construct_file_name one_entry 0x6000 ≡ codes "h."
unfolding strcmp fat12_construct_file_name string_in name_buffer copy_field add_dot tolower strlen
one_entry-name = refl

one_entry-other :
    (j : ℕ) → j < 1 → matches one_entry 0x6000 (codes "test" ++ b'.' ∷ codes "txt") j ≡ false
unfolding strcmp
one_entry-other j l =
    let e : entry_at 0x6000 j ≡ 0x6000 = omega arith in rw (e, one_entry-name) refl

fat12_create_file-fat12_find_entry_example :
    (w : Volume) × (fat12_create_file small_layout 0x20000 23
        (codes "test" ++ b'.' ∷ codes "txt")
        (small_volume (codes "/") 19)
      ≡ some w)
    × (fat12_find_entry small_layout 0 (codes "test" ++ b'.' ∷ codes "txt") w
        ≡ some (some 0x6020, w))
    × (start_cluster w.mem 0x6020 ≡ (fat12_alloc (λ _. 0) 23).start)
    × (file_length w.mem 0x6020 ≡ 23)
fat12_create_file-fat12_find_entry_example =
    fat12_create_file-fat12_find_entry small_layout 0 0x20000 23 (codes "test") (codes "txt")
      (small_volume (codes "/") 19) 1 stem-Fits ext-Fits (omega arith) refl one_entry-IsFirst
      one_entry-other

fat12_set_dir-back_example :
    (w : Volume) × (fat12_set_dir 7 (codes "docs") (small_volume (codes "/usr") 5) ≡ some w)
    × (fat12_set_dir 5 (codes "..") w ≡ some (small_volume (codes "/usr") 5))
unfolding strcmp
fat12_set_dir-back_example =
    fat12_set_dir-back 7 5 (codes "docs") (small_volume (codes "/usr") 5) (ground arith)
      (ground arith) (omega arith) (omega arith, omega arith) (omega arith)
      (omega arith, omega arith) (omega arith, omega arith)

-- A file that is open for writing.
abbrev open_files : (written : ℕ) → Files
open_files written = record {
  file_list = λ _. record {
    name = codes "test" ++ b'.' ∷ codes "txt";
    mode = codes "w";
    pos = buffer_of 0x9000 0 + written;
    file_length = 0;
    start_cluster = 0;
    current_cluster = 0;
  };
  volume = small_volume (codes "/") 19;
}

abbrev two_chunks : List Chunk
two_chunks =
    record { source = 0x6000; size = 1; count = 3 }
    ∷ record { source = 0x2000; size = 4; count = 5 }
    ∷ []

fwrite_all-appends_example :
    (contents 0x9000 0 (fwrite_all 0 two_chunks (open_files 2))
      ≡ contents 0x9000 0 (open_files 2) ++ all_bytes one_entry two_chunks)
    × (((fwrite_all 0 two_chunks (open_files 2)).file_list 0).pos ≡ 0x9024 + 2 + 23)
unfolding strcmp
fwrite_all-appends_example =
    fwrite_all-appends 0x9000 0 two_chunks (open_files 2)
      (record { mode = refl; begins = omega arith; room = omega arith; below = omega arith })
      ((omega arith, omega arith), ((omega arith, omega arith), tt))

-- A file `h.` of one cluster.
abbrev one_file : Mem
one_file a = if a == 0x6000 then b'H' else if a == 0x601A then 2 else 0

abbrev one_chain : ℕ → ℕ
one_chain i = if i == 2 then 0xFFF else 0

abbrev file_volume : Volume
file_volume = record (small_volume (codes "/") 19) {
  mem = one_file;
  fat = one_chain;
  disk = λ s o. s + o;
}

one_file-name : fat12_construct_file_name one_file 0x6000 ≡ codes "h."
unfolding strcmp fat12_construct_file_name string_in name_buffer copy_field add_dot tolower strlen
one_file-name = refl

one_file-matches : matches one_file 0x6000 (codes "h.") 0 ≡ true
unfolding strcmp
one_file-matches = rw one_file-name refl

empty-name : (f : ℕ) → fat12_construct_file_name (λ _. 0) f ≡ codes "."
unfolding strcmp fat12_construct_file_name string_in name_buffer copy_field add_dot tolower strlen
empty-name f = refl

one_file-other : (j : ℕ) → j ≢ 0 → j < 224 → matches one_file 0x6000 (codes "h.") j ≡ false
unfolding strcmp
one_file-other j ne l =
    let e =
      fat12_construct_file_name-cong (λ _. 0) one_file (entry_at 0x6000 j) (λ q lt. ground arith) in
    rw (e, empty-name (entry_at 0x6000 j)) refl

one_file-found : scan_entries one_file 0x6000 fat_num_root_entry (codes "h.") ≡ some 0x6000
one_file-found = scan_entries-found one_file 0x6000 fat_num_root_entry (codes "h.") 0 (
    first_index-found (matches one_file 0x6000 (codes "h.")) fat_num_root_entry 0 0 (record {
      above = omega arith;
      below = omega arith;
      passes = one_file-matches;
      earlier = λ j a l. absurd (omega arith);
    }))

abbrev pub free_files : Files
free_files = record {
  file_list = λ i. record {
    name = [];
    mode = codes "u";
    pos = buffer_of 0x9000 i;
    file_length = 0;
    start_cluster = 0;
    current_cluster = 0;
  };
  volume = file_volume;
}

one_file-CanOpen : CanOpen small_layout 0x9000 1 0 0x6000 (codes "h.") (2 ∷ []) free_files
unfolding strcmp first_index
one_file-CanOpen = record {
  free = refl;
  short = omega arith;
  root = refl;
  found = one_file-found;
  chain = last (inr (omega arith));
  clusters = ((omega arith, omega arith), tt);
  enough = omega arith;
  transfer = omega arith;
  room = omega arith;
  below = omega arith;
}

do_fopen-do_fread_example :
    (t : Files) × (do_fopen small_layout 0x9000 1 (codes "h.") (codes "r") free_files
      ≡ some (some 0, t))
    × ((t.file_list 0).file_length ≡ 0)
    × ((do_fread 0x9000 0x100 2 50 0 t).0 ≡ 50)
    × ((j : ℕ)
        → j < 100
        → (do_fread 0x9000 0x100 2 50 0 t).1.volume.mem (0x100 + j)
          ≡ disk_byte file_volume (2 ∷ []) j)
do_fopen-do_fread_example =
    do_fopen-do_fread small_layout 0x9000 1 0 0x6000 0x100 2 50 (codes "h.") (2 ∷ []) free_files
      one_file-CanOpen (omega arith) (omega arith) (omega arith)

fat12_rm-removed_example :
    (w : Volume) × (fat12_rm small_layout 1 (codes "h.") file_volume ≡ some (true, w))
    × (fat12_find_entry small_layout 1 (codes "h.") w ≡ some (none, w))
    × (w.fat ≡ one_chain)
fat12_rm-removed_example =
    fat12_rm-removed small_layout 1 b'h' 0 (codes ".") (2 ∷ []) file_volume
      (omega arith, omega arith) refl (omega arith) (λ e. ground arith) (omega arith)
      one_file-matches one_file-other (last (inr (omega arith))) (omega arith)

abbrev pub unused_files : Files
unused_files = record free_files { volume = small_volume (codes "/") 19 }

pub one_entry-others :
    (j : ℕ) → j < 224 → matches one_entry 0x6000 (codes "test" ++ b'.' ∷ codes "txt") j ≡ false
unfolding strcmp
one_entry-others j l = elim (ℕ_discrete j 0) [
  | yes e ↦ one_entry-other j (omega arith)
  | no ne ↦
      let e =
        fat12_construct_file_name-cong (λ _. 0) one_entry (entry_at 0x6000 j)
          (λ q lt. ground arith) in
      rw (e, empty-name (entry_at 0x6000 j)) refl
]

do_fopen-do_fclose_example :
    (t : Files) × (u : Files) × (do_fopen small_layout 0x9000 0
        (codes "test" ++ b'.' ∷ codes "txt")
        (codes "w")
        unused_files
      ≡ some (some 0, t))
    × (do_fclose small_layout 0x9000 0 (fwrite_all 0 two_chunks t) ≡ some (0, u))
    × (fat12_find_entry small_layout 0 (codes "test" ++ b'.' ∷ codes "txt") u.volume
        ≡ some (some 0x6020, u.volume))
    × (file_length u.volume.mem 0x6020 ≡ 23)
unfolding strcmp first_index
do_fopen-do_fclose_example =
    do_fopen-do_fclose small_layout 0x9000 0 0 1 (codes "test") (codes "txt") two_chunks
      unused_files refl refl (omega arith) (omega arith)
      ((omega arith, omega arith), ((omega arith, omega arith), tt)) stem-Fits ext-Fits refl
      (omega arith) one_entry-IsFirst one_entry-others
