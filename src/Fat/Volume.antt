-- ===== src/Fat/Volume.antt =====
-- The current directory and the files of a volume: include/fat12.h. `none` stands for a loop that
-- needs more fuel, for a crash, or for a name that overflows the local `tmp_name`.
use advanced_os.Base.{
  ℕ, ◌+◌, bit_or, Bool, true, false, Option, none, some, List, ltb, ◌==◌, if◌then◌else◌, length,
  get_or, codes, update, first_index,
}
use Prim.Native.String.{String}
use advanced_os.Base.Options.{◌>>=◌}
use advanced_os.Memory.{Mem}
use advanced_os.Ide.{Disk, read_sectors}
use advanced_os.Cstr.{strcpy, strcat, strcmp, strsep, reverse_str}
use advanced_os.Console.{Console}
use advanced_os.Format.{put_error}
use advanced_os.Fat.{fat12_load_fat, fat12_read_clusters, fat12_del_fat_entry, fat12_alloc}
use advanced_os.Fat.Dates.{date_to_int, time_to_int}
use advanced_os.Fat.Entry.{
  string_in, scan_entries, entry_at, fat_num_root_entry, fat_num_dir_entry, start_cluster,
  file_length, store16, store_long, fill_field,
}

-- Where the linker puts the static objects.
pub record Layout : Type 0 where
  pub bootsector : ℕ
  pub phys_fat : ℕ
  pub root_dir : ℕ
  pub subdir : ℕ

-- The state: memory with the directories, the disk, the two tables, and the console with
-- `curr_path` and `curr_dir`.
pub record Volume : Type 0 where
  pub mem : Mem
  pub disk : Disk
  pub fat : ℕ → ℕ
  pub phys : ℕ → ℕ
  pub console : Console

abbrev pub fat_root_region_start : ℕ
fat_root_region_start = 19

-- The length of the array `curr_path`.
abbrev pub path_room : ℕ
path_room = 50

-- `set_curr_dir`, `get_curr_dir`, `set_curr_path` and `get_curr_path`. No copy to `curr_path` is
-- checked; `none` is one that runs over its end.
abbrev pub set_curr_dir : ℕ → Volume → Volume
set_curr_dir dir v = record v { console = record v.console { curr_dir = dir } }

abbrev pub get_curr_dir : Volume → ℕ
get_curr_dir v = v.console.curr_dir

abbrev pub set_curr_path : List ℕ → Volume → Option Volume
set_curr_path path v =
    if ltb (length path) path_room
    then some (record v { console = record v.console { curr_path = strcpy path } })
    else none

abbrev pub get_curr_path : Volume → List ℕ
get_curr_path v = strcpy v.console.curr_path

-- `fat12_init`.
unfoldable pub fat12_init : Layout → Volume → Option Volume
fat12_init l v =
    let boot = read_sectors v.disk l.bootsector 0 1 v.mem in
    let loaded = read_sectors v.disk l.phys_fat 1 9 boot in
    let phys = λ (i : ℕ). loaded (l.phys_fat + i) in
    set_curr_path (codes "/") (
      set_curr_dir fat_root_region_start (record v {
        mem = read_sectors v.disk l.root_dir fat_root_region_start 14 loaded;
        fat = fat12_load_fat phys v.fat;
        phys = phys;
      }))

-- `reverse` of a string in its own buffer.
abbrev pub reverse_text : List ℕ → List ℕ
reverse_text s = string_in (reverse_str (length s) (λ i. get_or s i 0)) (length s + 1) 0

-- `..`: what stands behind the first `/` of the reversed path, reversed; NULL without a `/`.
unfoldable pub parent_path : (path : List ℕ) → Option (List ℕ)
parent_path path = do
  rest ← (strsep (reverse_text path) (codes "/")).1
  some (strcpy (reverse_text rest))

-- `fat12_set_dir`.
unfoldable pub fat12_set_dir : (new_dir : ℕ) (action : List ℕ) → Volume → Option Volume
fat12_set_dir new_dir action v =
    let path = v.console.curr_path in
    let dir = if new_dir == 0 then fat_root_region_start else new_dir in
    if get_curr_dir v == fat_root_region_start
    then set_curr_path (strcat (strcpy (codes "/")) action) (set_curr_dir new_dir v)
    else if strcmp action (codes ".") == 0
    then some (set_curr_dir dir v)
    else if strcmp action (codes "..") == 0
    then (do
      parent ← parent_path path
      set_curr_path (if dir == fat_root_region_start then codes "/" else parent)
          (set_curr_dir dir v))
    else set_curr_path (strcat (strcat path (codes "/")) action) (set_curr_dir dir v)

-- `fat12_find_entry`: the address of the entry, `none` for NULL; a subdirectory is read first.
unfoldable pub fat12_find_entry :
    Layout → (fuel : ℕ) (folder : List ℕ) → Volume → Option (Option ℕ × Volume)
fat12_find_entry l fuel folder v =
    if get_curr_dir v == fat_root_region_start
    then some (scan_entries v.mem l.root_dir fat_num_root_entry folder, v)
    else (do
      (_, m) ← fat12_read_clusters v.disk v.fat fuel l.subdir (get_curr_dir v) v.mem
      some (scan_entries m l.subdir fat_num_dir_entry folder, record v { mem = m }))

abbrev pub say_error : String → Volume → Volume
say_error str v = record v { console = put_error (codes str) v.console }

-- `fat12_cd`.
unfoldable pub fat12_cd : Layout → (fuel : ℕ) (folder : List ℕ) → Volume → Option (Bool × Volume)
fat12_cd l fuel folder v = do
  (fe, w) ← fat12_find_entry l fuel folder v
  elim fe [
    | none ↦ some (false, say_error "No such file or directory!" w)
    | some f ↦ do
      moved ← fat12_set_dir (start_cluster w.mem f) folder w
      (_, m) ←
          fat12_read_clusters moved.disk moved.fat fuel l.subdir (start_cluster moved.mem f)
            moved.mem
      some (true, record moved { mem = m })
  ]

-- `fat12_rm`.
unfoldable pub fat12_rm : Layout → (fuel : ℕ) (filename : List ℕ) → Volume → Option (Bool × Volume)
fat12_rm l fuel filename v = do
  (fe, w) ← fat12_find_entry l fuel filename v
  elim fe [
    | none ↦ some (false, say_error "No such file or directory!" w)
    | some f ↦ do
      let m = update w.mem f 0xE5
      (m', phys) ← fat12_del_fat_entry w.fat fuel (start_cluster m f) w.phys m
      some (true, record w { mem = m'; phys = phys })
  ]

-- `fat12_read_file`: the length of the file that was read to `addr`, which goes to `*size`; `none`
-- for the result false.
unfoldable pub fat12_read_file :
    Layout → (fuel : ℕ) (filename : List ℕ) (addr : ℕ) → Volume → Option (Option ℕ × Volume)
fat12_read_file l fuel filename addr v =
    elim (scan_entries v.mem l.root_dir fat_num_root_entry filename) [
      | none ↦ some (none, say_error "FAT No this file!" v)
      | some f ↦ do
        (_, m) ← fat12_read_clusters v.disk v.fat fuel addr (start_cluster v.mem f) v.mem
        some (some (file_length m f), record v { mem = m })
    ]

-- The fields of a new entry at `f`.
unfoldable pub fill_entry : Mem → (f cstart size : ℕ) (stem ext : List ℕ) → Mem
fill_entry m f cstart size stem ext =
    let named = fill_field (fill_field m f 8 stem) (f + 8) 3 ext in
    let marked = update named (f + 11) (bit_or (named (f + 11)) 0x20) in
    let placed = store_long (store16 marked (f + 26) cstart) (f + 28) size in
    store16 (store16 placed (f + 24) (date_to_int 2019 6 23)) (f + 22) (time_to_int 0 0 0)

-- Is the entry's name empty?
abbrev pub is_free : Mem → (base i : ℕ) → Bool
is_free m base i = m (entry_at base i) == 0

-- The body of the second loop of `fat12_create_file` at the entry that it stops at, if any.
-- `strsep` leaves NULL for a name without a dot, from which `strcpy` reads.
unfoldable pub enter_file :
    (m : Mem) (root_dir cstart size : ℕ) (name : List ℕ) → Option ℕ → Option Mem
enter_file m root_dir cstart size name none = some m
enter_file m root_dir cstart size name (some i) = if ltb 19 (length name) then none else (do
  let (stem, left) = strsep (strcpy name) (codes ".")
  ext ← left
  some (fill_entry m (entry_at root_dir i) cstart size stem ext))

-- That loop: the first free entry of the root directory takes the file.
unfoldable pub add_entry : Layout → Mem → (cstart size : ℕ) (name : List ℕ) → Option Mem
add_entry l m cstart size name =
    enter_file m l.root_dir cstart size name
      (first_index (is_free m l.root_dir) fat_num_root_entry 0)

-- `fat12_create_file`; the data at `addr` is not written.
unfoldable pub fat12_create_file : Layout → (addr size : ℕ) (name : List ℕ) → Volume → Option Volume
fat12_create_file l addr size name v =
    let a = fat12_alloc v.fat size in
    do m ← add_entry l v.mem a.start size name; some (record v { mem = m; fat = a.table })

-- `fat12_cp`, for the address of its `buf`.
unfoldable pub fat12_cp :
    Layout → (fuel buf : ℕ) (src dst : List ℕ) → Volume → Option (Bool × Volume)
fat12_cp l fuel buf src dst v = do
  (size, w) ← fat12_read_file l fuel src buf v
  elim size [
    | none ↦ some (false, w)
    | some n ↦ do w' ← fat12_create_file l buf n dst w; some (true, w')
  ]
