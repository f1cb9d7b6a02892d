-- ===== src/Sysfile.antt =====
-- The file layer, include/sysfile.h, and its interrupt, `sys_file_handler_main` of
-- include/syscall.h. `none` stands for what the volume gives `none` for, for a string that does not
-- fit the field it is copied to, and for a use of a NULL entry.
pub mod Streams
pub mod Closing
pub mod Reading
pub mod Session
use advanced_os.Base.{
  ℕ, zero, suc, ◌+◌, ◌-◌, ◌*◌, ◌/◌, ◌%◌, ◌^◌, ◌≤◌, ◌<◌, min, bit_and, bit_or, ◌≡◌, refl, sym, ap,
  ◌∙◌, fun_ext, ◌≢◌, ◌↔◌, ◌⊎◌, inl, inr, Bool, true, false, ◌&&◌, ◌||◌, not, Option, none, some,
  List, [], ◌∷◌, ◌++◌, map, reverse, append_assoc, append-nil, subst, arith, dec_lt, ℕ_discrete,
  ltb, leb, ◌==◌, if◌then◌else◌, Bool-cases, Option-cases, length, get_elem?, get_or, take, drop,
  All, codes, update, update_self, update_ne, first_index, first_index-some, first_index-none,
  first_index-found, IsFirst, ==_refl, ==_ne, lt→ltb, le→ltb, eq_of_some,
}
use advanced_os.Memory.{memset, Mem, u32, memcpy}
use Prim.Native.String.{String}
use advanced_os.Base.Options.{◌>>=◌}
use advanced_os.Cstr.{strlen, strcpy, strcmp}
use advanced_os.Fat.{fat12_read_clusters}
use advanced_os.Fat.Entry.{string_in, start_cluster, file_length}
use advanced_os.Fat.Volume.{Layout, Volume, fat12_find_entry, fat12_create_file}

abbrev pub max_file_num : ℕ
max_file_num = 10

-- `struct _FILE`, its buffer aside, which lies in memory. `pos` is an address.
pub record File : Type 0 where
  pub name : List ℕ
  pub mode : List ℕ
  pub pos : ℕ
  pub file_length : ℕ
  pub start_cluster : ℕ
  pub current_cluster : ℕ

-- The files, and the volume they stand on.
pub record Files : Type 0 where
  pub file_list : ℕ → File
  pub volume : Volume

-- The buffer of a file, for the address of `file_list`: 1024 bytes behind the name and the mode of
-- a structure of 1076.
abbrev pub buffer_size : ℕ
buffer_size = 1024

abbrev pub buffer_of : (base i : ℕ) → ℕ
buffer_of base i = base + i * 1076 + 36

abbrev pub put_file : ℕ → File → Files → Files
put_file i f s = record s { file_list = update s.file_list i f }

abbrev pub set_mem : Mem → Files → Files
set_mem m s = record s { volume = record s.volume { mem = m } }

-- `strcpy` to a field of `n` bytes.
abbrev pub fits : (n : ℕ) → List ℕ → Option (List ℕ)
fits n s = if ltb (length s) n then some (strcpy s) else none

-- `n` rounds of the loop of `file_init`, from `i` on.
unfoldable pub init_files : (base n i : ℕ) → Files → Files
init_files base zero i s = s
init_files base (suc n) i s =
    let free : File = record {
      name = [];
      mode = codes "u";
      pos = buffer_of base i;
      file_length = 0;
      start_cluster = 0;
      current_cluster = 0;
    } in
    let cleared = set_mem (memset s.volume.mem (buffer_of base i) 0 buffer_size) s in
    init_files base n (i + 1) (put_file i free cleared)

-- `file_init`.
unfoldable pub file_init : (base : ℕ) → Files → Files
file_init base s = init_files base max_file_num 0 s

abbrev pub has_mode : String → File → Bool
has_mode mode f = strcmp f.mode (codes mode) == 0

-- The first file that is not in use.
abbrev pub free_file : Files → Option ℕ
free_file s = first_index (λ i. has_mode "u" (s.file_list i)) max_file_num 0

-- The end of `do_fopen`, for the entry that was found, if any; the result is the file's index, or
-- `none` for NULL.
unfoldable pub open_entry :
    (base fuel i : ℕ) (mode : List ℕ) (fe : Option ℕ) → Files → Option (Option ℕ × Files)
open_entry base fuel i mode none s =
    if strcmp mode (codes "w") == 0
    then (do m ← fits 4 mode; some (some i, put_file i (record (s.file_list i) { mode = m }) s))
    else if strcmp mode (codes "r") == 0
    then some (none, s)
    else none
open_entry base fuel i mode (some f) s = do
  m ← fits 4 mode
  let v = s.volume
  let opened = record (s.file_list i) {
    mode = m;
    file_length = file_length v.mem f;
    start_cluster = start_cluster v.mem f;
    current_cluster = start_cluster v.mem f;
  }
  (_, mem) ← fat12_read_clusters v.disk v.fat fuel (buffer_of base i) (start_cluster v.mem f) v.mem
  some (some i, set_mem mem (put_file i opened s))

-- `do_fopen` with the file that it takes, if any.
unfoldable pub open_file :
    Layout → (base fuel : ℕ) (pname mode : List ℕ) → Option ℕ → Files → Option (Option ℕ × Files)
open_file l base fuel pname mode none s = some (none, s)
open_file l base fuel pname mode (some i) s = do
  name ← fits 32 pname
  let named = put_file i (record (s.file_list i) { name = name }) s
  (fe, v) ← fat12_find_entry l fuel pname named.volume
  open_entry base fuel i mode fe (record named { volume = v })

-- `do_fopen`.
unfoldable pub do_fopen :
    Layout → (base fuel : ℕ) (pname mode : List ℕ) → Files → Option (Option ℕ × Files)
do_fopen l base fuel pname mode s = open_file l base fuel pname mode (free_file s) s

-- What `do_fclose` enters into the directory.
unfoldable pub close_file : Layout → (base fp : ℕ) → Files → Option Volume
close_file l base fp s =
    let f = s.file_list fp in
    let buffer = buffer_of base fp in
    if has_mode "w" f
    then fat12_create_file l buffer (u32 (f.pos + 2 ^ 32 - buffer)) f.name s.volume
    else some s.volume

-- `do_fclose`; `pos` stays.
unfoldable pub do_fclose : Layout → (base fp : ℕ) → Files → Option (ℕ × Files)
do_fclose l base fp s = do
  v ← close_file l base fp s
  let closed = record (s.file_list fp) { mode = codes "u" }
  let on = record v { console = record v.console { enabled = true } }
  some (0, put_file fp closed (record s { volume = on }))

-- `do_fread`.
unfoldable pub do_fread : (base buf size count fp : ℕ) → Files → ℕ × Files
do_fread base buf size count fp s =
    (count, set_mem (memcpy s.volume.mem buf (buffer_of base fp) (u32 (size * count))) s)

-- `memcpy` to `pos`, which moves behind the bytes.
unfoldable pub append_bytes : (src n fp : ℕ) → Files → Files
append_bytes src n fp s =
    let f = s.file_list fp in
    set_mem (memcpy s.volume.mem f.pos src n) (put_file fp (record f { pos = u32 (f.pos + n) }) s)

-- `do_fwrite`.
unfoldable pub do_fwrite : (buf size count fp : ℕ) → Files → ℕ × Files
do_fwrite buf size count fp s =
    if has_mode "w" (s.file_list fp)
    then (count, append_bytes buf (u32 (size * count)) fp s)
    else (0, s)

-- `do_fgets`.
unfoldable pub do_fgets : (base str count fp : ℕ) → Files → ℕ × Files
do_fgets base str count fp s = (str, set_mem (memcpy s.volume.mem str (buffer_of base fp) count) s)

-- `do_fputs`, for a string that ends within `fuel` bytes. Its length is taken again behind the copy.
unfoldable pub do_fputs : (fuel str fp : ℕ) → Files → ℕ × Files
do_fputs fuel str fp s =
    let f = s.file_list fp in
    let m = s.volume.mem in
    let copied = memcpy m f.pos str (strlen (string_in m fuel str)) in
    let pos = u32 (f.pos + strlen (string_in copied fuel str)) in
    if has_mode "w" f then (1, set_mem copied (put_file fp (record f { pos = pos }) s)) else (0, s)

-- A `FILE*` is 0 or the address of a file.
abbrev pub pointer_to : (base : ℕ) → Option ℕ → ℕ
pointer_to base none = 0
pointer_to base (some i) = base + i * 1076

abbrev pub file_at : (base p : ℕ) → ℕ
file_at base p = (p - base) / 1076

-- `sys_file_handler_main`, for what ebx, esi, edx and edi hold; `fuel` also bounds the strings.
unfoldable pub sys_file_handler_main :
    Layout → (base fuel num arg1 arg2 arg3 arg4 : ℕ) → Files → Option (ℕ × Files)
sys_file_handler_main l base fuel num arg1 arg2 arg3 arg4 s =
    let at = λ (a : ℕ). string_in s.volume.mem fuel a in
    if num == 0
    then (do (fp, s') ← do_fopen l base fuel (at arg1) (at arg2) s; some (pointer_to base fp, s'))
    else if num == 1
    then do_fclose l base (file_at base arg1) s
    else if num == 2
    then some (do_fread base arg1 arg2 arg3 (file_at base arg4) s)
    else if num == 3
    then some (do_fwrite arg1 arg2 arg3 (file_at base arg4) s)
    else if num == 4
    then some (do_fgets base arg1 arg2 (file_at base arg3) s)
    else if num == 5
    then some (do_fputs fuel arg1 (file_at base arg2) s)
    else some (0, s)
