-- ===== src/Sysfile/Reading.antt =====
-- Files that are opened and read.
use advanced_os.Base.{
  ℕ, ◌+◌, ◌*◌, ◌/◌, ◌%◌, ◌^◌, ◌≤◌, ◌<◌, ◌≡◌, refl, ap, ◌∙◌, ◌⊎◌, some, List, arith, length, get_or,
  All, codes, ==_refl, lt→ltb,
}
use advanced_os.Memory.{Mem, u32}
use advanced_os.Memory.Blocks.{memcpy_copies}
use advanced_os.Cstr.{strcpy}
use advanced_os.Ide.{tmp_user_addr}
use advanced_os.Fat.Chain.{Chain, IsCluster, Loaded, fat12_read_clusters-Loaded}
use advanced_os.Fat.Entry.{scan_entries, start_cluster, file_length, fat_num_root_entry}
use advanced_os.Fat.Volume.{Layout, Volume, fat12_find_entry, get_curr_dir, fat_root_region_start}
use advanced_os.Sysfile.{
  Files, buffer_of, buffer_size, put_file, set_mem, free_file, open_entry, open_file, do_fopen,
  do_fread,
}

-- The byte `j` of the file with the clusters `cs`.
abbrev pub disk_byte : Volume → List ℕ → ℕ → ℕ
disk_byte v cs j = v.disk (get_or cs (j / 512) 0 + 31) (j % 512)

-- What `do_fopen` finds: a free file, the entry in the root directory, and its chain of clusters,
-- for which the buffer has room.
pub record CanOpen (l : Layout) (base fuel i f : ℕ) (pname cs : List ℕ) (s : Files) : Type 0 where
  pub free : free_file s ≡ some i
  pub short : length pname < 32
  pub root : get_curr_dir s.volume ≡ fat_root_region_start
  pub found : scan_entries s.volume.mem l.root_dir fat_num_root_entry pname ≡ some f
  pub chain : Chain s.volume.fat (start_cluster s.volume.mem f) cs
  pub clusters : All IsCluster cs
  pub enough : length cs ≤ fuel
  pub transfer : tmp_user_addr + 512 ≤ buffer_of base i
  pub room : length cs * 512 ≤ buffer_size
  pub below : buffer_of base i + buffer_size < 2 ^ 32

abbrev opened : (i f : ℕ) (pname : List ℕ) → Mem → Files → Files
opened i f pname mem s =
    let named = put_file i (record (s.file_list i) { name = strcpy pname }) s in
    let file = record (named.file_list i) {
      mode = codes "r";
      file_length = file_length s.volume.mem f;
      start_cluster = start_cluster s.volume.mem f;
      current_cluster = start_cluster s.volume.mem f;
    } in
    set_mem mem (put_file i file named)

do_fopen-opened :
    (l : Layout) (base fuel i f : ℕ) (pname cs : List ℕ) (s : Files)
    → CanOpen l base fuel i f pname cs s
    → (m : Mem) × (do_fopen l base fuel pname (codes "r") s ≡ some (some i, opened i f pname m s))
      × Loaded s.volume.disk (buffer_of base i) 0 cs s.volume.mem m
unfolding do_fopen open_file open_entry fat12_find_entry strcpy
do_fopen-opened l base fuel i f pname cs s h =
    let v = s.volume in
    let room = h.room in
    let below = h.below in
    let (m, n, ret, len, loaded) =
      fat12_read_clusters-Loaded v.disk v.fat fuel (buffer_of base i) v.mem h.chain h.clusters
        h.enough h.transfer (omega arith) in
    (m, rw (h.free, lt→ltb (length pname) 32 h.short, h.root, h.found, ret) refl, loaded)

-- While the root directory is current, a file of it that `do_fopen` opens for reading, when a
-- `FILE` is free, the name is shorter than 32 characters, the fuel is enough for the chain of the
-- file's clusters and the buffer, which stands behind the transfer buffer, has room for them, is
-- read by `do_fread` from its start: each byte that arrives is the one of the disk, for no more
-- bytes than the clusters hold, to a place outside of the buffer. The number of objects is returned,
-- and the file has the length of its entry.
pub do_fopen-do_fread :
    (l : Layout) (base fuel i f buf size count : ℕ) (pname cs : List ℕ) (s : Files)
    → CanOpen l base fuel i f pname cs s
    → size * count ≤ length cs * 512
    → buf + size * count ≤ 2 ^ 32
    → (buf + size * count ≤ buffer_of base i) ⊎ (buffer_of base i + buffer_size ≤ buf)
    → (t : Files) × (do_fopen l base fuel pname (codes "r") s ≡ some (some i, t))
      × ((t.file_list i).file_length ≡ file_length s.volume.mem f)
      × ((do_fread base buf size count i t).0 ≡ count)
      × ((j : ℕ)
          → j < size * count
          → (do_fread base buf size count i t).1.volume.mem (buf + j) ≡ disk_byte s.volume cs j)
unfolding do_fread
do_fopen-do_fread l base fuel i f buf size count pname cs s h few top apart =
    let (m, ret, loaded) = do_fopen-opened l base fuel i f pname cs s h in
    let room = h.room in
    let below = h.below in
    let n = size * count in
    let small : u32 n ≡ n = omega arith in
    (
      opened i f pname m s,
      ret,
      rw (==_refl i) refl,
      refl,
      λ j lt.
          let copied =
            memcpy_copies n m buf (buffer_of base i) j top (omega arith) (omega arith) lt in
          let e : buffer_of base i + j ≡ buffer_of base i + (0 + j / 512) * 512 + j % 512 =
            omega arith in
          let byte = loaded.bytes (j / 512) (j % 512) (omega arith) (omega arith) in
          rw small (copied ∙ (ap m e ∙ byte)),
    )
