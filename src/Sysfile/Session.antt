-- ===== src/Sysfile/Session.antt =====
-- A new file from `do_fopen` to `do_fclose`.
use advanced_os.Base.{
  ℕ, ◌+◌, ◌^◌, ◌≤◌, ◌<◌, ◌≡◌, refl, sym, ap, ◌∙◌, ◌⊎◌, true, false, none, some, List, [], ◌∷◌, ◌++◌,
  subst, arith, length, All, codes, update_self, IsFirst, ==_refl, lt→ltb, first_index-absent,
}
use advanced_os.Fat.Volume.{is_free, fat12_find_entry, get_curr_dir, fat_root_region_start, Layout}
use advanced_os.Memory.Blocks.{memcpy-Outside}
use advanced_os.Sysfile.{
  File, Files, buffer_of, buffer_size, put_file, has_mode, free_file, open_entry, open_file,
  do_fopen, do_fclose,
}
use advanced_os.Sysfile.Streams.{
  Chunk, IsAway, IsWritable, chunk_length, total_length, fwrite_all, written, do_fwrite-written,
  written-IsWritable, fwrite_all-appends,
}
use advanced_os.Cstr.{strcmp, strcpy}
use advanced_os.Fat.Entry.{entry_at, matches, scan_entries, file_length, fat_num_root_entry}
use advanced_os.Fat.Names.{Fits, name_length}
use advanced_os.Fat.Find.{fat12_construct_file_name-cong, strcpy_self}
use advanced_os.Sysfile.Closing.{do_fclose-fat12_find_entry}
use advanced_os.Console.{Console}
use advanced_os.Memory.{Mem}

-- What the writes leave as it was: the file's name and mode, the console, and the memory outside of
-- the buffer.
record Untouched (base fp : ℕ) (s t : Files) : Type 0 where
  name : (t.file_list fp).name ≡ (s.file_list fp).name
  mode : (t.file_list fp).mode ≡ (s.file_list fp).mode
  console : t.volume.console ≡ s.volume.console
  outside :
      (a : ℕ)
      → (a < buffer_of base fp) ⊎ (buffer_of base fp + buffer_size ≤ a)
      → t.volume.mem a ≡ s.volume.mem a

fwrite_all-Untouched :
    (base fp : ℕ) (cs : List Chunk) (s : Files)
    → IsWritable base fp (total_length cs) s
    → All (IsAway (buffer_of base fp)) cs
    → Untouched base fp s (fwrite_all fp cs s)
fwrite_all-Untouched base fp [] s h a = record {
  name = refl;
  mode = refl;
  console = refl;
  outside = λ a o. refl;
}
fwrite_all-Untouched base fp (c ∷ cs) s h a =
    let n = total_length cs in
    let f = s.file_list fp in
    let begins = h.begins in
    let room = h.room in
    let below = h.below in
    let step = do_fwrite-written base fp n c s h in
    let e = update_self s.file_list (record f { pos = f.pos + chunk_length c }) fp in
    let rest =
      fwrite_all-Untouched base fp cs (written fp c s) (written-IsWritable base fp n c s h) a.1 in
    subst (λ (t : Files). Untouched base fp s (fwrite_all fp cs t)) (sym step)
      (record {
        name = rest.name ∙ ap (λ (x : File). x.name) e;
        mode = rest.mode ∙ ap (λ (x : File). x.mode) e;
        console = rest.console;
        outside = λ q o.
            rest.outside q o
            ∙ memcpy-Outside (chunk_length c) s.volume.mem f.pos c.source q (omega arith) a.0.0
                (omega arith);
      })

-- The files behind `do_fopen` of a new name for writing.
abbrev pub begun : (fp : ℕ) (pname : List ℕ) → Files → Files
begun fp pname s =
    let named = put_file fp (record (s.file_list fp) { name = strcpy pname }) s in
    put_file fp (record (named.file_list fp) { mode = codes "w" }) named

pub do_fopen-begun :
    (l : Layout) (base fuel fp : ℕ) (pname : List ℕ) (s : Files)
    → free_file s ≡ some fp
    → length pname < 32
    → get_curr_dir s.volume ≡ fat_root_region_start
    → scan_entries s.volume.mem l.root_dir fat_num_root_entry pname ≡ none
    → do_fopen l base fuel pname (codes "w") s ≡ some (some fp, begun fp pname s)
unfolding do_fopen open_file open_entry fat12_find_entry strcpy strcmp
do_fopen-begun l base fuel fp pname s free short root missing =
    rw (free, lt→ltb (length pname) 32 short, root, missing) refl

pub begun-file :
    (fp : ℕ) (pname : List ℕ) (s : Files)
    → (begun fp pname s).file_list fp
      ≡ record (s.file_list fp) { name = strcpy pname; mode = codes "w" }
begun-file fp pname s = rw (==_refl fp) refl

pub is_writable : (f : File) → f.mode ≡ codes "w" → has_mode "w" f ≡ true
unfolding strcmp
is_writable f e = rw e refl

pub scan_entries-missing :
    (m : Mem) (base : ℕ) (name : List ℕ)
    → ((j : ℕ) → j < fat_num_root_entry → matches m base name j ≡ false)
    → scan_entries m base fat_num_root_entry name ≡ none
unfolding scan_entries
scan_entries-missing m base name h =
    rw (first_index-absent (matches m base name) fat_num_root_entry 0 (λ j _ l. h j (omega arith)))
      refl

-- A new file that is opened for writing, written by calls of `do_fwrite` whose bytes the buffer has
-- room for, and closed is found under its name with the number of these bytes as its length. The
-- root directory is current, lies outside of the buffer and has a free entry, but none of the name,
-- which has a stem of one to eight and an extension of one to three characters, none of them a NUL,
-- a space, a dot or an upper-case letter; the `FILE` that is free first has its `pos` at its
-- buffer's start; the objects that are written lie outside of the buffer, and nothing runs over the
-- end of memory.
pub do_fopen-do_fclose :
    (l : Layout) (base fuel fp e : ℕ) (stem ext : List ℕ) (cs : List Chunk) (s : Files)
    → free_file s ≡ some fp
    → (s.file_list fp).pos ≡ buffer_of base fp
    → total_length cs ≤ buffer_size
    → buffer_of base fp + buffer_size < 2 ^ 32
    → All (IsAway (buffer_of base fp)) cs
    → Fits 8 stem
    → Fits 3 ext
    → get_curr_dir s.volume ≡ fat_root_region_start
    → (l.root_dir + 7168 ≤ buffer_of base fp) ⊎ (buffer_of base fp + buffer_size ≤ l.root_dir)
    → IsFirst (is_free s.volume.mem l.root_dir) fat_num_root_entry 0 e
    → ((j : ℕ)
        → j < fat_num_root_entry
        → matches s.volume.mem l.root_dir (stem ++ b'.' ∷ ext) j ≡ false)
    → let name = stem ++ b'.' ∷ ext in
      let f = entry_at l.root_dir e in
      (t : Files) × (u : Files) × (do_fopen l base fuel name (codes "w") s ≡ some (some fp, t))
      × (do_fclose l base fp (fwrite_all fp cs t) ≡ some (0, u))
      × (fat12_find_entry l fuel name u.volume ≡ some (some f, u.volume))
      × (file_length u.volume.mem f ≡ total_length cs)
do_fopen-do_fclose l base fuel fp e stem ext cs s free pos capacity below away st ex root apart
      first others =
    let name = stem ++ b'.' ∷ ext in
    let t = begun fp name s in
    let w = fwrite_all fp cs t in
    let m = s.volume.mem in
    let file = begun-file fp name s in
    let writable : IsWritable base fp (total_length cs) t = record {
      mode = is_writable (t.file_list fp) (ap (λ (x : File). x.mode) file);
      begins = rw file (omega arith);
      room = rw file (omega arith);
      below = below;
    } in
    let un = fwrite_all-Untouched base fp cs t writable away in
    let end : (w.file_list fp).pos ≡ buffer_of base fp + total_length cs =
      (fwrite_all-appends base fp cs t writable away).1 ∙ rw file (omega arith) in
    let below_end = first.below in
    let free_entry : IsFirst (is_free w.volume.mem l.root_dir) fat_num_root_entry 0 e = record {
      above = omega arith;
      below = below_end;
      passes = rw (un.outside (entry_at l.root_dir e) (omega arith)) first.passes;
      earlier =
          λ j a b. rw (un.outside (entry_at l.root_dir j) (omega arith)) (first.earlier j a b);
    } in
    let same = λ (j : ℕ) (b : j < fat_num_root_entry).
      fat12_construct_file_name-cong m w.volume.mem (entry_at l.root_dir j)
        (λ q lt. un.outside (entry_at l.root_dir j + q) (omega arith)) in
    let (u, ret, _, found, len) =
      do_fclose-fat12_find_entry l base fp fuel stem ext w e
        (is_writable (w.file_list fp) (un.mode ∙ ap (λ (x : File). x.mode) file))
        (un.name ∙ (ap (λ (x : File). x.name) file ∙ strcpy_self name)) (omega arith) (omega arith)
        st ex (ap (λ (x : Console). x.curr_dir) un.console ∙ root) free_entry
        (λ j b. rw (same j (omega arith)) (others j (omega arith))) in
    (
      t,
      u,
      do_fopen-begun l base fuel fp name s free
          (omega (arith, name_length stem ext, st.0.1, ex.0.1)) root
          (scan_entries-missing m l.root_dir name others),
      ret,
      found,
      len ∙ omega arith,
    )
