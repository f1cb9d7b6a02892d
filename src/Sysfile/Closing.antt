-- ===== src/Sysfile/Closing.antt =====
-- Closing a file that was written enters it into the root directory.
use advanced_os.Base.{
  ℕ, ◌+◌, ◌-◌, ◌^◌, ◌≤◌, ◌<◌, ◌≡◌, refl, true, false, some, List, ◌∷◌, ◌++◌, arith, codes,
  update_self, IsFirst,
}
use advanced_os.Memory.{u32}
use advanced_os.Fat.{fat12_alloc}
use advanced_os.Fat.Entry.{entry_at, matches, file_length, fat_num_root_entry}
use advanced_os.Fat.Names.{Fits}
use advanced_os.Fat.Volume.{Layout, is_free, fat12_find_entry, get_curr_dir, fat_root_region_start}
use advanced_os.Fat.Create.{fill_entry-fields}
use advanced_os.Fat.Find.{created, entry-scan, fat12_create_file-created, fat12_alloc-start}
use advanced_os.Cstr.{strcmp}
use advanced_os.Sysfile.{Files, buffer_of, put_file, has_mode, do_fclose, close_file}

-- The state behind `do_fclose` of such a file.
abbrev closed : Layout → (base fp i : ℕ) (stem ext : List ℕ) → Files → Files
closed l base fp i stem ext s =
    let f = s.file_list fp in
    let v = created l (f.pos - buffer_of base fp) stem ext s.volume i in
    put_file fp (record f { mode = codes "u" })
      (record s { volume = record v { console = record v.console { enabled = true } } })

close_file-created :
    (l : Layout) (base fp : ℕ) (stem ext : List ℕ) (s : Files) (i : ℕ)
    → has_mode "w" (s.file_list fp) ≡ true
    → (s.file_list fp).name ≡ stem ++ b'.' ∷ ext
    → buffer_of base fp ≤ (s.file_list fp).pos
    → (s.file_list fp).pos < 2 ^ 32
    → Fits 8 stem
    → Fits 3 ext
    → IsFirst (is_free s.volume.mem l.root_dir) fat_num_root_entry 0 i
    → close_file l base fp s
      ≡ some (created l ((s.file_list fp).pos - buffer_of base fp) stem ext s.volume i)
unfolding close_file
close_file-created l base fp stem ext s i w e b p st ex first =
    let f = s.file_list fp in
    let buffer = buffer_of base fp in
    let size : u32 (f.pos + 2 ^ 32 - buffer) ≡ f.pos - buffer = omega arith in
    rw (w, e, size)
      (fat12_create_file-created l buffer (f.pos - buffer) stem ext s.volume i st ex first)

-- `do_fclose` of a file that is open for writing, with `pos` behind its buffer's start, under a name
-- with a stem of one to eight and an extension of one to three characters, none of them a NUL, a
-- space, a dot or an upper-case letter, succeeds when the root directory is current and has a free
-- entry, and no entry before the first free one has the name: the file is free again, and the name
-- is found, with the number of bytes from the buffer to `pos` as its length.
pub do_fclose-fat12_find_entry :
    (l : Layout) (base fp fuel : ℕ) (stem ext : List ℕ) (s : Files) (i : ℕ)
    → has_mode "w" (s.file_list fp) ≡ true
    → (s.file_list fp).name ≡ stem ++ b'.' ∷ ext
    → buffer_of base fp ≤ (s.file_list fp).pos
    → (s.file_list fp).pos < 2 ^ 32
    → Fits 8 stem
    → Fits 3 ext
    → get_curr_dir s.volume ≡ fat_root_region_start
    → IsFirst (is_free s.volume.mem l.root_dir) fat_num_root_entry 0 i
    → ((j : ℕ) → j < i → matches s.volume.mem l.root_dir (stem ++ b'.' ∷ ext) j ≡ false)
    → let f = entry_at l.root_dir i in
      (t : Files) × (do_fclose l base fp s ≡ some (0, t))
      × (has_mode "u" (t.file_list fp) ≡ true)
      × (fat12_find_entry l fuel (stem ++ b'.' ∷ ext) t.volume ≡ some (some f, t.volume))
      × (file_length t.volume.mem f ≡ (s.file_list fp).pos - buffer_of base fp)
unfolding do_fclose fat12_find_entry strcmp
do_fclose-fat12_find_entry l base fp fuel stem ext s i w e b p st ex dir first earlier =
    let f = s.file_list fp in
    let size = f.pos - buffer_of base fp in
    let m = s.volume.mem in
    let start = (fat12_alloc s.volume.fat size).start in
    let scan =
      entry-scan m l.root_dir i start size stem ext st ex (omega (arith, first.below)) earlier in
    let limit = fat12_alloc-start s.volume.fat size in
    let fields =
      fill_entry-fields m (entry_at l.root_dir i) start size stem ext (omega arith) (omega arith) in
    let free = update_self s.file_list (record f { mode = codes "u" }) fp in
    (
      closed l base fp i stem ext s,
      rw (close_file-created l base fp stem ext s i w e b p st ex first) refl,
      rw free refl,
      rw (dir, scan) refl,
      fields.1,
    )
