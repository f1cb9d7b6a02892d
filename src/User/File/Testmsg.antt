-- ===== src/User/File/Testmsg.antt =====
-- The run of usr/file.c: the text comes back, and the file stands in the root directory.
use advanced_os.Base.{
  ℕ, ◌+◌, ◌-◌, ◌*◌, ◌^◌, ◌≤◌, ◌<◌, ◌≡◌, refl, ap, ◌∙◌, ◌⊎◌, true, false, Option, some, List, ◌∷◌,
  ◌++◌, arith, ◌==◌, length, All, codes, update_self, IsFirst, ==_ne, lt→ltb,
}
use advanced_os.Base.Options.{◌>>=◌}
use advanced_os.Fat.Cells.{string_in-Holds}
use advanced_os.Console.{Console}
use advanced_os.Sysfile.Closing.{do_fclose-fat12_find_entry}
use advanced_os.Sysfile.Session.{
  is_writable, begun, do_fopen-begun, begun-file, scan_entries-missing,
}
use advanced_os.Fat.Find.{fat12_construct_file_name-cong, strcpy_self}
use advanced_os.Fat.Names.{Fits, name_length}
use advanced_os.Task.State.{Regs}
use advanced_os.User.File.{write_text, read_text, use_file, main}
use advanced_os.User.Api.{fgets, fputs, fopen, fclose}
use advanced_os.Fat.Volume.{Layout, is_free, fat12_find_entry, get_curr_dir, fat_root_region_start}
use advanced_os.Fat.Entry.{string_in, entry_at, matches, file_length, fat_num_root_entry}
use advanced_os.Sysfile.{
  put_file, Files, buffer_of, buffer_size, set_mem, has_mode, do_fgets, do_fputs,
  sys_file_handler_main, free_file, do_fclose, File, pointer_to,
}
use advanced_os.Memory.{Mem, u32}
use advanced_os.User.File.Moves.{
  in_buffer, in_read, at_end, Apart, end-keeps, IsText, IsText-in_buffer, IsText-in_read,
  IsText-at_end, text-strlen, file_at_pointer,
}

-- The file behind the `fputs`.
abbrev put_text : (fp : ℕ) → (m : Mem) (pos : ℕ) → Files → Files
put_text fp m pos s = set_mem m (put_file fp (record (s.file_list fp) { pos = pos }) s)

module _ (l : Layout) (base fuel : ℕ) (regs : Regs) (fp written read : ℕ) (msg : List ℕ)
    (nonzero : All (λ c. 0 < c) msg) (enough : length msg < fuel) where
  write_text-eq :
      (s : Files)
      → has_mode "w" (s.file_list fp) ≡ true
      → (s.file_list fp).pos ≡ buffer_of base fp
      → 0 < length msg
      → Apart (buffer_of base fp) written read (length msg)
      → IsText s.volume.mem written msg
      → write_text l base fuel regs written (base + fp * 1076) s
        ≡ some (
            put_text fp
              (in_buffer s.volume.mem (buffer_of base fp) written (length msg))
              (buffer_of base fp + length msg)
              s)
  unfolding write_text fputs sys_file_handler_main do_fputs
  write_text-eq s mode pos some_text p t =
      let n = length msg in
      let b = buffer_of base fp in
      let m = s.volume.mem in
      let len = text-strlen m fuel written msg nonzero enough t in
      let len' =
        text-strlen (in_buffer m b written n) fuel written msg nonzero enough
          (IsText-in_buffer m b written read msg p t) in
      let wrap : u32 (b + n) ≡ b + n = omega (arith, p.buffer_below, p.room) in
      rw (file_at_pointer base fp, mode, len, lt→ltb 0 n some_text, pos, len', wrap) refl

  read_text-eq :
      (s : Files) (m : Mem)
      → s.volume.mem ≡ in_buffer m (buffer_of base fp) written (length msg)
      → Apart (buffer_of base fp) written read (length msg)
      → IsText m written msg
      → read_text l base fuel regs written read (base + fp * 1076) s
        ≡ some (msg, set_mem (at_end m (buffer_of base fp) written read (length msg)) s)
  unfolding read_text fgets sys_file_handler_main do_fgets
  read_text-eq s m e p t =
      let n = length msg in
      let b = buffer_of base fp in
      let len =
        text-strlen (in_buffer m b written n) fuel written msg nonzero enough
          (IsText-in_buffer m b written read msg p t) in
      let len' =
        text-strlen (in_read m b written read n) fuel written msg nonzero enough
          (IsText-in_read m b written read msg p t) in
      let shown =
        string_in-Holds (at_end m b written read n) fuel read msg nonzero enough
          (IsText-at_end m b written read msg p t) in
      rw (file_at_pointer base fp, e, len, len', shown) refl

-- What `main` finds: a file that is free, its names, and a root directory with room.
pub record CanWrite (l : Layout) (base fuel fp e pname mode : ℕ) (stem ext : List ℕ) (s : Files)
    : Type 0 where
  pub address : 0 < base
  pub free : free_file s ≡ some fp
  pub pos : (s.file_list fp).pos ≡ buffer_of base fp
  pub name_at : string_in s.volume.mem fuel pname ≡ stem ++ b'.' ∷ ext
  pub mode_at : string_in s.volume.mem fuel mode ≡ codes "w"
  pub stem_fits : Fits 8 stem
  pub ext_fits : Fits 3 ext
  pub root : get_curr_dir s.volume ≡ fat_root_region_start
  pub apart :
      (l.root_dir + 7168 ≤ buffer_of base fp) ⊎ (buffer_of base fp + buffer_size ≤ l.root_dir)
  pub first : IsFirst (is_free s.volume.mem l.root_dir) fat_num_root_entry 0 e
  pub missing :
      (j : ℕ)
      → j < fat_num_root_entry
      → matches s.volume.mem l.root_dir (stem ++ b'.' ∷ ext) j ≡ false

-- Closing it, behind writes that spare the root directory.
close_eq :
    (l : Layout) (base fuel fp e pname mode : ℕ) (stem ext : List ℕ) (s t : Files)
    → CanWrite l base fuel fp e pname mode stem ext s
    → (t.file_list fp).mode ≡ codes "w"
    → (t.file_list fp).name ≡ stem ++ b'.' ∷ ext
    → buffer_of base fp ≤ (t.file_list fp).pos
    → (t.file_list fp).pos < 2 ^ 32
    → t.volume.console ≡ s.volume.console
    → ((a : ℕ) → l.root_dir ≤ a → a < l.root_dir + 7168 → t.volume.mem a ≡ s.volume.mem a)
    → let f = entry_at l.root_dir e in
      (u : Files) × (do_fclose l base fp t ≡ some (0, u))
      × (fat12_find_entry l fuel (stem ++ b'.' ∷ ext) u.volume ≡ some (some f, u.volume))
      × (file_length u.volume.mem f ≡ (t.file_list fp).pos - buffer_of base fp)
close_eq l base fuel fp e pname mode stem ext s t can m n lo hi con same =
    let first = can.first in
    let below_end = first.below in
    let free_entry : IsFirst (is_free t.volume.mem l.root_dir) fat_num_root_entry 0 e = record {
      above = omega arith;
      below = below_end;
      passes = rw (same (entry_at l.root_dir e) (omega arith) (omega arith)) first.passes;
      earlier = λ j a b.
          rw (same (entry_at l.root_dir j) (omega arith) (omega arith)) (first.earlier j a b);
    } in
    let names = λ (j : ℕ) (b : j < fat_num_root_entry).
      fat12_construct_file_name-cong s.volume.mem t.volume.mem (entry_at l.root_dir j)
        (λ q lt. same (entry_at l.root_dir j + q) (omega arith) (omega arith)) in
    let (u, ret, _, found, len) =
      do_fclose-fat12_find_entry l base fp fuel stem ext t e (is_writable (t.file_list fp) m) n lo
        hi can.stem_fits can.ext_fits (ap (λ (x : Console). x.curr_dir) con ∙ can.root) free_entry
        (λ j b. rw (names j (omega arith)) (can.missing j (omega arith))) in
    (u, ret, found, len)

fopen-begun :
    (l : Layout) (base fuel fp e pname mode : ℕ) (stem ext : List ℕ) (regs : Regs) (s : Files)
    → CanWrite l base fuel fp e pname mode stem ext s
    → fopen l base fuel regs pname mode s ≡ some (base + fp * 1076, begun fp (stem ++ b'.' ∷ ext) s)
unfolding fopen sys_file_handler_main
fopen-begun l base fuel fp e pname mode stem ext regs s can =
    let name = stem ++ b'.' ∷ ext in
    let st = can.stem_fits in
    let ex = can.ext_fits in
    rw (can.name_at, can.mode_at)
      (ap (λ (o : Option (Option ℕ × Files)). o >>= λ r. some (pointer_to base r.0, r.1))
        (do_fopen-begun l base fuel fp name s can.free
          (omega (arith, name_length stem ext, st.0.1, ex.0.1)) can.root
          (scan_entries-missing s.volume.mem l.root_dir name can.missing)))

fclose-do_fclose :
    (l : Layout) (base fuel fp : ℕ) (regs : Regs) (s : Files)
    → fclose l base fuel regs (base + fp * 1076) s ≡ do_fclose l base fp s
unfolding fclose sys_file_handler_main
fclose-do_fclose l base fuel fp regs s = rw (file_at_pointer base fp) refl

-- The state before the `fclose`.
abbrev written_state : (base fp written read : ℕ) (name msg : List ℕ) → Files → Files
written_state base fp written read name msg s =
    let b = buffer_of base fp in
    let n = length msg in
    let m = s.volume.mem in
    set_mem (at_end m b written read n)
      (put_text fp (in_buffer m b written n) (b + n) (begun fp name s))

main-closes :
    (l : Layout) (base fuel fp e pname mode written read : ℕ) (stem ext msg : List ℕ) (regs : Regs)
    (s u : Files)
    → CanWrite l base fuel fp e pname mode stem ext s
    → Apart (buffer_of base fp) written read (length msg)
    → All (λ c. 0 < c) msg
    → length msg < fuel
    → 0 < length msg
    → IsText s.volume.mem written msg
    → do_fclose l base fp (written_state base fp written read (stem ++ b'.' ∷ ext) msg s)
      ≡ some (0, u)
    → main l base fuel regs pname mode written read s ≡ some (some msg, u)
unfolding main use_file
main-closes l base fuel fp e pname mode written read stem ext msg regs s u can p nonzero enough
      some_text t ret =
    let name = stem ++ b'.' ∷ ext in
    let s1 = begun fp name s in
    let n = length msg in
    let b = buffer_of base fp in
    let m = s.volume.mem in
    let file = begun-file fp name s in
    let opened = fopen-begun l base fuel fp e pname mode stem ext regs s can in
    let wrote =
      write_text-eq l base fuel regs fp written read msg nonzero enough s1
        (is_writable (s1.file_list fp) (ap (λ (x : File). x.mode) file))
        (ap (λ (x : File). x.pos) file ∙ can.pos) some_text p t in
    let s2 = put_text fp (in_buffer m b written n) (b + n) s1 in
    let back = read_text-eq l base fuel regs fp written read msg nonzero enough s2 m refl p t in
    let shut =
      fclose-do_fclose l base fuel fp regs (written_state base fp written read name msg s) ∙ ret in
    let address : ((base + fp * 1076) == 0) ≡ false =
      ==_ne (base + fp * 1076) 0 (omega (arith, can.address)) in
    rw (opened, address, wrote, back, shut) refl

-- `main` of usr/file.c, for a message of characters that are no NUL, ends: it shows the message that
-- it wrote, read back through the file, and afterwards the file's name is found in the root
-- directory, with the number of the message's characters as its length. The name has a stem of one
-- to eight and an extension of one to three characters, none of them a NUL, a space, a dot or an
-- upper-case letter, and the mode is "w". The message fits the buffer of the `FILE` that is free
-- first, whose `pos` is at the buffer's start; the message, that buffer, the place that it is read
-- to and the root directory lie apart from one another; the root directory is current and has a
-- free entry, but none of the name.
pub main-stores :
    (l : Layout) (base fuel fp e pname mode written read : ℕ) (stem ext msg : List ℕ) (regs : Regs)
    (s : Files)
    → CanWrite l base fuel fp e pname mode stem ext s
    → Apart (buffer_of base fp) written read (length msg)
    → (read + length msg < l.root_dir) ⊎ (l.root_dir + 7168 ≤ read)
    → All (λ c. 0 < c) msg
    → 0 < length msg
    → length msg < fuel
    → IsText s.volume.mem written msg
    → let name = stem ++ b'.' ∷ ext in
      let f = entry_at l.root_dir e in
      (u : Files) × (main l base fuel regs pname mode written read s ≡ some (some msg, u))
      × (fat12_find_entry l fuel name u.volume ≡ some (some f, u.volume))
      × (file_length u.volume.mem f ≡ length msg)
main-stores l base fuel fp e pname mode written read stem ext msg regs s can p apart nonzero
      some_text enough t =
    let name = stem ++ b'.' ∷ ext in
    let n = length msg in
    let b = buffer_of base fp in
    let s1 = begun fp name s in
    let w = written_state base fp written read name msg s in
    let file = begun-file fp name s in
    let own : w.file_list fp ≡ record (s1.file_list fp) { pos = b + n } =
      update_self s1.file_list (record (s1.file_list fp) { pos = b + n }) fp in
    let at : (w.file_list fp).pos ≡ b + n = ap (λ (x : File). x.pos) own in
    let (u, ret, found, len) =
      close_eq l base fuel fp e pname mode stem ext s w can
        (ap (λ (x : File). x.mode) own ∙ ap (λ (x : File). x.mode) file)
        (ap (λ (x : File). x.name) own ∙ (ap (λ (x : File). x.name) file ∙ strcpy_self name))
        (omega (arith, at)) (omega (arith, at, p.buffer_below, p.room)) refl
        (λ a lo hi.
          end-keeps s.volume.mem b written read n p a (omega (arith, can.apart, p.room))
            (omega arith)) in
    (
      u,
      main-closes l base fuel fp e pname mode written read stem ext msg regs s u can p nonzero
          enough some_text t ret,
      found,
      len ∙ omega (arith, at),
    )
