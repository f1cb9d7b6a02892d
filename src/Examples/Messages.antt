-- ===== src/Examples/Messages.antt =====
-- A run of usr/file.c at a volume whose root directory has one entry.
use advanced_os.Base.{
  ℕ, ◌+◌, ◌-◌, ◌<◌, ◌≡◌, refl, false, some, List, ◌∷◌, ◌++◌, arith, leb, if◌then◌else◌, get_or,
  codes, first_index,
}
use advanced_os.Cstr.{strcmp}
use Prim.Native.String.{String}
use advanced_os.Memory.{Mem}
use advanced_os.Task.Table.{zero_regs}
use advanced_os.Fat.Entry.{entry_at, matches, file_length, string_in}
use advanced_os.Fat.Find.{fat12_construct_file_name-cong}
use advanced_os.Fat.Volume.{fat12_find_entry}
use advanced_os.Sysfile.{Files, buffer_of}
use advanced_os.User.File.{main}
use advanced_os.User.File.Moves.{Apart, IsText}
use advanced_os.User.File.Testmsg.{CanWrite, main-stores}
use advanced_os.Examples.Directories.{
  small_layout, one_entry, stem-Fits, ext-Fits, one_entry-others, unused_files,
}

-- Three texts and a directory.
abbrev placed : String → (at a : ℕ) → ℕ
placed text at a = get_or (codes text) (a - at) 0

abbrev message : List ℕ
message = codes "This is a test message!"

abbrev texts : Mem
texts a =
    if leb 0x300 a
    then one_entry a
    else if leb 0x200 a
    then get_or message (a - 0x200) 0
    else if leb 0x180 a
    then placed "w" 0x180 a
    else placed "test.txt" 0x100 a

abbrev message_files : Files
message_files = record unused_files { volume = record unused_files.volume { mem = texts } }

message-IsText : IsText texts 0x200 message
message-IsText j l = let e : 0x200 + j - 0x200 ≡ j = omega arith in ground (arith, e)

texts-others :
    (j : ℕ) → j < 224 → matches texts 0x6000 (codes "test" ++ b'.' ∷ codes "txt") j ≡ false
texts-others j l =
    let e =
      fat12_construct_file_name-cong one_entry texts (entry_at 0x6000 j) (λ q lt. ground arith) in
    rw e (one_entry-others j l)

message_files-Apart : Apart (buffer_of 0x9000 0) 0x200 0x280 23
message_files-Apart = record {
  room = omega arith;
  buffer_below = omega arith;
  text_below = omega arith;
  copy_below = omega arith;
  text_buffer = omega arith;
  copy_buffer = omega arith;
  text_copy = omega arith;
}

message_files-CanWrite :
    CanWrite small_layout 0x9000 100 0 1 0x100 0x180 (codes "test") (codes "txt") message_files
unfolding strcmp first_index string_in
message_files-CanWrite = record {
  address = omega arith;
  free = refl;
  pos = refl;
  name_at = refl;
  mode_at = refl;
  stem_fits = stem-Fits;
  ext_fits = ext-Fits;
  root = refl;
  apart = omega arith;
  first = record {
    above = omega arith;
    below = omega arith;
    passes = refl;
    earlier = λ j a l. let e : j ≡ 0 = omega arith in rw e refl;
  };
  missing = texts-others;
}

main-stores_example :
    (u : Files) × (main small_layout 0x9000 100 zero_regs 0x100 0x180 0x200 0x280 message_files
      ≡ some (some message, u))
    × (fat12_find_entry small_layout 100 (codes "test" ++ b'.' ∷ codes "txt") u.volume
        ≡ some (some 0x6020, u.volume))
    × (file_length u.volume.mem 0x6020 ≡ 23)
main-stores_example =
    main-stores small_layout 0x9000 100 0 1 0x100 0x180 0x200 0x280 (codes "test") (codes "txt")
      message zero_regs message_files message_files-CanWrite message_files-Apart (omega arith)
      (ground arith) (omega arith) (omega arith) message-IsText
