-- ===== src/Ide/Show.antt =====
-- The display of sectors, include/ide.h.
use advanced_os.Base.{
  ℕ, zero, suc, ◌+◌, ◌%◌, Option, some, List, [], ◌∷◌, ◌==◌, if◌then◌else◌, codes,
}
use advanced_os.Base.Options.{◌>>=◌}
use advanced_os.Memory.{Mem, u32}
use advanced_os.Ide.{Disk, read_sectors}
use advanced_os.Console.{Console}
use advanced_os.Format.{printf, int}
use advanced_os.Format.Scan.{scanf, Stored, num}

-- `n` rounds of a loop that prints the bytes from `a` on, the next of them with index `j`.
unfoldable pub show_bytes : Mem → (a n j : ℕ) → Console → Option Console
show_bytes m a zero j c = some c
show_bytes m a (suc n) j c = do
  c1 ← printf (codes "%x") (int (m (u32 (a + j))) ∷ []) c
  c2 ← (if j % 2 == 1 then printf (codes " ") [] c1 else some c1)
  show_bytes m a n (j + 1) c2

-- `show_hex`.
unfoldable pub show_hex : Mem → (addr cnt : ℕ) → Console → Option Console
show_hex m addr cnt c = do
  c1 ← printf (codes "Addr: %xh\n") (int addr ∷ []) c
  c2 ← show_bytes m addr cnt 0 c1
  printf (codes "\n") [] c2

-- `n` rounds of the outer loop of `show_one_sector`, from the byte `i` on.
unfoldable pub show_quarters : Mem → (addr n i : ℕ) → Console → Option Console
show_quarters m addr zero i c = some c
show_quarters m addr (suc n) i c = do
  c' ← show_bytes m (u32 (addr + i)) 128 0 c
  show_quarters m addr n (i + 128) c'

-- `show_one_sector`.
unfoldable pub show_one_sector : Mem → (addr : ℕ) → Console → Option Console
show_one_sector m addr c = do
  c1 ← printf (codes "Addr: %xh\n") (int addr ∷ []) c
  c2 ← show_quarters m addr 4 0 c1
  printf (codes "\n") [] c2

-- What `scanf` has stored in `num`, which is 0 before.
unfoldable pub stored_number : List Stored → ℕ
stored_number (num n ∷ out) = n
stored_number _ = 0

-- `read_disk_test`, for the characters that are typed.
unfoldable pub read_disk_test : Disk → (keys : List ℕ) → Mem → Console → Option (Mem × Console)
read_disk_test disk keys m c = do
  c1 ← printf (codes "Please enter the sector number: ") [] c
  (out, c2) ← scanf keys (codes "%d") c1
  let n = stored_number out
  c3 ← printf (codes "Reading sector %d...\n") (int n ∷ []) c2
  let m' = read_sectors disk 0x1000 n 1 m
  c4 ← printf (codes "Address: %x\n") (int 0x1000 ∷ []) c3
  c5 ← show_one_sector m' 0x1000 c4
  some (m', c5)
