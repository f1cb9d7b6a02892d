-- ===== src/Ide.antt =====
-- The disk driver, include/ide.h. The disk gives each sector's bytes; the registers take a 28-bit
-- sector number, and `insw` and `outsw` move 256 words.
pub mod Transfer
pub mod Show
use advanced_os.Base.{
  ℕ, zero, suc, ◌+◌, ◌*◌, ◌/◌, ◌%◌, ◌^◌, ◌==◌, if◌then◌else◌, List, [], ◌∷◌, update, bit_or,
  bit_and,
}
use advanced_os.Memory.{Mem, u32, memcpy}

abbrev pub Disk : Type 0
Disk = ℕ → ℕ → ℕ

abbrev pub sect_size : ℕ
sect_size = 512

abbrev pub tmp_user_addr : ℕ
tmp_user_addr = 0x1000

-- The port writes of `readsect` and `writesect` before the data, with their command byte.
unfoldable pub select_sector : (secno cmd : ℕ) → List (ℕ × ℕ)
select_sector secno cmd =
    (0x1F2, 1)
    ∷ (0x1F3, bit_and secno 0xFF)
    ∷ (0x1F4, bit_and (secno / 2 ^ 8) 0xFF)
    ∷ (0x1F5, bit_and (secno / 2 ^ 16) 0xFF)
    ∷ (0x1F6, bit_or (bit_and (secno / 2 ^ 24) 0xF) 0xE0)
    ∷ (0x1F7, cmd)
    ∷ []

-- `insw` of `n` bytes: the device's bytes go to `dst`, the next device byte being `o`.
unfoldable pub insw : (ℕ → ℕ) → (n o dst : ℕ) → Mem → Mem
insw bytes zero o dst m = m
insw bytes (suc n) o dst m = insw bytes n (o + 1) (u32 (dst + 1)) (update m dst (bytes o))

-- `readsect`: the sector's bytes arrive at `dst`.
unfoldable pub readsect : Disk → (dst secno : ℕ) → Mem → Mem
readsect disk dst secno m = insw (disk secno) sect_size 0 dst m

-- The rounds `i, ..., i + n - 1` of `read_sectors`.
unfoldable pub read_rounds : Disk → (addr startsec cnt n i : ℕ) → Mem → Mem
read_rounds disk addr startsec cnt zero i m = m
read_rounds disk addr startsec cnt (suc n) i m = read_rounds disk addr startsec cnt n (i + 1) (
    memcpy (readsect disk (tmp_user_addr + i * sect_size) (u32 (startsec + i)) m) addr tmp_user_addr
      (u32 (cnt * sect_size)))

-- `read_sectors`.
unfoldable pub read_sectors : Disk → (addr startsec cnt : ℕ) → Mem → Mem
read_sectors disk addr startsec cnt m = read_rounds disk addr startsec cnt cnt 0 m

-- `writesect`: the sector takes the 512 bytes at `src`.
unfoldable pub writesect : (src secno : ℕ) → Mem → Disk → Disk
writesect src secno m disk = update disk secno (λ o. m (u32 (src + o)))

-- The rounds of `write_sectors`.
unfoldable pub write_rounds : (addr startsec n i : ℕ) → Mem → Disk → Disk
write_rounds addr startsec zero i m disk = disk
write_rounds addr startsec (suc n) i m disk =
    write_rounds addr startsec n (i + 1) m
      (writesect (u32 (addr + i * sect_size)) (u32 (startsec + i)) m disk)

-- `write_sectors`.
unfoldable pub write_sectors : (addr startsec cnt : ℕ) → Mem → Disk → Disk
write_sectors addr startsec cnt m disk = write_rounds addr startsec cnt 0 m disk
