-- ===== src/Fat.antt =====
-- The FAT12 driver, include/fat12.h: the allocation table, its packed form, the chains of clusters,
-- and dates. The logical table `fat.entry` and the packed one `phys_fat.entry` are functions of
-- their index.
pub mod Codec
pub mod Chain
pub mod Linked
pub mod Alloc
pub mod Dates
pub mod Partial
pub mod Entry
pub mod Volume
pub mod Cells
pub mod Names
pub mod Create
pub mod Find
pub mod Remove
pub mod Listing
pub mod Paths
use advanced_os.Base.{
  ℕ, zero, suc, ◌+◌, ◌-◌, ◌*◌, ◌/◌, ◌%◌, ◌^◌, ◌≤◌, ◌<◌, min, bit_and, bit_or, ◌≡◌, refl, sym, ap,
  ◌∙◌, fun_ext, ◌≢◌, ◌↔◌, ◌⊎◌, inl, inr, Bool, true, false, ◌&&◌, ◌||◌, not, Option, none, some,
  List, [], ◌∷◌, ◌++◌, map, reverse, append_assoc, append-nil, subst, arith, dec_lt, ℕ_discrete,
  ltb, leb, ◌==◌, if◌then◌else◌, Bool-cases, Option-cases, length, get_elem?, get_or, take, drop,
  All, codes, update, update_self, update_ne, first_index, first_index-some, first_index-none,
  first_index-found, IsFirst, ==_refl, ==_ne, lt→ltb, le→ltb, eq_of_some,
}
use Prim.Native.Nat.{max}
use advanced_os.Base.Options.{◌>>=◌}
use advanced_os.Memory.{Mem, u32, u8, memset}
use advanced_os.Ide.{Disk, read_sectors, write_sectors}

abbrev pub fat_sector_size : ℕ
fat_sector_size = 512

abbrev pub fat_num_entry : ℕ
fat_num_entry = 3072

abbrev pub fat_data_region_start : ℕ
fat_data_region_start = 33

-- The two entries that the loop of `fat12_init` unpacks from the three bytes at `i`.
abbrev pub even_entry : (phys : ℕ → ℕ) → ℕ → ℕ
even_entry phys i = (phys i + phys (i + 1) * 2 ^ 8) % 2 ^ 12

abbrev pub odd_entry : (phys : ℕ → ℕ) → ℕ → ℕ
odd_entry phys i = (phys (i + 1) + phys (i + 2) * 2 ^ 8) / 2 ^ 4

-- `n` rounds of that loop, from `i` and `j` on.
unfoldable pub unpack_fat : (phys : ℕ → ℕ) → (n i j : ℕ) → (ℕ → ℕ) → ℕ → ℕ
unpack_fat phys zero i j fat = fat
unpack_fat phys (suc n) i j fat =
    unpack_fat phys n (i + 3) (j + 2)
      (update (update fat j (even_entry phys i)) (j + 1) (odd_entry phys i))

-- The conversion in `fat12_init`: 4608 bytes, three in a round.
unfoldable pub fat12_load_fat : (phys fat : ℕ → ℕ) → ℕ → ℕ
fat12_load_fat phys fat = unpack_fat phys 1536 0 0 fat

-- The middle byte of `fat12_write_back_fat`.
abbrev pub middle_byte : (a b : ℕ) → ℕ
middle_byte a b = bit_or (u8 (bit_and (a / 2 ^ 8) 0x0F)) (bit_and (b * 2 ^ 4) 0xF0)

-- `n` rounds of the loop of `fat12_write_back_fat`, from `i` and `j` on.
unfoldable pub pack_fat : (fat : ℕ → ℕ) → (n i j : ℕ) → (ℕ → ℕ) → ℕ → ℕ
pack_fat fat zero i j phys = phys
pack_fat fat (suc n) i j phys = pack_fat fat n (i + 3) (j + 2) (
    update (update (update phys i (u8 (fat j))) (i + 1) (middle_byte (fat j) (fat (j + 1)))) (i + 2)
      (u8 (fat (j + 1) / 2 ^ 4)))

-- `fat12_write_back_fat`: 3072 entries, two in a round.
unfoldable pub fat12_write_back_fat : (fat phys : ℕ → ℕ) → ℕ → ℕ
fat12_write_back_fat fat phys = pack_fat fat 1536 0 0 phys

-- `fat12_next_sector`: the entry, and whether it leads on.
unfoldable pub fat12_next_sector : (fat : ℕ → ℕ) → ℕ → record { next : ℕ; more : Bool }
fat12_next_sector fat actual =
    let next = fat actual in
    record { next = next; more = if next == 0 || leb 0xFF0 next then false else true }

-- The sector of a cluster, `clust + FAT_DATA_REGION_START - 2`.
abbrev pub sector_of : ℕ → ℕ
sector_of clust = u32 (clust + fat_data_region_start + 2 ^ 32 - 2)

-- The loop of `fat12_read_clusters`, with what it returns; `none` when the fuel is used up.
unfoldable pub read_chain : Disk → (fat : ℕ → ℕ) → (buf fuel i clust : ℕ) → Mem → Option (ℕ × Mem)
read_chain disk fat buf zero i clust m = none
read_chain disk fat buf (suc fuel) i clust m =
    let m' = read_sectors disk (u32 (buf + i * fat_sector_size)) (sector_of clust) 1 m in
    let q = fat12_next_sector fat clust in
    let rest = read_chain disk fat buf fuel (i + 1) q.next m' in
    if q.more then rest else some (i, m')

-- `fat12_read_clusters`.
unfoldable pub fat12_read_clusters :
    Disk → (fat : ℕ → ℕ) → (fuel buf cstart : ℕ) → Mem → Option (ℕ × Mem)
fat12_read_clusters disk fat fuel buf cstart m = read_chain disk fat buf fuel 0 cstart m

-- The number of sectors for `numBytes`.
unfoldable pub sectors_for : ℕ → ℕ
sectors_for n = if n % fat_sector_size == 0 then n / fat_sector_size else n / fat_sector_size + 1

-- The loop of `fat12_read_bytes` with limit `n`.
unfoldable pub read_limited :
    Disk → (fat : ℕ → ℕ) → (buf n fuel i clust : ℕ) → Mem → Option (ℕ × Mem)
read_limited disk fat buf n zero i clust m = none
read_limited disk fat buf n (suc fuel) i clust m =
    let m' = read_sectors disk (u32 (buf + i * fat_sector_size)) (sector_of clust) 1 m in
    let q = fat12_next_sector fat clust in
    let rest = read_limited disk fat buf n fuel (i + 1) q.next m' in
    if not q.more || ltb n (i + 1) then some (i, m') else rest

-- `fat12_read_bytes`.
unfoldable pub fat12_read_bytes :
    Disk → (fat : ℕ → ℕ) → (fuel buf cstart num_bytes : ℕ) → Mem → Option (ℕ × Mem)
fat12_read_bytes disk fat fuel buf cstart num_bytes m =
    read_limited disk fat buf (sectors_for num_bytes) fuel 0 cstart m

-- The loop of `fat12_write_clusters`.
unfoldable pub write_chain : (fat : ℕ → ℕ) → (buf fuel i clust : ℕ) → Mem → Disk → Option (ℕ × Disk)
write_chain fat buf zero i clust m disk = none
write_chain fat buf (suc fuel) i clust m disk =
    let disk' = write_sectors (u32 (buf + i * fat_sector_size)) (sector_of clust) 1 m disk in
    let q = fat12_next_sector fat clust in
    let rest = write_chain fat buf fuel (i + 1) q.next m disk' in
    if q.more then rest else some (i, disk')

-- `fat12_write_clusters`.
unfoldable pub fat12_write_clusters :
    (fat : ℕ → ℕ) → (fuel buf cstart : ℕ) → Mem → Disk → Option (ℕ × Disk)
fat12_write_clusters fat fuel buf cstart m disk = write_chain fat buf fuel 0 cstart m disk

-- The loop of `fat12_write_bytes` with limit `n`.
unfoldable pub write_limited :
    (fat : ℕ → ℕ) → (buf n fuel i clust : ℕ) → Mem → Disk → Option (ℕ × Disk)
write_limited fat buf n zero i clust m disk = none
write_limited fat buf n (suc fuel) i clust m disk =
    let disk' = write_sectors (u32 (buf + i * fat_sector_size)) (sector_of clust) 1 m disk in
    let q = fat12_next_sector fat clust in
    let rest = write_limited fat buf n fuel (i + 1) q.next m disk' in
    if not q.more || ltb n (i + 1) then some (i, disk') else rest

-- `fat12_write_bytes`.
unfoldable pub fat12_write_bytes :
    (fat : ℕ → ℕ) → (fuel buf cstart num_bytes : ℕ) → Mem → Disk → Option (ℕ × Disk)
fat12_write_bytes fat fuel buf cstart num_bytes m disk =
    write_limited fat buf (sectors_for num_bytes) fuel 0 cstart m disk

-- The loop of `fat12_get_num_cluster` for a chain.
unfoldable pub count_chain : (fat : ℕ → ℕ) → (fuel c cl : ℕ) → Option ℕ
count_chain fat zero c cl = none
count_chain fat (suc fuel) c cl =
    let q = fat12_next_sector fat cl in
    let rest = count_chain fat fuel (c + 1) q.next in if q.more then rest else some c

-- `fat12_get_num_cluster`; `root_entries` is `bootsector.BPB_RootDirectoryEntries`.
unfoldable pub fat12_get_num_cluster :
    (root_entries : ℕ) (fat : ℕ → ℕ) → (fuel start : ℕ) → Option ℕ
fat12_get_num_cluster root_entries fat fuel start =
    if start == 0 then some (root_entries * 32 / fat_sector_size) else count_chain fat fuel 1 start

-- The loop of `fat12_del_fat_entry`. `memset` is given the entry's value for an address, so that it
-- clears four bytes of memory and not the entry.
unfoldable pub del_chain : (fat : ℕ → ℕ) → (fuel clust : ℕ) → Mem → Option Mem
del_chain fat zero clust m = none
del_chain fat (suc fuel) clust m =
    let m' = memset m (fat clust) 0 4 in
    let q = fat12_next_sector fat clust in
    let rest = del_chain fat fuel q.next m' in if q.more then rest else some m'

-- `fat12_del_fat_entry`: the memory and the packed table that it leaves.
unfoldable pub fat12_del_fat_entry :
    (fat : ℕ → ℕ) → (fuel cstart : ℕ) → (phys : ℕ → ℕ) → Mem → Option (Mem × (ℕ → ℕ))
fat12_del_fat_entry fat fuel cstart phys m =
    del_chain fat fuel cstart m >>= λ m'. some (m', fat12_write_back_fat fat phys)

-- The loop of `fat12_create_file` over the table: `cnt`, `prevIndex` (`none` for -1) and `cstart`.
pub record Allocation : Type 0 where
  pub table : ℕ → ℕ
  pub cnt : ℕ
  pub prev : Option ℕ
  pub start : ℕ

-- `if (prevIndex != -1) fat.entry[prevIndex] = i;`
unfoldable pub link_prev : Option ℕ → ℕ → (ℕ → ℕ) → ℕ → ℕ
link_prev none i fat = fat
link_prev (some p) i fat = update fat p i

-- `n` rounds of the loop from `i` on, for `num` clusters.
unfoldable pub alloc_loop : (num n i : ℕ) → Allocation → Allocation
alloc_loop num zero i a = a
alloc_loop num (suc n) i a =
    let linked = link_prev a.prev i a.table in
    let taken : Allocation = record {
      table = linked;
      cnt = a.cnt + 1;
      prev = some i;
      start = if a.cnt == 0 then i else a.start;
    } in
    let last = record taken { table = update linked i 0xFFF } in
    let rest_skip = alloc_loop num n (i + 1) a in
    let rest_take = alloc_loop num n (i + 1) taken in
    if a.table i == 0 then (if a.cnt + 1 == num then last else rest_take) else rest_skip

-- The allocation of `fat12_create_file`, for a size in bytes.
unfoldable pub fat12_alloc : (fat : ℕ → ℕ) → (size : ℕ) → Allocation
fat12_alloc fat size =
    alloc_loop (sectors_for size) 3070 2 (record { table = fat; cnt = 0; prev = none; start = 0 })
