-- ===== src/Elf.antt =====
-- The program loader, include/elf.h. `img` is the address of `bin_img`; the fields of the two
-- headers are read at their offsets, the first at `img`, the second at `img + offset`.
use advanced_os.Base.{
  ℕ, zero, suc, ◌+◌, ◌^◌, ◌≤◌, ◌<◌, ◌≡◌, refl, ◌⊎◌, not, Option, none, some, [], ◌∷◌, arith, ◌==◌,
  if◌then◌else◌, codes, ==_ne,
}
use advanced_os.Base.Options.{◌>>=◌}
use advanced_os.Memory.{Mem, u32, memcpy}
use advanced_os.Memory.Blocks.{memcpy_copies, memcpy-Outside, Outside}
use advanced_os.Console.{Console}
use advanced_os.Format.{put_error, printf, int}
use advanced_os.Fat.Entry.{load16, load32}

abbrev pub elf_magic : ℕ
elf_magic = 0x464C_457F

-- `struct elfhdr`.
abbrev pub e_magic : Mem → (eh : ℕ) → ℕ
e_magic m eh = load32 m eh

abbrev pub e_entry : Mem → (eh : ℕ) → ℕ
e_entry m eh = load32 m (eh + 24)

abbrev pub e_phoff : Mem → (eh : ℕ) → ℕ
e_phoff m eh = load32 m (eh + 28)

abbrev pub e_ehsize : Mem → (eh : ℕ) → ℕ
e_ehsize m eh = load16 m (eh + 40)

abbrev pub e_phentsize : Mem → (eh : ℕ) → ℕ
e_phentsize m eh = load16 m (eh + 42)

abbrev pub e_phnum : Mem → (eh : ℕ) → ℕ
e_phnum m eh = load16 m (eh + 44)

-- `struct prghdr`.
abbrev pub prghdr_size : ℕ
prghdr_size = 32

abbrev pub p_offset : Mem → (ph : ℕ) → ℕ
p_offset m ph = load32 m (ph + 4)

abbrev pub p_va : Mem → (ph : ℕ) → ℕ
p_va m ph = load32 m (ph + 8)

abbrev pub p_pa : Mem → (ph : ℕ) → ℕ
p_pa m ph = load32 m (ph + 12)

abbrev pub p_filesz : Mem → (ph : ℕ) → ℕ
p_filesz m ph = load32 m (ph + 16)

abbrev pub p_memsz : Mem → (ph : ℕ) → ℕ
p_memsz m ph = load32 m (ph + 20)

abbrev pub p_flags : Mem → (ph : ℕ) → ℕ
p_flags m ph = load32 m (ph + 24)

abbrev pub p_align : Mem → (ph : ℕ) → ℕ
p_align m ph = load32 m (ph + 28)

-- `print_elfhdr` and `print_prghdr`.
unfoldable pub print_elfhdr : Mem → (eh : ℕ) → Console → Option Console
print_elfhdr m eh c = do
  c1 ← printf (codes "print_elfhdr:\n") [] c
  c2 ← printf (codes "    entry: 0x%x\n") (int (e_entry m eh) ∷ []) c1
  c3 ← printf (codes "    hdr_size: 0x%x\n") (int (e_ehsize m eh) ∷ []) c2
  c4 ← printf (codes "    phoff: 0x%x\n") (int (e_phoff m eh) ∷ []) c3
  c5 ← printf (codes "    phnum: %d\n") (int (e_phnum m eh) ∷ []) c4
  printf (codes "    phentsize: %d\n") (int (e_phentsize m eh) ∷ []) c5

unfoldable pub print_prghdr : Mem → (ph : ℕ) → Console → Option Console
print_prghdr m ph c = do
  c1 ← printf (codes "print_prghdr:\n") [] c
  c2 ← printf (codes "    offset: 0x%x\n") (int (p_offset m ph) ∷ []) c1
  c3 ← printf (codes "    vaddr: 0x%x\n") (int (p_va m ph) ∷ []) c2
  c4 ← printf (codes "    paddr: 0x%x\n") (int (p_pa m ph) ∷ []) c3
  c5 ← printf (codes "    filesz: 0x%x\n") (int (p_filesz m ph) ∷ []) c4
  c6 ← printf (codes "    memsz: 0x%x\n") (int (p_memsz m ph) ∷ []) c5
  c7 ← printf (codes "    flags: 0x%x\n") (int (p_flags m ph) ∷ []) c6
  printf (codes "    align: 0x%x\n") (int (p_align m ph) ∷ []) c7

-- `n` rounds of the loop of `parse_elf`, from `i` and `offset` on, for headers of `size` bytes;
-- `none` when a header is no copy of a whole `prghdr`.
unfoldable pub load_segments : (img addr_exec size n i offset : ℕ) → Mem → Option Mem
load_segments img addr_exec size zero i offset m = some m
load_segments img addr_exec size (suc n) i offset m =
    let ph = u32 (img + offset) in
    let segment = memcpy m addr_exec (u32 (img + p_offset m ph)) (p_memsz m ph) in
    let rest =
      load_segments img addr_exec size n (i + 1) (u32 (offset + size))
        (if i == 0 then segment else m) in
    if size == prghdr_size then rest else none

-- How `parse_elf` ends: with the entry point, or in its loop behind the message.
pub data Parsed : Type 0 where
  entry : (address : ℕ) → Mem → Parsed
  hangs : Console → Parsed

-- `parse_elf`.
unfoldable pub parse_elf : (img addr_exec : ℕ) → Mem → Console → Option Parsed
parse_elf img addr_exec m c =
    if not (e_magic m img == elf_magic)
    then some (hangs (put_error (codes "Bad elf file!") c))
    else (do
      m' ← load_segments img addr_exec (e_phentsize m img) (e_phnum m img) 0 (e_phoff m img) m
      some (entry (e_entry m img) m'))

load_segments_later :
    (img addr_exec n i offset : ℕ) (m : Mem)
    → 0 < i
    → load_segments img addr_exec prghdr_size n i offset m ≡ some m
unfolding load_segments
load_segments_later img addr_exec zero i offset m l = refl
load_segments_later img addr_exec (suc n) i offset m l =
    rw (==_ne i 0 (omega arith))
      (load_segments_later img addr_exec n (i + 1) (u32 (offset + prghdr_size)) m (omega arith))

load_segments_first :
    (img addr_exec n offset : ℕ) (m : Mem)
    → 0 < n
    → let ph = u32 (img + offset) in
      load_segments img addr_exec prghdr_size n 0 offset m
      ≡ some (memcpy m addr_exec (u32 (img + p_offset m ph)) (p_memsz m ph))
unfolding load_segments
load_segments_first img addr_exec zero offset m l = absurd (omega arith)
load_segments_first img addr_exec (suc n) offset m l =
    let ph = u32 (img + offset) in
    load_segments_later img addr_exec n (0 + 1) (u32 (offset + prghdr_size))
      (memcpy m addr_exec (u32 (img + p_offset m ph)) (p_memsz m ph)) (omega arith)

-- A file with the right magic number and program headers of 32 bytes, the first of which describes
-- a segment that does not overlap its place in memory, nor runs over the end of memory, is loaded:
-- the segment's bytes stand at `addr_exec`, all other memory is as before, and the entry point of
-- the header is returned.
pub parse_elf-loads :
    (img addr_exec : ℕ) (m : Mem) (c : Console)
    → e_magic m img ≡ elf_magic
    → e_phentsize m img ≡ prghdr_size
    → 0 < e_phnum m img
    → let ph = u32 (img + e_phoff m img) in
      let segment = u32 (img + p_offset m ph) in
      let size = p_memsz m ph in
      addr_exec + size ≤ 2 ^ 32
      → segment + size ≤ 2 ^ 32
      → (segment + size ≤ addr_exec) ⊎ (addr_exec + size ≤ segment)
      → (w : Mem) × (parse_elf img addr_exec m c ≡ some (entry (e_entry m img) w))
        × ((j : ℕ) → j < size → w (addr_exec + j) ≡ m (segment + j))
        × ((a : ℕ) → Outside addr_exec size a → w a ≡ m a)
unfolding parse_elf
parse_elf-loads img addr_exec m c magic size some_header fits source apart =
    let ph = u32 (img + e_phoff m img) in
    let segment = u32 (img + p_offset m ph) in
    let loaded = load_segments_first img addr_exec (e_phnum m img) (e_phoff m img) m some_header in
    (
      memcpy m addr_exec segment (p_memsz m ph),
      rw (magic, size, loaded) refl,
      λ j l. memcpy_copies (p_memsz m ph) m addr_exec segment j fits source apart l,
      λ a o. memcpy-Outside (p_memsz m ph) m addr_exec segment a fits source o,
    )
