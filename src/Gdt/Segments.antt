-- ===== src/Gdt/Segments.antt =====
-- The segments that `gdt_init` leaves, include/gdt.h, as the processor reads them.
use advanced_os.Base.{ℕ, ◌+◌, ◌/◌, ◌%◌, ◌^◌, ◌≤◌, ◌<◌, ◌≡◌, refl, ap, ◌∙◌, arith}
use advanced_os.Memory.{u32}
use advanced_os.Gdt.{
  GdtDescriptor, Gdt, max_descriptors, make_descriptor, gdt_set_descriptor, gdt_init, tss_init,
  kernel_cs, kernel_ds, user_cs, user_ds,
}
use advanced_os.Gdt.Fields.{base_of, limit_of, granularity_of, make_descriptor-reads}

-- The descriptor that a selector names, its privilege level, and whether it is present, holds code
-- or data, and holds code.
abbrev pub segment_of : Gdt → (selector : ℕ) → GdtDescriptor
segment_of g selector = g (selector / 8)

abbrev pub dpl_of : GdtDescriptor → ℕ
dpl_of d = d.flags / 32 % 4

abbrev pub is_present : GdtDescriptor → ℕ
is_present d = d.flags / 128

abbrev pub is_memory : GdtDescriptor → ℕ
is_memory d = d.flags / 16 % 2

abbrev pub is_code : GdtDescriptor → ℕ
is_code d = d.flags / 8 % 2

-- A segment of the whole address space, 2 ^ 20 pages of 4 KB of 32-bit code or data, for the
-- privilege level of its selector.
pub record IsFlat (g : Gdt) (code selector : ℕ) : Type 0 where
  pub base : base_of (segment_of g selector) ≡ 0
  pub limit : limit_of (segment_of g selector) ≡ 0xF_FFFF
  pub pages : granularity_of (segment_of g selector) ≡ 0xC
  pub level : dpl_of (segment_of g selector) ≡ selector % 4
  pub present : is_present (segment_of g selector) ≡ 1
  pub memory : is_memory (segment_of g selector) ≡ 1
  pub kind : is_code (segment_of g selector) ≡ code

flat :
    (g : Gdt) (code selector access : ℕ)
    → segment_of g selector ≡ make_descriptor 0 0xFFFF_FFFF access 0xCF
    → access / 32 % 4 ≡ selector % 4
    → access / 128 ≡ 1
    → access / 16 % 2 ≡ 1
    → access / 8 % 2 ≡ code
    → IsFlat g code selector
flat g code selector access e level present memory kind =
    let r = make_descriptor-reads 0 0xFFFF_FFFF access 0xCF (omega arith) (omega arith) in
    let flags = r.2 in
    record {
      base = ap base_of e ∙ r.0;
      limit = ap limit_of e ∙ r.1;
      pages = ap granularity_of e ∙ r.3;
      level = ap dpl_of e ∙ rw flags level;
      present = ap is_present e ∙ rw flags present;
      memory = ap is_memory e ∙ rw flags memory;
      kind = ap is_code e ∙ rw flags kind;
    }

-- What `gdt_init` leaves, for a TSS below 2 ^ 32: the kernel's and the users' code and data
-- selectors name segments of the whole address space, of 4 KB pages, present, and each of the
-- privilege level in the selector; descriptor 0 is null; descriptor 5 has the address of the TSS as
-- its base, the access byte of a TSS that programs may name, and as its limit, modulo 2 ^ 20, the
-- address behind the TSS and not its size; and no other descriptor changes.
pub gdt_init-segments :
    (tss_addr tss_size : ℕ) (gdt : Gdt)
    → tss_addr < 2 ^ 32
    → let g = gdt_init tss_addr tss_size gdt in
      IsFlat g 1 kernel_cs
      × IsFlat g 0 kernel_ds
      × IsFlat g 1 user_cs
      × IsFlat g 0 user_ds
      × (g 0 ≡ record { limit = 0; base_lo = 0; base_mid = 0; flags = 0; grand = 0; base_hi = 0 })
      × (base_of (g 5) ≡ tss_addr)
      × ((g 5).flags ≡ 0xE9)
      × (limit_of (g 5) ≡ (tss_addr + tss_size) % 2 ^ 20)
      × ((i : ℕ) → max_descriptors ≤ i → g i ≡ gdt i)
unfolding gdt_init tss_init gdt_set_descriptor
gdt_init-segments tss_addr tss_size gdt b =
    let g = gdt_init tss_addr tss_size gdt in
    let r = make_descriptor-reads tss_addr (u32 (tss_addr + tss_size)) 0xE9 0 b (omega arith) in
    (
      flat g 1 kernel_cs 0x9A refl refl refl refl refl,
      flat g 0 kernel_ds 0x92 refl refl refl refl refl,
      flat g 1 user_cs 0xFA refl refl refl refl refl,
      flat g 0 user_ds 0xF2 refl refl refl refl refl,
      unfold make_descriptor in refl,
      r.0,
      r.2,
      omega (arith, r.1),
      λ i h. ground arith,
    )
