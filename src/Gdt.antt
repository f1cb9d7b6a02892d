-- ===== src/Gdt.antt =====
-- The descriptor tables: include/gdt.h, include/idt.h and include/tss.h. Numbers are bit patterns.
pub mod Fields
pub mod Segments
use advanced_os.Base.{
  ℕ, zero, suc, ◌+◌, ◌-◌, ◌*◌, ◌/◌, ◌%◌, ◌^◌, ◌≤◌, ◌<◌, min, bit_and, bit_or, ◌≡◌, refl, sym, ap,
  ◌∙◌, fun_ext, ◌≢◌, ◌↔◌, ◌⊎◌, inl, inr, Bool, true, false, ◌&&◌, ◌||◌, not, Option, none, some,
  List, [], ◌∷◌, ◌++◌, map, reverse, append_assoc, append-nil, subst, arith, dec_lt, ℕ_discrete,
  ltb, leb, ◌==◌, if◌then◌else◌, Bool-cases, Option-cases, length, get_elem?, get_or, take, drop,
  All, codes, update, update_self, update_ne, first_index, first_index-some, first_index-none,
  first_index-found, IsFirst, ==_refl, ==_ne, lt→ltb, le→ltb, eq_of_some,
}
use advanced_os.Memory.{u32, u8}

abbrev pub max_descriptors : ℕ
max_descriptors = 6

-- `struct gdt_descriptor`.
pub record GdtDescriptor : Type 0 where
  pub limit : ℕ
  pub base_lo : ℕ
  pub base_mid : ℕ
  pub flags : ℕ
  pub grand : ℕ
  pub base_hi : ℕ

abbrev pub Gdt : Type 0
Gdt = ℕ → GdtDescriptor

abbrev pub u16 : ℕ → ℕ
u16 n = n % 2 ^ 16

-- The descriptor that `gdt_set_descriptor` writes.
unfoldable pub make_descriptor : (base limit access grand : ℕ) → GdtDescriptor
make_descriptor base limit access grand = record {
  limit = u16 limit;
  base_lo = u16 base;
  base_mid = u8 (base / 2 ^ 16);
  flags = access;
  grand = bit_or (u8 (bit_and (limit / 2 ^ 16) 0x0F)) (bit_and grand 0xF0);
  base_hi = u8 (base / 2 ^ 24);
}

-- `gdt_set_descriptor`. Its guard lets index `MAX_DESCRIPTORS` pass.
unfoldable pub gdt_set_descriptor : (i base limit access grand : ℕ) → Gdt → Gdt
gdt_set_descriptor i base limit access grand gdt =
    if ltb max_descriptors i then gdt else update gdt i (make_descriptor base limit access grand)

-- `gdt_get_descriptor`: the index of the descriptor, `none` for 0. Its guard is the same.
unfoldable pub gdt_get_descriptor : (i : ℕ) → Option ℕ
gdt_get_descriptor i = if ltb max_descriptors i then none else some i

-- The bits of an access byte and of a granularity byte.
abbrev pub gdt_desc_access : ℕ
gdt_desc_access = 0x01

abbrev pub gdt_desc_readwrite : ℕ
gdt_desc_readwrite = 0x02

abbrev pub gdt_desc_exec_code : ℕ
gdt_desc_exec_code = 0x08

abbrev pub gdt_desc_codedata : ℕ
gdt_desc_codedata = 0x10

abbrev pub gdt_desc_dpl : ℕ
gdt_desc_dpl = 0x60

abbrev pub gdt_desc_memory : ℕ
gdt_desc_memory = 0x80

abbrev pub gdt_grand_limithi_mask : ℕ
gdt_grand_limithi_mask = 0x0F

abbrev pub gdt_grand_32bit : ℕ
gdt_grand_32bit = 0x40

abbrev pub gdt_grand_4k : ℕ
gdt_grand_4k = 0x80

-- The selectors.
abbrev pub kernel_cs : ℕ
kernel_cs = bit_or (1 * 8) 0

abbrev pub kernel_ds : ℕ
kernel_ds = bit_or (2 * 8) 0

abbrev pub user_cs : ℕ
user_cs = bit_or (3 * 8) 3

abbrev pub user_ds : ℕ
user_ds = bit_or (4 * 8) 3

-- `tss_init`, for the address and the size of the TSS.
unfoldable pub tss_init : (tss_addr tss_size sel : ℕ) → Gdt → Gdt
tss_init tss_addr tss_size sel gdt =
    let access =
      bit_or (bit_or (bit_or gdt_desc_access gdt_desc_exec_code) gdt_desc_dpl) gdt_desc_memory in
    gdt_set_descriptor sel tss_addr (u32 (tss_addr + tss_size)) access 0 gdt

-- The access bytes of `gdt_init` for data and code in the kernel, and with `GDT_DESC_DPL` those of
-- programs; and its granularity byte.
abbrev pub data_access : ℕ
data_access = bit_or (bit_or gdt_desc_readwrite gdt_desc_codedata) gdt_desc_memory

abbrev pub code_access : ℕ
code_access = bit_or data_access gdt_desc_exec_code

abbrev pub flat_grand : ℕ
flat_grand = bit_or (bit_or gdt_grand_4k gdt_grand_32bit) gdt_grand_limithi_mask

-- The descriptors that `gdt_init` sets: null, kernel code and data, user code and data, TSS.
unfoldable pub gdt_init : (tss_addr tss_size : ℕ) → Gdt → Gdt
gdt_init tss_addr tss_size gdt =
    let g0 = gdt_set_descriptor 0 0 0 0 0 gdt in
    let g1 = gdt_set_descriptor 1 0 0xFFFF_FFFF code_access flat_grand g0 in
    let g2 = gdt_set_descriptor 2 0 0xFFFF_FFFF data_access flat_grand g1 in
    let g3 = gdt_set_descriptor 3 0 0xFFFF_FFFF (bit_or code_access gdt_desc_dpl) flat_grand g2 in
    let g4 = gdt_set_descriptor 4 0 0xFFFF_FFFF (bit_or data_access gdt_desc_dpl) flat_grand g3 in
    tss_init tss_addr tss_size 5 g4

-- `struct gdtr`, as `gdt_init` sets it for the address of the table.
pub record Gdtr : Type 0 where
  pub m_limit : ℕ
  pub m_base : ℕ

abbrev pub gdtr_init : (gdt_addr : ℕ) → Gdtr
gdtr_init gdt_addr = record { m_limit = 8 * max_descriptors - 1; m_base = gdt_addr }

abbrev pub max_interrupts : ℕ
max_interrupts = 256

-- `struct IDT_entry`.
pub record IdtEntry : Type 0 where
  pub offset_lowerbits : ℕ
  pub selector : ℕ
  pub zero_byte : ℕ
  pub type_attr : ℕ
  pub offset_higherbits : ℕ

abbrev pub Idt : Type 0
Idt = ℕ → IdtEntry

-- `install_ir`. Its guard lets index `MAX_INTERRUPTS` pass.
unfoldable pub install_ir : (i type_attr selector irq : ℕ) → Idt → Idt
install_ir i type_attr selector irq idt =
    if ltb max_interrupts i
    then idt
    else if irq == 0
    then idt
    else update idt i (record {
      offset_lowerbits = u16 irq;
      selector = selector;
      zero_byte = 0;
      type_attr = u8 type_attr;
      offset_higherbits = u16 (irq / 2 ^ 16);
    })

-- `setvect` and `setvect_user`: gate types 0x8e and 0x8e | 0x60, in the kernel's code segment.
unfoldable pub setvect : (intno vect : ℕ) → Idt → Idt
setvect intno vect idt = install_ir intno 0x8E kernel_cs vect idt

unfoldable pub setvect_user : (intno vect : ℕ) → Idt → Idt
setvect_user intno vect idt = install_ir intno (bit_or 0x8E 0x60) kernel_cs vect idt

-- `struct tss_entry`, as `tss_install` and `tss_set_stack` write it.
pub record TssEntry : Type 0 where
  pub esp0 : ℕ
  pub ss0 : ℕ
  pub es : ℕ
  pub cs : ℕ
  pub ss : ℕ
  pub ds : ℕ
  pub fs : ℕ
  pub gs : ℕ

-- `tss_install`: everything else is zero.
unfoldable pub tss_install : TssEntry
tss_install = record {
  esp0 = 0;
  ss0 = kernel_ds;
  es = bit_or kernel_ds 3;
  cs = bit_or kernel_cs 3;
  ss = bit_or kernel_ds 3;
  ds = bit_or kernel_ds 3;
  fs = bit_or kernel_ds 3;
  gs = bit_or kernel_ds 3;
}

-- `tss_set_stack`.
unfoldable pub tss_set_stack : (ss esp : ℕ) → TssEntry → TssEntry
tss_set_stack ss esp t = record t { ss0 = ss; esp0 = esp }
