-- ===== src/Gdt/Fields.antt =====
-- The fields of descriptors and gates hold what they were made of.
use advanced_os.Base.{
  ℕ, ◌+◌, ◌*◌, ◌/◌, ◌%◌, ◌^◌, ◌<◌, bit_and, bit_or, ◌≡◌, refl, ◌∙◌, ◌≢◌, arith, ==_ne, le→ltb,
}
use advanced_os.Base.Bits.{bit_and-0xF, bit_and-0xF0, bit_or_nibble}
use advanced_os.Memory.{u8}
use advanced_os.Gdt.{GdtDescriptor, make_descriptor, Idt, max_interrupts, install_ir}

-- The processor's reading of a descriptor.
abbrev pub base_of : GdtDescriptor → ℕ
base_of d = d.base_lo + d.base_mid * 2 ^ 16 + d.base_hi * 2 ^ 24

abbrev pub limit_of : GdtDescriptor → ℕ
limit_of d = d.limit + d.grand % 16 * 2 ^ 16

abbrev pub granularity_of : GdtDescriptor → ℕ
granularity_of d = d.grand / 16

grand_lem : (a g : ℕ) → bit_or (u8 (bit_and a 0x0F)) (bit_and g 0xF0) ≡ a % 16 + g / 16 % 16 * 16
grand_lem a g =
    rw (bit_and-0xF, bit_and-0xF0)
      (bit_or_nibble (g / 16 % 16 * 16) (u8 (a % 16)) (omega arith) (omega arith) ∙ omega arith)

-- A descriptor made of a base below 2 ^ 32 and flags in a byte reads back as the 32-bit base, the
-- 20-bit limit, the access byte and the granularity nibble that it was made of.
pub make_descriptor-reads :
    (base limit access grand : ℕ)
    → base < 2 ^ 32
    → grand < 256
    → let d = make_descriptor base limit access grand in
      (base_of d ≡ base)
      × (limit_of d ≡ limit % 2 ^ 20)
      × (d.flags ≡ access)
      × (granularity_of d ≡ grand / 16)
unfolding make_descriptor
make_descriptor-reads base limit access grand b g =
    let e = grand_lem (limit / 2 ^ 16) grand in (omega arith, omega arith, refl, omega arith)

-- A gate set within the table, for a handler that is not NULL, reads back as the 32-bit address of
-- its handler, with its selector and type; every other gate stays.
pub install_ir-fields :
    (i type_attr selector irq : ℕ) (idt : Idt)
    → i < max_interrupts
    → irq ≢ 0
    → irq < 2 ^ 32
    → type_attr < 256
    → let g = install_ir i type_attr selector irq idt in
      ((g i).offset_lowerbits + (g i).offset_higherbits * 2 ^ 16 ≡ irq)
      × ((g i).selector ≡ selector)
      × ((g i).type_attr ≡ type_attr)
      × ((j : ℕ) → i ≢ j → g j ≡ idt j)
unfolding install_ir
install_ir-fields i type_attr selector irq idt h nz b t =
    rw (le→ltb max_interrupts i (omega arith), ==_ne irq 0 nz)
      (ground arith, ground arith, ground arith, λ j ne. ground arith)
