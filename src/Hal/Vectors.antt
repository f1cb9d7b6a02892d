-- ===== src/Hal/Vectors.antt =====
-- The interrupt table that the start leaves.
use advanced_os.Base.{
  ℕ, zero, suc, ◌+◌, ◌/◌, ◌^◌, ◌≤◌, ◌<◌, ◌≡◌, refl, ◌≢◌, inl, inr, List, [], ◌∷◌, arith, ◌==◌,
  if◌then◌else◌, Bool-cases, All, update, ==_ne, le→ltb,
}
use advanced_os.Gdt.{Idt, IdtEntry, setvect, setvect_user, install_ir, u16, max_interrupts}
use advanced_os.Memory.{u8}
use advanced_os.Hal.{
  Handler, default, divide_by_zero, single_step, nmi, breakpoint, overflow, bounds_check,
  invalid_opcode, no_device, double_fault, invalid_tss, no_segment, stack_fault, general_protection,
  page_fault, fpu, alignment_check, machine_check, simd_fpu, sys_interrupt, sys_pthread, sys_file,
  keyboard, pit, clear_idt, default_vectors, idt_init, exceptions_init, calls_init, kb_init,
  pit_init, vectors_init,
}

-- A gate of the kernel's code segment.
abbrev pub gate : (type_attr vect : ℕ) → IdtEntry
gate type_attr vect = record {
  offset_lowerbits = u16 vect;
  selector = 0x08;
  zero_byte = 0;
  type_attr = type_attr;
  offset_higherbits = u16 (vect / 2 ^ 16);
}

abbrev pub Vector : Type 0
Vector = ℕ × (ℕ × Handler)

-- Number, gate type and handler: exceptions and devices from the kernel, calls from ring 3 too.
abbrev pub vectors : List Vector
vectors =
    (32, (0x8E, pit))
    ∷ (0x21, (0x8E, keyboard))
    ∷ (0x82, (0xEE, sys_file))
    ∷ (0x81, (0xEE, sys_pthread))
    ∷ (0x80, (0xEE, sys_interrupt))
    ∷ (19, (0x8E, simd_fpu))
    ∷ (18, (0x8E, machine_check))
    ∷ (17, (0x8E, alignment_check))
    ∷ (16, (0x8E, fpu))
    ∷ (14, (0x8E, page_fault))
    ∷ (13, (0x8E, general_protection))
    ∷ (12, (0x8E, stack_fault))
    ∷ (11, (0x8E, no_segment))
    ∷ (10, (0x8E, invalid_tss))
    ∷ (8, (0x8E, double_fault))
    ∷ (7, (0x8E, no_device))
    ∷ (6, (0x8E, invalid_opcode))
    ∷ (5, (0x8E, bounds_check))
    ∷ (4, (0x8E, overflow))
    ∷ (3, (0x8E, breakpoint))
    ∷ (2, (0x8E, nmi))
    ∷ (1, (0x8E, single_step))
    ∷ (0, (0x8E, divide_by_zero))
    ∷ []

-- The gate of a number in a list of vectors, or the default handler's.
abbrev pub gate_of : (addr : Handler → ℕ) → List Vector → ℕ → IdtEntry
gate_of addr [] i = gate 0x8E (addr default)
gate_of addr ((n, (t, h)) ∷ vs) i = if i == n then gate t (addr h) else gate_of addr vs i

abbrev install : (addr : Handler → ℕ) → List Vector → Idt → Idt
install addr [] idt = idt
install addr ((n, (t, h)) ∷ vs) idt = install_ir n t 0x08 (addr h) (install addr vs idt)

-- Vectors of the table, with gate types in a byte.
abbrev AreVectors : List Vector → Type 0
AreVectors vs = All (λ v. (v.0 ≤ 256) × (v.1.0 < 256)) vs

install_ir-gate :
    (n t vect : ℕ) (idt : Idt)
    → n ≤ 256
    → t < 256
    → vect ≢ 0
    → install_ir n t 0x08 vect idt ≡ update idt n (gate t vect)
unfolding install_ir
install_ir-gate n t vect idt b l nz =
    let e : u8 t ≡ t = omega arith in rw (le→ltb max_interrupts n b, ==_ne vect 0 nz, e)

install-gate_of :
    (addr : Handler → ℕ) (vs : List Vector) (idt : Idt) (i : ℕ)
    → ((h : Handler) → addr h ≢ 0)
    → AreVectors vs
    → idt i ≡ gate 0x8E (addr default)
    → install addr vs idt i ≡ gate_of addr vs i
install-gate_of addr [] idt i nz a e = e
install-gate_of addr ((n, (t, h)) ∷ vs) idt i nz a e =
    rw (install_ir-gate n t (addr h) (install addr vs idt) a.0.0 a.0.1 (nz h))
      (elim (Bool-cases (i == n)) [
        | inl q ↦ rw q refl
        | inr q ↦ rw q (install-gate_of addr vs idt i nz a.1 e)
      ])

default_vectors-gate :
    (vect n i j : ℕ) (idt : Idt)
    → vect ≢ 0
    → i + n ≤ 256
    → j < i + n
    → (j < i → idt j ≡ gate 0x8E vect)
    → default_vectors vect n i idt j ≡ gate 0x8E vect
unfolding default_vectors setvect
default_vectors-gate vect zero i j idt nz b l h = h (omega arith)
default_vectors-gate vect (suc n) i j idt nz b l h =
    rw (install_ir-gate i 0x8E vect idt (omega arith) (omega arith) nz) (
      default_vectors-gate vect n (i + 1) j (update idt i (gate 0x8E vect)) nz (omega arith)
        (omega arith) (λ s. ground arith))

vectors-AreVectors : AreVectors vectors
vectors-AreVectors = ground arith

vectors_init-install :
    (addr : Handler → ℕ) (idt_address : ℕ) (idt : Idt)
    → vectors_init addr idt_address idt
      ≡ install addr vectors (default_vectors (addr default) max_interrupts 0 (clear_idt idt))
unfolding vectors_init pit_init kb_init calls_init exceptions_init idt_init setvect setvect_user
vectors_init-install addr idt_address idt = refl

-- Every gate of the table that the start leaves is the one that the list of vectors names for its
-- number, with the calls alone open to ring 3, and the default handler's where the list names none,
-- if no handler has the address 0.
pub vectors_init-gate_of :
    (addr : Handler → ℕ) (idt_address : ℕ) (idt : Idt) (i : ℕ)
    → ((h : Handler) → addr h ≢ 0)
    → i < max_interrupts
    → vectors_init addr idt_address idt i ≡ gate_of addr vectors i
vectors_init-gate_of addr idt_address idt i nz l = rw (vectors_init-install addr idt_address idt) (
    install-gate_of addr vectors (default_vectors (addr default) max_interrupts 0 (clear_idt idt)) i
      nz vectors-AreVectors
      (default_vectors-gate (addr default) 256 0 i (clear_idt idt) (nz default) (omega arith) l
        (λ s. absurd (omega arith))))
