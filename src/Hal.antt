-- ===== src/Hal.antt =====
-- The start of the hardware, include/hal.h, with `idt_init` and `kb_init` of include/idt.h and
-- `pit_init` of include/pit.h. `addr` gives the addresses of the handlers.
pub mod Vectors
use advanced_os.Base.{
  ℕ, zero, suc, ◌+◌, ◌-◌, ◌*◌, ◌/◌, ◌%◌, ◌^◌, ◌≤◌, ◌<◌, min, bit_and, bit_or, ◌≡◌, refl, sym, ap,
  ◌∙◌, fun_ext, ◌≢◌, ◌↔◌, ◌⊎◌, inl, inr, Bool, true, false, ◌&&◌, ◌||◌, not, Option, none, some,
  List, [], ◌∷◌, ◌++◌, map, reverse, append_assoc, append-nil, subst, arith, dec_lt, ℕ_discrete,
  ltb, leb, ◌==◌, if◌then◌else◌, Bool-cases, Option-cases, length, get_elem?, get_or, take, drop,
  All, codes, update, update_self, update_ne, first_index, first_index-some, first_index-none,
  first_index-found, IsFirst, ==_refl, ==_ne, lt→ltb, le→ltb, eq_of_some,
}
use advanced_os.Base.Options.{◌>>=◌}
use advanced_os.Memory.{u32}
use advanced_os.Gdt.{Gdt, gdt_init, Idt, IdtEntry, max_interrupts, setvect, setvect_user}
use advanced_os.Pic.{PortWrites, pic_init}
use advanced_os.Pit.{pit_start_counter, ocw_counter_0, ocw_mode_squarewavegen}
use advanced_os.Console.{Console, set_at_first_term}
use advanced_os.Format.{printf, put_info}

-- The functions whose addresses the table is filled with.
pub data Handler : Type 0 where
  default : Handler
  divide_by_zero : Handler
  single_step : Handler
  nmi : Handler
  breakpoint : Handler
  overflow : Handler
  bounds_check : Handler
  invalid_opcode : Handler
  no_device : Handler
  double_fault : Handler
  invalid_tss : Handler
  no_segment : Handler
  stack_fault : Handler
  general_protection : Handler
  page_fault : Handler
  fpu : Handler
  alignment_check : Handler
  machine_check : Handler
  simd_fpu : Handler
  sys_interrupt : Handler
  sys_pthread : Handler
  sys_file : Handler
  keyboard : Handler
  pit : Handler

abbrev pub null_gate : IdtEntry
null_gate = record {
  offset_lowerbits = 0;
  selector = 0;
  zero_byte = 0;
  type_attr = 0;
  offset_higherbits = 0;
}

-- `memset` of `idt_init`, which leaves the last byte of the table.
unfoldable pub clear_idt : Idt → Idt
clear_idt idt i =
    let last = record null_gate { offset_higherbits = (idt i).offset_higherbits / 2 ^ 8 * 2 ^ 8 } in
    if ltb i 255 then null_gate else if i == 255 then last else idt i

-- `n` rounds of the loop of `idt_init`, from `i` on.
unfoldable pub default_vectors : (vect n i : ℕ) → Idt → Idt
default_vectors vect zero i idt = idt
default_vectors vect (suc n) i idt = default_vectors vect n (i + 1) (setvect i vect idt)

-- `idt_init`: the table, and the two words that `load_idt` is given.
unfoldable pub idt_init :
    (addr : Handler → ℕ) (idt_address : ℕ) → Idt → record { table : Idt; pointer : ℕ × ℕ }
idt_init addr idt_address idt = record {
  table = default_vectors (addr default) max_interrupts 0 (clear_idt idt);
  pointer =
      (u32 (8 * max_interrupts + u32 (bit_and idt_address 0xFFFF * 2 ^ 16)), idt_address / 2 ^ 16);
}

-- The exception handlers that `hal_initialize` installs.
unfoldable pub exceptions_init : (addr : Handler → ℕ) → Idt → Idt
exceptions_init addr idt =
    let i5 = setvect 5 (addr bounds_check) (
      setvect 4 (addr overflow) (
        setvect 3 (addr breakpoint) (
          setvect 2 (addr nmi)
            (setvect 1 (addr single_step) (setvect 0 (addr divide_by_zero) idt))))) in
    let i11 = setvect 11 (addr no_segment) (
      setvect 10 (addr invalid_tss) (
        setvect 8 (addr double_fault)
          (setvect 7 (addr no_device) (setvect 6 (addr invalid_opcode) i5)))) in
    setvect 19 (addr simd_fpu) (
      setvect 18 (addr machine_check) (
        setvect 17 (addr alignment_check) (
          setvect 16 (addr fpu) (
            setvect 14 (addr page_fault)
              (setvect 13 (addr general_protection) (setvect 12 (addr stack_fault) i11))))))

-- The interrupts of the system calls.
unfoldable pub calls_init : (addr : Handler → ℕ) → Idt → Idt
calls_init addr idt =
    setvect_user 0x82 (addr sys_file)
      (setvect_user 0x81 (addr sys_pthread) (setvect_user 0x80 (addr sys_interrupt) idt))

unfoldable pub kb_init : (addr : Handler → ℕ) → Idt → Idt
kb_init addr idt = setvect 0x21 (addr keyboard) idt

unfoldable pub pit_init : (addr : Handler → ℕ) → Idt → Idt
pit_init addr idt = setvect 32 (addr pit) idt

-- What `hal_initialize` sets: the screen, the tables, what is written to the ports, and the ticks.
pub record Hardware : Type 0 where
  pub console : Console
  pub gdt : Gdt
  pub idt : Idt
  pub idt_ptr : ℕ × ℕ
  pub ports : PortWrites
  pub pit_ticks : ℕ
  pub pit_is_init : Bool

-- The table that `hal_initialize` leaves.
unfoldable pub vectors_init : (addr : Handler → ℕ) → (idt_address : ℕ) → Idt → Idt
vectors_init addr idt_address idt =
    pit_init addr
      (kb_init addr (calls_init addr (exceptions_init addr (idt_init addr idt_address idt).table)))

-- `hal_initialize`, for the addresses of the TSS and of the IDT.
unfoldable pub hal_initialize :
    (addr : Handler → ℕ) (tss_addr tss_size idt_address : ℕ) → Hardware → Option Hardware
hal_initialize addr tss_addr tss_size idt_address m = do
  top ← printf (codes "\n\n\n") [] (set_at_first_term m.console)
  let tables = put_info (codes "Initialized IDT") (put_info (codes "Initialized GDT & TSS") top)
  let pics = put_info (codes "Initialized PIC") tables
  let keys = put_info (codes "Initialized keyboard") pics
  (writes, ticks) ← pit_start_counter 100 ocw_counter_0 ocw_mode_squarewavegen m.pit_ticks
  some (record {
    console = put_info (codes "Initialized PIT") keys;
    gdt = gdt_init tss_addr tss_size m.gdt;
    idt = vectors_init addr idt_address m.idt;
    idt_ptr = (idt_init addr idt_address m.idt).pointer;
    ports = m.ports ++ pic_init ++ writes;
    pit_ticks = ticks;
    pit_is_init = true;
  })

-- `pit_is_initialized`, and `pit_get_tick_count` with `get_tick_count`.
abbrev pub pit_is_initialized : Hardware → Bool
pit_is_initialized m = m.pit_is_init

abbrev pub pit_get_tick_count : Hardware → ℕ
pit_get_tick_count m = m.pit_ticks
