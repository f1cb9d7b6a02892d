-- ===== src/Exception.antt =====
-- The exception handlers, include/exception.h, and the default handler of include/idt.h: each gives
-- the screen in front of which it stays in its `for (;;)`.
use advanced_os.Base.{ℕ, Option, some, [], ◌∷◌, codes}
use advanced_os.Base.Options.{◌>>=◌}
use advanced_os.Console.{Console}
use advanced_os.Format.{put_exception, sprintf, int}

unfoldable pub divide_by_zero_fault : (cs eip eflags : ℕ) → Console → Console
divide_by_zero_fault _ _ _ c = put_exception (codes "Divide by 0") c

unfoldable pub single_step_trap : (cs eip eflags : ℕ) → Console → Console
single_step_trap _ _ _ c = put_exception (codes "Single step") c

unfoldable pub nmi_trap : (cs eip eflags : ℕ) → Console → Console
nmi_trap _ _ _ c = put_exception (codes "NMI trap") c

unfoldable pub breakpoint_trap : (cs eip eflags : ℕ) → Console → Console
breakpoint_trap _ _ _ c = put_exception (codes "Breakpoint trap") c

unfoldable pub overflow_trap : (cs eip eflags : ℕ) → Console → Console
overflow_trap _ _ _ c = put_exception (codes "Overflow trap") c

unfoldable pub bounds_check_fault : (cs eip eflags : ℕ) → Console → Console
bounds_check_fault _ _ _ c = put_exception (codes "Bounds check fault") c

unfoldable pub invalid_opcode_fault : (cs eip eflags : ℕ) → Console → Option Console
invalid_opcode_fault cs eip eflags c = do
  str ←
      sprintf (codes "Invalid opcode\ncs:eip=%xh:%xh, eflags=%xh")
        (int cs ∷ int eip ∷ int eflags ∷ [])
  some (put_exception str c)

unfoldable pub no_device_fault : (cs eip eflags : ℕ) → Console → Console
no_device_fault _ _ _ c = put_exception (codes "Device not found") c

unfoldable pub double_fault_abort : (cs err eip eflags : ℕ) → Console → Console
double_fault_abort _ _ _ _ c = put_exception (codes "Double fault") c

unfoldable pub invalid_tss_fault : (cs err eip eflags : ℕ) → Console → Console
invalid_tss_fault _ _ _ _ c = put_exception (codes "Invalid TSS") c

unfoldable pub no_segment_fault : (cs err eip eflags : ℕ) → Console → Console
no_segment_fault _ _ _ _ c = put_exception (codes "Invalid segment") c

unfoldable pub stack_fault : (cs err eip eflags : ℕ) → Console → Console
stack_fault _ _ _ _ c = put_exception (codes "Stack fault") c

unfoldable pub general_protection_fault : (cs err eip eflags : ℕ) → Console → Option Console
general_protection_fault cs err eip eflags c = do
  str ←
      sprintf (codes "General Protection Fault\ncs:eip=%xh:%xh, eflags=%xh, err=%xh")
        (int cs ∷ int eip ∷ int eflags ∷ int err ∷ [])
  some (put_exception str c)

unfoldable pub page_fault : (cs err eip eflags : ℕ) → Console → Console
page_fault _ _ _ _ c = put_exception (codes "Page Fault") c

unfoldable pub fpu_fault : (cs eip eflags : ℕ) → Console → Console
fpu_fault _ _ _ c = put_exception (codes "FPU Fault") c

unfoldable pub alignment_check_fault : (cs err eip eflags : ℕ) → Console → Console
alignment_check_fault _ _ _ _ c = put_exception (codes "Alignment Check") c

unfoldable pub machine_check_abort : (cs eip eflags : ℕ) → Console → Console
machine_check_abort _ _ _ c = put_exception (codes "Machine Check") c

unfoldable pub simd_fpu_fault : (cs eip eflags : ℕ) → Console → Console
simd_fpu_fault _ _ _ c = put_exception (codes "FPU SIMD fault") c

unfoldable pub default_handler : (cs eflags eip : ℕ) → Console → Option Console
default_handler cs eflags eip c = do
  str ←
      sprintf (codes "Unhandled Exception!\ncs:eip=%xh:%xh, eflags=%xh")
        (int cs ∷ int eip ∷ int eflags ∷ [])
  some (put_exception str c)
