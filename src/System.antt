-- ===== src/System.antt =====
-- The kernel as a whole: the entries by which control comes into it, and their runs in any order.
pub mod Valid
pub mod ThreadValid
use advanced_os.Base.{ℕ, Option, none, some, List, [], ◌∷◌}
use advanced_os.Task.State.{
  Regs, Kernel, Run, M, returns, resumes, enters_shell, fault, ◌>>=◌, ◌>>◌,
}
use advanced_os.Task.Table.{proc_create}
use advanced_os.Task.Switch.{schedule_proc, pit_handler_main}
use advanced_os.Syscall.{sys_interrupt_handler}
use advanced_os.Thread.{sys_pthread_handler}

-- The timer, interrupts 0x80 and 0x81, and the two calls that the shell's `exec` makes.
pub data Call : Type 0 where
  timer : Regs → Call
  system : Regs → (num arg : ℕ) → Call
  thread : (r nested : Regs) → (num arg1 arg2 arg3 : ℕ) → Call
  create : (cs ds addr : ℕ) → Call
  schedule : Call

-- The kernel that a run leaves; `none` after a use of `NULL`.
abbrev pub final : {A : Type 0} → Run A → Option Kernel
final (returns a k) = some k
final (resumes r k) = some k
final (enters_shell k) = some k
final fault = none

unfoldable pub exec_call : Call → Kernel → Option Kernel
exec_call (timer r) k = final (pit_handler_main r k)
exec_call (system r num arg) k = final (sys_interrupt_handler r num arg k)
exec_call (thread r nested num a b c) k = final (sys_pthread_handler r nested num a b c k)
exec_call (create cs ds addr) k = final (proc_create cs ds addr k)
exec_call schedule k = final (schedule_proc k)

-- A sequence of entries, in order.
unfoldable pub exec_calls : List Call → Kernel → Option Kernel
exec_calls [] k = some k
exec_calls (c ∷ cs) k = elim (exec_call c k) [ none ↦ none | some k' ↦ exec_calls cs k' ]
