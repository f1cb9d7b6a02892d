-- ===== src/Syscall.antt =====
-- The system calls of interrupt 0x80, include/syscall.h, and the entry `sys_interrupt_handler` of
-- kernel_entry.asm, which saves the process first.
use advanced_os.Base.{ℕ, ◌==◌, if◌then◌else◌, none}
use advanced_os.Task.State.{
  terminated, Regs, Kernel, M, print_logo, put_info, pure, modify, get, disable, enable, deref,
  set_status, act, ◌>>=◌, ◌>>◌, returns, enters_shell,
}
use advanced_os.Task.Table.{sys_get_pid}
use advanced_os.Task.Switch.{save_proc}
use advanced_os.Task.Life.{do_fork, do_wait, do_exit}
use advanced_os.Sem.{do_sem_p, do_sem_v, do_getsem, do_freesem}

-- `curr_proc = NULL`.
abbrev pub drop_current : Kernel → Kernel
drop_current k = record k { curr_proc = none }

-- Call 100: the current process ends, and the shell's loop begins.
unfoldable pub process_return : M ℕ
process_return = do
  k ← get
  c ← deref k.curr_proc
  modify (set_status c terminated)
  modify drop_current
  enable
  enters_shell

-- A call that returns nothing leaves 0.
abbrev pub then_zero : M (Unit {0}) → M ℕ
then_zero m = m >> pure 0

-- `sys_interrupt_handler_main`; `arg` is what ebx holds.
unfoldable pub sys_interrupt_handler_main : (num arg : ℕ) → M ℕ
sys_interrupt_handler_main num arg =
    if num == 0
    then then_zero (modify (act print_logo))
    else if num == 1
    then then_zero (modify (act put_info) >> modify (act put_info))
    else if num == 10
    then do_fork
    else if num == 11
    then then_zero do_wait
    else if num == 12
    then then_zero do_exit
    else if num == 13
    then (λ k. returns (sys_get_pid k) k)
    else if num == 20
    then do_getsem arg
    else if num == 21
    then then_zero (do_sem_p arg)
    else if num == 22
    then then_zero (do_sem_v arg)
    else if num == 23
    then then_zero (do_freesem arg)
    else if num == 100
    then process_return
    else pure 0

-- `sys_interrupt_handler`: `cli`, the save, the call, `sti`.
unfoldable pub sys_interrupt_handler : Regs → (num arg : ℕ) → M ℕ
sys_interrupt_handler r num arg = do
  disable
  modify (save_proc r)
  ret ← sys_interrupt_handler_main num arg
  enable
  pure ret
