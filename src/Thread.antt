-- ===== src/Thread.antt =====
-- The thread calls of interrupt 0x81, include/systhread.h.
use advanced_os.Base.{ℕ, ◌+◌, ◌-◌, ◌^◌, ◌==◌, if◌then◌else◌, Option, none, some}
use advanced_os.Memory.{u32, store32}
use advanced_os.Task.State.{
  waiting, terminated, Regs, Kernel, M, pure, modify, get, disable, enable, deref, put_proc,
  set_status, ◌>>=◌, ◌>>◌,
}
use advanced_os.Task.Table.{proc_alloc}
use advanced_os.Task.Switch.{save_proc, schedule_proc}
use advanced_os.Task.Life.{minus_one, clone_proc, wake_parent}
use advanced_os.Syscall.{sys_interrupt_handler}

-- The entrance of a thread: `eip`, the argument and the return address on the child's stack, and
-- the child's pid through `tid`.
unfoldable pub enter_thread : (tid func args i : ℕ) → Kernel → Kernel
enter_thread tid func args i k =
    let p = k.proc_list i in
    let at_args = u32 (p.reg_img.user_esp + 2 ^ 32 - 4) in
    let at_return = u32 (at_args + 2 ^ 32 - 4) in
    let pushed = store32 (store32 k.mem at_args args) at_return k.cpu.user_pthread_return in
    put_proc i (record p { reg_img = record p.reg_img { eip = func; user_esp = at_return } })
      (record k { mem = store32 pushed tid p.pid })

-- `do_thread_create` at the result of the allocation. On success interrupts stay disabled.
unfoldable pub create_into : Option ℕ → (tid func args : ℕ) → M ℕ
create_into none tid func args = do enable; pure minus_one
create_into (some i) tid func args = do
  k ← get
  c ← deref k.curr_proc
  modify (clone_proc c i)
  modify (enter_thread tid func args i)
  pure 0

-- `do_thread_create`.
unfoldable pub do_thread_create : (tid func args : ℕ) → M ℕ
do_thread_create tid func args = do disable; child ← proc_alloc; create_into child tid func args

-- `do_thread_join`: it waits for any wakeup, and uses neither `tid` nor `ret`.
unfoldable pub do_thread_join : (tid ret : ℕ) → M (Unit {0})
do_thread_join tid ret = do
  disable
  k ← get
  c ← deref k.curr_proc
  modify (set_status c waiting)
  schedule_proc
  enable

-- `do_thread_self`.
unfoldable pub do_thread_self : M ℕ
do_thread_self = do k ← get; c ← deref k.curr_proc; pure (k.proc_list c).pid

-- `do_thread_exit`. Its `user_process_return` is call 100 of interrupt 0x80 from the kernel; `r` are
-- the registers at that interrupt.
unfoldable pub do_thread_exit : Regs → M ℕ
do_thread_exit r = do
  disable
  k ← get
  c ← deref k.curr_proc
  modify (set_status c terminated)
  wake_parent (k.proc_list c).parent
  enable
  sys_interrupt_handler r 100 0

-- `sys_pthread_handler_main`; the arguments are what ebx, ecx and edx hold.
unfoldable pub sys_pthread_handler_main : Regs → (num arg1 arg2 arg3 : ℕ) → M ℕ
sys_pthread_handler_main r num arg1 arg2 arg3 =
    if num == 0
    then do_thread_create arg1 arg2 arg3
    else if num == 1
    then (do_thread_join arg1 arg2 >> pure 0)
    else if num == 2
    then do_thread_self
    else if num == 3
    then (do_thread_exit r >> pure 0)
    else pure 0

-- `sys_pthread_handler` of kernel_entry.asm.
unfoldable pub sys_pthread_handler : (r nested : Regs) → (num arg1 arg2 arg3 : ℕ) → M ℕ
sys_pthread_handler r nested num arg1 arg2 arg3 = do
  disable
  modify (save_proc r)
  ret ← sys_pthread_handler_main nested num arg1 arg2 arg3
  enable
  pure ret
