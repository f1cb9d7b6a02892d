-- ===== src/Task/Life.antt =====
-- The life of a process, include/task.h: `do_fork`, `wakeup`, `do_wait`, `do_exit` and `kill`.
use advanced_os.Base.{ℕ, ◌+◌, ◌-◌, ◌*◌, ◌^◌, ◌==◌, ◌&&◌, Option, none, some, first_index}
use advanced_os.Memory.{u32, u8, memcpy}
use advanced_os.Task.State.{
  ready, waiting, terminated, is_waiting, Regs, Kernel, max_process, M, pure, modify, get, disable,
  enable, deref, put_proc, set_status, ◌>>=◌, ◌>>◌, returns,
}
use advanced_os.Task.Table.{reset_time, proc_alloc}
use advanced_os.Task.Switch.{schedule_proc}

-- The -1 of an `int`.
abbrev pub minus_one : ℕ
minus_one = 2 ^ 32 - 1

-- How far a child's stack lies from its parent's.
abbrev pub stack_shift : ℕ → ℕ
stack_shift pid = pid * 0x100

-- The registers of a child: the parent's, with another stack and a result of 0.
unfoldable pub child_regs : Regs → (pid : ℕ) → Regs
child_regs r pid = record r {
  ebp = u32 (r.ebp + stack_shift pid);
  user_esp = u32 (r.user_esp + stack_shift pid);
  eax = 0;
}

-- `(curr_proc->regImg.ebp - curr_proc->regImg.user_esp)*2`.
unfoldable pub stack_bytes : Regs → ℕ
stack_bytes r = u32 (u32 (r.ebp + 2 ^ 32 - r.user_esp) * 2)

-- `do_fork` after the allocation of slot `i`, with `c` the current slot.
unfoldable pub clone_proc : (c i : ℕ) → Kernel → Kernel
clone_proc c i k =
    let r = (k.proc_list c).reg_img in
    let child = k.proc_list i in
    let r' = child_regs r child.pid in
    put_proc i (reset_time (record child { reg_img = r'; parent = some c; status = ready }))
      (record k { mem = memcpy k.mem r'.user_esp r.user_esp (stack_bytes r) })

-- `do_fork` at the result of the allocation. On success interrupts stay disabled.
unfoldable pub fork_into : Option ℕ → M ℕ
fork_into none = do enable; pure minus_one
fork_into (some i) = do
  k ← get
  c ← deref k.curr_proc
  modify (clone_proc c i)
  k' ← get
  pure (k'.proc_list i).pid

-- `do_fork`.
unfoldable pub do_fork : M ℕ
do_fork = do disable; child ← proc_alloc; fork_into child

-- The slot that `wakeup` finds.
unfoldable pub waiting_slot : ℕ → Kernel → Option ℕ
waiting_slot pid k =
    first_index (λ i. ((k.proc_list i).pid == pid) && is_waiting (k.proc_list i).status) max_process
      0

-- `wakeup` at the slot found.
unfoldable pub wake_slot : Option ℕ → M (Unit {0})
wake_slot none = enable
wake_slot (some i) = do modify (set_status i ready); schedule_proc; enable

-- `wakeup`. Its argument is a `uint8_t`.
unfoldable pub wakeup : ℕ → M (Unit {0})
wakeup pid = do disable; k ← get; wake_slot (waiting_slot pid k)

-- `do_wait`.
unfoldable pub do_wait : M (Unit {0})
do_wait = do
  disable
  k ← get
  c ← deref k.curr_proc
  modify (set_status c waiting)
  schedule_proc
  enable

-- `if (curr_proc->parent != NULL) wakeup(curr_proc->parent->pid);` at the parent.
unfoldable pub wake_parent : Option ℕ → M (Unit {0})
wake_parent none k = returns tt k
wake_parent (some p) k = wakeup (u8 (k.proc_list p).pid) k

-- `do_exit`.
unfoldable pub do_exit : M (Unit {0})
do_exit = do
  disable
  k ← get
  c ← deref k.curr_proc
  modify (set_status c terminated)
  wake_parent (k.proc_list c).parent
  enable

-- The slot that `kill` finds.
unfoldable pub pid_slot : ℕ → Kernel → Option ℕ
pid_slot pid k = first_index (λ i. (k.proc_list i).pid == pid) max_process 0

-- `kill` at the slot found.
unfoldable pub kill_slot : Option ℕ → M ℕ
kill_slot none = do enable; pure minus_one
kill_slot (some i) = do modify (set_status i terminated); enable; pure 0

-- `kill`. Its argument is a `uint8_t`.
unfoldable pub kill : ℕ → M ℕ
kill pid = do disable; k ← get; kill_slot (pid_slot pid k)
