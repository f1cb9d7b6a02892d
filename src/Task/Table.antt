-- ===== src/Task/Table.antt =====
-- The process table of include/task.h: initialisation, allocation, creation, and the choice of the
-- next process.
use advanced_os.Base.{
  ℕ, ◌+◌, ◌-◌, ◌%◌, ◌^◌, ltb, if◌then◌else◌, Option, none, some, first_index, bit_or,
}
use advanced_os.Memory.{u32, store32}
use advanced_os.Task.State.{
  new, ready, is_new, is_ready, is_running, Regs, Process, Kernel, max_process, max_tick, proc_size,
  prior_user, M, pure, modify, disable, deref, put_proc, ◌>>=◌, ◌>>◌, returns,
}

-- `get_proc`.
unfoldable pub get_proc : Kernel → Option ℕ
get_proc k = k.curr_proc

-- `reset_time`.
abbrev pub reset_time : Process → Process
reset_time p = record p { tick = max_tick }

-- `sys_get_pid`; -1 is the pattern 2 ^ 32 - 1.
unfoldable pub sys_get_pid : Kernel → ℕ
sys_get_pid k = elim k.curr_proc [ none ↦ 2 ^ 32 - 1 | some c ↦ (k.proc_list c).pid ]

abbrev pub zero_regs : Regs
zero_regs = record {
  gs = 0;
  fs = 0;
  es = 0;
  ds = 0;
  edi = 0;
  esi = 0;
  ebp = 0;
  esp = 0;
  ebx = 0;
  edx = 0;
  ecx = 0;
  eax = 0;
  eip = 0;
  cs = 0;
  eflags = 0;
  user_esp = 0;
  ss = 0;
}

-- A slot after `memset` and the loop of `proc_init`.
abbrev pub blank : Process
blank = record {
  reg_img = zero_regs;
  pid = 0;
  parent = none;
  next = none;
  priority = prior_user;
  status = new;
  tick = 0;
  terminal = 0;
}

-- `proc_init`.
unfoldable pub proc_init : Kernel → Kernel
proc_init k = record k { proc_list = λ i. if ltb i max_process then blank else k.proc_list i }

-- The slot that `proc_alloc` finds.
unfoldable pub free_slot : Kernel → Option ℕ
free_slot k = first_index (λ i. is_new (k.proc_list i).status) max_process 0

-- The body of the loop of `proc_alloc` at the free slot, NEW to READY with the next pid, or the
-- return behind the loop.
unfoldable pub take_slot : Option ℕ → M (Option ℕ)
take_slot none k = returns none k
take_slot (some i) k =
    let pid = u32 (k.curr_pid + 1) in
    returns (some i) (
      put_proc i (record (k.proc_list i) { status = ready; pid = pid })
        (record k { curr_pid = pid }))

-- `proc_alloc`.
unfoldable pub proc_alloc : M (Option ℕ)
proc_alloc k = take_slot (free_slot k) k

-- The registers and stack of a created process.
unfoldable pub start_regs : (cs ds addr flag : ℕ) → Regs → Regs
start_regs cs ds addr flag r = record r {
  cs = cs;
  ds = ds;
  es = ds;
  fs = ds;
  gs = ds;
  ss = ds;
  eflags = bit_or flag 0x200;
  eip = addr;
  esp = u32 (addr + proc_size);
  ebp = u32 (addr + proc_size);
  user_esp = u32 (u32 (addr + proc_size) + 2 ^ 32 - 4);
}

-- `proc_create` after the allocation.
unfoldable pub fill_proc : (cs ds addr i : ℕ) → Kernel → Kernel
fill_proc cs ds addr i k =
    let p = k.proc_list i in
    let r = start_regs cs ds addr k.cpu.eflags p.reg_img in
    put_proc i (reset_time (record p { reg_img = r; terminal = k.curr_terminal }))
      (record k { mem = store32 k.mem r.user_esp k.cpu.user_process_return })

-- `proc_create`. The result of `proc_alloc` is used unchecked.
unfoldable pub proc_create : (cs ds addr : ℕ) → M ℕ
proc_create cs ds addr = do
  disable
  pp ← proc_alloc
  i ← deref pp
  modify (fill_proc cs ds addr i)
  pure i

-- The slot of the running process; `none` is the -1 of `curr_index`.
unfoldable pub running_slot : Kernel → Option ℕ
running_slot k = first_index (λ i. is_running (k.proc_list i).status) max_process 0

-- `1 + curr_index`, where the round begins.
abbrev pub round_start : Option ℕ → ℕ
round_start none = 0
round_start (some c) = c + 1

-- `(i + 1 + curr_index) % MAX_PROCESS`.
abbrev pub round_slot : Option ℕ → ℕ → ℕ
round_slot c i = (i + round_start c) % max_process

-- The round of `proc_pick`: which step of it meets a READY process.
unfoldable pub round_step : Kernel → Option ℕ → Option ℕ
round_step k c = first_index (λ i. is_ready (k.proc_list (round_slot c i)).status) max_process 0

-- The process that the round found; or else the running one, if there is one.
unfoldable pub pick_from : (running found : Option ℕ) → Option ℕ
pick_from c none = c
pick_from c (some i) = some (round_slot c i)

-- `proc_pick`.
unfoldable pub proc_pick : Kernel → Option ℕ
proc_pick k = let c = running_slot k in pick_from c (round_step k c)
