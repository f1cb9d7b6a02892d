-- ===== src/Task/Switch.antt =====
-- Saving and resuming processes, include/task.h: `save_proc`, `proc_switch`, `schedule_proc` and the
-- timer's `pit_handler_main`.
use advanced_os.Base.{Option, ℕ, ◌+◌, ◌-◌, ◌%◌, ◌^◌, ◌==◌, ltb, if◌then◌else◌, none, some, [], ◌∷◌}
use advanced_os.Memory.{u32}
use advanced_os.Pic.{PortWrites, interruptdone}
use advanced_os.Task.State.{
  ready, running, is_running, Regs, Kernel, M, port_out, clear_screen, modify, put_proc, set_status,
  act, ◌>>◌, returns, resumes,
}
use advanced_os.Task.Table.{reset_time, proc_pick}

abbrev pub kernel_ds : ℕ
kernel_ds = 0x10

-- The port writes of a driver, done.
unfoldable pub outs : PortWrites → Kernel → Kernel
outs [] k = k
outs ((p, v) ∷ ws) k = outs ws (act (port_out p v) k)

-- `interruptdone(0)`.
unfoldable pub timer_done : Kernel → Kernel
timer_done = outs (interruptdone 0)

-- The register image that `save_proc` leaves.
unfoldable pub saved_regs : Regs → Regs
saved_regs r = record r {
  ds = r.ds % 2 ^ 16;
  es = r.es % 2 ^ 16;
  fs = r.fs % 2 ^ 16;
  gs = r.gs % 2 ^ 16;
}

-- `save_proc` at a value of `curr_proc`: nothing is saved without a current process.
unfoldable pub save_to : Option ℕ → Regs → Kernel → Kernel
save_to none r k = k
save_to (some c) r k = put_proc c (record (k.proc_list c) { reg_img = saved_regs r }) k

-- `save_proc`.
unfoldable pub save_proc : Regs → Kernel → Kernel
save_proc r k = save_to k.curr_proc r k

-- RUNNING to READY, at a value of `curr_proc`.
unfoldable pub make_ready : Option ℕ → Kernel → Kernel
make_ready none k = k
make_ready (some c) k = if is_running (k.proc_list c).status then set_status c ready k else k

-- The first `if` of `proc_switch`.
unfoldable pub leave_current : Kernel → Kernel
leave_current k = if k.curr_pid == 0 then act clear_screen k else make_ready k.curr_proc k

-- The rest of `proc_switch` up to `restart_proc`: READY to RUNNING.
unfoldable pub enter_proc : ℕ → Kernel → Kernel
enter_proc pp k =
    let p = k.proc_list pp in
    timer_done (record (put_proc pp (reset_time (record p { status = running })) k) {
      curr_proc = some pp;
      tmp_terminal = p.terminal;
      tss = record { ss0 = kernel_ds; esp0 = k.cpu.esp };
    })

-- `proc_switch`. `restart_proc` never comes back.
unfoldable pub proc_switch : ℕ → M (Unit {0})
proc_switch pp k = let k' = leave_current k in resumes (k'.proc_list pp).reg_img (enter_proc pp k')

-- `schedule_proc` at a pick.
unfoldable pub switch_to : Option ℕ → M (Unit {0})
switch_to none k = returns tt k
switch_to (some pp) k = proc_switch pp k

-- `schedule_proc`.
unfoldable pub schedule_proc : M (Unit {0})
schedule_proc k = switch_to (proc_pick k) k

-- `pit_handler_main` behind the tick count, at a value of `curr_proc`.
unfoldable pub tick_proc : Option ℕ → Regs → M (Unit {0})
tick_proc none r k =
    if k.curr_pid == 0 then returns tt (timer_done k) else (schedule_proc >> modify timer_done) k
tick_proc (some c) r k =
    let p = k.proc_list c in
    if ltb 0 p.tick
    then returns tt (timer_done (put_proc c (record p { tick = p.tick - 1 }) k))
    else (schedule_proc >> modify timer_done) (save_proc r k)

-- `pit_handler_main`.
unfoldable pub pit_handler_main : Regs → M (Unit {0})
pit_handler_main r k = tick_proc k.curr_proc r (record k { pit_ticks = u32 (k.pit_ticks + 1) })
