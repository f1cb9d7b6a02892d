-- ===== src/Task/Timer.antt =====
-- The timer interrupt, branch by branch, and the context that it saves.
use advanced_os.Base.{
  ℕ, ◌+◌, ◌-◌, ◌<◌, ◌≡◌, ap, ◌∙◌, ◌≢◌, some, arith, ◌==◌, if◌then◌else◌, lt→ltb, le→ltb,
}
use advanced_os.Memory.{u32}
use advanced_os.Task.State.{Regs, Kernel, put_proc, returns, resumes, modify, and_then}
use advanced_os.Task.Table.{proc_pick}
use advanced_os.Task.Switch.{
  saved_regs, save_proc, save_to, proc_switch, switch_to, schedule_proc, timer_done, tick_proc,
  pit_handler_main,
}
use advanced_os.Task.Context.{Switched, proc_switch-Switched}

-- The kernel after the tick count, with the interrupted process `c` saved.
abbrev pub interrupted : ℕ → Regs → Kernel → Kernel
interrupted c r k = save_to (some c) r (record k { pit_ticks = u32 (k.pit_ticks + 1) })

-- While the current process has ticks left, the timer interrupt counts `pit_ticks` up, takes one
-- tick from the process, acknowledges the interrupt and returns to it.
pub pit_handler_main-within :
    (r : Regs) (k : Kernel) (c : ℕ)
    → k.curr_proc ≡ some c
    → 0 < (k.proc_list c).tick
    → pit_handler_main r k
      ≡ returns tt (
          timer_done (
            put_proc c
              (record (k.proc_list c) { tick = (k.proc_list c).tick - 1 })
              (record k { pit_ticks = u32 (k.pit_ticks + 1) })))
unfolding pit_handler_main
pit_handler_main-within r k c e lt =
    ap (λ o. tick_proc o r (record k { pit_ticks = u32 (k.pit_ticks + 1) })) e
    ∙ unfold tick_proc in rw (lt→ltb 0 (k.proc_list c).tick lt)

tick_proc-zero :
    (r : Regs) (k : Kernel) (c : ℕ)
    → (k.proc_list c).tick ≡ 0
    → tick_proc (some c) r k ≡ and_then (schedule_proc (save_proc r k)) (λ _. modify timer_done)
unfolding tick_proc
tick_proc-zero r k c z = rw (le→ltb 0 (k.proc_list c).tick (omega arith))

pub save_proc-some :
    (r : Regs) (k : Kernel) (c : ℕ) → k.curr_proc ≡ some c → save_proc r k ≡ save_to (some c) r k
unfolding save_proc
save_proc-some r k c e = ap (λ o. save_to o r k) e

-- A process that is picked is switched to.
pub schedule_proc-some :
    (k : Kernel) {pp : ℕ} → proc_pick k ≡ some pp → schedule_proc k ≡ proc_switch pp k
unfolding schedule_proc switch_to
schedule_proc-some k p = ap (λ o. switch_to o k) p

preempt-eq :
    (r : Regs) (k : Kernel) (c : ℕ) {pp : ℕ}
    → k.curr_proc ≡ some c
    → (k.proc_list c).tick ≡ 0
    → proc_pick (interrupted c r k) ≡ some pp
    → pit_handler_main r k ≡ and_then (proc_switch pp (interrupted c r k)) (λ _. modify timer_done)
unfolding pit_handler_main
preempt-eq r k c e z p =
    let k1 = record k { pit_ticks = u32 (k.pit_ticks + 1) } in
    ap (λ o. tick_proc o r k1) e
    ∙ tick_proc-zero r k1 c z
    ∙ ap (λ x. and_then (schedule_proc x) (λ _. modify timer_done)) (save_proc-some r k1 c e)
    ∙ ap (λ x. and_then x (λ _. modify timer_done)) (schedule_proc-some (interrupted c r k) p)

pub pit_handler_main-preempts :
    (r : Regs) (k : Kernel) (c pp : ℕ)
    → k.curr_pid ≢ 0
    → k.curr_proc ≡ some c
    → (k.proc_list c).tick ≡ 0
    → proc_pick (interrupted c r k) ≡ some pp
    → (k' : Kernel) × (pit_handler_main r k
        ≡ resumes (if pp == c then saved_regs r else (k.proc_list pp).reg_img) k')
      × Switched (interrupted c r k) c pp k'
      × ((k'.proc_list c).reg_img ≡ saved_regs r)
unfolding save_to
pit_handler_main-preempts r k c pp nz e z p =
    let (k', s, w) = proc_switch-Switched (interrupted c r k) c pp nz e in
    (
      k',
      preempt-eq r k c e z p
          ∙ ap (λ x. and_then x (λ _. modify timer_done)) s
          ∙ ap (λ g. resumes g k') (ground arith),
      w,
      w.left_regs ∙ ground arith,
    )
