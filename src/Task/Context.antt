-- ===== src/Task/Context.antt =====
-- What a switch and the timer do to the process that they take from and to the one that they give
-- the processor to.
use advanced_os.Base.{ℕ, ◌≡◌, refl, ap, ◌≢◌, inl, inr, some, arith, Bool-cases, ==_ne}
use advanced_os.Pic.{interruptdone, pic_send_command}
use advanced_os.Task.State.{ready, running, is_running, Kernel, max_tick, resumes}
use advanced_os.Task.Switch.{
  make_ready, leave_current, enter_proc, proc_switch, timer_done, outs, kernel_ds,
}

-- The kernel `k'` after a switch from the current process `c` to `pp`.
pub record Switched (k : Kernel) (c pp : ℕ) (k' : Kernel) : Type 0 where
  pub current : k'.curr_proc ≡ some pp
  pub runs : (k'.proc_list pp).status ≡ running
  pub slice : (k'.proc_list pp).tick ≡ max_tick
  pub kept : (k'.proc_list pp).reg_img ≡ (k.proc_list pp).reg_img
  pub entered : k'.proc_list pp ≡ record (k.proc_list pp) { status = running; tick = max_tick }
  pub left :
      c ≢ pp
      → (k.proc_list c).status ≡ running
      → k'.proc_list c ≡ record (k.proc_list c) { status = ready }
  pub left_alone : c ≢ pp → (k.proc_list c).status ≢ running → k'.proc_list c ≡ k.proc_list c
  pub left_regs : (k'.proc_list c).reg_img ≡ (k.proc_list c).reg_img
  pub others : (i : ℕ) → i ≢ c → i ≢ pp → k'.proc_list i ≡ k.proc_list i
  pub stack : (k'.tss.ss0 ≡ kernel_ds) × (k'.tss.esp0 ≡ k.cpu.esp)
  pub terminal : k'.tmp_terminal ≡ (k.proc_list pp).terminal
  pub sems : k'.sem_list ≡ k.sem_list

enter-Switched : (k : Kernel) (c pp : ℕ) → Switched k c pp (enter_proc pp (make_ready (some c) k))
unfolding enter_proc timer_done outs interruptdone pic_send_command make_ready
enter-Switched k c pp = elim (Bool-cases (is_running (k.proc_list c).status)) [
  | inl r ↦ rw r (record {
    current = refl;
    runs = ground arith;
    slice = ground arith;
    kept = ground arith;
    entered = ground arith;
    left = λ ne e. ground arith;
    left_alone = λ ne e. ground arith;
    left_regs = ground arith;
    others = λ i a b. ground arith;
    stack = (refl, refl);
    terminal = ground arith;
    sems = refl;
  })
  | inr r ↦ rw r (record {
    current = refl;
    runs = ground arith;
    slice = ground arith;
    kept = ground arith;
    entered = ground arith;
    left = λ ne e. ground arith;
    left_alone = λ ne e. ground arith;
    left_regs = ground arith;
    others = λ i a b. ground arith;
    stack = (refl, refl);
    terminal = ground arith;
    sems = refl;
  })
]

leave_current-some :
    (k : Kernel) {c : ℕ}
    → k.curr_pid ≢ 0
    → k.curr_proc ≡ some c
    → leave_current k ≡ make_ready (some c) k
unfolding leave_current
leave_current-some k nz e = rw (==_ne k.curr_pid 0 nz) (ap (λ o. make_ready o k) e)

regs-make_ready :
    (k : Kernel) (c pp : ℕ)
    → ((make_ready (some c) k).proc_list pp).reg_img ≡ (k.proc_list pp).reg_img
unfolding make_ready
regs-make_ready k c pp = ground arith

-- With a current process, and `curr_pid` not 0, a switch to `pp` resumes the registers that `pp`
-- was saved with, makes `pp` the current and running process with a fresh time slice, kernel stack
-- and terminal, makes a RUNNING process that is left READY, and changes nothing else of the table:
-- not the rest of these two slots, no other slot, and no slot that is left in another state.
pub proc_switch-Switched :
    (k : Kernel) (c pp : ℕ)
    → k.curr_pid ≢ 0
    → k.curr_proc ≡ some c
    → (k' : Kernel) × (proc_switch pp k ≡ resumes (k.proc_list pp).reg_img k') × Switched k c pp k'
unfolding proc_switch
proc_switch-Switched k c pp nz e = (
  enter_proc pp (make_ready (some c) k),
  rw (leave_current-some k nz e, regs-make_ready k c pp),
  enter-Switched k c pp,
)
