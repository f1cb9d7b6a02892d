-- ===== src/Task/Preserve.antt =====
-- Every operation on processes keeps the table well formed.
use advanced_os.Task.State.{
  modify, ◌>>◌, ready, running, is_running, Regs, Process, Kernel, max_process, returns, put_proc,
}
use advanced_os.Base.{
  ◌-◌, ℕ, ◌+◌, ◌<◌, ◌≡◌, refl, ◌≢◌, inl, inr, arith, ◌==◌, ltb, if◌then◌else◌, false, Option, none,
  some, Bool-cases, lt→ltb, le→ltb, dec_lt, sym,
}
use advanced_os.Pic.{pic_send_command, interruptdone}
use advanced_os.Memory.{u32}
use advanced_os.Task.Table.{reset_time, proc_alloc, take_slot, proc_pick}
use advanced_os.Task.Switch.{
  make_ready, saved_regs, save_to, switch_to, tick_proc, outs, timer_done, saved_regs, save_to,
  make_ready, switch_to, tick_proc, save_proc, leave_current, enter_proc, proc_switch,
  schedule_proc, pit_handler_main,
}
use advanced_os.Task.Pick.{proc_pick-lt}
use advanced_os.Task.Invariant.{
  IsSlot, IsValid, Ends, Ends-bind, update-IsTable, update-slots, set_status-IsTable, free_slot_lem,
}

-- The kernel after a successful `proc_alloc`.
abbrev pub allocated : Kernel → Kernel
allocated k =
    put_proc k.curr_pid (record (k.proc_list k.curr_pid) { status = ready; pid = k.curr_pid + 1 })
      (record k { curr_pid = k.curr_pid + 1 })

pub allocated-IsValid : (k : Kernel) → IsValid k → k.curr_pid < max_process → IsValid (allocated k)
allocated-IsValid k v lt = record {
  bounded = omega arith;
  current_in = λ c e. let h : c < k.curr_pid = v.current_in c e in omega arith;
  slots =
      update-slots k.curr_pid _ (λ j h ne. grow j (v.slots j h) (λ e. ne (sym e)))
        (record {
          numbered = λ _. refl;
          born = λ _. refl;
          unborn = λ h. absurd (omega arith);
          current = λ e. absurd (cc);
          parented =
              λ q e. let h : q < k.curr_pid = (v.slots k.curr_pid lt).parented q e in omega arith;
        });
}
  where
    grow :
        (j : ℕ)
        → IsSlot k.curr_pid k.curr_proc j (k.proc_list j)
        → j ≢ k.curr_pid
        → IsSlot (k.curr_pid + 1) k.curr_proc j (k.proc_list j)
    grow j s ne = record {
      numbered = λ h. s.numbered (omega arith);
      born = λ h. s.born (omega arith);
      unborn = λ h. s.unborn (omega arith);
      current = s.current;
      parented = λ q e. let h : q < k.curr_pid = s.parented q e in omega arith;
    }

-- With room in the table `proc_alloc` takes the next slot and numbers it; otherwise it changes
-- nothing.
pub proc_alloc_lem :
    (k : Kernel)
    → IsValid k
    → proc_alloc k ≡ (
        if ltb k.curr_pid max_process
        then returns (some k.curr_pid) (allocated k)
        else returns none k)
unfolding proc_alloc take_slot
proc_alloc_lem k v = elim (dec_lt k.curr_pid max_process) [
  | yes lt ↦ rw (free_slot_lem k v, lt→ltb k.curr_pid max_process lt) (rw small)
  | no ge ↦ rw (free_slot_lem k v, le→ltb k.curr_pid max_process (omega arith))
]
  where
    small : u32 (k.curr_pid + 1) ≡ k.curr_pid + 1
    small = omega (arith, v.bounded)

save_to-IsValid :
    (o : Option ℕ) (r : Regs) (k : Kernel) → IsValid k → o ≡ k.curr_proc → IsValid (save_to o r k)
unfolding save_to
save_to-IsValid none r k v e = v
save_to-IsValid (some c) r k v e =
    let lt : c < k.curr_pid = v.current_in c (sym e) in
    update-IsTable c _ v (keep (v.slots c (omega (arith, v.bounded))))
  where
    keep :
        IsSlot k.curr_pid k.curr_proc c (k.proc_list c)
        → IsSlot k.curr_pid k.curr_proc c (record (k.proc_list c) { reg_img = saved_regs r })
    keep s = record {
      numbered = s.numbered;
      born = s.born;
      unborn = s.unborn;
      current = s.current;
      parented = s.parented;
    }

-- Saving keeps the table.
pub save_proc-IsValid : (r : Regs) (k : Kernel) → IsValid k → IsValid (save_proc r k)
unfolding save_proc
save_proc-IsValid r k v = save_to-IsValid k.curr_proc r k v refl

-- What `leave_current` leaves: no process runs.
abbrev pub NoneRuns : (ℕ → Process) → Type 0
NoneRuns f = (i : ℕ) → i < max_process → is_running (f i).status ≡ false

make_ready-IsValid :
    (o : Option ℕ) (k : Kernel) → IsValid k → o ≡ k.curr_proc → IsValid (make_ready o k)
unfolding make_ready
make_ready-IsValid none k v e = v
make_ready-IsValid (some c) k v e = elim (Bool-cases (is_running (k.proc_list c).status)) [
  | inl r ↦ rw r (set_status-IsTable v c ready (v.current_in c (sym e)) refl refl)
  | inr n ↦ rw n v
]

make_ready-NoneRuns :
    (o : Option ℕ) (k : Kernel) → IsValid k → o ≡ k.curr_proc → NoneRuns (make_ready o k).proc_list
unfolding make_ready
make_ready-NoneRuns none k v e i h = ground (arith, (v.slots i h).current)
make_ready-NoneRuns (some c) k v e i h = ground (arith, (v.slots i h).current)

-- The first step of a switch keeps the table and leaves nothing RUNNING.
pub leave_current-IsValid :
    (k : Kernel) → IsValid k → IsValid (leave_current k) × NoneRuns (leave_current k).proc_list
unfolding leave_current
leave_current-IsValid k v = elim (Bool-cases (k.curr_pid == 0)) [
  | inl z ↦ rw z (v, λ i h. ground (arith, (v.slots i h).unborn))
  | inr m ↦ rw m (make_ready-IsValid k.curr_proc k v refl, make_ready-NoneRuns k.curr_proc k v refl)
]

curr_pid-make_ready : (o : Option ℕ) (k : Kernel) → (make_ready o k).curr_pid ≡ k.curr_pid
unfolding make_ready
curr_pid-make_ready none k = refl
curr_pid-make_ready (some c) k = ground arith

curr_pid-leave_current : (k : Kernel) → (leave_current k).curr_pid ≡ k.curr_pid
unfolding leave_current
curr_pid-leave_current k = elim (Bool-cases (k.curr_pid == 0)) [
  | inl z ↦ rw z
  | inr m ↦ rw m (curr_pid-make_ready k.curr_proc k)
]

-- Entering a process of a table in which nothing runs.
pub enter_proc-IsValid :
    (pp : ℕ) (k : Kernel)
    → IsValid k
    → NoneRuns k.proc_list
    → pp < k.curr_pid
    → IsValid (enter_proc pp k)
unfolding enter_proc timer_done outs interruptdone pic_send_command
enter_proc-IsValid pp k v idle lt = record {
  bounded = v.bounded;
  current_in = λ c e. ground arith;
  slots =
      update-slots pp _ (λ j h ne. other j h (v.slots j h))
        (self (v.slots pp (omega (arith, v.bounded))));
}
  where
    other :
        (j : ℕ)
        → j < max_process
        → IsSlot k.curr_pid k.curr_proc j (k.proc_list j)
        → IsSlot k.curr_pid (some pp) j (k.proc_list j)
    other j h s = record {
      numbered = s.numbered;
      born = s.born;
      unborn = s.unborn;
      current = λ e. ground (arith, idle j h);
      parented = s.parented;
    }

    self :
        IsSlot k.curr_pid k.curr_proc pp (k.proc_list pp)
        → IsSlot k.curr_pid (some pp) pp (reset_time (record (k.proc_list pp) { status = running }))
    self s = record {
      numbered = s.numbered;
      born = λ _. refl;
      unborn = λ h. absurd (omega arith);
      current = λ e. refl;
      parented = s.parented;
    }

switch_to-IsValid :
    (o : Option ℕ) (k : Kernel)
    → IsValid k
    → ((pp : ℕ) → o ≡ some pp → pp < k.curr_pid)
    → Ends IsValid (switch_to o k)
unfolding switch_to proc_switch
switch_to-IsValid none k v h = v
switch_to-IsValid (some pp) k v h =
    let (w, idle) = leave_current-IsValid k v in
    enter_proc-IsValid pp (leave_current k) w idle (rw (curr_pid-leave_current k) (h pp refl))

-- Scheduling keeps the table.
pub schedule_proc-IsValid : (k : Kernel) → IsValid k → Ends IsValid (schedule_proc k)
unfolding schedule_proc
schedule_proc-IsValid k v = switch_to-IsValid (proc_pick k) k v (λ pp. proc_pick-lt k v)

timer_done-IsValid : (k : Kernel) → IsValid k → IsValid (timer_done k)
unfolding timer_done outs interruptdone pic_send_command
timer_done-IsValid k v = v

schedule_done-IsValid :
    (k : Kernel) → IsValid k → Ends IsValid ((schedule_proc >> modify timer_done) k)
schedule_done-IsValid k v =
    Ends-bind IsValid (schedule_proc k) (λ _. modify timer_done) (schedule_proc-IsValid k v)
      (λ _ k' w. timer_done-IsValid k' w)

tick_proc-IsValid :
    (o : Option ℕ) (r : Regs) (k : Kernel)
    → IsValid k
    → o ≡ k.curr_proc
    → Ends IsValid (tick_proc o r k)
unfolding tick_proc
tick_proc-IsValid none r k v e = elim (Bool-cases (k.curr_pid == 0)) [
  | inl z ↦ rw z (timer_done-IsValid k v)
  | inr m ↦ rw m (schedule_done-IsValid k v)
]
tick_proc-IsValid (some c) r k v e = elim (Bool-cases (ltb 0 (k.proc_list c).tick)) [
  | inl z ↦ rw z (
      timer_done-IsValid _ (
        update-IsTable c _ v (less (v.slots c (omega (arith, v.bounded, v.current_in c (sym e)))))))
  | inr m ↦ rw m (schedule_done-IsValid _ (save_proc-IsValid r k v))
]
  where
    less :
        IsSlot k.curr_pid k.curr_proc c (k.proc_list c)
        → IsSlot k.curr_pid k.curr_proc c
            (record (k.proc_list c) { tick = (k.proc_list c).tick - 1 })
    less s = record {
      numbered = s.numbered;
      born = s.born;
      unborn = s.unborn;
      current = s.current;
      parented = s.parented;
    }

-- The timer interrupt keeps the table.
pub pit_handler_main-IsValid :
    (r : Regs) (k : Kernel) → IsValid k → Ends IsValid (pit_handler_main r k)
unfolding pit_handler_main
pit_handler_main-IsValid r k v = tick_proc-IsValid k.curr_proc r _ v refl
