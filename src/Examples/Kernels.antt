-- ===== src/Examples/Kernels.antt =====
-- The theorems on processes, semaphores and calls at kernels with two processes.
use advanced_os.Base.{
  ℕ, zero, suc, ◌+◌, ◌-◌, ◌^◌, ◌≤◌, ◌<◌, ◌≡◌, refl, ◌≢◌, ◌⊎◌, true, false, Option, none, some, List,
  [], ◌∷◌, arith,
}
use advanced_os.Task.Table.{proc_pick}
use advanced_os.Task.Fork.{do_fork-full}
use advanced_os.Task.Life.{minus_one, do_fork, wakeup}
use advanced_os.Task.State.{
  ◌>>◌, returns, max_process, Status, new, ready, running, waiting, is_new, Regs, Process, Kernel,
  resumes,
}
use advanced_os.System.{Call, create, schedule}
use advanced_os.Task.Switch.{proc_switch}
use advanced_os.Sem.{do_sem_v, mutex_lock, mutex_unlock}
use advanced_os.Task.Invariant.{IsSlot, IsValid}
use advanced_os.Task.Turns.{ticks, ticks-reaches}
use advanced_os.Task.Pick.{FirstRunning, Picked, proc_pick-Picked}
use advanced_os.Task.Context.{Switched, proc_switch-Switched}
use advanced_os.Task.Wake.{wakeup-wakes}
use advanced_os.Sem.Wake.{do_sem_v-wakes}
use advanced_os.Sem.Locks.{mutex_unlock-mutex_lock}

abbrev registers : (esp eip : ℕ) → Regs
registers esp eip = record {
  gs = 0x23;
  fs = 0x23;
  es = 0x23;
  ds = 0x23;
  edi = 1;
  esi = 2;
  ebp = esp + 0x40;
  esp = esp;
  ebx = 4;
  edx = 5;
  ecx = 6;
  eax = 7;
  eip = eip;
  cs = 0x1b;
  eflags = 0x202;
  user_esp = esp;
  ss = 0x23;
}

abbrev process_at : (i tick : ℕ) → Status → Process
process_at i tick s = record {
  reg_img = registers 0x20000 (0x8000 + i);
  pid = i + 1;
  parent = none;
  next = none;
  priority = 1;
  status = s;
  tick = tick;
  terminal = 0;
}

abbrev unused : Process
unused = record {
  reg_img = registers 0 0;
  pid = 0;
  parent = none;
  next = none;
  priority = 0;
  status = new;
  tick = 0;
  terminal = 0;
}

-- Slot 0 runs, slot 1 has the given status.
abbrev two_slots : (tick : ℕ) → Status → ℕ → Process
two_slots tick s zero = process_at 0 tick running
two_slots tick s (suc zero) = process_at 1 1 s
two_slots tick s (suc (suc i)) = unused

abbrev kernel_with : (ℕ → Process) → Option ℕ → ℕ → Kernel
kernel_with procs cur n = record {
  proc_list = procs;
  curr_proc = cur;
  curr_pid = n;
  sem_list = λ i. record { val = 2 ^ 32 - 1; used = true; head = some 1 };
  mem = λ a. a;
  enabled = true;
  pit_ticks = 0;
  tss = record { ss0 = 0; esp0 = 0 };
  curr_terminal = 0;
  tmp_terminal = 0;
  cpu = record {
    esp = 0x9000;
    eflags = 0x202;
    user_process_return = 0x5000;
    user_pthread_return = 0x6000;
  };
  actions = [];
}

abbrev two_kernel : (tick : ℕ) → Status → Kernel
two_kernel tick s = kernel_with (two_slots tick s) (some 0) 2

two_kernel-IsValid :
    (tick : ℕ) (s : Status) → is_new s ≡ false → s ≢ running → IsValid (two_kernel tick s)
two_kernel-IsValid tick s born idle = record {
  bounded = omega arith;
  current_in = λ c e. ground arith;
  slots = slots;
}
  where
    slots : (i : ℕ) → i < max_process → IsSlot 2 (some 0) i (two_slots tick s i)
    slots zero h = record {
      numbered = λ _. refl;
      born = λ _. refl;
      unborn = λ a. absurd (omega arith);
      current = λ _. refl;
      parented = λ q e. absurd (cc);
    }
    slots (suc zero) h = record {
      numbered = λ _. refl;
      born = λ _. born;
      unborn = λ a. absurd (omega arith);
      current = λ e. absurd (idle e);
      parented = λ q e. absurd (cc);
    }
    slots (suc (suc i)) h = record {
      numbered = λ a. absurd (omega arith);
      born = λ a. absurd (omega arith);
      unborn = λ _. (refl, refl);
      current = λ e. absurd (cc);
      parented = λ q e. absurd (cc);
    }

ready_kernel-IsValid : (tick : ℕ) → IsValid (two_kernel tick ready)
ready_kernel-IsValid tick = two_kernel-IsValid tick ready refl (λ e. absurd (cc))

waiting_kernel-IsValid : (tick : ℕ) → IsValid (two_kernel tick waiting)
waiting_kernel-IsValid tick = two_kernel-IsValid tick waiting refl (λ e. absurd (cc))

proc_pick-Picked_example :
    (c : Option ℕ) × FirstRunning (two_kernel 0 ready) c
    × Picked (two_kernel 0 ready) c (proc_pick (two_kernel 0 ready))
proc_pick-Picked_example = proc_pick-Picked (two_kernel 0 ready)

ticks-reaches_example :
    let regs = λ (n : ℕ). registers 0x20000 (0x8010 + n) in
    (n : ℕ) × (n ≤ 38)
    × ((ticks n regs (two_kernel 1 ready)).curr_proc ≡ some 1)
    × (((ticks n regs (two_kernel 1 ready)).proc_list 1).status ≡ running)
ticks-reaches_example =
    ticks-reaches (λ n. registers 0x20000 (0x8010 + n)) (two_kernel 1 ready) 0 1
      (ready_kernel-IsValid 1) refl refl (omega arith) (omega arith) refl

proc_switch-Switched_example :
    (k' : Kernel) × (proc_switch 1 (two_kernel 0 ready) ≡ resumes (registers 0x20000 0x8001) k')
    × Switched (two_kernel 0 ready) 0 1 k'
proc_switch-Switched_example = proc_switch-Switched (two_kernel 0 ready) 0 1 (omega arith) refl

wakeup-wakes_example :
    (r : Regs) × (k' : Kernel) × (wakeup 2 (two_kernel 0 waiting) ≡ resumes r k')
    × (((k'.proc_list 1).status ≡ ready) ⊎ ((k'.proc_list 1).status ≡ running))
    × (k'.sem_list ≡ (two_kernel 0 waiting).sem_list)
wakeup-wakes_example =
    wakeup-wakes (two_kernel 0 waiting) 0 1 (waiting_kernel-IsValid 0) refl (omega arith)
      (omega arith) refl

do_sem_v-wakes_example :
    (r : Regs) × (k' : Kernel) × (do_sem_v 3 (two_kernel 0 waiting) ≡ resumes r k')
    × (((k'.proc_list 1).status ≡ ready) ⊎ ((k'.proc_list 1).status ≡ running))
    × ((k'.sem_list 3).val ≡ 0)
    × ((k'.sem_list 3).head ≡ none)
    × ((i : ℕ) → 3 ≢ i → k'.sem_list i ≡ (two_kernel 0 waiting).sem_list i)
do_sem_v-wakes_example =
    do_sem_v-wakes (two_kernel 0 waiting) 3 0 1 (waiting_kernel-IsValid 0) (omega arith) refl refl
      (omega arith) (omega arith) refl refl

-- The mutexes of this kernel are free.
abbrev free_kernel : Kernel
free_kernel = record (two_kernel 0 ready) {
  sem_list = λ i. record { val = 1; used = true; head = none };
}

mutex_unlock-mutex_lock_example :
    (k' : Kernel) × ((mutex_lock 7 >> mutex_unlock 7) free_kernel ≡ returns tt k')
    × ((j : ℕ) → k'.sem_list j ≡ free_kernel.sem_list j)
    × (k'.proc_list ≡ free_kernel.proc_list)
    × (k'.curr_proc ≡ free_kernel.curr_proc)
    × (k'.enabled ≡ true)
mutex_unlock-mutex_lock_example =
    mutex_unlock-mutex_lock free_kernel 7 (omega arith) (omega arith) (omega arith)

-- Every slot is taken.
abbrev full_kernel : Kernel
full_kernel = kernel_with (λ i. process_at i 1 ready) (some 0) 20

full_kernel-IsValid : IsValid full_kernel
full_kernel-IsValid = record {
  bounded = omega arith;
  current_in = λ c e. ground arith;
  slots = λ i h. record {
    numbered = λ _. refl;
    born = λ _. refl;
    unborn = λ a. absurd (omega arith);
    current = λ e. absurd (cc);
    parented = λ q e. absurd (cc);
  };
}

do_fork-full_example :
    do_fork full_kernel ≡ returns minus_one (record full_kernel { enabled = true })
do_fork-full_example = do_fork-full full_kernel full_kernel-IsValid (omega arith)

-- A program is started and scheduled.
abbrev start_calls : List Call
start_calls = create 0x1b 0x23 0x8000 ∷ schedule ∷ []

abbrev zero_kernel : Kernel
zero_kernel = kernel_with (λ i. unused) none 0

abbrev or_zero : Option Kernel → Kernel
or_zero none = zero_kernel
or_zero (some k) = k
