-- ===== src/Task/Turns.antt =====
-- The fairness of the timer, include/task.h: while only the timer interrupts, every READY process
-- comes to run.
use advanced_os.Task.Preserve.{save_proc-IsValid, pit_handler_main-IsValid}
use advanced_os.Task.Timer.{
  save_proc-some, pit_handler_main-preempts, interrupted, pit_handler_main-within,
}
use advanced_os.Base.{
  ℕ, zero, suc, ◌+◌, ◌*◌, ◌≤◌, ◌<◌, ◌≡◌, refl, sym, ◌≢◌, ◌⊎◌, inl, inr, Option, none, some, subst,
  arith, dec_lt, ℕ_discrete, Option-cases, first_index-found,
}
use advanced_os.Task.Context.{Switched}
use advanced_os.Memory.{u32}
use advanced_os.Task.Fair.{proc_pick-nearer, slots_before}
use advanced_os.Task.Pick.{proc_pick_lem, ReadyAt, Picked, nothing, next_ready, still_running}
use advanced_os.Task.Switch.{save_to, timer_done, outs, pit_handler_main}
use advanced_os.Task.Table.{proc_pick, running_slot}
use advanced_os.Task.State.{
  running, is_running, Regs, Kernel, max_process, max_tick, Run, returns, resumes, enters_shell,
  fault,
}
use advanced_os.Task.Invariant.{IsValid, Ends}
use advanced_os.Pic.{interruptdone, pic_send_command}

-- The kernel that a run leaves, `k` if it used NULL.
abbrev pub left_by : {A : Type 0} → Kernel → Run A → Kernel
left_by k (returns a k') = k'
left_by k (resumes r k') = k'
left_by k (enters_shell k') = k'
left_by k fault = k

-- `n` timer interrupts, at which the processor has the registers of `regs`.
unfoldable pub ticks : (n : ℕ) → (regs : ℕ → Regs) → Kernel → Kernel
ticks zero regs k = k
ticks (suc n) regs k = ticks n (λ m. regs (suc m)) (left_by k (pit_handler_main (regs 0) k))

-- Process `c` has the processor.
pub record Runs (k : Kernel) (c : ℕ) : Type 0 where
  pub valid : IsValid k
  pub current : k.curr_proc ≡ some c
  pub runs : (k.proc_list c).status ≡ running
  pub slice : (k.proc_list c).tick ≤ max_tick

running_slot-Runs : (k : Kernel) (c : ℕ) → Runs k c → running_slot k ≡ some c
unfolding running_slot
running_slot-Runs k c t =
    let v = t.valid in
    let below : c < k.curr_pid = v.current_in c t.current in
    let bounded = v.bounded in
    first_index-found (λ i. is_running (k.proc_list i).status) max_process 0 c
      (record {
        above = omega arith;
        below = omega arith;
        passes = rw t.runs refl;
        earlier = λ m a b. ground (arith, (v.slots m (omega arith)).current, t.current);
      })

not_none :
    (k : Kernel) (c o : Option ℕ) (i : ℕ) → i < max_process → ReadyAt k i → Picked k c o → o ≢ none
not_none k c o i lt ready (next_ready j a r f) e = cc
not_none k c o i lt ready (still_running r x f) e = cc
not_none k c o i lt ready (nothing x f) e = let n = f i lt in cc

-- What is left of the wait for slot `i` while `c` runs.
abbrev distance : Kernel → (c i : ℕ) → ℕ
distance k c i = 2 * slots_before (some c) i + (k.proc_list c).tick

-- A timer interrupt while `c` runs and `i` is READY: `i` runs behind it, or is nearer.
pub record Nearer (k k' : Kernel) (c i : ℕ) : Type 0 where
  pub runner : ℕ
  pub runs : Runs k' runner
  pub near : (runner ≡ i) ⊎ (ReadyAt k' i × (distance k' runner i < distance k c i))

within-Nearer :
    (r : Regs) (k : Kernel) (c i : ℕ)
    → Runs k c
    → ReadyAt k i
    → 0 < (k.proc_list c).tick
    → Nearer k (left_by k (pit_handler_main r k)) c i
unfolding timer_done outs interruptdone pic_send_command
within-Nearer r k c i t ready lt =
    let e = pit_handler_main-within r k c t.current lt in
    let v = subst (Ends IsValid) e (pit_handler_main-IsValid r k t.valid) in
    let runs = t.runs in
    let slice = t.slice in
    rw e (record {
      runner = c;
      runs = record { valid = v; current = t.current; runs = ground arith; slice = ground arith };
      near = inr (ground arith, ground arith);
    })

-- What the saved kernel has of the interrupted one.
interrupted-Runs : (r : Regs) (k : Kernel) (c : ℕ) → Runs k c → Runs (interrupted c r k) c
unfolding save_to
interrupted-Runs r k c t =
    let k1 = record k { pit_ticks = u32 (k.pit_ticks + 1) } in
    let v = subst IsValid (save_proc-some r k1 c t.current) (save_proc-IsValid r k1 t.valid) in
    let runs = t.runs in
    let slice = t.slice in
    record { valid = v; current = t.current; runs = ground arith; slice = ground arith }

interrupted-ReadyAt :
    (r : Regs) (k : Kernel) (c i : ℕ) → ReadyAt k i → ReadyAt (interrupted c r k) i
unfolding save_to
interrupted-ReadyAt r k c i h = ground arith

Switched-ReadyAt :
    (k k' : Kernel) (c pp i : ℕ)
    → (k.proc_list c).status ≡ running
    → ReadyAt k i
    → pp ≢ i
    → Switched k c pp k'
    → ReadyAt k' i
Switched-ReadyAt k k' c pp i runs ready ne w =
    rw (w.others i (ground arith) (λ e. ne (sym e))) ready

switch-Nearer :
    (r : Regs) (k : Kernel) (c i pp : ℕ)
    → Runs k c
    → i < max_process
    → ReadyAt k i
    → (k.proc_list c).tick ≡ 0
    → proc_pick (interrupted c r k) ≡ some pp
    → Nearer k (left_by k (pit_handler_main r k)) c i
switch-Nearer r k c i pp t lt ready z p =
    let at = interrupted c r k in
    let t1 = interrupted-Runs r k c t in
    let v = t.valid in
    let below : c < k.curr_pid = v.current_in c t.current in
    let (k', e, w, _) = pit_handler_main-preempts r k c pp (omega arith) t.current z p in
    let v' = subst (Ends IsValid) e (pit_handler_main-IsValid r k v) in
    let slice = w.slice in
    let next : Runs k' pp = record {
      valid = v';
      current = w.current;
      runs = w.runs;
      slice = omega arith;
    } in
    let near = proc_pick-nearer at i pp lt (interrupted-ReadyAt r k c i ready) p in
    let from = running_slot-Runs at c t1 in
    rw e (record {
      runner = pp;
      runs = next;
      near = elim (ℕ_discrete pp i) [
        | yes same ↦ inl same
        | no ne ↦ inr (
          Switched-ReadyAt at k' c pp i t1.runs (interrupted-ReadyAt r k c i ready) ne w,
          elim near [
            | inl same ↦ absurd (ne same)
            | inr less ↦
                let less' : slots_before (some pp) i < slots_before (some c) i =
                  subst (λ o. slots_before (some pp) i < slots_before o i) from less in
                omega (arith, less', slice)
          ],
        )
      ];
    })

tick-Nearer :
    (r : Regs) (k : Kernel) (c i : ℕ)
    → Runs k c
    → i < max_process
    → ReadyAt k i
    → Nearer k (left_by k (pit_handler_main r k)) c i
tick-Nearer r k c i t lt ready = elim (dec_lt 0 (k.proc_list c).tick) [
  | yes more ↦ within-Nearer r k c i t ready more
  | no over ↦
      let at = interrupted c r k in
      elim (Option-cases (proc_pick at)) [
        | inl e ↦ absurd (
            not_none at (running_slot at) (proc_pick at) i lt (interrupted-ReadyAt r k c i ready)
              (proc_pick_lem at) e)
        | inr (pp, e) ↦ switch-Nearer r k c i pp t lt ready (omega arith) e
      ]
]

ticks-within :
    (m : ℕ) (regs : ℕ → Regs) (k : Kernel) (c i : ℕ)
    → Runs k c
    → i < max_process
    → ReadyAt k i
    → distance k c i < m
    → (n : ℕ) × (n ≤ m) × Runs (ticks n regs k) i
unfolding ticks
ticks-within zero regs k c i t lt ready d = absurd (omega arith)
ticks-within (suc m) regs k c i t lt ready d =
    let s = tick-Nearer (regs 0) k c i t lt ready in
    let k' = left_by k (pit_handler_main (regs 0) k) in
    elim s.near [
      | inl e ↦ (1, omega arith, subst (Runs k') e s.runs)
      | inr (ready', less) ↦
          let (n, le, u) =
            ticks-within m (λ j. regs (suc j)) k' s.runner i s.runs lt ready' (omega arith) in
          (suc n, omega arith, u)
    ]

-- From a well-formed table whose current process runs, with at most one tick left, every READY
-- process of the table is the running one after at most 38 timer interrupts, whatever the registers
-- at the interrupts are, while there are no other calls.
pub ticks-reaches :
    (regs : ℕ → Regs) (k : Kernel) (c i : ℕ)
    → IsValid k
    → k.curr_proc ≡ some c
    → (k.proc_list c).status ≡ running
    → (k.proc_list c).tick ≤ max_tick
    → i < max_process
    → ReadyAt k i
    → (n : ℕ) × (n ≤ 38)
      × ((ticks n regs k).curr_proc ≡ some i)
      × (((ticks n regs k).proc_list i).status ≡ running)
ticks-reaches regs k c i v e runs slice lt ready =
    let t : Runs k c = record { valid = v; current = e; runs = runs; slice = slice } in
    let below : c < k.curr_pid = v.current_in c e in
    let bounded = v.bounded in
    let far : distance k c i < 38 = ground arith in
    let (n, le, u) = ticks-within 38 regs k c i t lt ready far in (n, le, u.current, u.runs)
