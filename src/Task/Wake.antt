-- ===== src/Task/Wake.antt =====
-- `wakeup` of include/task.h, while a process is current.
use advanced_os.Base.{
  ℕ, ◌+◌, ◌<◌, ◌≡◌, refl, sym, ap, ◌∙◌, ◌≢◌, ◌⊎◌, inl, inr, true, false, Option, some, arith,
  ℕ_discrete, update_self, first_index-found,
}
use advanced_os.Task.State.{
  Process, waiting, ready, running, Kernel, Regs, resumes, set_status, max_process, is_ready,
}
use advanced_os.Task.Life.{wakeup, wake_slot, waiting_slot}
use advanced_os.Task.Invariant.{IsValid}
use advanced_os.Task.Table.{proc_pick, running_slot}
use advanced_os.Task.Pick.{Picked, next_ready, still_running, nothing, proc_pick_lem, ReadyAt}
use advanced_os.Task.Context.{Switched, proc_switch-Switched}
use advanced_os.Task.Timer.{schedule_proc-some}

-- In a well-formed table the slot of pid `i + 1` is found at `i`.
waiting_slot-found :
    (k : Kernel) (i : ℕ)
    → IsValid k
    → i < k.curr_pid
    → (k.proc_list i).status ≡ waiting
    → waiting_slot (i + 1) k ≡ some i
unfolding waiting_slot
waiting_slot-found k i v lt w =
    let small = v.bounded in
    let own : (k.proc_list i).pid ≡ i + 1 = (v.slots i (omega arith)).numbered lt in
    first_index-found _ max_process 0 i (record {
      above = omega arith;
      below = omega arith;
      passes = ground (arith, own, w);
      earlier = λ m a b.
          let other : (k.proc_list m).pid ≡ m + 1 =
            (v.slots m (omega arith)).numbered (omega arith) in
          ground (arith, other);
    })

-- While some slot is READY, the round finds one.
Picked-some :
    (k : Kernel) (c o : Option ℕ) (i : ℕ)
    → Picked k c o
    → i < max_process
    → ReadyAt k i
    → (pp : ℕ) × (o ≡ some pp)
Picked-some k c o i (next_ready j a r f) lt h = (_, refl)
Picked-some k c o i (still_running r x f) lt h = absurd (true≢false (sym h ∙ f i lt))
  where
    true≢false : true ≢ false
    true≢false e = absurd (cc)
Picked-some k c o i (nothing x f) lt h = absurd (cc (f i lt))

-- A READY process, not the one that is left, is READY or RUNNING after a switch.
awake :
    (k k' : Kernel) (c pp i : ℕ)
    → Switched k c pp k'
    → c ≢ i
    → (k.proc_list i).status ≡ ready
    → ((k'.proc_list i).status ≡ ready) ⊎ ((k'.proc_list i).status ≡ running)
awake k k' c pp i sw ne h = elim (ℕ_discrete i pp) [
  | yes q ↦ inr (ap (λ j. (k'.proc_list j).status) q ∙ sw.runs)
  | no n ↦ inl (ap (λ (p : Process). p.status) (sw.others i (λ q. ne (sym q)) n) ∙ h)
]

-- In a well-formed table, with a current process `c`, `wakeup` of the pid of another process `i`
-- that is WAITING switches to some process, and `i` is then READY or RUNNING.
pub wakeup-wakes :
    (k : Kernel) (c i : ℕ)
    → IsValid k
    → k.curr_proc ≡ some c
    → c ≢ i
    → i < k.curr_pid
    → (k.proc_list i).status ≡ waiting
    → (r : Regs) × (k' : Kernel) × (wakeup (i + 1) k ≡ resumes r k')
      × (((k'.proc_list i).status ≡ ready) ⊎ ((k'.proc_list i).status ≡ running))
      × (k'.sem_list ≡ k.sem_list)
unfolding wakeup wake_slot
wakeup-wakes k c i v cur ne lt w =
    let k0 : Kernel = record k { enabled = false } in
    let k1 : Kernel = set_status i ready k0 in
    let here : ReadyAt k1 i =
      ap (λ (p : Process). is_ready p.status) (update_self k.proc_list _ i) in
    let (pp, picked) =
      Picked-some k1 (running_slot k1) (proc_pick k1) i (proc_pick_lem k1)
        (omega (arith, v.bounded)) here in
    let (k', s, sw) = proc_switch-Switched k1 c pp (omega arith) cur in
    (
      (k1.proc_list pp).reg_img,
      k',
      rw (waiting_slot-found k0 i v lt w, schedule_proc-some k1 picked, s) refl,
      awake k1 k' c pp i sw ne (ap (λ (p : Process). p.status) (update_self k.proc_list _ i)),
      sw.sems,
    )
