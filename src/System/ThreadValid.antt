-- ===== src/System/ThreadValid.antt =====
-- The thread calls keep the process table well formed, and so does every sequence of entries.
use advanced_os.Task.Invariant.{IsValid, Ends, Ends-bind, set_status-IsTable}
use advanced_os.Base.{
  eq_of_some, subst, ℕ, ◌<◌, ◌≡◌, refl, arith, inl, inr, ◌==◌, true, false, some, List, [], ◌∷◌,
  lt→ltb, le→ltb, dec_lt, Option-cases,
}
use advanced_os.Task.State.{
  waiting, terminated, Regs, Kernel, max_process, Run, returns, resumes, enters_shell, fault,
  set_status,
}
use advanced_os.Task.Switch.{save_proc}
use advanced_os.Task.Life.{clone_proc}
use advanced_os.Task.Preserve.{
  allocated, proc_alloc_lem, save_proc-IsValid, schedule_proc-IsValid, pit_handler_main-IsValid,
}
use advanced_os.Task.LifeValid.{
  Ends-deref, refill-IsTable, enable_after, proc_create-IsValid, clone_proc-IsValid,
  wake_parent-IsValid,
}
use advanced_os.Thread.{
  enter_thread, create_into, do_thread_create, do_thread_join, do_thread_self, do_thread_exit,
  sys_pthread_handler_main, sys_pthread_handler,
}
use advanced_os.System.{Call, timer, system, thread, create, schedule, final, exec_call, exec_calls}
use advanced_os.System.Valid.{Ends-if, Ends-then, sys_interrupt_handler-IsValid}

create_into-IsValid :
    (tid func args : ℕ) (k : Kernel)
    → IsValid k
    → k.curr_pid < max_process
    → Ends IsValid (create_into (some k.curr_pid) tid func args (allocated k))
unfolding create_into enter_thread clone_proc
create_into-IsValid tid func args k v lt = Ends-deref k.curr_proc _ (allocated k) λ c e.
    let w = clone_proc-IsValid c k v lt e in
    refill-IsTable k.curr_pid _ w (omega arith) (ground arith) (ground arith)
      (λ q x. let h : c < k.curr_pid = v.current_in c e in ground arith)

pub do_thread_create-IsValid :
    (tid func args : ℕ) (k : Kernel) → IsValid k → Ends IsValid (do_thread_create tid func args k)
unfolding do_thread_create
do_thread_create-IsValid tid func args k v =
    rw (proc_alloc_lem (record k { enabled = false }) v) (elim (dec_lt k.curr_pid max_process) [
      | yes lt ↦
          rw (lt→ltb k.curr_pid max_process lt)
            (create_into-IsValid tid func args (record k { enabled = false }) v lt)
      | no ge ↦ rw (le→ltb k.curr_pid max_process (omega arith)) (unfold create_into in v)
    ])

do_thread_join-IsValid :
    (tid ret : ℕ) (k : Kernel) → IsValid k → Ends IsValid (do_thread_join tid ret k)
unfolding do_thread_join
do_thread_join-IsValid tid ret k v =
    Ends-deref k.curr_proc _ (record k { enabled = false })
      λ c e.
        enable_after (set_status c waiting (record k { enabled = false }))
          (set_status-IsTable v c waiting (v.current_in c e) refl refl)

do_thread_self-IsValid : (k : Kernel) → IsValid k → Ends IsValid (do_thread_self k)
unfolding do_thread_self
do_thread_self-IsValid k v = Ends-deref k.curr_proc _ k (λ c e. v)

do_thread_exit-IsValid : (r : Regs) (k : Kernel) → IsValid k → Ends IsValid (do_thread_exit r k)
unfolding do_thread_exit
do_thread_exit-IsValid r k v =
    Ends-deref k.curr_proc _ (record k { enabled = false })
      λ c e.
        Ends-bind IsValid _ _
          (wake_parent-IsValid (k.proc_list c).parent
            (set_status c terminated (record k { enabled = false }))
            (set_status-IsTable v c terminated (v.current_in c e) refl refl))
          (λ _ k' w. sys_interrupt_handler-IsValid r 100 0 (record k' { enabled = true }) w)

-- Every thread call keeps the table.
pub sys_pthread_handler-IsValid :
    (r nested : Regs) (num a b c : ℕ) (k : Kernel)
    → IsValid k
    → Ends IsValid (sys_pthread_handler r nested num a b c k)
unfolding sys_pthread_handler sys_pthread_handler_main
sys_pthread_handler-IsValid r nested num a b c k v =
    let k' = save_proc r (record k { enabled = false }) in
    let w : IsValid k' = save_proc-IsValid r (record k { enabled = false }) v in
    Ends-bind IsValid _ _
      (Ends-if (num == 0) _ _ k' (do_thread_create-IsValid a b c k' w) (
        Ends-if (num == 1) _ _ k'
          (Ends-then (do_thread_join a b) 0 k' (do_thread_join-IsValid a b k' w))
          (Ends-if (num == 2) _ _ k' (do_thread_self-IsValid k' w) (
            Ends-if (num == 3) _ _ k'
              (Ends-then (do_thread_exit nested) 0 k' (do_thread_exit-IsValid nested k' w)) w))))
      (λ _ k' w. w)

final-Ends :
    {A : Type 0} (r : Run A) {k' : Kernel} → Ends IsValid r → final r ≡ some k' → IsValid k'
final-Ends (returns a k) h e = subst IsValid (eq_of_some e) h
final-Ends (resumes a k) h e = subst IsValid (eq_of_some e) h
final-Ends (enters_shell k) h e = subst IsValid (eq_of_some e) h
final-Ends fault h e = absurd (cc)

exec_call-IsValid :
    (c : Call) (k : Kernel) {k' : Kernel} → IsValid k → exec_call c k ≡ some k' → IsValid k'
unfolding exec_call
exec_call-IsValid (timer r) k v e = final-Ends _ (pit_handler_main-IsValid r k v) e
exec_call-IsValid (system r num arg) k v e =
    final-Ends _ (sys_interrupt_handler-IsValid r num arg k v) e
exec_call-IsValid (thread r nested num a b c) k v e =
    final-Ends _ (sys_pthread_handler-IsValid r nested num a b c k v) e
exec_call-IsValid (create cs ds addr) k v e = final-Ends _ (proc_create-IsValid cs ds addr k v) e
exec_call-IsValid schedule k v e = final-Ends _ (schedule_proc-IsValid k v) e

-- From a well-formed kernel, whatever interrupts, system calls, thread calls and program starts
-- come, in any order, if none uses NULL or a semaphore number from 100 on, the process table is
-- well formed.
pub exec_calls-IsValid :
    (cs : List Call) (k : Kernel) {k' : Kernel} → IsValid k → exec_calls cs k ≡ some k' → IsValid k'
unfolding exec_calls
exec_calls-IsValid [] k v e = subst IsValid (eq_of_some e) v
exec_calls-IsValid (c ∷ cs) k v e = elim (Option-cases (exec_call c k)) [
  | inl x ↦ absurd (ground arith)
  | inr (k1, x) ↦ exec_calls-IsValid cs k1 (exec_call-IsValid c k v x) (rw (x, exec_calls) at e)
]
