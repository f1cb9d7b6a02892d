-- ===== src/System/Valid.antt =====
-- Every entry into the kernel keeps the process table well formed.
use advanced_os.Task.Invariant.{
  update-slots, IsSlot, IsTable, IsValid, Ends, Ends-bind, update-IsTable,
}
use advanced_os.Base.{
  ◌∙◌, eq_of_some, ℕ, ◌<◌, ◌≡◌, refl, ◌≢◌, arith, inl, inr, ◌==◌, Bool, true, false, Option, none,
  some, sym, Bool-cases, ltb, if◌then◌else◌,
}
use advanced_os.Task.State.{terminated, Regs, Kernel, M, ◌>>=◌, ◌>>◌, set_status, pure}
use advanced_os.Task.Life.{do_wait, do_exit}
use advanced_os.Task.Preserve.{save_proc-IsValid}
use advanced_os.Task.LifeValid.{
  Ends-deref, do_fork-IsValid, do_wait-IsValid, do_exit-IsValid, wakeup-IsValid,
}
use advanced_os.Sem.{
  enqueue, block_if, wake_if, do_sem_p, do_sem_v, take_sem, do_getsem, do_freesem, check_sem,
  free_sem,
}
use advanced_os.Syscall.{process_return, sys_interrupt_handler_main, sys_interrupt_handler}

-- A run of `check_sem` that goes on leaves the kernel as it was.
Ends-check_sem :
    {B : Type 0} (i : ℕ) (f : Unit {0} → M B) (k : Kernel)
    → Ends IsValid (f tt k)
    → Ends IsValid ((check_sem i >>= f) k)
Ends-check_sem i f k h = elim (Bool-cases (ltb i 100)) [ inl e ↦ rw e h | inr e ↦ rw e tt ]

enqueue-IsValid : (s c : ℕ) (k : Kernel) → IsValid k → c < k.curr_pid → IsValid (enqueue s c k)
unfolding enqueue
enqueue-IsValid s c k v lt = update-IsTable c _ v (linked (v.slots c (omega (arith, v.bounded))))
  where
    linked :
        IsSlot k.curr_pid k.curr_proc c (k.proc_list c)
        → IsSlot k.curr_pid k.curr_proc c (record (k.proc_list c) { next = (k.sem_list s).head })
    linked q = record {
      numbered = q.numbered;
      born = q.born;
      unborn = q.unborn;
      current = q.current;
      parented = q.parented;
    }

block_if-IsValid : (b : Bool) (s : ℕ) (k : Kernel) → IsValid k → Ends IsValid (block_if b s k)
unfolding block_if
block_if-IsValid false s k v = v
block_if-IsValid true s k v =
    Ends-deref k.curr_proc _ k λ c e. do_wait-IsValid _ (enqueue-IsValid s c k v (v.current_in c e))

-- P keeps the table.
pub do_sem_p-IsValid : (s : ℕ) (k : Kernel) → IsValid k → Ends IsValid (do_sem_p s k)
unfolding do_sem_p
do_sem_p-IsValid s k v =
    Ends-check_sem s _ (record k { enabled = false })
      (Ends-bind IsValid _ _ (block_if-IsValid _ s _ v) (λ _ k' w. w))

wake_if-IsValid : (b : Bool) (s : ℕ) (k : Kernel) → IsValid k → Ends IsValid (wake_if b s k)
unfolding wake_if
wake_if-IsValid false s k v = v
wake_if-IsValid true s k v =
    Ends-deref (k.sem_list s).head _ k
      λ h e. Ends-deref k.curr_proc _ k λ c e'. wakeup-IsValid _ _ v

-- V keeps the table.
pub do_sem_v-IsValid : (s : ℕ) (k : Kernel) → IsValid k → Ends IsValid (do_sem_v s k)
unfolding do_sem_v
do_sem_v-IsValid s k v =
    Ends-check_sem s _ (record k { enabled = false })
      (Ends-bind IsValid _ _ (wake_if-IsValid _ s _ v) (λ _ k' w. w))

take_sem-IsValid : (o : Option ℕ) (n : ℕ) (k : Kernel) → IsValid k → Ends IsValid (take_sem o n k)
unfolding take_sem
take_sem-IsValid none n k v = v
take_sem-IsValid (some i) n k v = v

do_getsem-IsValid : (n : ℕ) (k : Kernel) → IsValid k → Ends IsValid (do_getsem n k)
unfolding do_getsem
do_getsem-IsValid n k v = take_sem-IsValid (free_sem k) n k v

do_freesem-IsValid : (s : ℕ) (k : Kernel) → IsValid k → Ends IsValid (do_freesem s k)
unfolding do_freesem
do_freesem-IsValid s k v = Ends-check_sem s _ k v

drop-IsTable :
    (k : Kernel) (c : ℕ)
    → IsValid k
    → k.curr_proc ≡ some c
    → IsTable (set_status c terminated k).proc_list none k.curr_pid
drop-IsTable k c v e = record {
  bounded = v.bounded;
  current_in = λ c' x. absurd (cc);
  slots =
      update-slots c _ (λ j h ne. other j ne (v.slots j h))
        (self (v.slots c (omega (arith, v.bounded, v.current_in c e))));
}
  where
    other :
        (j : ℕ)
        → c ≢ j
        → IsSlot k.curr_pid k.curr_proc j (k.proc_list j)
        → IsSlot k.curr_pid none j (k.proc_list j)
    other j ne s = record {
      numbered = s.numbered;
      born = s.born;
      unborn = s.unborn;
      current = λ r. absurd (ne (eq_of_some (sym e ∙ s.current r)));
      parented = s.parented;
    }

    self :
        IsSlot k.curr_pid k.curr_proc c (k.proc_list c)
        → IsSlot k.curr_pid none c (record (k.proc_list c) { status = terminated })
    self s = record {
      numbered = s.numbered;
      born = λ _. refl;
      unborn = λ h. absurd (omega (arith, v.current_in c e));
      current = λ r. absurd (cc);
      parented = s.parented;
    }

process_return-IsValid : (k : Kernel) → IsValid k → Ends IsValid (process_return k)
unfolding process_return
process_return-IsValid k v = Ends-deref k.curr_proc _ k λ c e. drop-IsTable k c v e

pub Ends-if :
    {A : Type 0} (b : Bool) (m n : M A) (k : Kernel)
    → Ends IsValid (m k)
    → Ends IsValid (n k)
    → Ends IsValid ((if b then m else n) k)
Ends-if true m n k h g = h
Ends-if false m n k h g = g

pub Ends-then :
    {A B : Type 0} (m : M A) (b : B) (k : Kernel)
    → Ends IsValid (m k)
    → Ends IsValid ((m >> pure b) k)
Ends-then m b k h = Ends-bind IsValid (m k) (λ _. pure b) h (λ _ k' w. w)

-- Every system call keeps the table.
pub sys_interrupt_handler_main-IsValid :
    (num arg : ℕ) (k : Kernel) → IsValid k → Ends IsValid (sys_interrupt_handler_main num arg k)
unfolding sys_interrupt_handler_main
sys_interrupt_handler_main-IsValid num arg k v = Ends-if (num == 0) _ _ k v (
    Ends-if (num == 1) _ _ k v (
      Ends-if (num == 10) _ _ k (do_fork-IsValid k v) (
        Ends-if (num == 11) _ _ k (Ends-then do_wait 0 k (do_wait-IsValid k v)) (
          Ends-if (num == 12) _ _ k (Ends-then do_exit 0 k (do_exit-IsValid k v)) (
            Ends-if (num == 13) _ _ k v (
              Ends-if (num == 20) _ _ k (do_getsem-IsValid arg k v) (
                Ends-if (num == 21) _ _ k (Ends-then (do_sem_p arg) 0 k (do_sem_p-IsValid arg k v))
                  (Ends-if (num == 22) _ _ k
                    (Ends-then (do_sem_v arg) 0 k (do_sem_v-IsValid arg k v))
                    (Ends-if (num == 23) _ _ k
                      (Ends-then (do_freesem arg) 0 k (do_freesem-IsValid arg k v))
                      (Ends-if (num == 100) _ _ k (process_return-IsValid k v) v))))))))))

pub sys_interrupt_handler-IsValid :
    (r : Regs) (num arg : ℕ) (k : Kernel)
    → IsValid k
    → Ends IsValid (sys_interrupt_handler r num arg k)
unfolding sys_interrupt_handler
sys_interrupt_handler-IsValid r num arg k v =
    Ends-bind IsValid _ _
      (sys_interrupt_handler_main-IsValid num arg _
        (save_proc-IsValid r (record k { enabled = false }) v))
      (λ _ k' w. w)
