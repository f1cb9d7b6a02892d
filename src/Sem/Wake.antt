-- ===== src/Sem/Wake.antt =====
-- `do_sem_v` of include/semaphore.h, when processes wait.
use advanced_os.Base.{
  ℕ, ◌+◌, ◌<◌, ◌≡◌, refl, ap, ◌∙◌, ◌≢◌, ◌⊎◌, true, false, some, arith, update_self, update_ne,
  ==_refl, lt→ltb,
}
use advanced_os.Memory.{u32, u8}
use advanced_os.Task.State.{
  enable, modify, deref, and_then, ◌>>=◌, ◌>>◌, Semaphore, Kernel, Regs, resumes, waiting,
  n_semaphore, ready, running,
}
use advanced_os.Task.Invariant.{IsValid}
use advanced_os.Task.Wake.{wakeup-wakes}
use advanced_os.Task.Life.{wakeup}
use advanced_os.Sem.{do_sem_v, wake_if, is_nonpositive, set_val, set_head}

wake_if-true :
    (k : Kernel) (sem_id c h : ℕ)
    → k.curr_proc ≡ some c
    → (k.sem_list sem_id).head ≡ some h
    → wake_if true sem_id k
      ≡ wakeup (u8 (k.proc_list h).pid) (set_head sem_id (k.proc_list c).next k)
unfolding wake_if
wake_if-true k sem_id c h cur head =
    ap
      (λ o. and_then (deref o k) (λ h'. deref k.curr_proc >>= (λ c'.
        modify (set_head sem_id (k.proc_list c').next) >> wakeup (u8 (k.proc_list h').pid))))
      head
    ∙ ap
        (λ o.
          and_then (deref o k) (λ c'.
            modify (set_head sem_id (k.proc_list c').next) >> wakeup (u8 (k.proc_list h).pid)))
        cur

do_sem_v-runs :
    (k : Kernel) (sem_id : ℕ)
    → sem_id < n_semaphore
    → let v = u32 ((k.sem_list sem_id).val + 1) in
      let k1 : Kernel = set_val sem_id v (record k { enabled = false }) in
      do_sem_v sem_id k ≡ and_then (wake_if (is_nonpositive v) sem_id k1) (λ _. enable)
unfolding do_sem_v
do_sem_v-runs k sem_id h = rw (lt→ltb sem_id n_semaphore h, ==_refl sem_id) refl

-- If the incremented value is still 0 or less and the head of the queue is another process than the
-- current one `c` and WAITING, then in a well-formed table `do_sem_v` counts up and switches, and
-- that process is then READY or RUNNING; the new head of the queue is what the current process's
-- own `next` says, and the other semaphores stay.
pub do_sem_v-wakes :
    (k : Kernel) (sem_id c h : ℕ)
    → IsValid k
    → sem_id < n_semaphore
    → k.curr_proc ≡ some c
    → (k.sem_list sem_id).head ≡ some h
    → c ≢ h
    → h < k.curr_pid
    → (k.proc_list h).status ≡ waiting
    → is_nonpositive (u32 ((k.sem_list sem_id).val + 1)) ≡ true
    → (r : Regs) × (k' : Kernel) × (do_sem_v sem_id k ≡ resumes r k')
      × (((k'.proc_list h).status ≡ ready) ⊎ ((k'.proc_list h).status ≡ running))
      × ((k'.sem_list sem_id).val ≡ u32 ((k.sem_list sem_id).val + 1))
      × ((k'.sem_list sem_id).head ≡ (k.proc_list c).next)
      × ((i : ℕ) → sem_id ≢ i → k'.sem_list i ≡ k.sem_list i)
unfolding do_sem_v wake_if
do_sem_v-wakes k s c h v small cur head ne lt w np =
    let k1 : Kernel = set_val s (u32 ((k.sem_list s).val + 1)) (record k { enabled = false }) in
    let k2 : Kernel = set_head s (k.proc_list c).next k1 in
    let (r, k', e, awake, sems) = wakeup-wakes k2 c h v cur ne lt w in
    let pid : (k.proc_list h).pid ≡ h + 1 = (v.slots h (omega (arith, v.bounded))).numbered lt in
    let own : (k1.sem_list s).val ≡ u32 ((k.sem_list s).val + 1) =
      ap (λ (x : Semaphore). x.val) (update_self k.sem_list _ s) in
    let small_pid : u8 (k.proc_list h).pid ≡ h + 1 = ap u8 pid ∙ omega (arith, v.bounded) in
    (
      r,
      k',
      do_sem_v-runs k s small
          ∙ ap (λ b. and_then (wake_if b s k1) (λ _. enable)) np
          ∙ ap (λ x. and_then x (λ _. enable))
              (wake_if-true k1 s c h cur
                  (ap (λ (x : Semaphore). x.head) (update_self k.sem_list _ s) ∙ head)
                ∙ ap (λ p. wakeup p k2) small_pid
                ∙ e),
      awake,
      ap (λ (f : ℕ → Semaphore). (f s).val) sems
          ∙ ap (λ (x : Semaphore). x.val) (update_self k1.sem_list _ s)
          ∙ own,
      ap (λ (f : ℕ → Semaphore). (f s).head) sems
          ∙ ap (λ (x : Semaphore). x.head) (update_self k1.sem_list _ s),
      λ i other.
          ap (λ (f : ℕ → Semaphore). f i) sems
          ∙ update_ne k1.sem_list _ other
          ∙ update_ne k.sem_list _ other,
    )
