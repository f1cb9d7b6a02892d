-- ===== src/Sem/Locks.antt =====
-- Locks of include/semaphore.h that no process waits for.
use advanced_os.Base.{
  subst, ℕ, ◌+◌, ◌-◌, ◌^◌, ◌<◌, ◌≤◌, ◌≡◌, refl, true, false, lt→ltb, arith, ap, ◌∙◌, update_self,
  update_ne, ==_refl, ℕ_discrete,
}
use advanced_os.Memory.{u32, is_negative}
use advanced_os.Task.State.{Kernel, Semaphore, returns, n_semaphore, ◌>>◌, and_then}
use advanced_os.Sem.{
  do_sem_p, do_sem_v, mutex_lock, mutex_unlock, set_val, block_if, wake_if, is_nonpositive,
}

-- `do_sem_p` and `do_sem_v` up to their tests.
do_sem_p-free :
    (k : Kernel) (i : ℕ)
    → i < n_semaphore
    → is_negative (u32 ((k.sem_list i).val + 2 ^ 32 - 1)) ≡ false
    → do_sem_p i k
      ≡ returns tt (record (set_val i (u32 ((k.sem_list i).val + 2 ^ 32 - 1)) k) { enabled = true })
unfolding do_sem_p block_if
do_sem_p-free k i h b = rw (lt→ltb i n_semaphore h, ==_refl i, b) refl

do_sem_v-free :
    (k : Kernel) (i : ℕ)
    → i < n_semaphore
    → is_nonpositive (u32 ((k.sem_list i).val + 1)) ≡ false
    → do_sem_v i k
      ≡ returns tt (record (set_val i (u32 ((k.sem_list i).val + 1)) k) { enabled = true })
unfolding do_sem_v wake_if
do_sem_v-free k i h b = rw (lt→ltb i n_semaphore h, ==_refl i, b) refl

-- Locking a mutex whose value is positive, and unlocking it again, returns with every semaphore
-- and process as it was, and with interrupts on.
pub mutex_unlock-mutex_lock :
    (k : Kernel) (i : ℕ)
    → i < n_semaphore
    → 1 ≤ (k.sem_list i).val
    → (k.sem_list i).val < 2 ^ 31
    → (k' : Kernel) × ((mutex_lock i >> mutex_unlock i) k ≡ returns tt k')
      × ((j : ℕ) → k'.sem_list j ≡ k.sem_list j)
      × (k'.proc_list ≡ k.proc_list)
      × (k'.curr_proc ≡ k.curr_proc)
      × (k'.enabled ≡ true)
unfolding mutex_lock mutex_unlock
mutex_unlock-mutex_lock k i h lo hi =
    let v = (k.sem_list i).val in
    let k1 : Kernel = record (set_val i (u32 (v + 2 ^ 32 - 1)) k) { enabled = true } in
    let k2 : Kernel = record (set_val i (u32 ((k1.sem_list i).val + 1)) k1) { enabled = true } in
    let mid : (k1.sem_list i).val ≡ u32 (v + 2 ^ 32 - 1) =
      ap (λ (x : Semaphore). x.val) (update_self k.sem_list _ i) in
    let back : u32 ((k1.sem_list i).val + 1) ≡ v = ap (λ n. u32 (n + 1)) mid ∙ omega arith in
    let own : k1.sem_list i ≡ record (k.sem_list i) { val = u32 (v + 2 ^ 32 - 1) } =
      update_self k.sem_list _ i in
    let whole : u32 (u32 (v + 2 ^ 32 - 1) + 1) ≡ v = omega arith in
    let same : k2.sem_list i ≡ k.sem_list i =
      update_self k1.sem_list _ i
      ∙ ap (λ (x : Semaphore). record x { val = u32 (x.val + 1) }) own
      ∙ ap (λ n. record (k.sem_list i) { val = n }) whole in
    (
      k2,
      ap (λ r. and_then r (λ _. do_sem_v i)) (do_sem_p-free k i h (ground arith))
          ∙ do_sem_v-free k1 i h (rw back (ground arith)),
      λ j. elim (ℕ_discrete i j) [
        | yes e ↦ subst (λ m. k2.sem_list m ≡ k.sem_list m) e same
        | no ne ↦ update_ne k1.sem_list _ ne ∙ update_ne k.sem_list _ ne
      ],
      refl,
      refl,
      refl,
    )
