-- ===== src/Sem.antt =====
-- Semaphores and mutexes, include/semaphore.h. The waiting processes of a semaphore are linked by
-- `next` from its `head`.
pub mod Wake
pub mod Locks
use advanced_os.Base.{
  ℕ, zero, suc, ◌+◌, ◌-◌, ◌*◌, ◌/◌, ◌%◌, ◌^◌, ◌≤◌, ◌<◌, min, bit_and, bit_or, ◌≡◌, refl, sym, ap,
  ◌∙◌, fun_ext, ◌≢◌, ◌↔◌, ◌⊎◌, inl, inr, Bool, true, false, ◌&&◌, ◌||◌, not, Option, none, some,
  List, [], ◌∷◌, ◌++◌, map, reverse, append_assoc, append-nil, subst, arith, dec_lt, ℕ_discrete,
  ltb, leb, ◌==◌, if◌then◌else◌, Bool-cases, Option-cases, length, get_elem?, get_or, take, drop,
  All, codes, update, update_self, update_ne, first_index, first_index-some, first_index-none,
  first_index-found, IsFirst, ==_refl, ==_ne, lt→ltb, le→ltb, eq_of_some,
}
use advanced_os.Memory.{u32, u8, is_negative}
use advanced_os.Task.State.{
  Semaphore, n_semaphore, Kernel, M, pure, modify, get, disable, enable, deref, put_proc, ◌>>=◌,
  ◌>>◌, returns, fault,
}
use advanced_os.Task.Life.{minus_one, wakeup, do_wait}

-- `val <= 0` of an `int`.
abbrev pub is_nonpositive : ℕ → Bool
is_nonpositive v = v == 0 || leb (2 ^ 31) v

abbrev pub put_sem : ℕ → Semaphore → Kernel → Kernel
put_sem i s k = record k { sem_list = update k.sem_list i s }

-- An access `sem_list[sem_id]`; the source has no check of the index, and an index
-- from 100 on is a write behind the array, the fault.
abbrev pub check_sem : ℕ → M (Unit {0})
check_sem i k = if ltb i n_semaphore then returns tt k else fault

-- `sem_init`.
unfoldable pub sem_init : Kernel → Kernel
sem_init k = record k {
  sem_list = λ i.
      if ltb i n_semaphore then record { val = 0; used = false; head = none } else k.sem_list i;
}

-- `curr_proc->next = sem_list[sem_id].head; sem_list[sem_id].head = curr_proc;`
unfoldable pub enqueue : (sem_id c : ℕ) → Kernel → Kernel
enqueue sem_id c k =
    put_sem sem_id (record (k.sem_list sem_id) { head = some c })
      (put_proc c (record (k.proc_list c) { next = (k.sem_list sem_id).head }) k)

-- The `if` of `do_sem_p`, at its test.
unfoldable pub block_if : Bool → ℕ → M (Unit {0})
block_if false sem_id = pure tt
block_if true sem_id = do k ← get; c ← deref k.curr_proc; modify (enqueue sem_id c); do_wait

-- `sem_list[sem_id].val = v`.
abbrev pub set_val : ℕ → ℕ → Kernel → Kernel
set_val i v k = put_sem i (record (k.sem_list i) { val = v }) k

-- `do_sem_p`.
unfoldable pub do_sem_p : ℕ → M (Unit {0})
do_sem_p sem_id = do
  disable
  check_sem sem_id
  k ← get
  modify (set_val sem_id (u32 ((k.sem_list sem_id).val + 2 ^ 32 - 1)))
  k' ← get
  block_if (is_negative (k'.sem_list sem_id).val) sem_id
  enable

-- `sem_list[sem_id].head = h`.
abbrev pub set_head : ℕ → Option ℕ → Kernel → Kernel
set_head i h k = put_sem i (record (k.sem_list i) { head = h }) k

-- The `if` of `do_sem_v`, at its test. The new head is read off `curr_proc`.
unfoldable pub wake_if : Bool → ℕ → M (Unit {0})
wake_if false sem_id = pure tt
wake_if true sem_id = do
  k ← get
  h ← deref (k.sem_list sem_id).head
  c ← deref k.curr_proc
  modify (set_head sem_id (k.proc_list c).next)
  wakeup (u8 (k.proc_list h).pid)

-- `do_sem_v`.
unfoldable pub do_sem_v : ℕ → M (Unit {0})
do_sem_v sem_id = do
  disable
  check_sem sem_id
  k ← get
  modify (set_val sem_id (u32 ((k.sem_list sem_id).val + 1)))
  k' ← get
  wake_if (is_nonpositive (k'.sem_list sem_id).val) sem_id
  enable

-- The semaphore that `do_getsem` finds.
unfoldable pub free_sem : Kernel → Option ℕ
free_sem k = first_index (λ i. not (k.sem_list i).used) n_semaphore 0

-- `do_getsem` at the semaphore found.
unfoldable pub take_sem : Option ℕ → ℕ → M ℕ
take_sem none val = pure minus_one
take_sem (some i) val = do
  k ← get
  modify (put_sem i (record (k.sem_list i) { val = val; used = true }))
  pure i

-- `do_getsem`.
unfoldable pub do_getsem : ℕ → M ℕ
do_getsem val k = take_sem (free_sem k) val k

-- `do_freesem`.
unfoldable pub do_freesem : ℕ → M (Unit {0})
do_freesem sem_id = do
  check_sem sem_id
  k ← get
  modify (put_sem sem_id (record (k.sem_list sem_id) { used = false; head = none }))

-- `mutex_get`, `mutex_lock` and `mutex_unlock`.
unfoldable pub mutex_get : M ℕ
mutex_get = do_getsem 1

unfoldable pub mutex_lock : ℕ → M (Unit {0})
mutex_lock lock_id = do_sem_p lock_id

unfoldable pub mutex_unlock : ℕ → M (Unit {0})
mutex_unlock lock_id = do_sem_v lock_id
