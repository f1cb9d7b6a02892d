-- ===== src/Task/LifeValid.antt =====
-- Creation, fork, wait, wakeup, exit and kill keep the process table well formed.
use advanced_os.Base.{
  update, ℕ, ◌+◌, ◌<◌, ◌≡◌, refl, ◌≢◌, arith, ◌==◌, ◌&&◌, false, Option, none, some,
  first_index-some, lt→ltb, le→ltb, dec_lt,
}
use advanced_os.Task.State.{
  ready, waiting, terminated, is_waiting, Process, Kernel, max_process, M, set_status, deref,
  enable, ◌>>=◌, ◌>>◌,
}
use advanced_os.Task.Table.{fill_proc, proc_create}
use advanced_os.Task.Switch.{schedule_proc}
use advanced_os.Task.Life.{
  clone_proc, do_fork, fork_into, waiting_slot, wake_slot, wakeup, do_wait, wake_parent, do_exit,
  pid_slot, kill_slot, kill,
}
use advanced_os.Task.Invariant.{
  IsTable, IsValid, Ends, Ends-bind, update-IsTable, below_of_born, set_status-IsTable,
}
use advanced_os.Task.Preserve.{allocated, allocated-IsValid, proc_alloc_lem, schedule_proc-IsValid}

pub Ends-deref :
    {B : Type 0} (o : Option ℕ) (f : ℕ → M B) (k : Kernel)
    → ((c : ℕ) → o ≡ some c → Ends IsValid (f c k))
    → Ends IsValid ((deref o >>= f) k)
Ends-deref none f k h = tt
Ends-deref (some c) f k h = h c refl

-- A slot keeps its place when its registers, stack and parent are filled in.
pub refill-IsTable :
    {procs : ℕ → Process} {cur : Option ℕ} {n : ℕ} (i : ℕ) (p : Process)
    → IsTable procs cur n
    → i < n
    → p.pid ≡ i + 1
    → p.status ≡ ready
    → ((q : ℕ) → p.parent ≡ some q → q < n)
    → IsTable (update procs i p) cur n
refill-IsTable i p v lt e r h = update-IsTable i p v (record {
  numbered = λ _. e;
  born = λ _. rw r;
  unborn = λ x. absurd (omega arith);
  current = λ x. absurd (cc);
  parented = h;
})

-- Creation keeps the table.
pub proc_create-IsValid :
    (cs ds addr : ℕ) (k : Kernel) → IsValid k → Ends IsValid (proc_create cs ds addr k)
unfolding proc_create
proc_create-IsValid cs ds addr k v =
    rw (proc_alloc_lem (record k { enabled = false }) v) (elim (dec_lt k.curr_pid max_process) [
      | yes lt ↦ rw (lt→ltb k.curr_pid max_process lt) (filled (allocated-IsValid k v lt))
      | no ge ↦ rw (le→ltb k.curr_pid max_process (omega arith)) tt
    ])
  where
    filled :
        IsValid (allocated k)
        → IsValid (fill_proc cs ds addr k.curr_pid (allocated (record k { enabled = false })))
    filled w =
        unfold fill_proc in
        refill-IsTable k.curr_pid _ w (omega arith) (ground arith) (ground arith)
          ((w.slots k.curr_pid (omega arith)).parented)

-- The copy of the parent into the allocated slot keeps the table.
pub clone_proc-IsValid :
    (c : ℕ) (k : Kernel)
    → IsValid k
    → k.curr_pid < max_process
    → k.curr_proc ≡ some c
    → IsValid (clone_proc c k.curr_pid (allocated k))
unfolding clone_proc
clone_proc-IsValid c k v lt e =
    refill-IsTable k.curr_pid _ (allocated-IsValid k v lt) (omega arith) (ground arith) refl
      (λ q x. let h : c < k.curr_pid = v.current_in c e in ground arith)

fork_into-IsValid :
    (k : Kernel)
    → IsValid k
    → k.curr_pid < max_process
    → Ends IsValid (fork_into (some k.curr_pid) (allocated k))
unfolding fork_into
fork_into-IsValid k v lt =
    Ends-deref k.curr_proc _ (allocated k) (λ c e. clone_proc-IsValid c k v lt e)

-- Fork keeps the table, on success and on failure.
pub do_fork-IsValid : (k : Kernel) → IsValid k → Ends IsValid (do_fork k)
unfolding do_fork
do_fork-IsValid k v =
    rw (proc_alloc_lem (record k { enabled = false }) v) (elim (dec_lt k.curr_pid max_process) [
      | yes lt ↦
          rw (lt→ltb k.curr_pid max_process lt)
            (fork_into-IsValid (record k { enabled = false }) v lt)
      | no ge ↦ rw (le→ltb k.curr_pid max_process (omega arith)) (unfold fork_into in v)
    ])

pub enable_after : (k : Kernel) → IsValid k → Ends IsValid ((schedule_proc >> enable) k)
enable_after k v =
    Ends-bind IsValid (schedule_proc k) (λ _. enable) (schedule_proc-IsValid k v) (λ _ k' w. w)

wake_slot-IsValid :
    (o : Option ℕ) (k : Kernel)
    → IsValid k
    → ((i : ℕ) → o ≡ some i → i < k.curr_pid)
    → Ends IsValid (wake_slot o k)
unfolding wake_slot
wake_slot-IsValid none k v h = v
wake_slot-IsValid (some i) k v h =
    enable_after (set_status i ready k) (set_status-IsTable v i ready (h i refl) refl refl)

-- A process that `wakeup` finds has the pid and is WAITING.
pub waiting_slot-some :
    (pid : ℕ) (k : Kernel) {i : ℕ}
    → waiting_slot pid k ≡ some i
    → (i < max_process) × ((k.proc_list i).pid ≡ pid) × ((k.proc_list i).status ≡ waiting)
unfolding waiting_slot
waiting_slot-some pid k {i} e =
    let f =
      first_index-some (λ i. ((k.proc_list i).pid == pid) && is_waiting (k.proc_list i).status)
        max_process 0 e in
    (f.below, ground (arith, f.passes), ground (arith, f.passes))

-- Wakeup keeps the table.
pub wakeup-IsValid : (pid : ℕ) (k : Kernel) → IsValid k → Ends IsValid (wakeup pid k)
unfolding wakeup
wakeup-IsValid pid k v =
    wake_slot-IsValid _ (record k { enabled = false }) v
      (λ i e. found i (waiting_slot-some pid (record k { enabled = false }) e))
  where
    found :
        (i : ℕ)
        → (i < max_process) × ((k.proc_list i).pid ≡ pid) × ((k.proc_list i).status ≡ waiting)
        → i < k.curr_pid
    found i (a, b, c) = below_of_born v i a (ground arith)

-- Waiting keeps the table.
pub do_wait-IsValid : (k : Kernel) → IsValid k → Ends IsValid (do_wait k)
unfolding do_wait
do_wait-IsValid k v =
    Ends-deref k.curr_proc _ (record k { enabled = false })
      λ c e.
        enable_after (set_status c waiting (record k { enabled = false }))
          (set_status-IsTable v c waiting (v.current_in c e) refl refl)

pub wake_parent-IsValid : (o : Option ℕ) (k : Kernel) → IsValid k → Ends IsValid (wake_parent o k)
unfolding wake_parent
wake_parent-IsValid none k v = v
wake_parent-IsValid (some p) k v = wakeup-IsValid _ k v

-- Exit keeps the table.
pub do_exit-IsValid : (k : Kernel) → IsValid k → Ends IsValid (do_exit k)
unfolding do_exit
do_exit-IsValid k v =
    Ends-deref k.curr_proc _ (record k { enabled = false })
      λ c e.
        Ends-bind IsValid _ _
          (wake_parent-IsValid (k.proc_list c).parent
            (set_status c terminated (record k { enabled = false }))
            (set_status-IsTable v c terminated (v.current_in c e) refl refl))
          (λ _ k' w. w)

kill_slot-IsValid :
    (o : Option ℕ) (k : Kernel)
    → IsValid k
    → ((i : ℕ) → o ≡ some i → i < k.curr_pid)
    → Ends IsValid (kill_slot o k)
unfolding kill_slot
kill_slot-IsValid none k v h = v
kill_slot-IsValid (some i) k v h = set_status-IsTable v i terminated (h i refl) refl refl

-- `kill` looks no further than the slot of the pid.
pub pid_slot-lt :
    (pid : ℕ) (k : Kernel) {i : ℕ} → IsValid k → pid ≢ 0 → pid_slot pid k ≡ some i → i < k.curr_pid
unfolding pid_slot
pid_slot-lt pid k {i} v ne e =
    let f = first_index-some (λ i. (k.proc_list i).pid == pid) max_process 0 e in
    elim (dec_lt i k.curr_pid) [
      | yes lt ↦ lt
      | no ge ↦ absurd (ground (arith, f.passes, (v.slots i f.below).unborn))
    ]

-- Killing a pid other than 0 keeps the table.
pub kill-IsValid : (pid : ℕ) (k : Kernel) → IsValid k → pid ≢ 0 → Ends IsValid (kill pid k)
unfolding kill
kill-IsValid pid k v ne =
    kill_slot-IsValid _ (record k { enabled = false }) v
      (λ i e. pid_slot-lt pid (record k { enabled = false }) v ne e)
