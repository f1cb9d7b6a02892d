-- ===== src/Task/Invariant.antt =====
-- The well-formedness of the process table, and what keeps it.
use advanced_os.Base.{
  ◌≢◌, ℕ, ◌+◌, ◌≤◌, ◌<◌, ◌≡◌, refl, arith, ltb, if◌then◌else◌, false, Option, none, some, update,
  lt→ltb, le→ltb, first_index-found, first_index-absent, update_self, update_ne, ℕ_discrete, dec_lt,
  subst, sym,
}
use advanced_os.Task.State.{
  Status, new, running, is_new, is_running, Process, Kernel, max_process, Run, M, returns, resumes,
  enters_shell, fault, and_then,
}
use advanced_os.Task.Table.{proc_init, free_slot}

-- A slot of a table of which the first `n` slots were allocated, while `cur` is current.
pub record IsSlot (n : ℕ) (cur : Option ℕ) (i : ℕ) (p : Process) : Type 0 where
  pub numbered : i < n → p.pid ≡ i + 1
  pub born : i < n → is_new p.status ≡ false
  pub unborn : n ≤ i → (p.status ≡ new) × (p.pid ≡ 0)
  pub current : p.status ≡ running → cur ≡ some i
  pub parented : (q : ℕ) → p.parent ≡ some q → q < n

-- The table: slots are taken in order and never given back, pid i + 1 stands in slot i, and nothing
-- but the current process is RUNNING.
pub record IsTable (procs : ℕ → Process) (cur : Option ℕ) (n : ℕ) : Type 0 where
  pub bounded : n ≤ max_process
  pub current_in : (c : ℕ) → cur ≡ some c → c < n
  pub slots : (i : ℕ) → i < max_process → IsSlot n cur i (procs i)

abbrev pub IsValid : Kernel → Type 0
IsValid k = IsTable k.proc_list k.curr_proc k.curr_pid

-- The kernel in which a run ends has the property.
abbrev pub Ends : {A : Type 0} → (Kernel → Type 0) → Run A → Type 0
Ends P (returns a k) = P k
Ends P (resumes r k) = P k
Ends P (enters_shell k) = P k
Ends P fault = Unit

pub Ends-bind :
    {A B : Type 0} (P : Kernel → Type 0) (r : Run A) (f : A → M B)
    → Ends P r
    → ((a : A) (k : Kernel) → P k → Ends P (f a k))
    → Ends P (and_then r f)
Ends-bind P (returns a k) f h next = next a k h
Ends-bind P (resumes g k) f h next = h
Ends-bind P (enters_shell k) f h next = h
Ends-bind P fault f h next = tt

-- One slot of a table is written, and the others are good already.
pub update-slots :
    {procs : ℕ → Process} {cur : Option ℕ} {n : ℕ} (i : ℕ) (p : Process)
    → ((j : ℕ) → j < max_process → i ≢ j → IsSlot n cur j (procs j))
    → IsSlot n cur i p
    → (j : ℕ) → j < max_process
    → IsSlot n cur j (update procs i p j)
update-slots {procs} {cur} {n} i p others s j below = elim (ℕ_discrete i j) [
  | yes e ↦
      subst (λ m. IsSlot n cur m (update procs i p m)) e
        (subst (IsSlot n cur i) (sym (update_self procs p i)) s)
  | no ne ↦ subst (IsSlot n cur j) (sym (update_ne procs p ne)) (others j below ne)
]

pub update-IsTable :
    {procs : ℕ → Process} {cur : Option ℕ} {n : ℕ} (i : ℕ) (p : Process)
    → IsTable procs cur n
    → IsSlot n cur i p
    → IsTable (update procs i p) cur n
update-IsTable i p v s = record {
  bounded = v.bounded;
  current_in = v.current_in;
  slots = update-slots i p (λ j h _. v.slots j h) s;
}

module _ {procs : ℕ → Process} {cur : Option ℕ} {n : ℕ} (v : IsTable procs cur n) where
  -- A slot that is not NEW is allocated.
  pub below_of_born : (i : ℕ) → i < max_process → is_new (procs i).status ≡ false → i < n
  below_of_born i h e = ground (arith, (v.slots i h).unborn)

  -- Any status but NEW and RUNNING may be given to an allocated slot.
  pub set_status-IsTable :
      (i : ℕ) (s : Status)
      → i < n
      → is_new s ≡ false
      → is_running s ≡ false
      → IsTable (update procs i (record (procs i) { status = s })) cur n
  set_status-IsTable i s h a b =
      let old : IsSlot n cur i (procs i) = v.slots i (omega (arith, v.bounded)) in
      update-IsTable i _ v (record {
        numbered = old.numbered;
        born = λ _. a;
        unborn = λ c. absurd (omega arith);
        current = λ c. ground arith;
        parented = old.parented;
      })

-- Initialisation makes a table with nothing allocated.
pub proc_init-IsValid : (k : Kernel) → k.curr_proc ≡ none → k.curr_pid ≡ 0 → IsValid (proc_init k)
unfolding proc_init
proc_init-IsValid k a b = record {
  bounded = omega arith;
  current_in = λ c e. ground arith;
  slots = λ i h. rw (lt→ltb i max_process h) (record {
    numbered = λ c. absurd (omega arith);
    born = λ c. absurd (omega arith);
    unborn = λ c. (refl, refl);
    current = λ c. ground arith;
    parented = λ q c. ground arith;
  });
}

-- The scan of `proc_alloc` finds exactly the slot after the last allocated one.
pub free_slot_lem :
    (k : Kernel)
    → IsValid k
    → free_slot k ≡ (if ltb k.curr_pid max_process then some k.curr_pid else none)
unfolding free_slot
free_slot_lem k v = elim (dec_lt k.curr_pid max_process) [
  | yes lt ↦ rw (lt→ltb k.curr_pid max_process lt) (
      first_index-found _ max_process 0 k.curr_pid (record {
        above = omega arith;
        below = omega arith;
        passes = ground (arith, (v.slots k.curr_pid lt).unborn);
        earlier = λ m a b. (v.slots m (omega arith)).born b;
      }))
  | no ge ↦
      rw (le→ltb k.curr_pid max_process (omega arith))
        (first_index-absent _ max_process 0 λ m a b. (v.slots m b).born (omega arith))
]
