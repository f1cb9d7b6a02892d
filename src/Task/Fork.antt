-- ===== src/Task/Fork.antt =====
-- What `do_fork` gives the child, and what it leaves the parent.
use advanced_os.Base.{
  ℕ, ◌+◌, ◌≤◌, ◌<◌, ◌≡◌, refl, ap, ◌∙◌, ◌≢◌, true, false, some, arith, lt→ltb, le→ltb,
}
use advanced_os.Task.State.{deref, ready, Kernel, max_process, max_tick, returns, and_then}
use advanced_os.Memory.{u32}
use advanced_os.Task.Life.{minus_one, stack_shift, child_regs, clone_proc, fork_into, do_fork}
use advanced_os.Task.Invariant.{IsValid}
use advanced_os.Task.Preserve.{allocated, proc_alloc_lem}

-- The kernel `k'` after process `c` forked into slot `i`.
pub record Forked (k : Kernel) (c i : ℕ) (k' : Kernel) : Type 0 where
  pub pid : (k'.proc_list i).pid ≡ i + 1
  pub status : (k'.proc_list i).status ≡ ready
  pub parent : (k'.proc_list i).parent ≡ some c
  pub slice : (k'.proc_list i).tick ≡ max_tick
  pub regs : (k'.proc_list i).reg_img ≡ child_regs (k.proc_list c).reg_img (i + 1)
  pub result : (k'.proc_list i).reg_img.eax ≡ 0
  pub resumes_at : (k'.proc_list i).reg_img.eip ≡ (k.proc_list c).reg_img.eip
  pub stack_at :
      (k'.proc_list i).reg_img.user_esp
      ≡ u32 ((k.proc_list c).reg_img.user_esp + stack_shift (i + 1))
  pub others : (j : ℕ) → i ≢ j → k'.proc_list j ≡ k.proc_list j
  pub current : k'.curr_proc ≡ some c
  pub count : k'.curr_pid ≡ i + 1

forked :
    (k : Kernel) (c : ℕ)
    → IsValid k
    → k.curr_proc ≡ some c
    → Forked k c k.curr_pid (clone_proc c k.curr_pid (allocated (record k { enabled = false })))
unfolding clone_proc child_regs
forked k c v e =
    let lt : c < k.curr_pid = v.current_in c e in
    record {
      pid = ground arith;
      status = ground arith;
      parent = ground arith;
      slice = ground arith;
      regs = ground arith;
      result = ground arith;
      resumes_at = ground arith;
      stack_at = ground arith;
      others = λ j ne. ground arith;
      current = e;
      count = refl;
    }

fork_into-some :
    (k : Kernel) (c i : ℕ)
    → k.curr_proc ≡ some c
    → fork_into (some i) k ≡ returns ((clone_proc c i k).proc_list i).pid (clone_proc c i k)
unfolding fork_into
fork_into-some k c i e =
    ap
      (λ o.
        and_then (deref o k)
          (λ d k'. returns ((clone_proc d i k').proc_list i).pid (clone_proc d i k')))
      e

do_fork-eq :
    (k : Kernel) (c : ℕ)
    → IsValid k
    → k.curr_proc ≡ some c
    → k.curr_pid < max_process
    → do_fork k
      ≡ returns
          (k.curr_pid + 1)
          (clone_proc c k.curr_pid (allocated (record k { enabled = false })))
unfolding do_fork
do_fork-eq k c v e lt =
    let new_kernel = allocated (record k { enabled = false }) in
    rw (proc_alloc_lem (record k { enabled = false }) v, lt→ltb k.curr_pid max_process lt)
      (fork_into-some new_kernel c k.curr_pid e
        ∙ ap (λ n. returns n (clone_proc c k.curr_pid new_kernel)) (forked k c v e).pid)

-- In a well-formed table with room, and with a current process, fork returns the new pid to the
-- parent, which is the slot number plus one; the child is READY with the parent's registers, a
-- result of 0 and a stack of its own, and no other slot changes.
pub do_fork-Forked :
    (k : Kernel) (c : ℕ)
    → IsValid k
    → k.curr_proc ≡ some c
    → k.curr_pid < max_process
    → (k' : Kernel) × (do_fork k ≡ returns (k.curr_pid + 1) k') × Forked k c k.curr_pid k'
do_fork-Forked k c v e lt = (
  clone_proc c k.curr_pid (allocated (record k { enabled = false })),
  do_fork-eq k c v e lt,
  forked k c v e,
)

-- In a well-formed table that is full, fork returns -1 and changes nothing but to enable interrupts.
pub do_fork-full :
    (k : Kernel)
    → IsValid k
    → max_process ≤ k.curr_pid
    → do_fork k ≡ returns minus_one (record k { enabled = true })
unfolding do_fork fork_into
do_fork-full k v full =
    rw (proc_alloc_lem (record k { enabled = false }) v, le→ltb k.curr_pid max_process full)
