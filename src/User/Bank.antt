-- ===== src/User/Bank.antt =====
-- usr/bank.c: two processes change one account under a semaphore. A fork copies the stack alone, so
-- that `sem` and `bank_account` are shared. A step is one access of the account, one call, or a loop
-- test, and the timer may switch between any two steps. The calls of the semaphore are steps on its
-- value as `do_sem_p` and `do_sem_v` make them: below zero the caller stops, and a signal that
-- leaves the value at or below zero lets the other process go on, which is the only one that can
-- wait. The message of `printf` is left out, but for its read of the account.
pub mod Safety
pub mod Ending
use advanced_os.Base.{
  ℕ, zero, suc, ◌+◌, ◌-◌, ◌*◌, ◌/◌, ◌%◌, ◌^◌, ◌≤◌, ◌<◌, min, bit_and, bit_or, ◌≡◌, refl, sym, ap,
  ◌∙◌, fun_ext, ◌≢◌, ◌↔◌, ◌⊎◌, inl, inr, Bool, true, false, ◌&&◌, ◌||◌, not, Option, none, some,
  List, [], ◌∷◌, ◌++◌, map, reverse, append_assoc, append-nil, subst, arith, dec_lt, ℕ_discrete,
  ltb, leb, ◌==◌, if◌then◌else◌, Bool-cases, Option-cases, length, get_elem?, get_or, take, drop,
  All, codes, update, update_self, update_ne, first_index, first_index-some, first_index-none,
  first_index-found, IsFirst, ==_refl, ==_ne, lt→ltb, le→ltb, eq_of_some,
}
use advanced_os.Memory.{u32, is_negative}
use advanced_os.Sem.{is_nonpositive}

-- The parent, who deposits, and the child, who withdraws.
pub data Side : Type 0 where
  father child : Side

-- The rounds of the two loops.
abbrev pub rounds : Side → ℕ
rounds father = 100
rounds child = 50

-- `bank_account += 10` and `bank_account -= 20`.
abbrev pub change : Side → ℕ → ℕ
change father v = u32 (v + 10)
change child v = u32 (v + 2 ^ 32 - 20)

-- Where a process stands in round `i`: before the loop test, stopped in `sem_wait`, behind it, with
-- the account loaded, with the account stored, and before `sem_signal`. Behind the loop come the
-- `exit` of the child and the `wait` of both. The child is `exited` when its `exit` has come back to
-- it: it is TERMINATED, but has the processor. Who `waits` is WAITING in `do_wait`; who has `ended`
-- has left `main` or will not run again.
pub data Pc : Type 0 where
  test : (i : ℕ) → Pc
  stopped : (i : ℕ) → Pc
  entered : (i : ℕ) → Pc
  loaded : (i v : ℕ) → Pc
  stored : (i : ℕ) → Pc
  printed : (i shown : ℕ) → Pc
  behind_loop : Pc
  exited : Pc
  waits : Pc
  ended : Pc

-- The globals, and the two processes.
pub record Bank : Type 0 where
  pub account : ℕ
  pub val : ℕ
  pub pc : Side → Pc

abbrev pub other : Side → Side
other father = child
other child = father

abbrev pub same : Side → Side → Bool
same father father = true
same child child = true
same _ _ = false

abbrev pub go : Side → Pc → Bank → Bank
go w p s = record s { pc = λ v. if same w v then p else s.pc v }

-- What a signal does to the process that is stopped.
abbrev pub go_on : Pc → Pc
go_on (stopped i) = entered i
go_on p = p

-- `sem_wait(sem)` of `w` in round `i`, and `sem_signal(sem)`.
unfoldable pub bank_wait : Side → (i : ℕ) → Bank → Bank
bank_wait w i s =
    let v = u32 (s.val + 2 ^ 32 - 1) in
    go w (if is_negative v then stopped i else entered i) (record s { val = v })

unfoldable pub bank_signal : Side → (i : ℕ) → Bank → Bank
bank_signal w i s =
    let v = u32 (s.val + 1) in
    let t = go w (test (i + 1)) (record s { val = v }) in
    if is_nonpositive v then go (other w) (go_on (s.pc (other w))) t else t

-- READY, or RUNNING.
abbrev pub can_run : Pc → Bool
can_run (stopped i) = false
can_run waits = false
can_run ended = false
can_run _ = true

abbrev pub is_asleep : Pc → Bool
is_asleep (stopped i) = true
is_asleep waits = true
is_asleep _ = false

-- `wait()`: `schedule_proc` gives the processor to the other process, and comes back at once when
-- that one is not READY.
unfoldable pub call_wait : Side → Bank → Bank
call_wait w s = go w (if can_run (s.pc (other w)) then waits else ended) s

-- What the `exit` of the child does to the father: it wakes him, if he is WAITING by then, for
-- whatever he waits.
abbrev pub end_wait : Pc → Pc
end_wait waits = ended
end_wait (stopped i) = entered i
end_wait p = p

-- Behind the loop: `wait()` of the father, `exit(0)` of the child. The `exit` leaves the child for
-- good only if it wakes the father, to whom the processor then goes.
unfoldable pub finish : Side → Bank → Bank
finish father s = call_wait father s
finish child s =
    go child (if is_asleep (s.pc father) then ended else exited)
      (go father (end_wait (s.pc father)) s)

-- A step of the process `w` at its place; a process that is stopped, waits or has ended makes none.
unfoldable pub step_at : Side → Pc → Bank → Bank
step_at w (test i) s = if ltb i (rounds w) then bank_wait w i s else go w behind_loop s
step_at w (stopped i) s = s
step_at w (entered i) s = go w (loaded i s.account) s
step_at w (loaded i v) s = go w (stored i) (record s { account = change w v })
step_at w (stored i) s = go w (printed i s.account) s
step_at w (printed i shown) s = bank_signal w i s
step_at w behind_loop s = finish w s
step_at w exited s = call_wait w s
step_at w waits s = s
step_at w ended s = s

-- When `w` has the processor, a TERMINATED process that had it is never picked again.
unfoldable pub take_over : Side → Pc → Bank → Bank
take_over w exited s = go (other w) ended s
take_over w p s = s

unfoldable pub step : Side → Bank → Bank
step w s = step_at w (s.pc w) (take_over w (s.pc (other w)) s)

-- Behind the `fork`.
abbrev pub forked : Bank
forked = record { account = 1000; val = 1; pc = λ w. test 0 }

-- The processes, scheduled in any order.
unfoldable pub run : List Side → Bank → Bank
run [] s = s
run (w ∷ order) s = run order (step w s)
