-- ===== src/User/Bank/Safety.antt =====
-- What holds of the account of usr/bank.c in every state.
use advanced_os.Base.{ℕ, ◌+◌, ◌-◌, ◌*◌, ◌^◌, ◌≤◌, ◌<◌, ◌≡◌, refl, List, [], ◌∷◌, arith}
use advanced_os.User.Bank.{
  forked, run, step, Side, father, child, rounds, Pc, test, stopped, entered, loaded, stored,
  printed, behind_loop, exited, waits, ended, Bank, other, bank_wait, bank_signal, call_wait,
  finish, step_at, take_over,
}
use advanced_os.Memory.{u32}

-- 1 between the return of `sem_wait` and the call of `sem_signal`, and else 0.
abbrev pub inside : Pc → ℕ
inside (entered i) = 1
inside (loaded i v) = 1
inside (stored i) = 1
inside (printed i v) = 1
inside _ = 0

abbrev pub is_stopped : Pc → ℕ
is_stopped (stopped i) = 1
is_stopped _ = 0

abbrev pub has_ended : Pc → ℕ
has_ended ended = 1
has_ended _ = 0

abbrev pub is_waiting : Pc → ℕ
is_waiting waits = 1
is_waiting _ = 0

abbrev pub has_exited : Pc → ℕ
has_exited exited = 1
has_exited _ = 0

-- 1 up to the `exit` or `wait`, if the process can go on, and else 0.
abbrev pub is_busy : Pc → ℕ
is_busy (stopped i) = 0
is_busy exited = 0
is_busy waits = 0
is_busy ended = 0
is_busy _ = 1

-- The changes of the account that a process has made.
abbrev pub changes : Side → Pc → ℕ
changes w (test i) = i
changes w (stopped i) = i
changes w (entered i) = i
changes w (loaded i v) = i
changes w (stored i) = i + 1
changes w (printed i v) = i + 1
changes w _ = rounds w

-- The places of a process, with what it knows of the account.
abbrev pub Placed : Side → (account : ℕ) → Pc → Type 0
Placed w a (test i) = i ≤ rounds w
Placed w a (stopped i) = i < rounds w
Placed w a (entered i) = i < rounds w
Placed w a (loaded i v) = (i < rounds w) × (v ≡ a)
Placed w a (stored i) = i < rounds w
Placed w a (printed i v) = (i < rounds w) × (v ≡ a)
Placed w a _ = Unit {0}

pub record IsSafe (account val : ℕ) (f c : Pc) : Type 0 where
  pub value : val ≡ u32 (2 ^ 32 + 1 - (inside f + is_stopped f) - (inside c + is_stopped c))
  pub one : inside f + inside c ≤ 1
  pub father_held : is_stopped f ≤ inside c
  pub child_held : is_stopped c ≤ inside f
  pub sum : account + 20 * changes child c ≡ 1000 + 10 * changes father f
  pub father_placed : Placed father account f
  pub child_placed : Placed child account c
  pub joined : has_ended f ≤ has_ended c + is_waiting c
  pub awaited : is_waiting f ≤ is_busy c
  pub no_exit : has_exited f ≡ 0

abbrev pub Safe : Bank → Type 0
Safe s = IsSafe s.account s.val (s.pc father) (s.pc child)

-- Each process may make the next step.
father_step :
    (s : Bank) (p : Pc)
    → s.pc father ≡ p
    → has_exited (s.pc child) ≡ 0
    → Safe s
    → Safe (step_at father p s)
unfolding step_at bank_wait bank_signal finish call_wait
father_step s (test i) e x h = ground arith
father_step s (stopped i) e x h = h
father_step s (entered i) e x h = ground arith
father_step s (loaded i v) e x h = ground arith
father_step s (stored i) e x h = ground arith
father_step s (printed i v) e x h = ground arith
father_step s behind_loop e x h = ground arith
father_step s exited e x h = absurd (ground (arith, h.no_exit))
father_step s waits e x h = h
father_step s ended e x h = h

child_step : (s : Bank) (p : Pc) → s.pc child ≡ p → Safe s → Safe (step_at child p s)
unfolding step_at bank_wait bank_signal finish call_wait
child_step s (test i) e h = ground arith
child_step s (stopped i) e h = h
child_step s (entered i) e h = ground arith
child_step s (loaded i v) e h = ground arith
child_step s (stored i) e h = ground arith
child_step s (printed i v) e h = ground arith
child_step s behind_loop e h = ground arith
child_step s exited e h = ground arith
child_step s waits e h = h
child_step s ended e h = h

-- What `take_over` leaves.
pub record TakenOver (w : Side) (s t : Bank) : Type 0 where
  pub safe : Safe t
  pub same : t.pc w ≡ s.pc w
  pub gone : has_exited (t.pc (other w)) ≡ 0

pub take_over-TakenOver :
    (w : Side) (s : Bank) (p : Pc) → s.pc (other w) ≡ p → Safe s → TakenOver w s (take_over w p s)
unfolding take_over
take_over-TakenOver father s p e h = record {
  safe = ground arith;
  same = ground arith;
  gone = ground arith;
}
take_over-TakenOver child s p e h = record {
  safe = ground arith;
  same = ground arith;
  gone = ground arith;
}

pub step-Safe : (w : Side) (s : Bank) → Safe s → Safe (step w s)
unfolding step
step-Safe father s h =
    let k = take_over-TakenOver father s (s.pc child) refl h in
    father_step (take_over father (s.pc child) s) (s.pc father) k.same k.gone k.safe
step-Safe child s h =
    let k = take_over-TakenOver child s (s.pc father) refl h in
    child_step (take_over child (s.pc father) s) (s.pc child) k.same k.safe

pub run-Safe : (order : List Side) (s : Bank) → Safe s → Safe (run order s)
unfolding run
run-Safe [] s h = h
run-Safe (w ∷ order) s h = run-Safe order (step w s) (step-Safe w s h)

pub forked-Safe : Safe forked
forked-Safe = ground arith

changes-le : (w : Side) (a : ℕ) (p : Pc) → Placed w a p → changes w p ≤ rounds w
changes-le w a p h = ground arith

-- Whatever the order of the steps: the two processes are never both between `sem_wait` and
-- `sem_signal`; the account is 1000, plus 10 for each change that the father has made and less 20
-- for each of the child, so that no change is lost; it stays from 0 to 2000; and a process that has
-- read the account to print it has read its value.
pub run-account :
    (order : List Side)
    → let s = run order forked in
      (inside (s.pc father) + inside (s.pc child) ≤ 1)
      × (s.account + 20 * changes child (s.pc child) ≡ 1000 + 10 * changes father (s.pc father))
      × (s.account ≤ 2000)
      × ((w : Side) (i v : ℕ) → s.pc w ≡ printed i v → v ≡ s.account)
run-account order =
    let s = run order forked in
    let h = run-Safe order forked forked-Safe in
    (
      h.one,
      h.sum,
      omega (arith, h.sum, changes-le father s.account (s.pc father) h.father_placed),
      shown s h,
    )
  where
    shown : (s : Bank) → Safe s → (w : Side) (i v : ℕ) → s.pc w ≡ printed i v → v ≡ s.account
    shown s h father i v e = ground (arith, h.father_placed)
    shown s h child i v e = ground (arith, h.child_placed)
