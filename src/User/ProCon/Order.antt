-- ===== src/User/ProCon/Order.antt =====
-- What the messages of usr/pro-con.c show, in every order of the steps.
use advanced_os.Base.{
  ℕ, suc, ◌+◌, ◌-◌, ◌^◌, ◌≤◌, ◌<◌, ◌≡◌, refl, List, [], ◌∷◌, subst, arith, length, All,
}
use advanced_os.User.ProCon.{
  forked, parent, child, Side, consume_at, run, step, Producer, Consumer, Message, produce, consume,
  Shop, produce_at,
}
use advanced_os.Memory.{u32}

-- 1 between the return of `sem_wait(mutex)` and the call of `sem_signal(mutex)`, and else 0.
abbrev pub makes : Producer → ℕ
makes Producer.entered = 1
makes (Producer.loaded t) = 1
makes (Producer.counted t) = 1
makes Producer.printed = 1
makes _ = 0

abbrev pub takes : Consumer → ℕ
takes Consumer.entered = 1
takes (Consumer.loaded t) = 1
takes (Consumer.counted t) = 1
takes Consumer.printed = 1
takes _ = 0

-- Stopped at `mutex`.
abbrev pub p_stopped : Producer → ℕ
p_stopped Producer.stopped = 1
p_stopped _ = 0

abbrev pub c_stopped : Consumer → ℕ
c_stopped Consumer.stopped = 1
c_stopped _ = 0

abbrev pub is_starved : Consumer → ℕ
is_starved Consumer.starved = 1
is_starved _ = 0

-- 1 where the producer has counted an item and not signalled it.
abbrev unsignalled : Producer → ℕ
unsignalled (Producer.counted t) = 1
unsignalled Producer.printed = 1
unsignalled Producer.released = 1
unsignalled _ = 0

-- 1 where the consumer has called `sem_wait(n)` and not counted the item.
abbrev claims : Consumer → ℕ
claims Consumer.starved = 1
claims Consumer.got = 1
claims Consumer.stopped = 1
claims Consumer.entered = 1
claims (Consumer.loaded t) = 1
claims _ = 0

-- An item that is counted and not shown yet.
abbrev p_unshown : Producer → ℕ
p_unshown (Producer.counted t) = 1
p_unshown _ = 0

abbrev c_unshown : Consumer → ℕ
c_unshown (Consumer.counted t) = 1
c_unshown _ = 0

-- What a process knows of `tot`.
abbrev PKnows : (tot : ℕ) → Producer → Type 0
PKnows tot (Producer.loaded t) = t ≡ tot
PKnows tot (Producer.counted t) = (t ≡ tot) × (1 ≤ t)
PKnows tot _ = Unit {0}

abbrev CKnows : (tot : ℕ) → Consumer → Type 0
CKnows tot (Consumer.loaded t) = t ≡ tot
CKnows tot (Consumer.counted t) = t ≡ tot + 1
CKnows tot _ = Unit {0}

-- A consumer stops at `n` only for lack of items.
abbrev Starves : (tot : ℕ) → Producer → Consumer → Type 0
Starves tot p Consumer.starved = tot ≤ unsignalled p
Starves tot p _ = Unit {0}

-- The messages of each kind, and that each shows a number from 1 on.
abbrev pub produced : List Message → ℕ
produced [] = 0
produced (produce t ∷ l) = produced l + 1
produced (consume t ∷ l) = produced l

abbrev pub consumed : List Message → ℕ
consumed [] = 0
consumed (produce t ∷ l) = consumed l
consumed (consume t ∷ l) = consumed l + 1

abbrev pub number_of : Message → ℕ
number_of (produce t) = t
number_of (consume t) = t

-- After fewer than `steps` steps.
record IsGood (steps : ℕ) (s : Shop) : Type 0 where
  lock :
      s.mutex
      ≡ u32 (
          2 ^ 32
          + 1
          - (makes s.producer + p_stopped s.producer)
          - (takes s.consumer + c_stopped s.consumer))
  one : makes s.producer + takes s.consumer ≤ 1
  p_held : p_stopped s.producer ≤ takes s.consumer
  c_held : c_stopped s.consumer ≤ makes s.producer
  few : s.tot < steps
  items : s.n ≡ u32 (2 ^ 32 + s.tot - unsignalled s.producer - claims s.consumer)
  covered : unsignalled s.producer + claims s.consumer ≤ s.tot + is_starved s.consumer
  waits : Starves s.tot s.producer s.consumer
  p_knows : PKnows s.tot s.producer
  c_knows : CKnows s.tot s.consumer
  shown :
      s.tot + consumed s.messages + c_unshown s.consumer
      ≡ produced s.messages + p_unshown s.producer
  positive : All (λ m. 1 ≤ number_of m) s.messages

produce-IsGood :
    (k : ℕ) (s : Shop) (p : Producer)
    → s.producer ≡ p
    → k < 2 ^ 31
    → IsGood k s
    → IsGood (suc k) (produce_at p s)
unfolding produce_at
produce-IsGood k s Producer.begins e lt h = ground arith
produce-IsGood k s Producer.stopped e lt h = ground arith
produce-IsGood k s Producer.entered e lt h = ground arith
produce-IsGood k s (Producer.loaded t) e lt h = ground arith
produce-IsGood k s (Producer.counted t) e lt h = ground arith
produce-IsGood k s Producer.printed e lt h = ground arith
produce-IsGood k s Producer.released e lt h = ground arith

consume-IsGood :
    (k : ℕ) (s : Shop) (c : Consumer)
    → s.consumer ≡ c
    → k < 2 ^ 31
    → IsGood k s
    → IsGood (suc k) (consume_at c s)
unfolding consume_at
consume-IsGood k s Consumer.begins e lt h = ground arith
consume-IsGood k s Consumer.starved e lt h = ground arith
consume-IsGood k s Consumer.got e lt h = ground arith
consume-IsGood k s Consumer.stopped e lt h = ground arith
consume-IsGood k s Consumer.entered e lt h = ground arith
consume-IsGood k s (Consumer.loaded t) e lt h = ground arith
consume-IsGood k s (Consumer.counted t) e lt h = ground arith
consume-IsGood k s Consumer.printed e lt h = ground arith

step-IsGood : (k : ℕ) (w : Side) (s : Shop) → k < 2 ^ 31 → IsGood k s → IsGood (suc k) (step w s)
unfolding step
step-IsGood k parent s lt h = produce-IsGood k s s.producer refl lt h
step-IsGood k child s lt h = consume-IsGood k s s.consumer refl lt h

run-IsGood :
    (order : List Side) (k : ℕ) (s : Shop)
    → k + length order < 2 ^ 31
    → IsGood k s
    → IsGood (k + length order) (run order s)
unfolding run
run-IsGood [] k s lt h = let e : k ≡ k + 0 = omega arith in subst (λ n. IsGood n s) e h
run-IsGood (w ∷ order) k s lt h =
    let e : suc k + length order ≡ k + suc (length order) = omega arith in
    subst (λ n. IsGood n (run order (step w s))) e
      (run-IsGood order (suc k) (step w s) (omega arith) (step-IsGood k w s (omega arith) h))

-- In any order of fewer than 2 ^ 31 - 1 steps: the two processes are never both between
-- `sem_wait(mutex)` and `sem_signal(mutex)`, and never both stopped at a semaphore; nothing is
-- consumed before it is produced, as there are never more messages of the consumer than of the
-- producer, and none of them shows a number below 1; and where neither process is between those
-- calls, `tot` is the number of items that were produced and not consumed.
pub run-items :
    (order : List Side)
    → length order < 2 ^ 31 - 1
    → let s = run order forked in
      (makes s.producer + takes s.consumer ≤ 1)
      × (p_stopped s.producer + (c_stopped s.consumer + is_starved s.consumer) ≤ 1)
      × (consumed s.messages ≤ produced s.messages)
      × All (λ m. 1 ≤ number_of m) s.messages
      × (makes s.producer + takes s.consumer ≡ 0
          → s.tot + consumed s.messages ≡ produced s.messages)
run-items order lt =
    let s = run order forked in
    let h : IsGood (1 + length order) s = run-IsGood order 1 forked (omega arith) (ground arith) in
    let shown = h.shown in
    let covered = h.covered in
    let one = h.one in
    let p_held = h.p_held in
    let c_held = h.c_held in (one, ground arith, ground arith, h.positive, λ none_in. ground arith)
