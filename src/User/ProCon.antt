-- ===== src/User/ProCon.antt =====
-- usr/pro-con.c: a producer and a consumer share the counter `tot` and the semaphores `mutex` and
-- `n`. A fork copies the stack alone, so that the globals are shared. A step is one access of `tot`,
-- one message or one call, and the timer may switch between any two steps. The calls of the
-- semaphores are steps on their values as in User.Bank: a process that is stopped at one of them is
-- the only one that can wait there.
pub mod Order
use advanced_os.Base.{
  ℕ, zero, suc, ◌+◌, ◌-◌, ◌*◌, ◌/◌, ◌%◌, ◌^◌, ◌≤◌, ◌<◌, min, bit_and, bit_or, ◌≡◌, refl, sym, ap,
  ◌∙◌, fun_ext, ◌≢◌, ◌↔◌, ◌⊎◌, inl, inr, Bool, true, false, ◌&&◌, ◌||◌, not, Option, none, some,
  List, [], ◌∷◌, ◌++◌, map, reverse, append_assoc, append-nil, subst, arith, dec_lt, ℕ_discrete,
  ltb, leb, ◌==◌, if◌then◌else◌, Bool-cases, Option-cases, length, get_elem?, get_or, take, drop,
  All, codes, update, update_self, update_ne, first_index, first_index-some, first_index-none,
  first_index-found, IsFirst, ==_refl, ==_ne, lt→ltb, le→ltb, eq_of_some,
}
use advanced_os.Memory.{u32, is_negative}
use advanced_os.Sem.{is_nonpositive}

-- Where the producer stands: before `sem_wait(mutex)`, stopped in it, behind it, with `tot` loaded,
-- with `tot` stored, before `sem_signal(mutex)`, and before `sem_signal(n)`.
pub data Producer : Type 0 where
  begins : Producer
  stopped : Producer
  entered : Producer
  loaded : (t : ℕ) → Producer
  counted : (t : ℕ) → Producer
  printed : Producer
  released : Producer

-- Where the consumer stands: before `sem_wait(n)`, stopped in it, before `sem_wait(mutex)`, stopped
-- in that, behind it, with `tot` loaded, with `tot` stored, and before `sem_signal(mutex)`.
pub data Consumer : Type 0 where
  begins : Consumer
  starved : Consumer
  got : Consumer
  stopped : Consumer
  entered : Consumer
  loaded : (t : ℕ) → Consumer
  counted : (t : ℕ) → Consumer
  printed : Consumer

-- The two messages, with the number that they show.
pub data Message : Type 0 where
  produce : ℕ → Message
  consume : ℕ → Message

-- The globals, the two processes, and the messages, the last one first.
pub record Shop : Type 0 where
  pub tot : ℕ
  pub mutex : ℕ
  pub n : ℕ
  pub producer : Producer
  pub consumer : Consumer
  pub messages : List Message

abbrev pub less_one : ℕ → ℕ
less_one v = u32 (v + 2 ^ 32 - 1)

abbrev pub more_one : ℕ → ℕ
more_one v = u32 (v + 1)

-- What a signal does to a process that is stopped at `mutex`, and one to a consumer at `n`.
abbrev pub let_produce : Producer → Producer
let_produce stopped = entered
let_produce p = p

abbrev pub let_consume : Consumer → Consumer
let_consume stopped = entered
let_consume c = c

abbrev pub feed : Consumer → Consumer
feed starved = got
feed c = c

-- A step of the producer at its place.
unfoldable pub produce_at : Producer → Shop → Shop
produce_at begins s =
    let v = less_one s.mutex in
    record s { mutex = v; producer = if is_negative v then stopped else entered }
produce_at stopped s = s
produce_at entered s = record s { producer = loaded s.tot }
produce_at (loaded t) s = record s { tot = u32 (t + 1); producer = counted (u32 (t + 1)) }
produce_at (counted t) s = record s { producer = printed; messages = produce t ∷ s.messages }
produce_at printed s =
    let v = more_one s.mutex in
    record s {
      mutex = v;
      producer = released;
      consumer = if is_nonpositive v then let_consume s.consumer else s.consumer;
    }
produce_at released s =
    let v = more_one s.n in
    record s {
      n = v;
      producer = begins;
      consumer = if is_nonpositive v then feed s.consumer else s.consumer;
    }

-- A step of the consumer at its place.
unfoldable pub consume_at : Consumer → Shop → Shop
consume_at begins s =
    let v = less_one s.n in record s { n = v; consumer = if is_negative v then starved else got }
consume_at starved s = s
consume_at got s =
    let v = less_one s.mutex in
    record s { mutex = v; consumer = if is_negative v then stopped else entered }
consume_at stopped s = s
consume_at entered s = record s { consumer = loaded s.tot }
consume_at (loaded t) s = record s { tot = u32 (t + 2 ^ 32 - 1); consumer = counted t }
consume_at (counted t) s = record s { consumer = printed; messages = consume t ∷ s.messages }
consume_at printed s =
    let v = more_one s.mutex in
    record s {
      mutex = v;
      consumer = begins;
      producer = if is_nonpositive v then let_produce s.producer else s.producer;
    }

-- The process that makes a step.
pub data Side : Type 0 where
  parent child : Side

unfoldable pub step : Side → Shop → Shop
step parent s = produce_at s.producer s
step child s = consume_at s.consumer s

-- Behind the `fork`.
abbrev pub forked : Shop
forked = record { tot = 0; mutex = 1; n = 0; producer = begins; consumer = begins; messages = [] }

-- The processes, scheduled in any order.
unfoldable pub run : List Side → Shop → Shop
run [] s = s
run (w ∷ order) s = run order (step w s)
