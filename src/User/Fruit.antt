-- ===== src/User/Fruit.antt =====
-- usr/fruit.c: a father reads what two children put into `words` and onto `fruit_plate`. A fork
-- copies the stack alone, so that the globals are shared. A step is one access of the globals, one
-- call or one message, and the timer may switch between any two steps. The calls of the semaphores
-- are steps on their values as in User.Bank: only the father waits for `sem_word` and `sem_fruit`,
-- and only one child for each of the other two.
pub mod Kept
pub mod Messages
use advanced_os.Base.{
  ℕ, zero, suc, ◌+◌, ◌-◌, ◌*◌, ◌/◌, ◌%◌, ◌^◌, ◌≤◌, ◌<◌, min, bit_and, bit_or, ◌≡◌, refl, sym, ap,
  ◌∙◌, fun_ext, ◌≢◌, ◌↔◌, ◌⊎◌, inl, inr, Bool, true, false, ◌&&◌, ◌||◌, not, Option, none, some,
  List, [], ◌∷◌, ◌++◌, map, reverse, append_assoc, append-nil, subst, arith, dec_lt, ℕ_discrete,
  ltb, leb, ◌==◌, if◌then◌else◌, Bool-cases, Option-cases, length, get_elem?, get_or, take, drop,
  All, codes, update, update_self, update_ne, first_index, first_index-some, first_index-none,
  first_index-found, IsFirst, ==_refl, ==_ne, lt→ltb, le→ltb, eq_of_some,
}
use advanced_os.Memory.{u32, is_negative}
use advanced_os.Sem.{is_nonpositive}
use Prim.Native.String.{String}

-- `enum FRUITS`.
abbrev pub none_fruit : ℕ
none_fruit = 0

abbrev pub apple : ℕ
apple = 1

abbrev pub pear : ℕ
pear = 2

abbrev pub banana : ℕ
banana = 3

-- Where the father stands: before `sem_wait(sem_word)` (p0) and stopped in it, before
-- `sem_wait(sem_fruit)` (p1) and stopped in it, before the tests of the plate, before the message,
-- before `sem_signal(sem_word_full)` (v2), before `fruit_plate = 0`, and before
-- `sem_signal(sem_fruit_full)` (v3).
pub data Father : Type 0 where
  p0 p0_stopped p1 p1_stopped tests says v2 clears v3 : Father

-- Where the child with the words stands: before the copy, within it, before `sem_signal(sem_word)`
-- (v0), before `sem_wait(sem_word_full)` (p2), and stopped in it.
pub data Wordy : Type 0 where
  puts copies v0 p2 p2_stopped : Wordy

-- Where the child with the fruit stands: before each of the three statements of `put_fruit`, before
-- `sem_signal(sem_fruit)` (v1), before `sem_wait(sem_fruit_full)` (p3), and stopped in it.
pub data Fruity : Type 0 where
  adds skips places v1 p3 p3_stopped : Fruity

-- A message: the words and the name of the fruit.
pub record Message : Type 0 where
  pub words : List ℕ
  pub fruit : List ℕ

-- The globals, the three processes, the father's `fruit_name`, and the messages, the last one first.
-- `words` is `none` while it is being written.
pub record Plate : Type 0 where
  pub words : Option (List ℕ)
  pub fruit_index : ℕ
  pub fruit_plate : ℕ
  pub sem_word : ℕ
  pub sem_fruit : ℕ
  pub sem_word_full : ℕ
  pub sem_fruit_full : ℕ
  pub father : Father
  pub wordy : Wordy
  pub fruity : Fruity
  pub fruit_name : List ℕ
  pub messages : List Message

abbrev pub less_one : ℕ → ℕ
less_one v = u32 (v + 2 ^ 32 - 1)

abbrev pub more_one : ℕ → ℕ
more_one v = u32 (v + 1)

-- What the signals do to a process that is stopped at their semaphore.
abbrev pub give_word : Father → Father
give_word p0_stopped = p1
give_word f = f

abbrev pub give_fruit : Father → Father
give_fruit p1_stopped = tests
give_fruit f = f

abbrev pub next_words : Wordy → Wordy
next_words p2_stopped = puts
next_words w = w

abbrev pub next_fruit : Fruity → Fruity
next_fruit p3_stopped = adds
next_fruit g = g

-- The tests of the plate: the name stays if nothing lies on it.
unfoldable pub name_of : (plate : ℕ) → (old : List ℕ) → List ℕ
name_of plate old =
    if plate == apple
    then codes "APPLE"
    else if plate == pear
    then codes "PEAR"
    else if plate == banana
    then codes "BANANA"
    else old

unfoldable pub put_text : List ℕ
put_text = codes "Father will live forever!"

-- A message of words that are not all written shows none.
abbrev pub shown : Option (List ℕ) → List ℕ
shown none = []
shown (some w) = w

-- A step of the father at his place.
unfoldable pub father_at : Father → Plate → Plate
father_at p0 s =
    let v = less_one s.sem_word in
    record s { sem_word = v; father = if is_negative v then p0_stopped else p1 }
father_at p0_stopped s = s
father_at p1 s =
    let v = less_one s.sem_fruit in
    record s { sem_fruit = v; father = if is_negative v then p1_stopped else tests }
father_at p1_stopped s = s
father_at tests s = record s { fruit_name = name_of s.fruit_plate s.fruit_name; father = says }
father_at says s =
    let m : Message = record { words = shown s.words; fruit = s.fruit_name } in
    record s { messages = m ∷ s.messages; father = v2 }
father_at v2 s =
    let v = more_one s.sem_word_full in
    record s {
      sem_word_full = v;
      father = clears;
      wordy = if is_nonpositive v then next_words s.wordy else s.wordy;
    }
father_at clears s = record s { fruit_plate = none_fruit; father = v3 }
father_at v3 s =
    let v = more_one s.sem_fruit_full in
    record s {
      sem_fruit_full = v;
      father = p0;
      fruity = if is_nonpositive v then next_fruit s.fruity else s.fruity;
    }

-- A step of the child with the words at its place.
unfoldable pub wordy_at : Wordy → Plate → Plate
wordy_at puts s = record s { words = none; wordy = copies }
wordy_at copies s = record s { words = some put_text; wordy = v0 }
wordy_at v0 s =
    let v = more_one s.sem_word in
    record s {
      sem_word = v;
      wordy = p2;
      father = if is_nonpositive v then give_word s.father else s.father;
    }
wordy_at p2 s =
    let v = less_one s.sem_word_full in
    record s { sem_word_full = v; wordy = if is_negative v then p2_stopped else puts }
wordy_at p2_stopped s = s

-- A step of the child with the fruit at its place; the first three are `put_fruit`.
unfoldable pub fruity_at : Fruity → Plate → Plate
fruity_at adds s = record s { fruit_index = (s.fruit_index + 1) % 4; fruity = skips }
fruity_at skips s = record s {
  fruit_index = if s.fruit_index == 0 then s.fruit_index + 1 else s.fruit_index;
  fruity = places;
}
fruity_at places s = record s { fruit_plate = s.fruit_index; fruity = v1 }
fruity_at v1 s =
    let v = more_one s.sem_fruit in
    record s {
      sem_fruit = v;
      fruity = p3;
      father = if is_nonpositive v then give_fruit s.father else s.father;
    }
fruity_at p3 s =
    let v = less_one s.sem_fruit_full in
    record s { sem_fruit_full = v; fruity = if is_negative v then p3_stopped else adds }
fruity_at p3_stopped s = s

-- The process that makes a step.
pub data Side : Type 0 where
  parent first_child second_child : Side

unfoldable pub step : Side → Plate → Plate
step parent s = father_at s.father s
step first_child s = wordy_at s.wordy s
step second_child s = fruity_at s.fruity s

-- Behind the forks; what `fruit_name` holds before it is set is `old`.
abbrev pub forked : (old : List ℕ) → Plate
forked old = record {
  words = some [];
  fruit_index = 0;
  fruit_plate = none_fruit;
  sem_word = 0;
  sem_fruit = 0;
  sem_word_full = 0;
  sem_fruit_full = 0;
  father = p0;
  wordy = puts;
  fruity = adds;
  fruit_name = old;
  messages = [];
}

-- The processes, scheduled in any order.
unfoldable pub run : List Side → Plate → Plate
run [] s = s
run (w ∷ order) s = run order (step w s)
