-- ===== src/User/Fruit/Kept.antt =====
-- What every step of the processes of usr/fruit.c keeps.
use advanced_os.Base.{
  ℕ, zero, suc, ◌+◌, ◌%◌, ◌^◌, ◌≤◌, ◌<◌, ◌≡◌, Option, some, List, [], ◌∷◌, arith, ◌==◌,
  if◌then◌else◌, length,
}
use advanced_os.Memory.{u32}
use advanced_os.User.Fruit.{
  Father, p0_stopped, p1, p1_stopped, tests, says, v2, clears, v3, Wordy, puts, copies, v0,
  p2_stopped, Fruity, adds, skips, places, v1, p3_stopped, Message, Plate, name_of, put_text,
  father_at, wordy_at, fruity_at,
}

-- 1 where a process is stopped at a semaphore.
abbrev pub at_word : Father → ℕ
at_word p0_stopped = 1
at_word _ = 0

abbrev pub at_fruit : Father → ℕ
at_fruit p1_stopped = 1
at_fruit _ = 0

abbrev pub at_word_full : Wordy → ℕ
at_word_full p2_stopped = 1
at_word_full _ = 0

abbrev pub at_fruit_full : Fruity → ℕ
at_fruit_full p3_stopped = 1
at_fruit_full _ = 0

-- A signal that was given and not taken.
abbrev pub given : (val stopped : ℕ) → ℕ
given val stopped = u32 (val + stopped)

-- 1 where a process has the words, or the plate, to itself.
abbrev pub has_words : Father → ℕ
has_words p1 = 1
has_words p1_stopped = 1
has_words tests = 1
has_words says = 1
has_words v2 = 1
has_words _ = 0

abbrev pub writes_words : Wordy → ℕ
writes_words puts = 1
writes_words copies = 1
writes_words v0 = 1
writes_words _ = 0

abbrev pub has_plate : Father → ℕ
has_plate tests = 1
has_plate says = 1
has_plate v2 = 1
has_plate clears = 1
has_plate v3 = 1
has_plate _ = 0

abbrev pub fills_plate : Fruity → ℕ
fills_plate adds = 1
fills_plate skips = 1
fills_plate places = 1
fills_plate v1 = 1
fills_plate _ = 0

abbrev pub Written : Wordy → Option (List ℕ) → Type 0
Written puts w = Unit {0}
Written copies w = Unit {0}
Written _ w = w ≡ some put_text

-- The words and their two semaphores.
pub record WordsKept (word full : ℕ) (words : Option (List ℕ)) (f : Father) (w : Wordy)
    : Type 0 where
  pub below : (word < 2 ^ 32) × (full < 2 ^ 32)
  pub father_waits : at_word f + given word (at_word f) ≤ 1
  pub child_waits : at_word_full w + given full (at_word_full w) ≤ 1
  pub one : given word (at_word f) + given full (at_word_full w) + writes_words w + has_words f ≡ 1
  pub written : Written w words

-- The plate and its two semaphores.
pub record PlateKept (fruit full : ℕ) (f : Father) (g : Fruity) : Type 0 where
  pub below : (fruit < 2 ^ 32) × (full < 2 ^ 32)
  pub father_waits : at_fruit f + given fruit (at_fruit f) ≤ 1
  pub child_waits : at_fruit_full g + given full (at_fruit_full g) ≤ 1
  pub one :
      given fruit (at_fruit f) + given full (at_fruit_full g) + fills_plate g + has_plate f ≡ 1

-- The fruit of message `n`, counted from 0, and the one before it.
abbrev pub fruit_in_turn : (n : ℕ) → ℕ
fruit_in_turn n = n % 3 + 1

abbrev pub last_fruit : (n : ℕ) → ℕ
last_fruit n = if n == 0 then 0 else (n + 2) % 3 + 1

-- 1 where the father has given his message, and the child has not begun the next round.
abbrev pub said : Father → ℕ
said v2 = 1
said clears = 1
said v3 = 1
said _ = 0

abbrev pub InTurn : (done n index plate : ℕ) → Type 0
InTurn zero n index plate = (index ≡ fruit_in_turn n) × (plate ≡ fruit_in_turn n)
InTurn (suc done) n index plate = (index ≡ last_fruit n) × (1 ≤ n)

-- What the child with the fruit has put, after `n` messages.
abbrev pub Filled : Fruity → (done n index plate : ℕ) → Type 0
Filled adds done n index plate = index ≡ last_fruit n
Filled skips done n index plate = index ≡ (last_fruit n + 1) % 4
Filled places done n index plate = index ≡ fruit_in_turn n
Filled v1 done n index plate = (index ≡ fruit_in_turn n) × (plate ≡ fruit_in_turn n)
Filled _ done n index plate = InTurn done n index plate

abbrev pub Named : Father → List ℕ → (n : ℕ) → Type 0
Named says name n = name ≡ name_of (fruit_in_turn n) []
Named _ name n = Unit {0}

-- Each message shows the words, and the fruits come in turn.
abbrev pub AllInTurn : List Message → Type 0
AllInTurn [] = Unit {0}
AllInTurn (m ∷ l) =
    (m.words ≡ put_text) × (m.fruit ≡ name_of (fruit_in_turn (length l)) []) × AllInTurn l

abbrev pub WordsOf : Plate → Type 0
WordsOf s = WordsKept s.sem_word s.sem_word_full s.words s.father s.wordy

abbrev pub PlateOf : Plate → Type 0
PlateOf s = PlateKept s.sem_fruit s.sem_fruit_full s.father s.fruity

pub record Kept (s : Plate) : Type 0 where
  pub words_kept : WordsOf s
  pub plate_kept : PlateOf s
  pub filled :
      Filled s.fruity
        (said s.father + given s.sem_fruit_full (at_fruit_full s.fruity))
        (length s.messages)
        s.fruit_index
        s.fruit_plate
  pub named : Named s.father s.fruit_name (length s.messages)
  pub in_turn : AllInTurn s.messages

father-words : (s : Plate) (f : Father) → s.father ≡ f → WordsOf s → WordsOf (father_at f s)
unfolding father_at
father-words s f e h = ground arith

father-plate : (s : Plate) (f : Father) → s.father ≡ f → PlateOf s → PlateOf (father_at f s)
unfolding father_at
father-plate s f e h = ground arith

wordy-words : (s : Plate) (w : Wordy) → s.wordy ≡ w → WordsOf s → WordsOf (wordy_at w s)
unfolding wordy_at
wordy-words s w e h = ground arith

wordy-plate : (s : Plate) (w : Wordy) → s.wordy ≡ w → PlateOf s → PlateOf (wordy_at w s)
unfolding wordy_at
wordy-plate s w e h = ground arith

fruity-words : (s : Plate) (g : Fruity) → s.fruity ≡ g → WordsOf s → WordsOf (fruity_at g s)
unfolding fruity_at
fruity-words s g e h = ground arith

fruity-plate : (s : Plate) (g : Fruity) → s.fruity ≡ g → PlateOf s → PlateOf (fruity_at g s)
unfolding fruity_at
fruity-plate s g e h = ground arith

name_of-eq : (n : ℕ) (old : List ℕ) → name_of (fruit_in_turn n) old ≡ name_of (fruit_in_turn n) []
unfolding name_of
name_of-eq n old = ground arith

pub father-Kept : (s : Plate) (f : Father) → s.father ≡ f → Kept s → Kept (father_at f s)
unfolding father_at
father-Kept s f e h = record {
  words_kept = father-words s f e h.words_kept;
  plate_kept = father-plate s f e h.plate_kept;
  filled = ground (arith, h.filled, h.plate_kept);
  named =
      ground (arith, h.named, h.filled, h.plate_kept, name_of-eq (length s.messages) s.fruit_name);
  in_turn = ground (arith, h.in_turn, h.named, h.words_kept);
}

pub wordy-Kept : (s : Plate) (w : Wordy) → s.wordy ≡ w → Kept s → Kept (wordy_at w s)
unfolding wordy_at
wordy-Kept s w e h = record {
  words_kept = wordy-words s w e h.words_kept;
  plate_kept = wordy-plate s w e h.plate_kept;
  filled = ground (arith, h.filled, h.plate_kept);
  named =
      ground (arith, h.named, h.filled, h.plate_kept, name_of-eq (length s.messages) s.fruit_name);
  in_turn = ground (arith, h.in_turn, h.named, h.words_kept);
}

pub fruity-Kept : (s : Plate) (g : Fruity) → s.fruity ≡ g → Kept s → Kept (fruity_at g s)
unfolding fruity_at
fruity-Kept s g e h = record {
  words_kept = fruity-words s g e h.words_kept;
  plate_kept = fruity-plate s g e h.plate_kept;
  filled = ground (arith, h.filled, h.plate_kept);
  named =
      ground (arith, h.named, h.filled, h.plate_kept, name_of-eq (length s.messages) s.fruit_name);
  in_turn = ground (arith, h.in_turn, h.named, h.words_kept);
}
