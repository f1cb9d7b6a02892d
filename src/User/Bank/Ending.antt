-- ===== src/User/Bank/Ending.antt =====
-- The two processes of usr/bank.c come to their ends.
use advanced_os.Base.{ℕ, ◌+◌, ◌-◌, ◌*◌, ◌≡◌, ◌⊎◌, Bool, true, false, ◌||◌, List, [], ◌∷◌}
use advanced_os.User.Bank.{
  run, Side, father, child, rounds, Pc, test, stopped, entered, loaded, stored, printed,
  behind_loop, exited, waits, ended, Bank, same,
}

-- A bound of the steps that a process has left.
abbrev left : Side → Pc → ℕ
left w (test i) = (rounds w - i) * 6 + 3
left w (stopped i) = (rounds w - i) * 6 + 2
left w (entered i) = (rounds w - i) * 6 + 1
left w (loaded i v) = (rounds w - i) * 6
left w (stored i) = (rounds w - i) * 6 - 1
left w (printed i v) = (rounds w - i) * 6 - 2
left w behind_loop = 2
left w exited = 1
left w waits = 0
left w ended = 0

abbrev steps_left : Bank → ℕ
steps_left s = left father (s.pc father) + left child (s.pc child)

-- The father has left `main`, and the child has exited; it may still be in the `wait` behind that.
abbrev AtEnd : Bank → Type 0
AtEnd s = (s.pc father ≡ ended) × ((s.pc child ≡ ended) ⊎ (s.pc child ≡ waits))

abbrev pub has : Side → List Side → Bool
has w [] = false
has w (v ∷ order) = same w v || has w order

-- The orders of `parts`, one after the other.
abbrev pub in_parts : List (List Side) → Bank → Bank
in_parts [] s = s
in_parts (part ∷ parts) s = in_parts parts (run part s)

-- Both processes have a turn in a part.
abbrev pub HasBoth : List Side → Type 0
HasBoth part = (has father part ≡ true) × (has child part ≡ true)
