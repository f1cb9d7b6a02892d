-- ===== src/User/Matmal.antt =====
-- usr/matmal.c: three threads multiply two matrices, each its own rows. The threads share the three
-- global matrices; a step of a thread is one access of `matC` or one loop test, and the timer may
-- switch between any two steps.
pub mod Rows
pub mod Product
use advanced_os.Base.{
  ℕ, zero, suc, ◌+◌, ◌-◌, ◌*◌, ◌/◌, ◌%◌, ◌^◌, ◌≤◌, ◌<◌, min, bit_and, bit_or, ◌≡◌, refl, sym, ap,
  ◌∙◌, fun_ext, ◌≢◌, ◌↔◌, ◌⊎◌, inl, inr, Bool, true, false, ◌&&◌, ◌||◌, not, Option, none, some,
  List, [], ◌∷◌, ◌++◌, map, reverse, append_assoc, append-nil, subst, arith, dec_lt, ℕ_discrete,
  ltb, leb, ◌==◌, if◌then◌else◌, Bool-cases, Option-cases, length, get_elem?, get_or, take, drop,
  All, codes, update, update_self, update_ne, first_index, first_index-some, first_index-none,
  first_index-found, IsFirst, ==_refl, ==_ne, lt→ltb, le→ltb, eq_of_some,
}
use advanced_os.Memory.{u32}

-- `MAX` and `MAX_THREAD`.
abbrev pub max_size : ℕ
max_size = 6

abbrev pub max_thread : ℕ
max_thread = 3

-- An `int` matrix.
abbrev pub Matrix : Type 0
Matrix = ℕ → ℕ → ℕ

-- `m[i][j] = v`.
abbrev pub set_cell : Matrix → (i j v : ℕ) → Matrix
set_cell m i j v r c = if (r == i) && (c == j) then v else m r c

-- The three globals.
pub record Matrices : Type 0 where
  pub a : Matrix
  pub b : Matrix
  pub c : Matrix

-- A round of the inner loop of `main`.
abbrev pub set_entries : (i j : ℕ) → Matrices → Matrices
set_entries i j m = record {
  a = set_cell m.a i j (i + j);
  b = set_cell m.b i j (i * j);
  c = set_cell m.c i j 0;
}

-- `n` rounds of that loop, from column `j` on.
unfoldable pub fill_row : (n i j : ℕ) → Matrices → Matrices
fill_row zero i j m = m
fill_row (suc n) i j m = fill_row n i (j + 1) (set_entries i j m)

-- `n` rounds of the outer loop, from row `i` on.
unfoldable pub fill_rows : (n i : ℕ) → Matrices → Matrices
fill_rows zero i m = m
fill_rows (suc n) i m = fill_rows n (i + 1) (fill_row max_size i 0 m)

-- Where a thread stands in `multiply`: before the test of a loop; behind the load of `matC[i][j]`,
-- which gave `c`; or behind the loops.
pub data Pc : Type 0 where
  rows : (i : ℕ) → Pc
  cols : (i j : ℕ) → Pc
  terms : (i j k : ℕ) → Pc
  loaded : (i j k c : ℕ) → Pc
  finished : Pc

-- `core * MAX / MAX_THREAD` and `(core + 1) * MAX / MAX_THREAD`.
abbrev pub first_row : (core : ℕ) → ℕ
first_row core = core * max_size / max_thread

abbrev pub end_row : (core : ℕ) → ℕ
end_row core = (core + 1) * max_size / max_thread

-- The globals, and the threads by the argument that `multiply` was given.
pub record Threads : Type 0 where
  pub mats : Matrices
  pub pc : ℕ → Pc

abbrev pub go : (core : ℕ) → Pc → Threads → Threads
go core p s = record s { pc = update s.pc core p }

-- A step of `multiply` in the thread of `core`, at its place.
unfoldable pub step_at : (core : ℕ) → Pc → Threads → Threads
step_at core (rows i) s = go core (if ltb i (end_row core) then cols i 0 else finished) s
step_at core (cols i j) s = go core (if ltb j max_size then terms i j 0 else rows (i + 1)) s
step_at core (terms i j k) s =
    go core (if ltb k max_size then loaded i j k (s.mats.c i j) else cols i (j + 1)) s
step_at core (loaded i j k c) s =
    let m = s.mats in
    go core (terms i j (k + 1))
      (record s { mats = record m { c = set_cell m.c i j (u32 (c + m.a i k * m.b k j)) } })
step_at core finished s = s

unfoldable pub step : (core : ℕ) → Threads → Threads
step core s = step_at core (s.pc core) s

-- `main` up to the last `pthread_create`: the globals, and the threads at the begin of `multiply`.
unfoldable pub created : Matrices → Threads
created m = record { mats = fill_rows max_size 0 m; pc = λ core. rows (first_row core) }

-- The threads, scheduled in any order: each number of the list is the thread that makes a step.
unfoldable pub run : List ℕ → Threads → Threads
run [] s = s
run (core ∷ order) s = run order (step core s)
