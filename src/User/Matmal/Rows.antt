-- ===== src/User/Matmal/Rows.antt =====
-- The rows of a thread of usr/matmal.c while it works on them, whatever the other threads do.
use advanced_os.Base.{
  ℕ, zero, suc, ◌+◌, ◌*◌, ◌≤◌, ◌<◌, ◌≡◌, refl, sym, ap, ◌≢◌, ◌⊎◌, ◌&&◌, List, [], ◌∷◌, subst, arith,
  ℕ_discrete, ltb, ◌==◌, if◌then◌else◌, All,
}
use advanced_os.Memory.{u32}
use advanced_os.User.Matmal.{
  max_size, max_thread, Matrix, Matrices, set_cell, Pc, rows, cols, terms, loaded, finished,
  first_row, end_row, Threads, step_at, step, run,
}

-- The first `n` terms of an entry of the product.
abbrev pub dot : (a b : Matrix) → (i j n : ℕ) → ℕ
dot a b i j zero = 0
dot a b i j (suc n) = dot a b i j n + a i n * b n j

-- How many terms a thread at a place has added to an entry of its rows.
abbrev pub terms_done : Pc → (r c : ℕ) → ℕ
terms_done (rows i) r c = if ltb r i then max_size else 0
terms_done (cols i j) r c =
    if ltb r i then max_size else if (r == i) && ltb c j then max_size else 0
terms_done (terms i j k) r c =
    if ltb r i
    then max_size
    else if r == i
    then (if ltb c j then max_size else if c == j then k else 0)
    else 0
terms_done (loaded i j k v) r c =
    if ltb r i
    then max_size
    else if r == i
    then (if ltb c j then max_size else if c == j then k else 0)
    else 0
terms_done finished r c = max_size

-- The places that a thread comes to, with what it has loaded.
abbrev pub Placed : (core : ℕ) → Matrix → Pc → Type 0
Placed core m (rows i) = (first_row core ≤ i) × (i ≤ end_row core)
Placed core m (cols i j) = (first_row core ≤ i) × (i < end_row core) × (j ≤ max_size)
Placed core m (terms i j k) =
    (first_row core ≤ i) × (i < end_row core) × (j < max_size) × (k ≤ max_size)
Placed core m (loaded i j k v) =
    (first_row core ≤ i) × (i < end_row core) × (j < max_size) × (k < max_size) × (v ≡ m i j)
Placed core m finished = Unit {0}

-- The work of the thread of `core` at a place `p`: it has added just these terms to its entries.
pub record IsWorking (core : ℕ) (m : Matrices) (p : Pc) : Type 0 where
  pub placed : Placed core m.c p
  pub entries :
      (i j : ℕ)
      → first_row core ≤ i
      → i < end_row core
      → j < max_size
      → m.c i j ≡ u32 (dot m.a m.b i j (terms_done p i j))

dot-step : (a b : Matrix) (i j k : ℕ) → dot a b i j (k + 1) ≡ dot a b i j k + a i k * b k j
dot-step a b i j k = let e : k + 1 ≡ suc k = omega arith in ap (dot a b i j) e

-- A step of the thread goes on with its work.
own_step :
    (core : ℕ) (s : Threads) (p : Pc)
    → IsWorking core s.mats p
    → let t = step_at core p s in s.pc core ≡ p → IsWorking core t.mats (t.pc core)
unfolding step_at
own_step core s (rows i) w e = record {
  placed = ground (arith, w.placed);
  entries = λ r c a b d. ground (arith, w.placed, w.entries r c);
}
own_step core s (cols i j) w e = record {
  placed = ground (arith, w.placed);
  entries = λ r c a b d. ground (arith, w.placed, w.entries r c);
}
own_step core s (terms i j k) w e = record {
  placed = ground (arith, w.placed);
  entries = λ r c a b d. ground (arith, w.placed, w.entries r c);
}
own_step core s (loaded i j k v) w e = record {
  placed = ground (arith, w.placed);
  entries = λ r c a b d. ground (arith, w.placed, w.entries r c, dot-step s.mats.a s.mats.b i j k);
}
own_step core s finished w e = rw e w

-- A write to a row of another thread leaves the places of a thread as they are.
Placed-set_cell :
    (core : ℕ) (m : Matrix) (p : Pc) (i j v : ℕ)
    → (i < first_row core) ⊎ (end_row core ≤ i)
    → Placed core m p
    → Placed core (set_cell m i j v) p
Placed-set_cell core m (rows r) i j v o w = w
Placed-set_cell core m (cols r c) i j v o w = w
Placed-set_cell core m (terms r c k) i j v o w = w
Placed-set_cell core m (loaded r c k x) i j v o w = ground arith
Placed-set_cell core m finished i j v o w = tt

-- A step of another thread leaves it alone.
other_step :
    (core other : ℕ) (s : Threads) (p q : Pc)
    → core ≢ other
    → IsWorking core s.mats p
    → IsWorking other s.mats q
    → IsWorking core (step_at other q s).mats p
unfolding step_at
other_step core other s p (rows i) ne w v = w
other_step core other s p (cols i j) ne w v = w
other_step core other s p (terms i j k) ne w v = w
other_step core other s p (loaded i j k x) ne w v = record {
  placed = Placed-set_cell core s.mats.c p i j _ (omega (arith, v.placed)) w.placed;
  entries = λ r c a b d. ground (arith, v.placed, w.entries r c);
}
other_step core other s p finished ne w v = w

pub other_pc :
    (core other : ℕ) (s : Threads) (q : Pc) → core ≢ other → (step_at other q s).pc core ≡ s.pc core
unfolding step_at
other_pc core other s (rows i) ne = ground arith
other_pc core other s (cols i j) ne = ground arith
other_pc core other s (terms i j k) ne = ground arith
other_pc core other s (loaded i j k x) ne = ground arith
other_pc core other s finished ne = refl

-- All threads at work, or done.
abbrev pub AllWorking : Threads → Type 0
AllWorking s = (core : ℕ) → core < max_thread → IsWorking core s.mats (s.pc core)

-- Any thread may make the next step.
pub step-AllWorking :
    (other : ℕ) (s : Threads) → other < max_thread → AllWorking s → AllWorking (step other s)
unfolding step
step-AllWorking other s lt h core below = elim (ℕ_discrete core other) [
  | yes e ↦
      subst (λ n. IsWorking core (step_at n (s.pc n) s).mats ((step_at n (s.pc n) s).pc core)) e
        (own_step core s (s.pc core) (h core below) refl)
  | no ne ↦
      subst (IsWorking core (step_at other (s.pc other) s).mats)
        (sym (other_pc core other s (s.pc other) ne))
        (other_step core other s (s.pc core) (s.pc other) ne (h core below) (h other lt))
]

pub run-AllWorking :
    (order : List ℕ) (s : Threads)
    → All (λ core. core < max_thread) order
    → AllWorking s
    → AllWorking (run order s)
unfolding run
run-AllWorking [] s a h = h
run-AllWorking (core ∷ order) s a h =
    run-AllWorking order (step core s) a.1 (step-AllWorking core s a.0 h)
