-- ===== src/User/Matmal/Product.antt =====
-- The product that the threads of usr/matmal.c leave, in whatever order they are scheduled.
use advanced_os.Base.{
  ℕ, zero, suc, ◌+◌, ◌-◌, ◌*◌, ◌/◌, ◌≤◌, ◌<◌, ◌≡◌, refl, sym, ap, ◌∙◌, Bool, ◌&&◌, List, [], ◌∷◌,
  subst, arith, ℕ_discrete, ltb, leb, ◌==◌, if◌then◌else◌, All, ==_refl, ==_ne,
}
use native.Mathlib.Nat.{mul-le-mul_right}
use advanced_os.Memory.{u32}
use advanced_os.User.Matmal.{
  max_size, Matrix, Matrices, fill_row, fill_rows, Pc, rows, cols, terms, loaded, finished, end_row,
  Threads, created, step_at, set_entries, run, step, max_thread,
}
use advanced_os.User.Matmal.Rows.{
  AllWorking, Placed, other_pc, dot, step-AllWorking, run-AllWorking, terms_done,
}

-- The entries that `main` sets.
abbrev entry_a : Matrix
entry_a i j = i + j

abbrev entry_b : Matrix
entry_b i j = i * j

-- The inner loop sets the columns from `j` on in row `i`, and nothing else.
abbrev in_row : (n i j r c : ℕ) → Bool
in_row n i j r c = (r == i) && (leb j c && ltb c (j + n))

fill_row-entries :
    (n i j r c : ℕ) (m : Matrices)
    → let t = fill_row n i j m in
      (t.a r c ≡ (if in_row n i j r c then entry_a r c else m.a r c))
      × (t.b r c ≡ (if in_row n i j r c then entry_b r c else m.b r c))
      × (t.c r c ≡ (if in_row n i j r c then 0 else m.c r c))
unfolding fill_row
fill_row-entries zero i j r c m = ground arith
fill_row-entries (suc n) i j r c m =
    ground (arith, fill_row-entries n i (j + 1) r c (set_entries i j m))

abbrev in_rows : (n i r c : ℕ) → Bool
in_rows n i r c = leb i r && (ltb r (i + n) && ltb c max_size)

fill_rows-entries :
    (n i r c : ℕ) (m : Matrices)
    → let t = fill_rows n i m in
      (t.a r c ≡ (if in_rows n i r c then entry_a r c else m.a r c))
      × (t.b r c ≡ (if in_rows n i r c then entry_b r c else m.b r c))
      × (t.c r c ≡ (if in_rows n i r c then 0 else m.c r c))
unfolding fill_rows
fill_rows-entries zero i r c m = ground arith
fill_rows-entries (suc n) i r c m = ground (
  arith,
  fill_rows-entries n (i + 1) r c (fill_row max_size i 0 m),
  fill_row-entries max_size i 0 r c m,
)

created-AllWorking : (m : Matrices) → AllWorking (created m)
unfolding created
created-AllWorking m core lt = record {
  placed = omega arith;
  entries = λ i j a b d. ground (arith, fill_rows-entries max_size 0 i j m);
}

-- The steps that a thread has left.
abbrev left : (core : ℕ) → Pc → ℕ
left core (rows i) = (end_row core - i) * 86 + 1
left core (cols i j) = (max_size - j) * 14 + 1 + ((end_row core - (i + 1)) * 86 + 1)
left core (terms i j k) =
    (max_size - k) * 2 + 1 + ((max_size - (j + 1)) * 14 + 1 + ((end_row core - (i + 1)) * 86 + 1))
left core (loaded i j k v) =
    (max_size - k) * 2 + ((max_size - (j + 1)) * 14 + 1 + ((end_row core - (i + 1)) * 86 + 1))
left core finished = 0

step_at-left :
    (core : ℕ) (s : Threads) (p : Pc) (m : Matrix)
    → Placed core m p
    → s.pc core ≡ p
    → left core ((step_at core p s).pc core) ≡ left core p - 1
unfolding step_at
step_at-left core s (rows i) m w e = ground arith
step_at-left core s (cols i j) m w e = ground arith
step_at-left core s (terms i j k) m w e = ground arith
step_at-left core s (loaded i j k v) m w e = ground arith
step_at-left core s finished m w e = rw e refl

-- The steps of a thread in an order.
abbrev pub count : (core : ℕ) → List ℕ → ℕ
count core [] = 0
count core (other ∷ order) = if other == core then count core order + 1 else count core order

-- A step of a thread takes one from what it has left, and nothing from the others.
step-left :
    (core other : ℕ) (s : Threads)
    → core < max_thread
    → AllWorking s
    → left core ((step other s).pc core) ≡ left core (s.pc core) - (if other == core then 1 else 0)
unfolding step
step-left core other s lt h = elim (ℕ_discrete core other) [
  | yes e ↦
      subst
        (λ n.
          left core ((step_at n (s.pc n) s).pc core)
          ≡ left core (s.pc core) - (if n == core then 1 else 0))
        e (rw (==_refl core) (step_at-left core s (s.pc core) s.mats.c (h core lt).placed refl))
  | no ne ↦
      rw (other_pc core other s (s.pc other) ne, ==_ne other core (λ q. ne (sym q))) (omega arith)
]

run-left :
    (core : ℕ) (order : List ℕ) (s : Threads)
    → core < max_thread
    → All (λ other. other < max_thread) order
    → AllWorking s
    → left core ((run order s).pc core) ≡ left core (s.pc core) - count core order
unfolding run
run-left core [] s lt a h = omega arith
run-left core (other ∷ order) s lt a h = ground (
  arith,
  run-left core order (step other s) lt a.1 (step-AllWorking other s a.0 h),
  step-left core other s lt h,
)

left-finished : (core : ℕ) (p : Pc) → left core p ≡ 0 → p ≡ finished
left-finished core (rows i) e = absurd (omega arith)
left-finished core (cols i j) e = absurd (omega arith)
left-finished core (terms i j k) e = absurd (omega arith)
left-finished core (loaded i j k v) e = absurd (omega arith)
left-finished core finished e = refl

-- The factors stay as they are.
step_at-factors :
    (core : ℕ) (p : Pc) (s : Threads)
    → ((step_at core p s).mats.a ≡ s.mats.a) × ((step_at core p s).mats.b ≡ s.mats.b)
unfolding step_at
step_at-factors core (rows i) s = (refl, refl)
step_at-factors core (cols i j) s = (refl, refl)
step_at-factors core (terms i j k) s = (refl, refl)
step_at-factors core (loaded i j k v) s = (refl, refl)
step_at-factors core finished s = (refl, refl)

run-factors :
    (order : List ℕ) (s : Threads)
    → ((run order s).mats.a ≡ s.mats.a) × ((run order s).mats.b ≡ s.mats.b)
unfolding run step
run-factors [] s = (refl, refl)
run-factors (core ∷ order) s =
    let f = step_at-factors core (s.pc core) s in
    let r = run-factors order (step core s) in (r.0 ∙ f.0, r.1 ∙ f.1)

-- The sum depends on the entries of one row and one column.
dot-eq :
    (a b v w : Matrix) (i j n : ℕ)
    → ((k : ℕ) → k < n → (a i k ≡ v i k) × (b k j ≡ w k j))
    → dot a b i j n ≡ dot v w i j n
dot-eq a b v w i j zero h = refl
dot-eq a b v w i j (suc n) h =
    rw
      (
        dot-eq a b v w i j n (λ k l. h k (omega arith)),
        (h n (omega arith)).0,
        (h n (omega arith)).1,
      )
      refl

-- The number of the core whose rows have row `i` among them.
abbrev core_of : (i : ℕ) → ℕ
core_of i = i / 2

-- In numbers, without a wrap.
dot-closed : (i j : ℕ) → dot entry_a entry_b i j max_size ≡ (15 * i + 55) * j
dot-closed i j = omega arith

dot-small :
    (i j : ℕ)
    → i < max_size
    → j < max_size
    → u32 (dot entry_a entry_b i j max_size) ≡ dot entry_a entry_b i j max_size
dot-small i j a b =
    let most : 15 * i + 55 ≤ 130 = omega arith in
    omega (arith, dot-closed i j, mul-le-mul_right j most)

-- The threads of `multiply` scheduled in any order, in which each of them is given at least 173
-- steps, all end, and `matC` then holds the product of the matrices that `main` sets: the entry in
-- row i and column j is the sum of (i + k) * (k * j) for k below 6. It does not matter what the
-- matrices held before.
pub run-product :
    (order : List ℕ) (m : Matrices)
    → All (λ core. core < max_thread) order
    → ((core : ℕ) → core < max_thread → 173 ≤ count core order)
    → let t = run order (created m) in
      ((core : ℕ) → core < max_thread → t.pc core ≡ finished)
      × ((i j : ℕ)
          → i < max_size
          → j < max_size
          → t.mats.c i j ≡ dot (λ r k. r + k) (λ k c. k * c) i j max_size)
run-product order m a turns =
    let s = created m in
    let t = run order s in
    let done : (core : ℕ) → core < max_thread → t.pc core ≡ finished = λ core lt.
      left-finished core (t.pc core) (
        unfold created in
        omega (arith, run-left core order s lt a (created-AllWorking m), turns core lt)) in
    (
      done,
      λ i j b d.
          let core = core_of i in
          let lt : core < max_thread = omega arith in
          let w = run-AllWorking order s a (created-AllWorking m) core lt in
          let f = run-factors order s in
          let e : terms_done (t.pc core) i j ≡ max_size = rw (done core lt) refl in
          w.entries i j (omega arith) (omega arith) d
          ∙ rw (e, f.0, f.1)
              (ap u32 (
                  dot-eq s.mats.a s.mats.b entry_a entry_b i j max_size (λ k l.
                    unfold created in
                    ground (
                      arith,
                      fill_rows-entries max_size 0 i k m,
                      fill_rows-entries max_size 0 k j m,
                    )))
                ∙ dot-small i j b d),
    )
