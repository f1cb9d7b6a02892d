-- ===== src/User/Hello.antt =====
-- usr/hello.c: two threads print a line each, five times. A step of a thread is a round of the loop
-- of `hello`; the timer may switch between any two steps, and `printf` is not divided.
use advanced_os.Base.{
  ℕ, ◌+◌, ◌≤◌, min, ◌≡◌, refl, ◌∙◌, Bool, true, false, List, [], ◌∷◌, arith, ltb, if◌then◌else◌,
  All, codes,
}

-- `m`.
abbrev pub m : ℕ
m = 5

-- The two threads, and the lines that they print.
pub data Side : Type 0 where
  first second : Side

abbrev pub line_of : Side → List ℕ
line_of first = codes "Hello"
line_of second = codes "world!"

-- The rounds that each thread has made, and the lines, the last one first.
pub record Threads : Type 0 where
  pub rounds : Side → ℕ
  pub lines : List (Side × List ℕ)

abbrev pub same : Side → Side → Bool
same first first = true
same second second = true
same _ _ = false

-- A round of `hello` in a thread; behind the loop it makes none.
unfoldable pub step : Side → Threads → Threads
step w s =
    if ltb (s.rounds w) m
    then record {
      rounds = λ v. if same w v then s.rounds v + 1 else s.rounds v;
      lines = (w, line_of w) ∷ s.lines;
    }
    else s

abbrev pub created : Threads
created = record { rounds = λ w. 0; lines = [] }

unfoldable pub run : List Side → Threads → Threads
run [] s = s
run (w ∷ order) s = run order (step w s)

-- The turns of a thread in an order, and its lines among those that were printed.
abbrev pub turns : Side → List Side → ℕ
turns w [] = 0
turns w (v ∷ order) = if same w v then turns w order + 1 else turns w order

abbrev pub printed : Side → List (Side × List ℕ) → ℕ
printed w [] = 0
printed w (l ∷ ls) = if same w l.0 then printed w ls + 1 else printed w ls

record Kept (s : Threads) (w : Side) : Type 0 where
  counted : printed w s.lines ≡ s.rounds w
  few : s.rounds w ≤ m
  own : All (λ l. l.1 ≡ line_of l.0) s.lines

step-Kept : (w v : Side) (s : Threads) → Kept s v → Kept (step w s) v
unfolding step
step-Kept first first s h = record {
  counted = ground (arith, h.counted);
  few = ground (arith, h.few);
  own = ground (arith, h.own);
}
step-Kept first second s h = record {
  counted = ground (arith, h.counted);
  few = ground (arith, h.few);
  own = ground (arith, h.own);
}
step-Kept second first s h = record {
  counted = ground (arith, h.counted);
  few = ground (arith, h.few);
  own = ground (arith, h.own);
}
step-Kept second second s h = record {
  counted = ground (arith, h.counted);
  few = ground (arith, h.few);
  own = ground (arith, h.own);
}

run-Kept : (order : List Side) (s : Threads) (v : Side) → Kept s v → Kept (run order s) v
unfolding run
run-Kept [] s v h = h
run-Kept (w ∷ order) s v h = run-Kept order (step w s) v (step-Kept w v s h)

step-rounds :
    (w v : Side) (s : Threads)
    → s.rounds v ≤ m
    → (step w s).rounds v ≡ min m (s.rounds v + (if same v w then 1 else 0))
unfolding step
step-rounds first first s h = ground arith
step-rounds first second s h = ground arith
step-rounds second first s h = ground arith
step-rounds second second s h = ground arith

run-rounds :
    (order : List Side) (s : Threads) (v : Side)
    → s.rounds v ≤ m
    → (run order s).rounds v ≡ min m (s.rounds v + turns v order)
unfolding run
run-rounds [] s v h = omega arith
run-rounds (w ∷ order) s v h =
    let e = step-rounds w v s h in
    let le : (step w s).rounds v ≤ m = omega (arith, e) in
    let ih = run-rounds order (step w s) v le in ground (arith, e, ih)

-- In any order of the steps, each thread prints its own line, as often as it has turns, but at most
-- five times.
pub run-lines :
    (order : List Side) (v : Side)
    → let s = run order created in
      All (λ l. l.1 ≡ line_of l.0) s.lines × (printed v s.lines ≡ min m (turns v order))
run-lines order v =
    let k = run-Kept order created v (record { counted = refl; few = omega arith; own = tt }) in
    (k.own, k.counted ∙ (run-rounds order created v (omega arith) ∙ omega arith))
