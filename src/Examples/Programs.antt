-- ===== src/Examples/Programs.antt =====
-- The theorems on the user library and programs, at concrete data.
use advanced_os.Base.{
  ℕ, zero, suc, ◌+◌, ◌*◌, ◌≤◌, ◌<◌, ◌≡◌, refl, List, [], ◌∷◌, arith, length, All, codes,
}
use advanced_os.User.Bank
use advanced_os.User.Bank.{father, child, printed}
use advanced_os.User.Bank.Safety.{inside, changes, run-account}
use advanced_os.User.ProCon
use advanced_os.User.ProCon.{produce, consume}
use advanced_os.User.Fruit
use advanced_os.User.ProCon.Order.{
  makes, takes, p_stopped, c_stopped, is_starved, produced, consumed, number_of, run-items,
}
use advanced_os.User.Matmal.{max_size, max_thread, Matrices, finished, created, run}
use advanced_os.User.Matmal.Rows.{dot}
use advanced_os.User.Matmal.Product.{count, run-product}

-- Three threads in turn.
abbrev in_turn : ℕ → List ℕ
in_turn zero = []
in_turn (suc n) = 2 ∷ 0 ∷ 1 ∷ in_turn n

in_turn-All : (n : ℕ) → All (λ core. core < max_thread) (in_turn n)
in_turn-All zero = tt
in_turn-All (suc n) = (omega arith, (omega arith, (omega arith, in_turn-All n)))

in_turn-count : (n core : ℕ) → core < max_thread → n ≤ count core (in_turn n)
in_turn-count zero core h = omega arith
in_turn-count (suc n) core h = ground (arith, in_turn-count n core)

abbrev unset : Matrices
unset = record { a = λ i j. 7; b = λ i j. 7; c = λ i j. 7 }

run-product_example :
    let t = run (in_turn 180) (created unset) in
    ((core : ℕ) → core < max_thread → t.pc core ≡ finished)
    × ((i j : ℕ)
        → i < max_size
        → j < max_size
        → t.mats.c i j ≡ dot (λ r k. r + k) (λ k c. k * c) i j max_size)
run-product_example =
    run-product (in_turn 180) unset (in_turn-All 180)
      (λ core h. omega (arith, in_turn-count 180 core h))

-- The child is stopped while the father is inside.
abbrev contended : List Bank.Side
contended = father ∷ father ∷ child ∷ father ∷ father ∷ child ∷ father ∷ father ∷ child ∷ child ∷ []

run-account_example :
    let s = Bank.run contended Bank.forked in
    (inside (s.pc father) + inside (s.pc child) ≤ 1)
    × (s.account + 20 * changes child (s.pc child) ≡ 1000 + 10 * changes father (s.pc father))
    × (s.account ≤ 2000)
    × ((w : Bank.Side) (i v : ℕ) → s.pc w ≡ printed i v → v ≡ s.account)
run-account_example = run-account contended

abbrev part : List Bank.Side
part = child ∷ child ∷ father ∷ []

abbrev same_parts : ℕ → List (List Bank.Side)
same_parts zero = []
same_parts (suc n) = part ∷ same_parts n

-- A producer and a consumer that is stopped at first.
abbrev hungry : List ProCon.Side
hungry =
    ProCon.child ∷ ProCon.parent ∷ ProCon.parent ∷ ProCon.parent ∷ ProCon.parent ∷ ProCon.parent
    ∷ ProCon.parent ∷ ProCon.child ∷ ProCon.child ∷ ProCon.child ∷ ProCon.child ∷ []

run-items_example :
    let s = ProCon.run hungry ProCon.forked in
    (makes s.producer + takes s.consumer ≤ 1)
    × (p_stopped s.producer + (c_stopped s.consumer + is_starved s.consumer) ≤ 1)
    × (consumed s.messages ≤ produced s.messages)
    × All (λ m. 1 ≤ number_of m) s.messages
    × (makes s.producer + takes s.consumer ≡ 0 → s.tot + consumed s.messages ≡ produced s.messages)
run-items_example = run-items hungry (omega arith)

-- The three processes in turn, the father first.
abbrev all_three : ℕ → List Fruit.Side
all_three zero = []
all_three (suc n) = Fruit.parent ∷ Fruit.second_child ∷ Fruit.first_child ∷ all_three n

-- The runs above get somewhere.
fruit_runs : length (Fruit.run (all_three 40) (Fruit.forked (codes "??"))).messages ≡ 5
unfolding Fruit.run Fruit.step Fruit.father_at Fruit.wordy_at Fruit.fruity_at
fruit_runs = refl

items_run : (ProCon.run hungry ProCon.forked).messages ≡ consume 1 ∷ produce 1 ∷ []
unfolding ProCon.run ProCon.step ProCon.produce_at ProCon.consume_at
items_run = refl
