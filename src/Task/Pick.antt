-- ===== src/Task/Pick.antt =====
-- The round-robin choice of `proc_pick`, include/task.h.
use advanced_os.Base.{
  ℕ, ◌+◌, ◌-◌, ◌%◌, ◌<◌, ◌≡◌, refl, sym, true, false, Option, none, some, subst, arith, ltb,
  if◌then◌else◌, first_index-some, first_index-none, IsFirst,
}
use advanced_os.Task.State.{is_ready, is_running, Kernel, max_process}
use advanced_os.Task.Table.{running_slot, round_slot, round_step, pick_from, proc_pick}
use advanced_os.Task.Invariant.{IsValid, below_of_born}

abbrev pub ReadyAt : Kernel → ℕ → Type 0
ReadyAt k i = is_ready (k.proc_list i).status ≡ true

abbrev pub NotReadyAt : Kernel → ℕ → Type 0
NotReadyAt k i = is_ready (k.proc_list i).status ≡ false

abbrev pub RunningAt : Kernel → ℕ → Type 0
RunningAt k i = is_running (k.proc_list i).status ≡ true

abbrev pub NotRunningAt : Kernel → ℕ → Type 0
NotRunningAt k i = is_running (k.proc_list i).status ≡ false

-- The first RUNNING slot of the table, if any of its slots is RUNNING.
pub data FirstRunning (k : Kernel) : Option ℕ → Type 0 where
  running_at :
      (r : ℕ)
      → r < max_process
      → RunningAt k r
      → ((m : ℕ) → m < r → NotRunningAt k m)
      → FirstRunning k (some r)
  none_running : ((j : ℕ) → j < max_process → NotRunningAt k j) → FirstRunning k none

-- The `i`-th slot behind `c`, around the table; from slot 0 on without a `c`.
abbrev pub turn : Option ℕ → ℕ → ℕ
turn none i = i
turn (some c) i = if ltb (c + 1 + i) max_process then c + 1 + i else c + 1 + i - max_process

-- What the round may choose, when `c` is the slot of the running process.
pub data Picked (k : Kernel) (c : Option ℕ) : Option ℕ → Type 0 where
  next_ready :
      (i : ℕ)
      → i < max_process
      → ReadyAt k (turn c i)
      → ((m : ℕ) → m < i → NotReadyAt k (turn c m))
      → Picked k c (some (turn c i))
  still_running :
      (r : ℕ) → c ≡ some r → ((j : ℕ) → j < max_process → NotReadyAt k j) → Picked k c (some r)
  nothing : c ≡ none → ((j : ℕ) → j < max_process → NotReadyAt k j) → Picked k c none

pub running_slot-some :
    (k : Kernel) {c : ℕ} → running_slot k ≡ some c → (c < max_process) × RunningAt k c
unfolding running_slot
running_slot-some k e =
    let f = first_index-some (λ i. is_running (k.proc_list i).status) max_process 0 e in
    (f.below, f.passes)

running_slot-FirstRunning : (k : Kernel) (o : Option ℕ) → running_slot k ≡ o → FirstRunning k o
unfolding running_slot
running_slot-FirstRunning k (some r) e =
    let f : IsFirst (λ i. is_running (k.proc_list i).status) max_process 0 r =
      first_index-some _ max_process 0 e in
    running_at r f.below f.passes (λ m lt. f.earlier m (omega arith) lt)
running_slot-FirstRunning k none e =
    none_running (λ j lt. first_index-none _ max_process 0 e j (omega arith) lt)

round_slot-turn :
    (c : Option ℕ) (i : ℕ)
    → ((r : ℕ) → c ≡ some r → r < max_process)
    → i < max_process
    → round_slot c i ≡ turn c i
round_slot-turn none i h lt = omega arith
round_slot-turn (some c) i h lt = let below : c < max_process = h c refl in ground arith

-- Every slot comes up in the round.
pub round_onto :
    (c : Option ℕ) (j : ℕ)
    → ((r : ℕ) → c ≡ some r → r < max_process)
    → j < max_process
    → (m : ℕ) × (m < max_process) × (round_slot c m ≡ j)
round_onto none j h lt = (j, lt, omega arith)
round_onto (some r) j h lt =
    let below : r < max_process = h r refl in ((j + 20 - (r + 1)) % 20, omega arith, omega arith)

pick_from-Picked :
    (k : Kernel) (c o : Option ℕ)
    → ((r : ℕ) → c ≡ some r → r < max_process)
    → round_step k c ≡ o
    → Picked k c (pick_from c o)
unfolding round_step pick_from
pick_from-Picked k c (some i) h e =
    let f : IsFirst (λ i. is_ready (k.proc_list (round_slot c i)).status) max_process 0 i =
      first_index-some _ max_process 0 e in
    let at = round_slot-turn c i h f.below in
    subst (λ s. Picked k c (some s)) (sym at)
      (next_ready i f.below (subst (ReadyAt k) at f.passes) (λ m a.
        subst (NotReadyAt k) (round_slot-turn c m h (omega (arith, f.below)))
          (f.earlier m (omega arith) a)))
pick_from-Picked k c none h e = idle c h (λ j lt.
    let (m, a, b) = round_onto c j h lt in
    subst (NotReadyAt k) b (first_index-none _ max_process 0 e m (omega arith) a))
  where
    idle :
        (c : Option ℕ)
        → ((r : ℕ) → c ≡ some r → r < max_process)
        → ((j : ℕ) → j < max_process → NotReadyAt k j)
        → Picked k c c
    idle none h none_ready = nothing refl none_ready
    idle (some r) h none_ready = still_running r refl none_ready

pub proc_pick_lem : (k : Kernel) → Picked k (running_slot k) (proc_pick k)
unfolding proc_pick
proc_pick_lem k =
    pick_from-Picked k (running_slot k) (round_step k (running_slot k))
      (λ r e. (running_slot-some k e).0) refl

-- `proc_pick` takes the first READY slot of the round that begins behind the first RUNNING slot of
-- the table and ends with it (at slot 0 if no slot is RUNNING); without any READY slot it keeps the
-- RUNNING one, and it gives NULL only if no slot of the table is READY or RUNNING.
pub proc_pick-Picked : (k : Kernel) → (c : Option ℕ) × FirstRunning k c × Picked k c (proc_pick k)
proc_pick-Picked k =
    (running_slot k, running_slot-FirstRunning k (running_slot k) refl, proc_pick_lem k)

turn_below :
    (c : Option ℕ) (i : ℕ)
    → ((r : ℕ) → c ≡ some r → r < max_process)
    → i < max_process
    → turn c i < max_process
turn_below none i h lt = lt
turn_below (some c) i h lt = let below : c < max_process = h c refl in ground arith

Picked-lt :
    (k : Kernel) {c o : Option ℕ}
    → IsValid k
    → ((r : ℕ) → c ≡ some r → (r < max_process) × RunningAt k r)
    → Picked k c o
    → (pp : ℕ) → o ≡ some pp
    → pp < k.curr_pid
Picked-lt k {c} v h (next_ready i a r f) pp e =
    let lt : turn c i < k.curr_pid =
      below_of_born v (turn c i) (turn_below c i (λ q e'. (h q e').0) a) (ground arith) in
    ground arith
Picked-lt k v h (still_running r x f) pp e =
    let w : (r < max_process) × RunningAt k r = h r x in
    let lt : r < k.curr_pid = below_of_born v r w.0 (ground (arith, w.1)) in ground arith
Picked-lt k v h (nothing x f) pp e = absurd (cc)

-- A picked process is allocated.
pub proc_pick-lt : (k : Kernel) {pp : ℕ} → IsValid k → proc_pick k ≡ some pp → pp < k.curr_pid
proc_pick-lt k {pp} v e = Picked-lt k v (λ r. running_slot-some k) (proc_pick_lem k) pp e
