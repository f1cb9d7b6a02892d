-- ===== src/Task/Fair.antt =====
-- The fairness of `proc_pick`, include/task.h: a READY process comes nearer with every choice.
use advanced_os.Base.{
  eq_of_some, ℕ, ◌+◌, ◌-◌, ◌<◌, ◌≡◌, ◌⊎◌, inl, inr, refl, arith, ltb, if◌then◌else◌, Option, some,
  none, sym, ◌∙◌, ap, subst,
}
use native.Mathlib.Decide.{dec_lt, ℕ_discrete}
use advanced_os.Task.State.{Kernel, max_process}
use advanced_os.Task.Table.{proc_pick, running_slot}
use advanced_os.Task.Pick.{
  Picked, next_ready, still_running, nothing, ReadyAt, NotReadyAt, turn, proc_pick_lem,
  running_slot-some,
}

-- How many slots come up in the round from `c` before slot `i` does.
abbrev pub slots_before : Option ℕ → ℕ → ℕ
slots_before none i = i
slots_before (some c) i = if ltb c i then i - c - 1 else i + max_process - 1 - c

turn-slots_before :
    (c : Option ℕ) (i : ℕ)
    → ((r : ℕ) → c ≡ some r → r < max_process)
    → i < max_process
    → turn c (slots_before c i) ≡ i
turn-slots_before none i h lt = refl
turn-slots_before (some c) i h lt = let below : c < max_process = h c refl in ground arith

slots_before-turn :
    (c : Option ℕ) (i j : ℕ)
    → ((r : ℕ) → c ≡ some r → r < max_process)
    → i < max_process
    → j < slots_before c i
    → slots_before (some (turn c j)) i < slots_before c i
slots_before-turn none i j h lt less = ground arith
slots_before-turn (some c) i j h lt less = let below : c < max_process = h c refl in ground arith

not_both : (k : Kernel) (i : ℕ) → ReadyAt k i → NotReadyAt k i → (j n : ℕ) → j < n
not_both k i a b j n = absurd (cc)

nearer :
    (k : Kernel) (c o : Option ℕ) (i pp : ℕ)
    → ((r : ℕ) → c ≡ some r → r < max_process)
    → i < max_process
    → ReadyAt k i
    → Picked k c o
    → o ≡ some pp
    → (pp ≡ i) ⊎ (slots_before (some pp) i < slots_before c i)
nearer k c o i pp h lt ready (next_ready j a r f) e = elim (dec_lt j (slots_before c i)) [
  | yes less ↦ inr (
      subst (λ s. slots_before (some s) i < slots_before c i) (eq_of_some e)
        (slots_before-turn c i j h lt less))
  | no more ↦ elim (ℕ_discrete j (slots_before c i)) [
    | yes q ↦ inl (sym (eq_of_some e) ∙ ap (turn c) q ∙ turn-slots_before c i h lt)
    | no ne ↦
        let missed : NotReadyAt k i =
          subst (NotReadyAt k) (turn-slots_before c i h lt) (f (slots_before c i) (omega arith)) in
        inr (not_both k i ready missed _ _)
  ]
]
nearer k c o i pp h lt ready (still_running r x f) e = inr (not_both k i ready (f i lt) _ _)
nearer k c o i pp h lt ready (nothing x f) e = inr (not_both k i ready (f i lt) _ _)

-- While slot `i` is READY, what `proc_pick` gives is that slot, or a slot from which fewer slots
-- come up before `i` in the next round than from the slot that runs.
pub proc_pick-nearer :
    (k : Kernel) (i pp : ℕ)
    → i < max_process
    → ReadyAt k i
    → proc_pick k ≡ some pp
    → (pp ≡ i) ⊎ (slots_before (some pp) i < slots_before (running_slot k) i)
proc_pick-nearer k i pp lt ready e =
    nearer k (running_slot k) (proc_pick k) i pp (λ r q. (running_slot-some k q).0) lt ready
      (proc_pick_lem k) e
