-- ===== src/Pit/Rate.antt =====
-- The rate that `pit_start_counter` of include/pit.h sets.
use advanced_os.Base.{ℕ, ◌+◌, ◌*◌, ◌/◌, ◌%◌, ◌^◌, ◌≤◌, ◌<◌, ◌≡◌, ap, some, [], ◌∷◌, arith, ==_ne}
use native.Mathlib.Nat.{div-add-mod}
use advanced_os.Base.Bits.{bit_and-0xFF}
use advanced_os.Pit.{divisor, start_command, pit_start_counter}

divisor_small : (freq : ℕ) → 19 ≤ freq → 1193181 / freq < 2 ^ 16
divisor_small freq a = grind (arith, div-add-mod 1193181 freq)

-- For a frequency from 19 to 65535 the counter is given its command, then the low and the high byte
-- of 1193181 divided by the frequency, on the port of counter 0, and the tick count is reset.
pub pit_start_counter-bytes :
    (freq counter mode pit_ticks : ℕ)
    → 19 ≤ freq
    → freq < 2 ^ 16
    → (lo : ℕ) × (hi : ℕ) × (pit_start_counter freq counter mode pit_ticks
        ≡ some ((0x43, start_command counter mode) ∷ (0x40, lo) ∷ (0x40, hi) ∷ [], 0))
      × (lo + hi * 2 ^ 8 ≡ 1193181 / freq)
      × (lo < 2 ^ 8)
      × (hi < 2 ^ 8)
unfolding pit_start_counter divisor
pit_start_counter-bytes freq counter mode pit_ticks a b =
    let d = 1193181 / freq in
    let same : freq % 2 ^ 16 ≡ freq = omega arith in
    let fits : d < 2 ^ 16 = divisor_small freq a in
    (
      d % 256,
      d / 256,
      rw (==_ne freq 0 (omega arith), same, ==_ne freq 0 (omega arith), bit_and-0xFF, bit_and-0xFF)
          (ap
            (λ (w : ℕ × ℕ).
              some ((0x43, start_command counter mode) ∷ (0x40, w.0) ∷ (0x40, w.1) ∷ [], 0))
            (ground arith)),
      omega arith,
      omega arith,
      omega arith,
    )
