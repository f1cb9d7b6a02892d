-- ===== src/Pit.antt =====
-- The timer chip, include/pit.h. A function gives its port writes in order.
pub mod Rate
use advanced_os.Base.{
  ℕ, zero, suc, ◌+◌, ◌-◌, ◌*◌, ◌/◌, ◌%◌, ◌^◌, ◌≤◌, ◌<◌, min, bit_and, bit_or, ◌≡◌, refl, sym, ap,
  ◌∙◌, fun_ext, ◌≢◌, ◌↔◌, ◌⊎◌, inl, inr, Bool, true, false, ◌&&◌, ◌||◌, not, Option, none, some,
  List, [], ◌∷◌, ◌++◌, map, reverse, append_assoc, append-nil, subst, arith, dec_lt, ℕ_discrete,
  ltb, leb, ◌==◌, if◌then◌else◌, Bool-cases, Option-cases, length, get_elem?, get_or, take, drop,
  All, codes, update, update_self, update_ne, first_index, first_index-some, first_index-none,
  first_index-found, IsFirst, ==_refl, ==_ne, lt→ltb, le→ltb, eq_of_some,
}
use advanced_os.Pic.{PortWrites}

-- The masks of an operational command word and the values that the code uses.
abbrev pub ocw_mask_mode : ℕ
ocw_mask_mode = 0xE

abbrev pub ocw_mask_rl : ℕ
ocw_mask_rl = 0x30

abbrev pub ocw_mask_counter : ℕ
ocw_mask_counter = 0xC0

abbrev pub ocw_mode_squarewavegen : ℕ
ocw_mode_squarewavegen = 0x6

abbrev pub ocw_rl_data : ℕ
ocw_rl_data = 0x30

abbrev pub ocw_counter_0 : ℕ
ocw_counter_0 = 0

abbrev pub ocw_counter_1 : ℕ
ocw_counter_1 = 0x40

-- The ports.
abbrev pub reg_counter0 : ℕ
reg_counter0 = 0x40

abbrev pub reg_counter1 : ℕ
reg_counter1 = 0x41

abbrev pub reg_counter2 : ℕ
reg_counter2 = 0x42

abbrev pub reg_command : ℕ
reg_command = 0x43

-- `pit_send_command`.
abbrev pub pit_send_command : ℕ → PortWrites
pit_send_command cmd = (reg_command, cmd) ∷ []

-- The port of a counter.
abbrev pub counter_port : ℕ → ℕ
counter_port counter =
    if counter == ocw_counter_0
    then reg_counter0
    else if counter == ocw_counter_1
    then reg_counter1
    else reg_counter2

-- `pit_send_data`.
abbrev pub pit_send_data : (value counter : ℕ) → PortWrites
pit_send_data value counter = (counter_port counter, value % 256) ∷ []

-- `pit_read_data`, for what the ports give.
abbrev pub pit_read_data : (port_byte_in : ℕ → ℕ) (counter : ℕ) → ℕ
pit_read_data port_byte_in counter = port_byte_in (counter_port counter)

-- `pit_set_tick_count`: the count before, and the count after.
abbrev pub pit_set_tick_count : (i pit_ticks : ℕ) → ℕ × ℕ
pit_set_tick_count i pit_ticks = (pit_ticks, i)

-- The divisor for a frequency, in `uint16_t`; `none` when `(uint16_t) freq` is 0, which divides by
-- 0.
unfoldable pub divisor : ℕ → Option ℕ
divisor freq = if freq % 2 ^ 16 == 0 then none else some (1193181 / (freq % 2 ^ 16) % 2 ^ 16)

-- The command byte, with the two masks that `ocw &= ~mask` takes out of a byte.
unfoldable pub start_command : (counter mode : ℕ) → ℕ
start_command counter mode =
    let ocw = bit_or (bit_and 0 (255 - ocw_mask_mode)) mode in
    let ocw' = bit_or (bit_and ocw (255 - ocw_mask_rl)) ocw_rl_data in
    bit_or (bit_and ocw' (255 - ocw_mask_counter)) counter

-- `pit_start_counter`: the port writes and the tick count that it leaves; `none` on a division by 0.
unfoldable pub pit_start_counter : (freq counter mode pit_ticks : ℕ) → Option (PortWrites × ℕ)
pit_start_counter freq counter mode pit_ticks =
    if freq == 0 then some ([], pit_ticks) else elim (divisor freq) [
      | none ↦ none
      | some d ↦ some (
        pit_send_command (start_command counter mode)
            ++ pit_send_data (bit_and d 0xFF) 0
            ++ pit_send_data (bit_and (d / 2 ^ 8) 0xFF) 0,
        0,
      )
    ]
