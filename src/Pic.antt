-- ===== src/Pic.antt =====
-- The interrupt controllers, include/pic.h. A function gives its port writes, `(port, data)` in
-- order; `port_byte_out` itself is the instruction.
use advanced_os.Base.{ℕ, ◌-◌, bit_and, bit_or, List, [], ◌∷◌, ◌++◌, ltb, leb, ◌==◌, if◌then◌else◌}

abbrev pub PortWrites : Type 0
PortWrites = List (ℕ × ℕ)

abbrev pub pic1_reg_command : ℕ
pic1_reg_command = 0x20

abbrev pub pic1_reg_data : ℕ
pic1_reg_data = 0x21

abbrev pub pic2_reg_command : ℕ
pic2_reg_command = 0xA0

abbrev pub pic2_reg_data : ℕ
pic2_reg_data = 0xA1

-- Bits of the initialization words 1 and 4, and their values.
abbrev pub icw1_mask_ic4 : ℕ
icw1_mask_ic4 = 0x1

abbrev pub icw1_mask_init : ℕ
icw1_mask_init = 0x10

abbrev pub icw4_mask_upm : ℕ
icw4_mask_upm = 0x1

abbrev pub icw1_ic4_expect : ℕ
icw1_ic4_expect = 1

abbrev pub icw1_init_yes : ℕ
icw1_init_yes = 0x10

abbrev pub icw4_upm_86mode : ℕ
icw4_upm_86mode = 1

abbrev pub ocw2_mask_eoi : ℕ
ocw2_mask_eoi = 0x20

-- `pic_send_command`.
unfoldable pub pic_send_command : (cmd pic_num : ℕ) → PortWrites
pic_send_command cmd pic_num =
    if ltb 1 pic_num
    then []
    else (if pic_num == 1 then pic2_reg_command else pic1_reg_command, cmd) ∷ []

-- `pic_send_data`.
unfoldable pub pic_send_data : (byte pic_num : ℕ) → PortWrites
pic_send_data byte pic_num =
    if ltb 1 pic_num then [] else (if pic_num == 1 then pic2_reg_data else pic1_reg_data, byte) ∷ []

-- `pic_read_data`: the port that is read, if any.
unfoldable pub pic_read_port : ℕ → List ℕ
pic_read_port pic_num =
    if ltb 1 pic_num then [] else (if pic_num == 1 then pic2_reg_data else pic1_reg_data) ∷ []

-- `(icw & ~mask) | bits` on a byte.
abbrev pub set_bits : (icw mask bits : ℕ) → ℕ
set_bits icw mask bits = bit_or (bit_and icw (0xFF - mask)) bits

-- `pic_init`, between its `disable` and its `enable`.
unfoldable pub pic_init : PortWrites
unfolding pic_send_command pic_send_data
pic_init =
    let icw1 = set_bits (set_bits 0 icw1_mask_init icw1_init_yes) icw1_mask_ic4 icw1_ic4_expect in
    let icw4 = set_bits icw1 icw4_mask_upm icw4_upm_86mode in
    pic_send_command icw1 0
    ++ pic_send_command icw1 1
    ++ pic_send_data 0x20 0
    ++ pic_send_data 0x28 1
    ++ pic_send_data 0x04 0
    ++ pic_send_data 0x02 1
    ++ pic_send_data icw4 0
    ++ pic_send_data icw4 1

-- `interruptdone`.
unfoldable pub interruptdone : ℕ → PortWrites
unfolding pic_send_command
interruptdone intno =
    if ltb 16 intno
    then []
    else (if leb 8 intno then pic_send_command ocw2_mask_eoi 1 else [])
      ++ pic_send_command ocw2_mask_eoi 0
