-- ===== src/Memory.antt =====
-- Byte-addressed memory with 32-bit addresses: `memset` and `memcpy` of include/string.h, and the
-- 32-bit store that `*stack = v` compiles to.
pub mod Blocks
use advanced_os.Base.{ℕ, zero, suc, ◌+◌, ◌/◌, ◌%◌, ◌^◌, ◌-◌, leb, if◌then◌else◌, Bool, update}

abbrev pub Mem : Type 0
Mem = ℕ → ℕ

-- The wrap of a `uint32_t`, a `size_t` and a `uintptr_t`, and of a `uint8_t`.
abbrev pub u32 : ℕ → ℕ
u32 n = n % 2 ^ 32

abbrev pub u8 : ℕ → ℕ
u8 n = n % 256

-- `v < 0` of an `int`, and `v / d` for a positive `d`, which rounds towards zero.
abbrev pub is_negative : ℕ → Bool
is_negative v = leb (2 ^ 31) v

abbrev pub int_div : (v d : ℕ) → ℕ
int_div v d = if is_negative v then u32 (2 ^ 32 - (2 ^ 32 - v) / d) else v / d

-- `for ( ; count != 0; count--, temp[count] = val);` writes from the last byte down.
unfoldable pub memset : Mem → (dest val count : ℕ) → Mem
memset m dest val zero = m
memset m dest val (suc count) = memset (update m (u32 (dest + count)) val) dest val count

-- `while (n-- > 0) { *d ++ = *s ++; }` copies upwards, one byte at a time.
unfoldable pub memcpy : Mem → (dst src n : ℕ) → Mem
memcpy m dst src zero = m
memcpy m dst src (suc n) = memcpy (update m dst (m src)) (u32 (dst + 1)) (u32 (src + 1)) n

-- `*(uint32_t*) a = v`, little endian.
unfoldable pub store32 : Mem → (a v : ℕ) → Mem
store32 m a v =
    update
      (update (update (update m a (u8 v)) (u32 (a + 1)) (u8 (v / 2 ^ 8))) (u32 (a + 2))
        (u8 (v / 2 ^ 16)))
      (u32 (a + 3)) (u8 (v / 2 ^ 24))
