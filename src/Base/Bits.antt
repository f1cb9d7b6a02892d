-- ===== src/Base/Bits.antt =====
-- `&` with a mask and `|` of disjoint fields, as arithmetic.
use Prim.Native.Nat.{
  ℕ, zero, suc, ◌+◌, ◌*◌, ◌/◌, ◌%◌, ◌≤◌, ◌<◌, min, max, bit_and, bit_or, digits, bitwise,
  bit_and-bitwise, bit_or-bitwise,
}
use mathlib.Core.Path.{◌≡◌, refl}
use native.Mathlib.Omega.{arith}

-- With more fuel than it needs, the recursion on digits gives what it gives with just enough.
module _ (none_left : ℕ → ℕ) (op : ℕ → ℕ → ℕ) where
  settled :
      (bound n a b : ℕ) → n ≤ bound → a ≤ n → digits none_left op n a b ≡ digits none_left op a a b
  settled bound zero zero b small le = refl
  settled bound zero (suc a) b small le = absurd (omega arith)
  settled bound (suc n) zero b small le = refl
  settled zero (suc n) (suc a) b small le = absurd (omega arith)
  settled (suc bound) (suc n) (suc a) b small le =
      let half = suc a / 2 in
      omega (
        arith,
        settled bound n half (b / 2) (omega arith) (omega arith),
        settled bound a half (b / 2) (omega arith) (omega arith),
      )

  halve :
      (a b : ℕ)
      → bitwise none_left op (suc a) b
        ≡ op (suc a % 2) (b % 2) + 2 * bitwise none_left op (suc a / 2) (b / 2)
  halve a b = omega (arith, settled a a (suc a / 2) (b / 2) (omega arith) (omega arith))

-- `|` and `&` as an operation on the last digits and one on the halves.
or_halves : (a b : ℕ) → bit_or a b ≡ max (a % 2) (b % 2) + 2 * bit_or (a / 2) (b / 2)
or_halves zero b = simp bit_or-bitwise (omega arith)
or_halves (suc a) b = simp bit_or-bitwise (halve (λ y. y) max a b)

and_halves : (a b : ℕ) → bit_and a b ≡ min (a % 2) (b % 2) + 2 * bit_and (a / 2) (b / 2)
and_halves zero b = simp bit_and-bitwise (omega arith)
and_halves (suc a) b = simp bit_and-bitwise (halve (λ y. 0) min a b)

pub zero-bit_or : (b : ℕ) → bit_or 0 b ≡ b
zero-bit_or b = bit_or-bitwise 0 b

mask_none : (g a : ℕ) → a ≤ g → bit_and a 0 ≡ 0
mask_none zero zero h = refl
mask_none zero (suc a) h = absurd (omega arith)
mask_none (suc g) a h = omega (arith, and_halves a 0, mask_none g (a / 2) (omega arith))

bit_and-zero : (a : ℕ) → bit_and a 0 ≡ 0
bit_and-zero a = mask_none a a (omega arith)

-- One more digit of a mask of ones, or of a mask that is shifted.
pub mask_one : (a : ℕ) → bit_and a 1 ≡ a % 2
mask_one a = omega (arith, and_halves a 1, bit_and-zero (a / 2))

mask_two : (a : ℕ) → bit_and a 3 ≡ a % 4
mask_two a = omega (arith, and_halves a 3, mask_one (a / 2))

mask_three : (a : ℕ) → bit_and a 7 ≡ a % 8
mask_three a = omega (arith, and_halves a 7, mask_two (a / 2))

pub bit_and-0xF : (a : ℕ) → bit_and a 0xF ≡ a % 16
bit_and-0xF a = omega (arith, and_halves a 0xF, mask_three (a / 2))

mask_five : (a : ℕ) → bit_and a 0x1F ≡ a % 32
mask_five a = omega (arith, and_halves a 0x1F, bit_and-0xF (a / 2))

mask_six : (a : ℕ) → bit_and a 0x3F ≡ a % 64
mask_six a = omega (arith, and_halves a 0x3F, mask_five (a / 2))

mask_seven : (a : ℕ) → bit_and a 0x7F ≡ a % 128
mask_seven a = omega (arith, and_halves a 0x7F, mask_six (a / 2))

pub bit_and-0xFF : (a : ℕ) → bit_and a 0xFF ≡ a % 256
bit_and-0xFF a = omega (arith, and_halves a 0xFF, mask_seven (a / 2))

high_one : (a : ℕ) → bit_and a 0x1E ≡ a / 2 % 16 * 2
high_one a = omega (arith, and_halves a 0x1E, bit_and-0xF (a / 2))

high_two : (a : ℕ) → bit_and a 0x3C ≡ a / 4 % 16 * 4
high_two a = omega (arith, and_halves a 0x3C, high_one (a / 2))

high_three : (a : ℕ) → bit_and a 0x78 ≡ a / 8 % 16 * 8
high_three a = omega (arith, and_halves a 0x78, high_two (a / 2))

pub bit_and-0xF0 : (a : ℕ) → bit_and a 0xF0 ≡ a / 16 % 16 * 16
bit_and-0xF0 a = omega (arith, and_halves a 0xF0, high_three (a / 2))

or_zero : (x r : ℕ) → r < 1 → bit_or r x ≡ r + x
or_zero x zero h = omega (arith, zero-bit_or x)
or_zero x (suc r) h = absurd (omega arith)

or_one : (x r : ℕ) → r < 2 → x % 2 ≡ 0 → bit_or r x ≡ r + x
or_one x r h e = omega (arith, or_halves r x, or_zero (x / 2) (r / 2) (omega arith))

or_two : (x r : ℕ) → r < 4 → x % 4 ≡ 0 → bit_or r x ≡ r + x
or_two x r h e = omega (arith, or_halves r x, or_one (x / 2) (r / 2) (omega arith) (omega arith))

or_three : (x r : ℕ) → r < 8 → x % 8 ≡ 0 → bit_or r x ≡ r + x
or_three x r h e = omega (arith, or_halves r x, or_two (x / 2) (r / 2) (omega arith) (omega arith))

-- A low nibble and a field above it.
pub bit_or_nibble : (x r : ℕ) → r < 16 → x % 16 ≡ 0 → bit_or r x ≡ r + x
bit_or_nibble x r h e =
    omega (arith, or_halves r x, or_three (x / 2) (r / 2) (omega arith) (omega arith))

bit_one : (a : ℕ) → bit_and a 2 ≡ a / 2 % 2 * 2
bit_one a = omega (arith, and_halves a 2, mask_one (a / 2))

bit_two : (a : ℕ) → bit_and a 4 ≡ a / 4 % 2 * 4
bit_two a = omega (arith, and_halves a 4, bit_one (a / 2))

bit_three : (a : ℕ) → bit_and a 8 ≡ a / 8 % 2 * 8
bit_three a = omega (arith, and_halves a 8, bit_two (a / 2))

bit_four : (a : ℕ) → bit_and a 0x10 ≡ a / 16 % 2 * 16
bit_four a = omega (arith, and_halves a 0x10, bit_three (a / 2))

bit_five : (a : ℕ) → bit_and a 0x20 ≡ a / 32 % 2 * 32
bit_five a = omega (arith, and_halves a 0x20, bit_four (a / 2))

bit_six : (a : ℕ) → bit_and a 0x40 ≡ a / 64 % 2 * 64
bit_six a = omega (arith, and_halves a 0x40, bit_five (a / 2))

pub bit_and-0x80 : (a : ℕ) → bit_and a 0x80 ≡ a / 128 % 2 * 128
bit_and-0x80 a = omega (arith, and_halves a 0x80, bit_six (a / 2))
