-- ===== src/Cstr/Numbers.antt =====
-- `itoa` ends within its buffer, and its digits stand for the number.
use advanced_os.Base.{
  ℕ, zero, suc, ◌+◌, ◌-◌, ◌*◌, ◌/◌, ◌%◌, ◌^◌, ◌≤◌, ◌<◌, ◌≡◌, arith, ◌∙◌, ap, inl, inr, ◌==◌, ltb,
  if◌then◌else◌, Bool-cases, some, List, [], ◌∷◌, le→ltb, sym,
}
use native.Mathlib.Nat.{pow-suc, div-add-mod}
use advanced_os.Cstr.{bchar, itoa_digits, itoa}

-- The digit that a character of `bchars` stands for.
abbrev pub digit_of : ℕ → ℕ
digit_of c = if ltb c b'A' then c - b'0' else c - b'A' + 10

-- The number that a string of digits stands for, read on from `acc`.
abbrev pub value_from : (base acc : ℕ) → List ℕ → ℕ
value_from base acc [] = acc
value_from base acc (c ∷ s) = value_from base (acc * base + digit_of c) s

digit_of-bchar : (d : ℕ) → d < 16 → digit_of (bchar d) ≡ d
digit_of-bchar d h = ground arith

div_bound : (i base p : ℕ) → 2 ≤ base → i < 2 * p → i / base < p
div_bound i base p a h = grind (arith, div-add-mod i base)

rebuild : (i base : ℕ) → 2 ≤ base → base ≤ 16 → i / base * base + digit_of (bchar (i % base)) ≡ i
rebuild i base a b =
    let small : i % base < base = grind arith in
    ground (arith, digit_of-bchar (i % base) (omega arith), div-add-mod i base)

-- With `2 ^ room` above the number the loop ends, and reading its digits gives the number.
itoa_digits-value :
    (base : ℕ) (room i : ℕ) (tbuf : List ℕ)
    → 2 ≤ base
    → base ≤ 16
    → i < 2 ^ room
    → (s : List ℕ) × (itoa_digits room i base tbuf ≡ some s)
      × (value_from base 0 s ≡ value_from base i tbuf)
unfolding itoa_digits
itoa_digits-value base zero i tbuf a b h =
    let e : i ≡ 0 = omega arith in (tbuf, rw e, ap (λ n. value_from base n tbuf) (sym e))
itoa_digits-value base (suc room) i tbuf a b h = elim (Bool-cases (i == 0)) [
  | inl e ↦ let z : 0 ≡ i = ground arith in (tbuf, rw e, ap (λ n. value_from base n tbuf) z)
  | inr e ↦
      let (s, ret, val) =
        itoa_digits-value base room (i / base) (bchar (i % base) ∷ tbuf) a b
          (div_bound i base (2 ^ room) a (omega (arith, pow-suc 2 room))) in
      (s, rw e ret, val ∙ ap (λ n. value_from base n tbuf) (rebuild i base a b))
]

-- For every 32-bit number and every base from 2 to 16, `itoa` stays within `tbuf`, and the digits
-- that it writes stand for the number in that base.
pub itoa-value :
    (i base : ℕ)
    → i < 2 ^ 32
    → 2 ≤ base
    → base ≤ 16
    → (s : List ℕ) × (itoa i base ≡ some s) × (value_from base 0 s ≡ i)
unfolding itoa
itoa-value i base h a b = elim (Bool-cases (i == 0)) [
  | inl e ↦ (b'0' ∷ [], rw e, ground arith)
  | inr e ↦ rw (e, le→ltb 16 base b) (itoa_digits-value base 32 i [] a b h)
]
