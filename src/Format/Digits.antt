-- ===== src/Format/Digits.antt =====
-- `read_int` reads what `itoa` writes.
use advanced_os.Base.{
  ℕ, zero, suc, ◌+◌, ◌-◌, ◌*◌, ◌/◌, ◌%◌, ◌^◌, ◌≤◌, ◌<◌, ◌≡◌, refl, sym, ap, ◌∙◌, inl, inr, true,
  false, some, List, [], ◌∷◌, ◌++◌, arith, ◌==◌, Bool-cases, length, get_or, All,
}
use advanced_os.Cstr.{bchar, itoa_digits, itoa}
use advanced_os.Format.{read_int, is_digit, read_digits}
use native.Mathlib.Nat.{pow-suc}
use advanced_os.Memory.{u32}

abbrev pub IsDigit : ℕ → Type 0
IsDigit c = is_digit c ≡ true

-- The number that decimal digits stand for, read on from `acc`.
abbrev pub number : (acc : ℕ) → List ℕ → ℕ
number acc [] = acc
number acc (c ∷ s) = number (acc * 10 + (c - b'0')) s

number-ge : (acc : ℕ) (s : List ℕ) → acc ≤ number acc s
number-ge acc [] = omega arith
number-ge acc (c ∷ s) = omega (arith, number-ge (acc * 10 + (c - b'0')) s)

-- Digits in front of a character that is none are read as their number, if it fits.
read_digits-number :
    (s rest : List ℕ) (ret cnt : ℕ)
    → All IsDigit s
    → is_digit (get_or rest 0 0) ≡ false
    → number ret s < 2 ^ 32
    → read_digits (s ++ rest) ret cnt ≡ (number ret s, cnt + length s)
unfolding read_digits
read_digits-number [] [] ret cnt d e f = ap (λ (n : ℕ). (ret, n)) (omega arith)
read_digits-number [] (c ∷ rest) ret cnt d e f = rw e (ap (λ (n : ℕ). (ret, n)) (omega arith))
read_digits-number (c ∷ s) rest ret cnt d e f =
    let fits : u32 (ret * 10 + (c - b'0')) ≡ ret * 10 + (c - b'0') =
      omega (arith, number-ge (ret * 10 + (c - b'0')) s) in
    rw (d.0, fits)
      (read_digits-number s rest (ret * 10 + (c - b'0')) (cnt + 1) d.1 e f
        ∙ ap (λ (n : ℕ). (number (ret * 10 + (c - b'0')) s, n)) (omega arith))

bchar-IsDigit : (d : ℕ) → d < 10 → IsDigit (bchar d) × (bchar d - b'0' ≡ d)
bchar-IsDigit d h = (ground arith, ground arith)

-- The digit loop of `itoa` in base 10.
itoa_digits-number :
    (room i : ℕ) (tbuf : List ℕ)
    → i < 2 ^ room
    → All IsDigit tbuf
    → (s : List ℕ) × (itoa_digits room i 10 tbuf ≡ some s)
      × All IsDigit s
      × (number 0 s ≡ number i tbuf)
unfolding itoa_digits
itoa_digits-number zero i tbuf h d =
    let e : i ≡ 0 = omega arith in (tbuf, rw e refl, d, ap (λ n. number n tbuf) (sym e))
itoa_digits-number (suc room) i tbuf h d = elim (Bool-cases (i == 0)) [
  | inl e ↦ let z : 0 ≡ i = ground arith in (tbuf, rw e refl, d, ap (λ n. number n tbuf) z)
  | inr e ↦
      let (isd, back) = bchar-IsDigit (i % 10) (omega arith) in
      let (s, ret, ds, val) =
        itoa_digits-number room (i / 10) (bchar (i % 10) ∷ tbuf) (omega (arith, pow-suc 2 room))
          (isd, d) in
      let whole : i / 10 * 10 + (bchar (i % 10) - b'0') ≡ i = omega arith in
      (s, rw e ret, ds, val ∙ ap (λ n. number n tbuf) whole)
]

read_int-number :
    (s rest : List ℕ)
    → All IsDigit s
    → 0 < number 0 s
    → is_digit (get_or rest 0 0) ≡ false
    → number 0 s < 2 ^ 32
    → read_int (s ++ rest) ≡ (number 0 s, length s)
unfolding read_int
read_int-number [] rest d pos e f = absurd (omega arith)
read_int-number (c ∷ s) rest d pos e f =
    let no_sign : (c == b'-') ≡ false = ground (arith, d.0) in
    rw no_sign (
      read_digits-number (c ∷ s) rest 0 0 d e f
      ∙ ap (λ (n : ℕ). (number 0 (c ∷ s), n)) (omega arith))

read_zero :
    (i : ℕ) (rest : List ℕ)
    → (i == 0) ≡ true
    → is_digit (get_or rest 0 0) ≡ false
    → read_int (b'0' ∷ rest) ≡ (i, 1)
unfolding read_int
read_zero i rest z e =
    let zero_i : 0 ≡ i = ground arith in
    read_digits-number (b'0' ∷ []) rest 0 0 (refl, tt) e (omega arith)
    ∙ ap (λ (n : ℕ). (n, 1)) zero_i

-- For a non-negative `int`, in front of anything but a digit, `read_int` gives back the number that
-- `itoa` wrote in base 10, and the number of its digits.
pub read_int-itoa :
    (i : ℕ) (rest : List ℕ)
    → i < 2 ^ 31
    → is_digit (get_or rest 0 0) ≡ false
    → (s : List ℕ) × (itoa i 10 ≡ some s) × (read_int (s ++ rest) ≡ (i, length s))
unfolding itoa
read_int-itoa i rest h e = elim (Bool-cases (i == 0)) [
  | inl z ↦ (b'0' ∷ [], rw z refl, read_zero i rest z e)
  | inr z ↦
      let (s, ret, ds, val) = itoa_digits-number 32 i [] (omega arith) tt in
      let pos : 0 < number 0 s = ground (arith, val) in
      (
        s,
        rw z ret,
        read_int-number s rest ds pos e (omega (arith, val)) ∙ ap (λ (n : ℕ). (n, length s)) val,
      )
]
