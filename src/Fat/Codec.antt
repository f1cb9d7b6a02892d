-- ===== src/Fat/Codec.antt =====
-- The packed and the logical allocation table hold the same entries.
use advanced_os.Base.{ℕ_discrete, ℕ, zero, suc, ◌+◌, ◌*◌, ◌/◌, ◌%◌, ◌^◌, ◌<◌, ◌≡◌, refl, arith, ◌∙◌}
use advanced_os.Base.Bits.{bit_and-0xF, bit_and-0xF0, bit_or_nibble}
use advanced_os.Memory.{u8}
use advanced_os.Fat.{
  even_entry, odd_entry, unpack_fat, fat12_load_fat, middle_byte, pack_fat, fat12_write_back_fat,
}

middle_byte_lem : (a b : ℕ) → middle_byte a b ≡ a / 256 % 16 + b % 16 * 16
middle_byte_lem a b =
    rw (bit_and-0xF, bit_and-0xF0)
      (bit_or_nibble (b * 2 ^ 4 / 16 % 16 * 16) (u8 (a / 2 ^ 8 % 16)) (omega arith) (omega arith)
        ∙ omega arith)

module _ (phys : ℕ → ℕ) where
  unpack_before : (n i j : ℕ) (fat : ℕ → ℕ) (a : ℕ) → a < j → unpack_fat phys n i j fat a ≡ fat a
  unfolding unpack_fat
  unpack_before zero i j fat a h = refl
  unpack_before (suc n) i j fat a h =
      unpack_before n (i + 3) (j + 2) _ a (omega arith) ∙ ground arith

  -- Entries `a` and `b` at `j + 2 * m` come from the bytes at `i + 3 * m`.
  unpack_pair :
      (n i j : ℕ) (fat : ℕ → ℕ) (m a s : ℕ)
      → m < n
      → a ≡ j + 2 * m
      → s ≡ i + 3 * m
      → (unpack_fat phys n i j fat a ≡ even_entry phys s)
        × (unpack_fat phys n i j fat (a + 1) ≡ odd_entry phys s)
  unfolding unpack_fat
  unpack_pair zero i j fat m a s h e e' = absurd (omega arith)
  unpack_pair (suc n) i j fat zero a s h e e' =
      let here : a ≡ j = omega arith in
      let there : s ≡ i = omega arith in
      rw (here, there)
        (
          unpack_before n (i + 3) (j + 2) _ j (omega arith) ∙ ground arith,
          unpack_before n (i + 3) (j + 2) _ (j + 1) (omega arith) ∙ ground arith,
        )
  unpack_pair (suc n) i j fat (suc m) a s h e e' =
      unpack_pair n (i + 3) (j + 2) _ m a s (omega arith) (omega arith) (omega arith)

module _ (fat : ℕ → ℕ) where
  pack_before : (n i j : ℕ) (phys : ℕ → ℕ) (a : ℕ) → a < i → pack_fat fat n i j phys a ≡ phys a
  unfolding pack_fat
  pack_before zero i j phys a h = refl
  pack_before (suc n) i j phys a h = pack_before n (i + 3) (j + 2) _ a (omega arith) ∙ ground arith

  -- The three bytes at `i + 3 * m` come from the entries at `j + 2 * m`.
  pack_triple :
      (n i j : ℕ) (phys : ℕ → ℕ) (m a s : ℕ)
      → m < n
      → a ≡ i + 3 * m
      → s ≡ j + 2 * m
      → (pack_fat fat n i j phys a ≡ u8 (fat s))
        × (pack_fat fat n i j phys (a + 1) ≡ middle_byte (fat s) (fat (s + 1)))
        × (pack_fat fat n i j phys (a + 2) ≡ u8 (fat (s + 1) / 2 ^ 4))
  unfolding pack_fat
  pack_triple zero i j phys m a s h e e' = absurd (omega arith)
  pack_triple (suc n) i j phys zero a s h e e' =
      let here : a ≡ i = omega arith in
      let there : s ≡ j = omega arith in
      rw (here, there)
        (
          pack_before n (i + 3) (j + 2) _ i (omega arith) ∙ ground arith,
          pack_before n (i + 3) (j + 2) _ (i + 1) (omega arith) ∙ ground arith,
          pack_before n (i + 3) (j + 2) _ (i + 2) (omega arith) ∙ ground arith,
        )
  pack_triple (suc n) i j phys (suc m) a s h e e' =
      pack_triple n (i + 3) (j + 2) _ m a s (omega arith) (omega arith) (omega arith)

load-write_pair :
    (fat phys fat' : ℕ → ℕ) (m : ℕ)
    → m < 1536
    → fat (2 * m) < 2 ^ 12
    → fat (2 * m + 1) < 2 ^ 12
    → (fat12_load_fat (fat12_write_back_fat fat phys) fat' (2 * m) ≡ fat (2 * m))
      × (fat12_load_fat (fat12_write_back_fat fat phys) fat' (2 * m + 1) ≡ fat (2 * m + 1))
unfolding fat12_load_fat fat12_write_back_fat
load-write_pair fat phys fat' m h a b =
    let (p, q, r) = pack_triple fat 1536 0 0 phys m (3 * m) (2 * m) h (omega arith) (omega arith) in
    let (u, v) =
      unpack_pair (pack_fat fat 1536 0 0 phys) 1536 0 0 fat' m (2 * m) (3 * m) h (omega arith)
        (omega arith) in
    let w = middle_byte_lem (fat (2 * m)) (fat (2 * m + 1)) in (omega arith, omega arith)

-- If all 3072 entries fit 12 bits, writing the table back and loading it again gives every entry.
pub fat12_load_fat-write_back :
    (fat phys fat' : ℕ → ℕ) (j : ℕ)
    → ((i : ℕ) → i < 3072 → fat i < 2 ^ 12)
    → j < 3072
    → fat12_load_fat (fat12_write_back_fat fat phys) fat' j ≡ fat j
fat12_load_fat-write_back fat phys fat' j fits h =
    let (a, b) =
      load-write_pair fat phys fat' (j / 2) (omega arith) (fits (2 * (j / 2)) (omega arith))
        (fits (2 * (j / 2) + 1) (omega arith)) in
    elim (ℕ_discrete (j % 2) 0) [
      | yes e ↦ let x : 2 * (j / 2) ≡ j = omega arith in rw x at a
      | no ne ↦ let x : 2 * (j / 2) + 1 ≡ j = omega arith in rw x at b
    ]

write-load_triple :
    (phys fat phys' : ℕ → ℕ) (m : ℕ)
    → m < 1536
    → phys (3 * m) < 256
    → phys (3 * m + 1) < 256
    → phys (3 * m + 2) < 256
    → (fat12_write_back_fat (fat12_load_fat phys fat) phys' (3 * m) ≡ phys (3 * m))
      × (fat12_write_back_fat (fat12_load_fat phys fat) phys' (3 * m + 1) ≡ phys (3 * m + 1))
      × (fat12_write_back_fat (fat12_load_fat phys fat) phys' (3 * m + 2) ≡ phys (3 * m + 2))
unfolding fat12_load_fat fat12_write_back_fat
write-load_triple phys fat phys' m h a b c =
    let (p, q, r) =
      pack_triple (unpack_fat phys 1536 0 0 fat) 1536 0 0 phys' m (3 * m) (2 * m) h (omega arith)
        (omega arith) in
    let (u, v) = unpack_pair phys 1536 0 0 fat m (2 * m) (3 * m) h (omega arith) (omega arith) in
    let w =
      middle_byte_lem (unpack_fat phys 1536 0 0 fat (2 * m))
        (unpack_fat phys 1536 0 0 fat (2 * m + 1)) in
    (omega arith, omega arith, omega arith)

-- If the 4608 packed values are bytes, loading the table and writing it back gives every one of
-- them.
pub fat12_write_back-load :
    (phys fat phys' : ℕ → ℕ) (i : ℕ)
    → ((b : ℕ) → b < 4608 → phys b < 256)
    → i < 4608
    → fat12_write_back_fat (fat12_load_fat phys fat) phys' i ≡ phys i
fat12_write_back-load phys fat phys' i bytes h =
    let m = i / 3 in
    let (a, b, c) =
      write-load_triple phys fat phys' m (omega arith) (bytes (3 * m) (omega arith))
        (bytes (3 * m + 1) (omega arith)) (bytes (3 * m + 2) (omega arith)) in
    elim (ℕ_discrete (i % 3) 0) [
      | yes e ↦ let x : 3 * m ≡ i = omega arith in rw x at a
      | no ne ↦ elim (ℕ_discrete (i % 3) 1) [
        | yes e ↦ let x : 3 * m + 1 ≡ i = omega arith in rw x at b
        | no ne' ↦ let x : 3 * m + 2 ≡ i = omega arith in rw x at c
      ]
    ]
