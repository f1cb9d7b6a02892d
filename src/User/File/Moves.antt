-- ===== src/User/File/Moves.antt =====
-- How the message of usr/file.c moves through the memory.
use advanced_os.Base.{
  ℕ, suc, ◌+◌, ◌*◌, ◌^◌, ◌≤◌, ◌<◌, ◌≡◌, sym, ap, ◌∙◌, ◌⊎◌, List, arith, ℕ_discrete, ◌==◌,
  if◌then◌else◌, length, All, update, update_ne, ==_refl, ==_ne,
}
use advanced_os.Fat.Cells.{get_or-over, Holds, string_in-Holds, strlen-length}
use advanced_os.Fat.Entry.{string_in}
use advanced_os.Cstr.{strlen}
use advanced_os.Sysfile.{buffer_size, file_at}
use advanced_os.Memory.{Mem, u32, memcpy}
use advanced_os.Memory.Blocks.{memcpy_copies, memcpy-Outside}

-- The memory that the message goes through: the buffer at `b`, then `read`, then the NUL.
abbrev pub in_buffer : Mem → (b written n : ℕ) → Mem
in_buffer m b written n = memcpy m b written n

abbrev pub in_read : Mem → (b written read n : ℕ) → Mem
in_read m b written read n = memcpy (in_buffer m b written n) read b n

abbrev pub at_end : Mem → (b written read n : ℕ) → Mem
at_end m b written read n = update (in_read m b written read n) (u32 (read + n)) 0

-- Where the message, the buffer and the copy lie: apart from one another and below 2 ^ 32.
pub record Apart (b written read n : ℕ) : Type 0 where
  pub room : n ≤ buffer_size
  pub buffer_below : b + buffer_size < 2 ^ 32
  pub text_below : written + n < 2 ^ 32
  pub copy_below : read + n < 2 ^ 32
  pub text_buffer : (written + n < b) ⊎ (b + buffer_size ≤ written)
  pub copy_buffer : (read + n < b) ⊎ (b + buffer_size ≤ read)
  pub text_copy : (written + n < read) ⊎ (read + n < written)

module _ (m : Mem) (b written read n : ℕ) (p : Apart b written read n) where
  buffer-keeps : (a : ℕ) → (a < b) ⊎ (b + n ≤ a) → in_buffer m b written n a ≡ m a
  buffer-keeps a o =
      memcpy-Outside n m b written a (omega (arith, p.buffer_below, p.room))
        (omega (arith, p.text_below)) (omega (arith, o))

  read-keeps :
      (a : ℕ)
      → (a < b) ⊎ (b + n ≤ a)
      → (a < read) ⊎ (read + n ≤ a)
      → in_read m b written read n a ≡ m a
  read-keeps a o o' =
      memcpy-Outside n (in_buffer m b written n) read b a (omega (arith, p.copy_below))
        (omega (arith, p.buffer_below, p.room)) (omega (arith, o'))
      ∙ buffer-keeps a o

  pub end-keeps :
      (a : ℕ)
      → (a < b) ⊎ (b + n ≤ a)
      → (a < read) ⊎ (read + n < a)
      → at_end m b written read n a ≡ m a
  end-keeps a o o' =
      update_ne (in_read m b written read n) 0 (omega (arith, p.copy_below))
      ∙ read-keeps a o (omega (arith, o'))

  copied : (j : ℕ) → j < n → in_read m b written read n (read + j) ≡ m (written + j)
  copied j l =
      memcpy_copies n (in_buffer m b written n) read b j (omega (arith, p.copy_below))
        (omega (arith, p.buffer_below, p.room)) (omega (arith, p.copy_buffer, p.room)) l
      ∙ memcpy_copies n m b written j (omega (arith, p.buffer_below, p.room))
          (omega (arith, p.text_below)) (omega (arith, p.text_buffer, p.room)) l

  text_kept : (j : ℕ) → j < suc n → in_buffer m b written n (written + j) ≡ m (written + j)
  text_kept j l = buffer-keeps (written + j) (omega (arith, p.text_buffer, p.room))

  text_kept_twice : (j : ℕ) → j < suc n → in_read m b written read n (written + j) ≡ m (written + j)
  text_kept_twice j l =
      read-keeps (written + j) (omega (arith, p.text_buffer, p.room)) (omega (arith, p.text_copy))

  copy_end :
      (j : ℕ)
      → j < suc n
      → at_end m b written read n (read + j) ≡ (if j == n then 0 else m (written + j))
  copy_end j l = elim (ℕ_discrete j n) [
    | yes e ↦ ground (arith, p.copy_below)
    | no ne ↦
        let lt : j < n = omega arith in
        rw (==_ne j n ne)
          (update_ne (in_read m b written read n) 0 (omega (arith, p.copy_below)) ∙ copied j lt)
  ]

-- The message at an address of the memory.
abbrev pub IsText : Mem → (a : ℕ) → List ℕ → Type 0
IsText m a msg = Holds 0 m a msg (suc (length msg))

module _ (m : Mem) (b written read : ℕ) (msg : List ℕ) (p : Apart b written read (length msg))
    (t : IsText m written msg) where
  pub IsText-in_buffer : IsText (in_buffer m b written (length msg)) written msg
  IsText-in_buffer j l = text_kept m b written read (length msg) p j l ∙ t j l

  pub IsText-in_read : IsText (in_read m b written read (length msg)) written msg
  IsText-in_read j l = text_kept_twice m b written read (length msg) p j l ∙ t j l

  pub IsText-at_end : IsText (at_end m b written read (length msg)) read msg
  IsText-at_end j l = elim (ℕ_discrete j (length msg)) [
    | yes e ↦
        copy_end m b written read (length msg) p j l
        ∙ rw (e, ==_refl (length msg)) (sym (get_or-over msg (length msg) (omega arith)))
    | no ne ↦ copy_end m b written read (length msg) p j l ∙ rw (==_ne j (length msg) ne) (t j l)
  ]

-- A message of the memory is what `string_in` gives, and its length.
pub text-strlen :
    (m : Mem) (fuel a : ℕ) (msg : List ℕ)
    → All (λ c. 0 < c) msg
    → length msg < fuel
    → IsText m a msg
    → strlen (string_in m fuel a) ≡ length msg
text-strlen m fuel a msg p l h = ap strlen (string_in-Holds m fuel a msg p l h) ∙ strlen-length msg

pub file_at_pointer : (base fp : ℕ) → file_at base (base + fp * 1076) ≡ fp
file_at_pointer base fp = omega arith
