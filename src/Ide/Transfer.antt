-- ===== src/Ide/Transfer.antt =====
-- What a read of one sector leaves in memory.
use advanced_os.Base.{
  ℕ, zero, suc, ◌+◌, ◌^◌, ◌≤◌, ◌<◌, ◌≡◌, refl, inl, arith, ◌∙◌, ap, update, update_ne, update_self,
}
use advanced_os.Memory.{Mem, u32}
use advanced_os.Memory.Blocks.{Outside, memcpy-Outside, memcpy_copies}
use advanced_os.Ide.{Disk, insw, readsect, read_rounds, read_sectors, tmp_user_addr}

insw-Outside :
    (bytes : ℕ → ℕ) (n o d a : ℕ) (m : Mem)
    → d + n ≤ 2 ^ 32
    → Outside d n a
    → insw bytes n o d m a ≡ m a
unfolding insw
insw-Outside bytes zero o d a m h out = refl
insw-Outside bytes (suc zero) o d a m h out = update_ne m (bytes o) {i = d} {j = a} (omega arith)
insw-Outside bytes (suc (suc n)) o d a m h out =
    insw-Outside bytes (suc n) (o + 1) (u32 (d + 1)) a (update m d (bytes o)) (omega arith)
      (omega arith)
    ∙ update_ne m (bytes o) {i = d} {j = a} (omega arith)

insw_brings :
    (bytes : ℕ → ℕ) (n o d a j : ℕ) (m : Mem)
    → d + n ≤ 2 ^ 32
    → j < n
    → a ≡ d + j
    → insw bytes n o d m a ≡ bytes (o + j)
unfolding insw
insw_brings bytes zero o d a j m h lt e = absurd (omega arith)
insw_brings bytes (suc zero) o d a zero m h lt e =
    let x : a ≡ d = omega arith in
    let y : o ≡ o + 0 = omega arith in rw x (update_self m (bytes o) d ∙ ap bytes y)
insw_brings bytes (suc zero) o d a (suc j) m h lt e = absurd (omega arith)
insw_brings bytes (suc (suc n)) o d a zero m h lt e =
    let x : a ≡ d = omega arith in
    let y : o ≡ o + 0 = omega arith in
    insw-Outside bytes (suc n) (o + 1) (u32 (d + 1)) a (update m d (bytes o)) (omega arith)
      (omega arith)
    ∙ rw x (update_self m (bytes o) d ∙ ap bytes y)
insw_brings bytes (suc (suc n)) o d a (suc j) m h lt e =
    let y : o + 1 + j ≡ o + suc j = omega arith in
    insw_brings bytes (suc n) (o + 1) (u32 (d + 1)) a j (update m d (bytes o)) (omega arith)
      (omega arith) (omega arith)
    ∙ ap bytes y

-- `read_sectors` of one sector, to a place behind the transfer buffer and below 2 ^ 32, brings each
-- of the sector's 512 bytes.
pub read_sectors_one :
    (disk : Disk) (addr sec j : ℕ) (m : Mem)
    → tmp_user_addr + 512 ≤ addr
    → addr + 512 ≤ 2 ^ 32
    → sec < 2 ^ 32
    → j < 512
    → read_sectors disk addr sec 1 m (addr + j) ≡ disk sec j
unfolding read_sectors read_rounds readsect
read_sectors_one disk addr sec j m low high fits h =
    let m' = insw (disk (u32 (sec + 0))) 512 0 tmp_user_addr m in
    let e : u32 (sec + 0) ≡ sec = omega arith in
    memcpy_copies 512 m' addr tmp_user_addr j high (omega arith) (inl low) h
    ∙ insw_brings (disk (u32 (sec + 0))) 512 0 tmp_user_addr (tmp_user_addr + j) j m (omega arith) h
        refl
    ∙ ap (λ x. disk x (0 + j)) e
    ∙ ap (disk sec) zero_add
  where
    zero_add : 0 + j ≡ j
    zero_add = omega arith

-- It leaves all else but the transfer buffer.
pub read_sectors-Outside :
    (disk : Disk) (addr sec a : ℕ) (m : Mem)
    → addr + 512 ≤ 2 ^ 32
    → Outside addr 512 a
    → Outside tmp_user_addr 512 a
    → read_sectors disk addr sec 1 m a ≡ m a
unfolding read_sectors read_rounds readsect
read_sectors-Outside disk addr sec a m high o o' =
    memcpy-Outside 512 (insw (disk (u32 (sec + 0))) 512 0 tmp_user_addr m) addr tmp_user_addr a high
      (omega arith) o
    ∙ insw-Outside (disk (u32 (sec + 0))) 512 0 tmp_user_addr a m (omega arith) o'

-- The same with the address and the sector worked out.
pub read_sectors_at :
    (disk : Disk) (addr sec j a s : ℕ) (m : Mem)
    → tmp_user_addr + 512 ≤ addr
    → addr + 512 ≤ 2 ^ 32
    → sec < 2 ^ 32
    → j < 512
    → a ≡ addr + j
    → s ≡ sec
    → read_sectors disk addr sec 1 m a ≡ disk s j
read_sectors_at disk addr sec j a s m low high fits h e e' =
    rw (e, e') (read_sectors_one disk addr sec j m low high fits h)
