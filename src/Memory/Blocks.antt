-- ===== src/Memory/Blocks.antt =====
-- What `memset` and `memcpy` leave in memory, for blocks that do not run over the end of it.
use advanced_os.Base.{
  ℕ, zero, suc, ◌+◌, ◌^◌, ◌≤◌, ◌<◌, ◌≡◌, refl, ◌⊎◌, arith, update, ◌∙◌, ap, update_ne, update_self,
  ℕ_discrete,
}
use advanced_os.Memory.{Mem, u32, memset, memcpy}

-- An address outside a block of `n` bytes at `d`.
abbrev pub Outside : (d n a : ℕ) → Type 0
Outside d n a = (a < d) ⊎ (d + n ≤ a)

-- A copy writes nothing outside its destination.
pub memcpy-Outside :
    (n : ℕ) (m : Mem) (d s a : ℕ)
    → d + n ≤ 2 ^ 32
    → s + n ≤ 2 ^ 32
    → Outside d n a
    → memcpy m d s n a ≡ m a
unfolding memcpy
memcpy-Outside zero m d s a hd hs o = refl
memcpy-Outside (suc zero) m d s a hd hs o = update_ne m (m s) {i = d} {j = a} (omega arith)
memcpy-Outside (suc (suc n)) m d s a hd hs o =
    memcpy-Outside (suc n) (update m d (m s)) (u32 (d + 1)) (u32 (s + 1)) a (omega arith)
      (omega arith) (omega arith)
    ∙ update_ne m (m s) {i = d} {j = a} (omega arith)

-- `memcpy` of blocks that lie below 2 ^ 32 and do not overlap: each byte of the source arrives.
pub memcpy_copies :
    (n : ℕ) (m : Mem) (d s j : ℕ)
    → d + n ≤ 2 ^ 32
    → s + n ≤ 2 ^ 32
    → (s + n ≤ d) ⊎ (d + n ≤ s)
    → j < n
    → memcpy m d s n (d + j) ≡ m (s + j)
unfolding memcpy
memcpy_copies zero m d s j hd hs o lt = absurd (omega arith)
memcpy_copies (suc zero) m d s zero hd hs o lt =
    let e : d + 0 ≡ d = omega arith in
    let e' : s ≡ s + 0 = omega arith in ap (update m d (m s)) e ∙ update_self m (m s) d ∙ ap m e'
memcpy_copies (suc (suc n)) m d s zero hd hs o lt =
    let e : d + 0 ≡ d = omega arith in
    let e' : s ≡ s + 0 = omega arith in
    memcpy-Outside (suc n) (update m d (m s)) (u32 (d + 1)) (u32 (s + 1)) (d + 0) (omega arith)
      (omega arith) (omega arith)
    ∙ ap (update m d (m s)) e
    ∙ update_self m (m s) d
    ∙ ap m e'
memcpy_copies (suc zero) m d s (suc j) hd hs o lt = absurd (omega arith)
memcpy_copies (suc (suc n)) m d s (suc j) hd hs o lt =
    let e : d + suc j ≡ u32 (d + 1) + j = omega arith in
    let e' : u32 (s + 1) + j ≡ s + suc j = omega arith in
    ap (memcpy (update m d (m s)) (u32 (d + 1)) (u32 (s + 1)) (suc n)) e
    ∙ memcpy_copies (suc n) (update m d (m s)) (u32 (d + 1)) (u32 (s + 1)) j (omega arith)
        (omega arith) (omega arith) (omega arith)
    ∙ ap (update m d (m s)) e'
    ∙ update_ne m (m s) {i = d} {j = s + suc j} (omega arith)

-- `memset` fills its block, and writes nothing else.
pub memset_lem :
    (n : ℕ) (m : Mem) (d v a : ℕ)
    → d + n ≤ 2 ^ 32
    → ((d ≤ a) × (a < d + n) → memset m d v n a ≡ v) × (Outside d n a → memset m d v n a ≡ m a)
unfolding memset
memset_lem zero m d v a h = (λ x. absurd (omega arith), λ x. refl)
memset_lem (suc n) m d v a h =
    let ih = memset_lem n (update m (u32 (d + n)) v) d v a (omega arith) in
    (
      λ x. elim (ℕ_discrete a (d + n)) [
        | yes e ↦
            ap (memset (update m (u32 (d + n)) v) d v n) e
            ∙ (memset_lem n (update m (u32 (d + n)) v) d v (d + n) (omega arith)).1 (omega arith)
            ∙ ground arith
        | no ne ↦ ih.0 (omega arith)
      ],
      λ x. ih.1 (omega arith) ∙ update_ne m v {i = u32 (d + n)} {j = a} (omega arith),
    )
