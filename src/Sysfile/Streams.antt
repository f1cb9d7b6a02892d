-- ===== src/Sysfile/Streams.antt =====
-- Files that are written: the bytes between the buffer and `pos` are those of the calls, in their
-- order.
use advanced_os.Base.{
  ℕ, zero, suc, ◌+◌, ◌-◌, ◌*◌, ◌^◌, ◌≤◌, ◌<◌, ◌≡◌, refl, sym, ap, ◌∙◌, ◌⊎◌, inl, true, List, [],
  ◌∷◌, ◌++◌, append_assoc, append-nil, arith, All, update_self,
}
use advanced_os.Memory.{Mem, u32, memcpy}
use advanced_os.Memory.Blocks.{memcpy_copies, memcpy-Outside}
use advanced_os.Sysfile.{
  Files, buffer_of, buffer_size, put_file, set_mem, has_mode, append_bytes, do_fwrite,
}

-- The `n` bytes from `a` on.
abbrev pub bytes_at : Mem → (a n : ℕ) → List ℕ
bytes_at m a zero = []
bytes_at m a (suc n) = m a ∷ bytes_at m (a + 1) n

bytes_at-eq :
    (m w : Mem) (a b n : ℕ)
    → ((j : ℕ) → j < n → m (a + j) ≡ w (b + j))
    → bytes_at m a n ≡ bytes_at w b n
bytes_at-eq m w a b zero h = refl
bytes_at-eq m w a b (suc n) h =
    let first : m a ≡ w b = ap m (omega arith) ∙ (h 0 (omega arith) ∙ ap w (omega arith)) in
    let later =
      bytes_at-eq m w (a + 1) (b + 1) n
        (λ j l. ap m (omega arith) ∙ (h (suc j) (omega arith) ∙ ap w (omega arith))) in
    rw (first, later) refl

bytes_at-append :
    (m : Mem) (a n k : ℕ) → bytes_at m a (n + k) ≡ bytes_at m a n ++ bytes_at m (a + n) k
bytes_at-append m a zero k =
    let e : zero + k ≡ k = omega arith in let e' : a + zero ≡ a = omega arith in rw (e, e') refl
bytes_at-append m a (suc n) k =
    let e : suc n + k ≡ suc (n + k) = omega arith in
    let e' : a + suc n ≡ a + 1 + n = omega arith in
    rw (e, e') (ap (λ (t : List ℕ). m a ∷ t) (bytes_at-append m (a + 1) n k))

-- What has been written to a file: the bytes up to `pos`.
abbrev pub contents : (base fp : ℕ) → Files → List ℕ
contents base fp s =
    bytes_at s.volume.mem (buffer_of base fp) ((s.file_list fp).pos - buffer_of base fp)

-- A call of `do_fwrite`: the address of the objects, their size and their number.
pub record Chunk : Type 0 where
  pub source : ℕ
  pub size : ℕ
  pub count : ℕ

abbrev pub chunk_length : Chunk → ℕ
chunk_length c = c.size * c.count

-- The calls, one after the other.
abbrev pub fwrite_all : (fp : ℕ) → List Chunk → Files → Files
fwrite_all fp [] s = s
fwrite_all fp (c ∷ cs) s = fwrite_all fp cs (do_fwrite c.source c.size c.count fp s).1

-- The bytes of the calls, as they stand in memory before the first of them.
abbrev pub all_bytes : Mem → List Chunk → List ℕ
all_bytes m [] = []
all_bytes m (c ∷ cs) = bytes_at m c.source (chunk_length c) ++ all_bytes m cs

abbrev pub total_length : List Chunk → ℕ
total_length [] = 0
total_length (c ∷ cs) = chunk_length c + total_length cs

-- A call whose objects lie below 2 ^ 32 and outside of the file's buffer.
abbrev pub IsAway : (buffer : ℕ) → Chunk → Type 0
IsAway buffer c =
    (c.source + chunk_length c ≤ 2 ^ 32)
    × ((c.source + chunk_length c ≤ buffer) ⊎ (buffer + buffer_size ≤ c.source))

-- A file that is open for writing, with room for `n` bytes.
pub record IsWritable (base fp n : ℕ) (s : Files) : Type 0 where
  pub mode : has_mode "w" (s.file_list fp) ≡ true
  pub begins : buffer_of base fp ≤ (s.file_list fp).pos
  pub room : (s.file_list fp).pos + n ≤ buffer_of base fp + buffer_size
  pub below : buffer_of base fp + buffer_size < 2 ^ 32

u32_below : (n : ℕ) → n < 2 ^ 32 → u32 n ≡ n
u32_below n l = omega arith

-- The state behind a call.
abbrev pub written : (fp : ℕ) → Chunk → Files → Files
written fp c s =
    set_mem (memcpy s.volume.mem (s.file_list fp).pos c.source (chunk_length c))
      (put_file fp (record (s.file_list fp) { pos = (s.file_list fp).pos + chunk_length c }) s)

pub do_fwrite-written :
    (base fp n : ℕ) (c : Chunk) (s : Files)
    → IsWritable base fp (chunk_length c + n) s
    → (do_fwrite c.source c.size c.count fp s).1 ≡ written fp c s
unfolding do_fwrite append_bytes
do_fwrite-written base fp n c s h =
    let len = chunk_length c in
    let room = h.room in
    let below = h.below in
    let e = u32_below len (omega arith) in
    let e' = u32_below ((s.file_list fp).pos + len) (omega arith) in rw (h.mode, e, e') refl

pub written-IsWritable :
    (base fp n : ℕ) (c : Chunk) (s : Files)
    → IsWritable base fp (chunk_length c + n) s
    → IsWritable base fp n (written fp c s)
written-IsWritable base fp n c s h =
    let len = chunk_length c in
    let f = s.file_list fp in
    let e = update_self s.file_list (record f { pos = f.pos + len }) fp in
    record {
      mode = rw e h.mode;
      begins = rw e (omega (arith, h.begins));
      room = rw e (omega (arith, h.room));
      below = h.below;
    }

-- One call appends its bytes.
written-contents :
    (base fp n : ℕ) (c : Chunk) (s : Files)
    → IsWritable base fp (chunk_length c + n) s
    → IsAway (buffer_of base fp) c
    → contents base fp (written fp c s)
      ≡ contents base fp s ++ bytes_at s.volume.mem c.source (chunk_length c)
written-contents base fp n c s h a =
    let len = chunk_length c in
    let f = s.file_list fp in
    let m = s.volume.mem in
    let b = buffer_of base fp in
    let old = f.pos - b in
    let w = memcpy m f.pos c.source len in
    let begins = h.begins in
    let room = h.room in
    let below = h.below in
    let e = update_self s.file_list (record f { pos = f.pos + len }) fp in
    let g : f.pos + len - b ≡ old + len = omega arith in
    let before =
      bytes_at-eq w m b b old (λ j l.
        memcpy-Outside len m f.pos c.source (b + j) (omega arith) a.0 (inl (omega arith))) in
    let behind = bytes_at-eq w m (b + old) c.source len (λ j l.
      ap w (omega arith)
      ∙ memcpy_copies len m f.pos c.source j (omega arith) a.0 (omega (arith, a.1)) l) in
    rw (e, g) (bytes_at-append w b old len ∙ rw (before, behind) refl)

all_bytes-written :
    (base fp n : ℕ) (c : Chunk) (s : Files) (cs : List Chunk)
    → IsWritable base fp (chunk_length c + n) s
    → IsAway (buffer_of base fp) c
    → All (IsAway (buffer_of base fp)) cs
    → all_bytes (written fp c s).volume.mem cs ≡ all_bytes s.volume.mem cs
all_bytes-written base fp n c s [] h a away = refl
all_bytes-written base fp n c s (d ∷ cs) h a away =
    let len = chunk_length c in
    let f = s.file_list fp in
    let m = s.volume.mem in
    let begins = h.begins in
    let room = h.room in
    let below = h.below in
    let first =
      bytes_at-eq (memcpy m f.pos c.source len) m d.source d.source (chunk_length d) (λ j l.
        memcpy-Outside len m f.pos c.source (d.source + j) (omega arith) a.0
          (omega (arith, away.0.1))) in
    rw (first, all_bytes-written base fp n c s cs h a away.1) refl

-- The calls of `do_fwrite` on a file that is open for writing and whose buffer has room for all of
-- their bytes, from objects outside of the buffer, append these bytes in the order of the calls to
-- what the file contains, and `pos` moves by their number. Neither the buffer nor an object runs
-- over the end of memory.
pub fwrite_all-appends :
    (base fp : ℕ) (cs : List Chunk) (s : Files)
    → IsWritable base fp (total_length cs) s
    → All (IsAway (buffer_of base fp)) cs
    → (contents base fp (fwrite_all fp cs s) ≡ contents base fp s ++ all_bytes s.volume.mem cs)
      × (((fwrite_all fp cs s).file_list fp).pos ≡ (s.file_list fp).pos + total_length cs)
fwrite_all-appends base fp [] s h a = (sym (append-nil (contents base fp s)), omega arith)
fwrite_all-appends base fp (c ∷ cs) s h a =
    let n = total_length cs in
    let f = s.file_list fp in
    let e = update_self s.file_list (record f { pos = f.pos + chunk_length c }) fp in
    let step = do_fwrite-written base fp n c s h in
    let rest =
      fwrite_all-appends base fp cs (written fp c s) (written-IsWritable base fp n c s h) a.1 in
    let here = written-contents base fp n c s h a.0 in
    let later = all_bytes-written base fp n c s cs h a.0 a.1 in
    let old = contents base fp s in
    let m = s.volume.mem in
    let all : contents base fp (written fp c s) ++ all_bytes (written fp c s).volume.mem cs
        ≡ old ++ (bytes_at m c.source (chunk_length c) ++ all_bytes m cs) =
      rw (here, later) (append_assoc old (bytes_at m c.source (chunk_length c)) (all_bytes m cs)) in
    let pos : ((written fp c s).file_list fp).pos + n ≡ f.pos + (chunk_length c + n) =
      rw e (omega arith) in
    (
      ap (λ (t : Files). contents base fp (fwrite_all fp cs t)) step ∙ (rest.0 ∙ all),
      ap (λ (t : Files). ((fwrite_all fp cs t).file_list fp).pos) step ∙ (rest.1 ∙ pos),
    )
