-- ===== src/Fat/Create.antt =====
-- The entry that `fat12_create_file` writes, and how `fat12_find_entry` finds it.
use advanced_os.Base.{
  ℕ, zero, suc, ◌+◌, ◌-◌, ◌^◌, ◌≤◌, ◌<◌, ◌≡◌, refl, sym, ap, ◌∙◌, ◌⊎◌, inl, List, [], ◌∷◌, arith,
  dec_lt, ℕ_discrete, length, get_or, update, update_self,
}
use advanced_os.Memory.{Mem}
use advanced_os.Cstr.{strlen}
use advanced_os.Fat.Entry.{string_in, strcpy_at, pad_spaces, fill_field, start_cluster, file_length}
use advanced_os.Fat.Names.{IsPart, Fits}
use advanced_os.Fat.Cells.{Holds, string_in-Holds, strlen-length, All-map}
use advanced_os.Fat.Volume.{fill_entry}

-- Every byte outside of `[a, a + n)` is the same.
abbrev pub Keeps : (a n : ℕ) → (before after : Mem) → Type 0
Keeps a n before after = (q : ℕ) → (q < a) ⊎ (a + n ≤ q) → after q ≡ before q

strcpy_at-Keeps : (m : Mem) (a : ℕ) (s : List ℕ) → Keeps a (suc (length s)) m (strcpy_at m a s)
unfolding strcpy_at
strcpy_at-Keeps m a [] q o = ground arith
strcpy_at-Keeps m a (c ∷ s) q o =
    strcpy_at-Keeps (update m a c) (a + 1) s q (ground arith) ∙ ground arith

strcpy_at-Holds : (m : Mem) (a : ℕ) (s : List ℕ) → Holds 0 (strcpy_at m a s) a s (suc (length s))
unfolding strcpy_at
strcpy_at-Holds m a [] j l = let e : j ≡ 0 = omega arith in ground arith
strcpy_at-Holds m a (c ∷ s) zero l =
    ap (strcpy_at (update m a c) (a + 1) s) (omega arith)
    ∙ (strcpy_at-Keeps (update m a c) (a + 1) s a (inl (omega arith)) ∙ update_self m c a)
strcpy_at-Holds m a (c ∷ s) (suc j) l =
    let e : a + suc j ≡ a + 1 + j = omega arith in
    ap (strcpy_at (update m a c) (a + 1) s) e
    ∙ strcpy_at-Holds (update m a c) (a + 1) s j (omega arith)

pad_spaces-Keeps : (m : Mem) (n a : ℕ) → Keeps a n m (pad_spaces m n a)
unfolding pad_spaces
pad_spaces-Keeps m zero a q o = refl
pad_spaces-Keeps m (suc n) a q o =
    pad_spaces-Keeps (update m a b' ') n (a + 1) q (ground arith) ∙ ground arith

pad_spaces-spaces : (m : Mem) (n a j : ℕ) → a ≤ j → j < a + n → pad_spaces m n a j ≡ b' '
unfolding pad_spaces
pad_spaces-spaces m zero a j l b = absurd (omega arith)
pad_spaces-spaces m (suc n) a j l b = elim (ℕ_discrete j a) [
  | yes e ↦ pad_spaces-Keeps (update m a b' ') n (a + 1) j (inl (omega arith)) ∙ ground arith
  | no ne ↦ pad_spaces-spaces (update m a b' ') n (a + 1) j (omega arith) (omega arith)
]

get_or-within : (s : List ℕ) (j : ℕ) → j < length s → get_or s j 0 ≡ get_or s j b' '
get_or-within [] j l = absurd (omega arith)
get_or-within (c ∷ s) zero l = refl
get_or-within (c ∷ s) (suc j) l = get_or-within s j (omega arith)

get_or-beyond : (s : List ℕ) (j : ℕ) → length s ≤ j → get_or s j b' ' ≡ b' '
get_or-beyond [] j l = refl
get_or-beyond (c ∷ s) zero l = absurd (omega arith)
get_or-beyond (c ∷ s) (suc j) l = get_or-beyond s j (omega arith)

-- A filled field holds the string and spaces; of the bytes behind it, the next may become NUL.
fill_field-Holds :
    (m : Mem) (a w : ℕ) (s : List ℕ)
    → w < 20
    → Fits w s
    → Holds b' ' (fill_field m a w s) a s w × Keeps a (w + 1) m (fill_field m a w s)
unfolding fill_field
fill_field-Holds m a w s wb h =
    let copied = strcpy_at m a s in
    let text =
      string_in-Holds copied 20 a s (All-map IsPart (λ c. 0 < c) s (λ c p. p.0.0) h.1)
        (omega (arith, h.0.1)) (strcpy_at-Holds m a s) in
    let len : strlen (string_in copied 20 a) ≡ length s = ap strlen text ∙ strlen-length s in
    let b : length s ≤ w = h.0.1 in
    let keeps = pad_spaces-Keeps copied (w - length s) (a + length s) in
    rw len (
      λ j l. elim (dec_lt j (length s)) [
        | yes i ↦
            keeps (a + j) (inl (omega arith))
            ∙ (strcpy_at-Holds m a s j (omega arith) ∙ get_or-within s j i)
        | no o ↦
            pad_spaces-spaces copied (w - length s) (a + length s) (a + j) (omega arith)
              (omega arith)
            ∙ sym (get_or-beyond s j (omega arith))
      ],
      λ q o. keeps q (ground arith) ∙ strcpy_at-Keeps m a s q (ground arith),
    )

-- The two names in the fields of an entry.
abbrev pub named : Mem → (f : ℕ) → (stem ext : List ℕ) → Mem
named m f stem ext = fill_field (fill_field m f 8 stem) (f + 8) 3 ext

pub named-Holds :
    (m : Mem) (f : ℕ) (stem ext : List ℕ)
    → Fits 8 stem
    → Fits 3 ext
    → Holds b' ' (named m f stem ext) f stem 8
      × (Holds b' ' (named m f stem ext) (f + 8) ext 3 × Keeps f 12 m (named m f stem ext))
named-Holds m f stem ext s x =
    let first = fill_field-Holds m f 8 stem (omega arith) s in
    let second = fill_field-Holds (fill_field m f 8 stem) (f + 8) 3 ext (omega arith) x in
    (
      λ j l. second.1 (f + j) (inl (omega arith)) ∙ first.0 j l,
      (second.0, λ q o. second.1 q (ground arith) ∙ first.1 q (ground arith)),
    )

-- The other fields are written behind the names.
pub fill_entry-Keeps :
    (m : Mem) (f cstart size : ℕ) (stem ext : List ℕ) (q : ℕ)
    → (q < f + 11) ⊎ (f + 32 ≤ q)
    → fill_entry m f cstart size stem ext q ≡ named m f stem ext q
unfolding fill_entry
fill_entry-Keeps m f cstart size stem ext q o = ground arith

pub fill_entry-fields :
    (m : Mem) (f cstart size : ℕ) (stem ext : List ℕ)
    → cstart < 2 ^ 16
    → size < 2 ^ 32
    → (start_cluster (fill_entry m f cstart size stem ext) f ≡ cstart)
      × (file_length (fill_entry m f cstart size stem ext) f ≡ size)
unfolding fill_entry
fill_entry-fields m f cstart size stem ext c z = (ground arith, ground arith)
