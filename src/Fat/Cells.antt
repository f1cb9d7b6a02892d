-- ===== src/Fat/Cells.antt =====
-- Buffers that hold strings, cell by cell.
use advanced_os.Base.{
  ℕ, zero, suc, ◌+◌, ◌-◌, ◌≤◌, ◌<◌, ◌≡◌, refl, sym, ap, ◌∙◌, ◌≢◌, List, [], ◌∷◌, ◌++◌, arith,
  dec_lt, length, get_or, All, update, update_self, update_ne, ==_ne,
}
use advanced_os.Cstr.{strlen}
use advanced_os.Fat.Entry.{string_in, copy_field}

-- A buffer holds a string from `a` on, followed by `d`.
abbrev pub Holds : (d : ℕ) → (ℕ → ℕ) → (a : ℕ) → List ℕ → (n : ℕ) → Type 0
Holds d buf a s n = (j : ℕ) → j < n → buf (a + j) ≡ get_or s j d

Holds-tail :
    (d : ℕ) (buf : ℕ → ℕ) (a c : ℕ) (s : List ℕ) (n : ℕ)
    → Holds d buf a (c ∷ s) (suc n)
    → Holds d buf (a + 1) s n
Holds-tail d buf a c s n h j l =
    let e : a + 1 + j ≡ a + suc j = omega arith in rw e (h (suc j) (omega arith))

Holds-head :
    (d : ℕ) (buf : ℕ → ℕ) (a : ℕ) (s : List ℕ) (n : ℕ)
    → Holds d buf a s n
    → 0 < n
    → buf a ≡ get_or s 0 d
Holds-head d buf a s n h l = ap buf (omega arith) ∙ h 0 l

-- A character, and what follows it.
Holds_cons :
    (buf : ℕ → ℕ) (a c : ℕ) (s : List ℕ)
    → buf a ≡ c
    → ((j : ℕ) → buf (a + 1 + j) ≡ get_or s j 0)
    → (j : ℕ) → buf (a + j) ≡ get_or (c ∷ s) j 0
Holds_cons buf a c s e h zero = ap buf (omega arith) ∙ e
Holds_cons buf a c s e h (suc j) = ap buf (omega arith) ∙ h j

pub strlen-length : (s : List ℕ) → strlen s ≡ length s
unfolding strlen
strlen-length [] = refl
strlen-length (c ∷ s) = omega (arith, strlen-length s)

-- The string that a buffer holds up to its NUL.
pub string_in-Holds :
    (buf : ℕ → ℕ) (n a : ℕ) (s : List ℕ)
    → All (λ c. 0 < c) s
    → length s < n
    → Holds 0 buf a s (suc (length s))
    → string_in buf n a ≡ s
unfolding string_in
string_in-Holds buf zero a s p l h = absurd (omega arith)
string_in-Holds buf (suc n) a [] p l h =
    let e = Holds-head 0 buf a [] 1 h (omega arith) in rw e refl
string_in-Holds buf (suc n) a (c ∷ s) p l h =
    let e = Holds-head 0 buf a (c ∷ s) (suc (suc (length s))) h (omega arith) in
    rw (
      e,
      ==_ne c 0 (omega (arith, p.0)),
      string_in-Holds buf n (a + 1) s p.1 (omega arith) (Holds-tail 0 buf a c s (suc (length s)) h),
    )

-- A field that holds a string, filled with spaces, is copied to a buffer of NULs.
pub copy_field-Holds :
    (field : ℕ → ℕ) (k n i : ℕ) (s : List ℕ) (name : ℕ → ℕ)
    → All (λ c. c ≢ b' ') s
    → length s ≤ n
    → Holds b' ' field i s n
    → ((j : ℕ) → name (i + k + j) ≡ 0)
    → ((j : ℕ) → copy_field field k n i name (i + k + j) ≡ get_or s j 0)
      × ((q : ℕ) → q < i + k → copy_field field k n i name q ≡ name q)
unfolding copy_field
copy_field-Holds field k zero i [] name p l h z = (z, λ q b. refl)
copy_field-Holds field k zero i (c ∷ s) name p l h z = absurd (omega arith)
copy_field-Holds field k (suc n) i [] name p l h z =
    let e : field i ≡ b' ' = Holds-head b' ' field i [] (suc n) h (omega arith) in
    rw e (λ j. ground (arith, z j), λ q b. update_ne name 0 (omega arith))
copy_field-Holds field k (suc n) i (c ∷ s) name p l h z =
    let e : field i ≡ c = Holds-head b' ' field i (c ∷ s) (suc n) h (omega arith) in
    let name' = update name (i + k) c in
    let ih =
      copy_field-Holds field k n (i + 1) s name' p.1 (omega arith) (Holds-tail b' ' field i c s n h)
        (λ j. update_ne name c (omega arith) ∙ (ap name (omega arith) ∙ z (suc j))) in
    rw (e, ==_ne c b' ' p.0)
      (
        Holds_cons (copy_field field k n (i + 1) name') (i + k) c s
            (ih.1 (i + k) (omega arith) ∙ update_self name c (i + k))
            (λ j.
              let g : i + k + 1 + j ≡ i + 1 + k + j = omega arith in
              ap (copy_field field k n (i + 1) name') g ∙ ih.0 j),
        λ q b. ih.1 q (omega arith) ∙ update_ne name c (omega arith),
      )

pub get_or-left : (s t : List ℕ) (j : ℕ) → j < length s → get_or (s ++ t) j 0 ≡ get_or s j 0
get_or-left [] t j l = absurd (omega arith)
get_or-left (c ∷ s) t zero l = refl
get_or-left (c ∷ s) t (suc j) l = get_or-left s t j (omega arith)

pub get_or-right : (s t : List ℕ) (j : ℕ) → get_or (s ++ t) (length s + j) 0 ≡ get_or t j 0
get_or-right [] t j = ap (λ (x : ℕ). get_or t x 0) (omega arith)
get_or-right (c ∷ s) t j =
    let e : suc (length s) + j ≡ suc (length s + j) = omega arith in
    ap (λ (x : ℕ). get_or (c ∷ s ++ t) x 0) e ∙ get_or-right s t j

pub get_or-over : (s : List ℕ) (j : ℕ) → length s ≤ j → get_or s j 0 ≡ 0
get_or-over [] j l = refl
get_or-over (c ∷ s) zero l = absurd (omega arith)
get_or-over (c ∷ s) (suc j) l = get_or-over s j (omega arith)

-- A buffer that holds two strings one after the other holds them appended.
pub cells-append :
    (buf : ℕ → ℕ) (s t : List ℕ)
    → ((q : ℕ) → q < length s → buf q ≡ get_or s q 0)
    → ((j : ℕ) → buf (length s + j) ≡ get_or t j 0)
    → (q : ℕ) → buf q ≡ get_or (s ++ t) q 0
cells-append buf s t f g q = elim (dec_lt q (length s)) [
  | yes l ↦ f q l ∙ sym (get_or-left s t q l)
  | no n ↦
      let e : q ≡ length s + (q - length s) = omega arith in
      ap buf e
      ∙ (g (q - length s)
          ∙ (sym (get_or-right s t (q - length s)) ∙ ap (λ (x : ℕ). get_or (s ++ t) x 0) (sym e)))
]

-- Cells that hold a string and NULs behind it, as a name.
pub string_in-cells :
    (buf : ℕ → ℕ) (s : List ℕ)
    → All (λ c. 0 < c) s
    → length s < 13
    → ((q : ℕ) → buf q ≡ get_or s q 0)
    → string_in buf 13 0 ≡ s
string_in-cells buf s p l h = string_in-Holds buf 13 0 s p l (λ j _. ap buf (omega arith) ∙ h j)

pub All-append : (P : ℕ → Type 0) (s t : List ℕ) → All P s → All P t → All P (s ++ t)
All-append P [] t a b = b
All-append P (c ∷ s) t a b = (a.0, All-append P s t a.1 b)

pub All-map : (P Q : ℕ → Type 0) (s : List ℕ) → ((c : ℕ) → P c → Q c) → All P s → All Q s
All-map P Q [] f a = tt
All-map P Q (c ∷ s) f a = (f c a.0, All-map P Q s f a.1)
