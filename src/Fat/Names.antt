-- ===== src/Fat/Names.antt =====
-- Names that are written to a directory entry and built from it again.
use advanced_os.Base.{
  ℕ, zero, suc, ◌+◌, ◌≤◌, ◌<◌, ◌≡◌, refl, sym, ap, ◌∙◌, ◌≢◌, List, [], ◌∷◌, ◌++◌, append_assoc,
  arith, ℕ_discrete, length, get_or, All, update, update_self, update_ne, ==_ne, length-append,
}
use advanced_os.Memory.{Mem}
use advanced_os.Cstr.{strlen, tolower, lower_char}
use advanced_os.Fat.Entry.{string_in, copy_field, add_dot, name_buffer, fat12_construct_file_name}
use advanced_os.Fat.Cells.{
  All-append, All-map, Holds, cells-append, copy_field-Holds, get_or-over, string_in-cells,
  strlen-length,
}

-- A character of a name: no NUL, space or dot, and no upper-case letter.
abbrev pub IsPart : ℕ → Type 0
IsPart c = ((0 < c) × (c < 256)) × ((c ≢ b' ') × ((c ≢ b'.') × (lower_char c ≡ c)))

-- A part of a name that fills at least one byte of a field, and at most `w`.
abbrev pub Fits : (w : ℕ) → List ℕ → Type 0
Fits w s = ((0 < length s) × (length s ≤ w)) × All IsPart s

dot_text : (s : List ℕ) → length (s ++ b'.' ∷ []) ≡ length s + 1
dot_text s = length-append s (b'.' ∷ [])

dot_right :
    (name : ℕ → ℕ) (stem : List ℕ)
    → ((q : ℕ) → name q ≡ get_or stem q 0)
    → (j : ℕ)
    → update (update name (length stem) b'.') (length stem + 1) 0 (length stem + j)
      ≡ get_or (b'.' ∷ []) j 0
dot_right name stem h zero = ground arith
dot_right name stem h (suc zero) = ground arith
dot_right name stem h (suc (suc j)) =
    update_ne (update name (length stem) b'.') 0 (omega arith)
    ∙ (update_ne name b'.' (omega arith)
        ∙ (h (length stem + suc (suc j))
            ∙ get_or-over stem (length stem + suc (suc j)) (omega arith)))

-- The dot behind a stem.
add_dot-cells :
    (name : ℕ → ℕ) (stem : List ℕ)
    → All (λ c. 0 < c) stem
    → length stem ≤ 8
    → ((q : ℕ) → name q ≡ get_or stem q 0)
    → ((q : ℕ) → (add_dot name).dotted q ≡ get_or (stem ++ b'.' ∷ []) q 0)
      × ((add_dot name).k ≡ length stem + 1)
unfolding add_dot
add_dot-cells name stem p l h =
    let e : strlen (string_in name 13 0) ≡ length stem =
      ap strlen (string_in-cells name stem p (omega arith) h) ∙ strlen-length stem in
    let buf = update (update name (length stem) b'.') (length stem + 1) 0 in
    let cells : (q : ℕ) → buf q ≡ get_or (stem ++ b'.' ∷ []) q 0 =
      cells-append buf stem (b'.' ∷ []) (λ q b. ground (arith, h q)) (dot_right name stem h) in
    let full : strlen (string_in buf 13 0) ≡ length stem + 1 =
      ap strlen (
        string_in-cells buf (stem ++ b'.' ∷ [])
          (All-append (λ c. 0 < c) stem (b'.' ∷ []) p (omega arith, tt))
          (omega (arith, dot_text stem)) cells)
      ∙ (strlen-length (stem ++ b'.' ∷ []) ∙ dot_text stem) in
    rw e (cells, full)

first_part : (w : ℕ) (s : List ℕ) → Fits w s → get_or s 0 b' ' ≢ b' '
first_part w [] h = absurd (omega (arith, h.0.0))
first_part w (c ∷ s) h = h.1.0.1.0

pub name_length : (stem ext : List ℕ) → length (stem ++ b'.' ∷ ext) ≡ length stem + 1 + length ext
name_length stem ext = let e = length-append stem (b'.' ∷ ext) in omega arith

-- The extension behind the dot.
extension-cells :
    (field dotted : ℕ → ℕ) (k : ℕ) (stem ext : List ℕ)
    → Fits 3 ext
    → Holds b' ' field 0 ext 3
    → k ≡ length stem + 1
    → ((q : ℕ) → dotted q ≡ get_or (stem ++ b'.' ∷ []) q 0)
    → (q : ℕ) → copy_field field k 3 0 dotted q ≡ get_or (stem ++ b'.' ∷ ext) q 0
extension-cells field dotted k stem ext x hx e d q =
    let len : length (stem ++ b'.' ∷ []) ≡ k = dot_text stem ∙ sym e in
    let copied =
      copy_field-Holds field k 3 0 ext dotted
        (All-map IsPart (λ c. c ≢ b' ') ext (λ c p. p.1.0) x.1) x.0.1 hx
        (λ j. d (0 + k + j) ∙ get_or-over (stem ++ b'.' ∷ []) (0 + k + j) (omega arith)) in
    let whole =
      cells-append (copy_field field k 3 0 dotted) (stem ++ b'.' ∷ []) ext
        (λ q b. copied.1 q (omega arith) ∙ d q)
        (λ j.
          let g : length (stem ++ b'.' ∷ []) + j ≡ 0 + k + j = omega arith in
          ap (copy_field field k 3 0 dotted) g ∙ copied.0 j) in
    whole q ∙ ap (λ (t : List ℕ). get_or t q 0) (append_assoc stem (b'.' ∷ []) ext)

-- What a name's buffer holds, for an entry with the two parts in its fields.
name_buffer-cells :
    (m : Mem) (f : ℕ) (stem ext : List ℕ)
    → Fits 8 stem
    → Fits 3 ext
    → Holds b' ' (λ j. m (f + j)) 0 stem 8
    → Holds b' ' (λ j. m (f + 8 + j)) 0 ext 3
    → (q : ℕ) → name_buffer m f q ≡ get_or (stem ++ b'.' ∷ ext) q 0
unfolding name_buffer
name_buffer-cells m f stem ext s x hs hx q =
    let named =
      copy_field-Holds (λ j. m (f + j)) 0 8 0 stem (λ _. 0)
        (All-map IsPart (λ c. c ≢ b' ') stem (λ c p. p.1.0) s.1) s.0.1 hs (λ j. refl) in
    let name = copy_field (λ j. m (f + j)) 0 8 0 (λ _. 0) in
    let dot =
      add_dot-cells name stem (All-map IsPart (λ c. 0 < c) stem (λ c p. p.0.0) s.1) s.0.1
        (λ q. ap name (omega arith) ∙ named.0 q) in
    let first : m (f + 8) ≢ b' ' =
      λ e. first_part 3 ext x (sym (hx 0 (omega arith)) ∙ (ap m (omega arith) ∙ e)) in
    let len = name_length stem ext in
    let text = stem ++ b'.' ∷ ext in
    let full = copy_field (λ j. m (f + 8 + j)) (add_dot name).k 3 0 (add_dot name).dotted in
    let cells =
      extension-cells (λ j. m (f + 8 + j)) (add_dot name).dotted (add_dot name).k stem ext x hx
        dot.1 dot.0 in
    rw (==_ne (m (f + 8)) b' ' first) (elim (ℕ_discrete q 12) [
      | yes e ↦
          let over = get_or-over text 12 (omega (arith, s.0.1, x.0.1)) in
          rw e (update_self full 0 12 ∙ sym over)
      | no n ↦ update_ne full 0 (λ e. n (sym e)) ∙ cells q
    ])

tolower-part : (s : List ℕ) → All IsPart s → tolower s ≡ s
unfolding tolower
tolower-part [] a = refl
tolower-part (c ∷ s) a = rw (a.0.1.1.1, tolower-part s a.1) refl

tolower-dot : (s t : List ℕ) → All IsPart s → All IsPart t → tolower (s ++ b'.' ∷ t) ≡ s ++ b'.' ∷ t
unfolding tolower
tolower-dot [] t a b = ap (λ (u : List ℕ). b'.' ∷ u) (tolower-part t b)
tolower-dot (c ∷ s) t a b = rw (a.0.1.1.1, tolower-dot s t a.1 b) refl

-- The name of an entry whose fields hold a stem and an extension, filled up with spaces, is the
-- stem, a dot and the extension.
pub fat12_construct_file_name-parts :
    (m : Mem) (f : ℕ) (stem ext : List ℕ)
    → Fits 8 stem
    → Fits 3 ext
    → Holds b' ' m f stem 8
    → Holds b' ' m (f + 8) ext 3
    → fat12_construct_file_name m f ≡ stem ++ b'.' ∷ ext
unfolding fat12_construct_file_name
fat12_construct_file_name-parts m f stem ext s x hs hx =
    let positive = All-map IsPart (λ c. 0 < c) in
    let chars =
      All-append (λ c. 0 < c) stem (b'.' ∷ ext) (positive stem (λ c p. p.0.0) s.1)
        (omega arith, positive ext (λ c p. p.0.0) x.1) in
    let cells =
      name_buffer-cells m f stem ext s x (λ j b. ap m (omega arith) ∙ hs j b)
        (λ j b. ap m (omega arith) ∙ hx j b) in
    let text =
      string_in-cells (name_buffer m f) (stem ++ b'.' ∷ ext) chars
        (omega (arith, name_length stem ext, s.0.1, x.0.1)) cells in
    ap tolower text ∙ tolower-dot stem ext s.1 x.1
