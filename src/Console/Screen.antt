-- ===== src/Console/Screen.antt =====
-- The cursor of include/stdio.h stays on the screen, and drawing touches the display only.
use advanced_os.Console.{
  int_div, place, before_end, u8, get_screen_offset, max_cols, max_rows, peek, put_cell, u32,
  Console, is_shown, poke, set_cursor, memory_copy, scroll_rows, blank_bytes, handle_scrolling,
  draw, advance, putchar, clear_cols, clear_rows, clear_screen,
}
use advanced_os.Base.{
  ◌%◌, ◌^◌, ◌+◌, ◌-◌, ◌*◌, ◌==◌, if◌then◌else◌, Option, some, inr, inl, ◌∙◌, Bool-cases, ap, update,
  ℕ, zero, suc, ◌≡◌, true, refl,
}

-- `c'` differs from `c` in the video memory and the cursor registers at most.
abbrev pub Drawn : (c c' : Console) → Type 0
Drawn c c' = (v : ℕ → ℕ) × (r : ℕ) × (c' ≡ record c { video = v; cursor_reg = r })

-- A routine that, on the terminal that is shown, only draws.
abbrev pub IsDrawing : (Console → Console) → Type 0
IsDrawing f = (c : Console) → is_shown c ≡ true → Drawn c (f c)

then_draw : (f g : Console → Console) → IsDrawing f → IsDrawing g → IsDrawing (λ c. g (f c))
then_draw f g df dg c h =
    let (v, r, e) = df c h in
    let (v', r', e') = dg (f c) (ap is_shown e ∙ h) in
    (v', r', e' ∙ ap (λ (x : Console). record x { video = v'; cursor_reg = r' }) e)

poke-IsDrawing : (a v : ℕ) → IsDrawing (poke a v)
unfolding poke
poke-IsDrawing a v c h = (update c.video a v, c.cursor_reg, rw h refl)

set_cursor-IsDrawing : (offset : ℕ) → IsDrawing (set_cursor offset)
unfolding set_cursor
set_cursor-IsDrawing offset c h = (c.video, int_div offset 2 % 2 ^ 16, rw h refl)

memory_copy-IsDrawing : (source dest n : ℕ) → IsDrawing (memory_copy source dest n)
unfolding memory_copy
memory_copy-IsDrawing source dest zero = λ c h. (c.video, c.cursor_reg, refl)
memory_copy-IsDrawing source dest (suc n) =
    then_draw (λ c. poke dest (peek c source) c) (memory_copy (source + 1) (dest + 1) n)
      (λ c. poke-IsDrawing dest (peek c source) c) (memory_copy-IsDrawing (source + 1) (dest + 1) n)

scroll_rows-IsDrawing : (n i : ℕ) → IsDrawing (scroll_rows n i)
unfolding scroll_rows
scroll_rows-IsDrawing zero i = λ c h. (c.video, c.cursor_reg, refl)
scroll_rows-IsDrawing (suc n) i =
    then_draw (memory_copy (get_screen_offset 0 i) (get_screen_offset 0 (i - 1)) (max_cols * 2))
      (scroll_rows n (i + 1)) (memory_copy-IsDrawing _ _ _) (scroll_rows-IsDrawing n (i + 1))

blank_bytes-IsDrawing : (n a : ℕ) → IsDrawing (blank_bytes n a)
unfolding blank_bytes
blank_bytes-IsDrawing zero a = λ c h. (c.video, c.cursor_reg, refl)
blank_bytes-IsDrawing (suc n) a =
    then_draw (poke a 0) (blank_bytes n (a + 1)) (poke-IsDrawing a 0)
      (blank_bytes-IsDrawing n (a + 1))

pub handle_scrolling-IsDrawing : (offset : ℕ) → IsDrawing (λ c. (handle_scrolling offset c).1)
unfolding handle_scrolling
handle_scrolling-IsDrawing offset c h = elim (Bool-cases (before_end offset)) [
  | inl e ↦ rw e (c.video, c.cursor_reg, refl)
  | inr e ↦ rw e (
      then_draw (scroll_rows 24 1) (blank_bytes (max_cols * 2) (get_screen_offset 0 (max_rows - 1)))
        (scroll_rows-IsDrawing 24 1) (blank_bytes-IsDrawing _ _) c h)
]

put_cell-IsDrawing : (offset ch attribute : ℕ) → IsDrawing (put_cell offset ch attribute)
put_cell-IsDrawing offset ch attribute =
    then_draw (poke offset ch) (poke (u32 (offset + 1)) attribute) (poke-IsDrawing _ _)
      (poke-IsDrawing _ _)

pub draw-IsDrawing : (ch offset attribute : ℕ) → IsDrawing (λ c. (draw ch offset attribute c).1)
unfolding draw
draw-IsDrawing ch offset attribute c h = elim (Bool-cases (ch == 10)) [
  | inl e ↦ rw e (c.video, c.cursor_reg, refl)
  | inr e ↦ elim (Bool-cases (ch == 8)) [
    | inl e' ↦ rw (e, e') (put_cell-IsDrawing _ 32 attribute c h)
    | inr e' ↦ rw (e, e') (put_cell-IsDrawing offset ch attribute c h)
  ]
]

advance-IsDrawing : (offset : ℕ) → IsDrawing (λ c. advance (offset, c))
unfolding advance
advance-IsDrawing offset c h =
    let (v, r, e) = handle_scrolling-IsDrawing (u32 (offset + 2)) c h in
    let (v', r', e') = set_cursor-IsDrawing _ _ (ap is_shown e ∙ h) in
    (v', r', e' ∙ ap (λ (x : Console). record x { video = v'; cursor_reg = r' }) e)

pub putchar-IsDrawing :
    (ch : ℕ) (at : Option (ℕ × ℕ)) (attribute : Console → ℕ)
    → IsDrawing (λ c. putchar ch at (attribute c) c)
unfolding putchar
putchar-IsDrawing ch at attribute c h =
    let a = if attribute c == 0 then u8 c.attribute_val else attribute c in
    let (v, r, e) = draw-IsDrawing ch (place at c) a c h in
    let (v', r', e') =
      advance-IsDrawing (draw ch (place at c) a c).0 (draw ch (place at c) a c).1
        (ap is_shown e ∙ h) in
    (v', r', e' ∙ ap (λ (x : Console). record x { video = v'; cursor_reg = r' }) e)

clear_cols-IsDrawing : (n col row : ℕ) → IsDrawing (clear_cols n col row)
unfolding clear_cols
clear_cols-IsDrawing zero col row = λ c h. (c.video, c.cursor_reg, refl)
clear_cols-IsDrawing (suc n) col row =
    then_draw (λ c. putchar 32 (some (col, row)) (u8 c.attribute_val) c)
      (clear_cols n (col + 1) row) (putchar-IsDrawing 32 _ (λ c. u8 c.attribute_val))
      (clear_cols-IsDrawing n (col + 1) row)

clear_rows-IsDrawing : (n row : ℕ) → IsDrawing (clear_rows n row)
unfolding clear_rows
clear_rows-IsDrawing zero row = λ c h. (c.video, c.cursor_reg, refl)
clear_rows-IsDrawing (suc n) row =
    then_draw (clear_cols max_cols 0 row) (clear_rows n (row + 1)) (clear_cols-IsDrawing _ 0 row)
      (clear_rows-IsDrawing n (row + 1))

-- On the shown terminal `clear_screen` changes the video memory and the cursor registers only.
pub clear_screen-IsDrawing : IsDrawing clear_screen
unfolding clear_screen
clear_screen-IsDrawing =
    then_draw (clear_rows max_rows 0) (set_cursor (get_screen_offset 0 0))
      (clear_rows-IsDrawing max_rows 0) (set_cursor-IsDrawing _)
