-- ===== src/Console/Cursor.antt =====
-- Where `putchar` and `print` of include/stdio.h leave the cursor of the terminal that is shown.
use advanced_os.Base.{
  All, ℕ, ◌≡◌, ◌+◌, ◌-◌, ◌*◌, ◌/◌, ◌^◌, ◌<◌, ◌≤◌, ◌≢◌, ◌==◌, ltb, if◌then◌else◌, true, none, arith,
  List, [], ◌∷◌, ap, ◌∙◌,
}
use advanced_os.Memory.{u32, u8}
use advanced_os.Console.{
  Console, is_shown, handle_scrolling, draw, advance, putchar, place, print, print_at, put_string,
  set_cursor, get_cursor,
}
use advanced_os.Console.Screen.{handle_scrolling-IsDrawing, draw-IsDrawing, putchar-IsDrawing}

-- The cell that a character moves the cursor to, and the cell after scrolling, of 25 rows of 80.
abbrev pub next_cell : (ch r : ℕ) → ℕ
next_cell ch r = if ch == 10 then (r / 80 + 1) * 80 else if ch == 8 then r - 1 else r + 1

abbrev pub on_screen : ℕ → ℕ
on_screen r = if ltb r 2000 then r else r - 80

handle_scrolling-offset :
    (offset : ℕ) (c : Console)
    → offset < 2 ^ 31
    → (handle_scrolling offset c).0 / 2 ≡ on_screen (offset / 2)
unfolding handle_scrolling
handle_scrolling-offset offset c h = ground arith

handle_scrolling-small :
    (offset : ℕ) (c : Console) → offset < 2 ^ 16 → (handle_scrolling offset c).0 < 2 ^ 16
unfolding handle_scrolling
handle_scrolling-small offset c h = ground arith

advance-cursor :
    (offset : ℕ) (c : Console)
    → is_shown c ≡ true
    → u32 (offset + 2) < 2 ^ 16
    → (advance (offset, c)).cursor_reg ≡ on_screen (u32 (offset + 2) / 2)
unfolding advance set_cursor
advance-cursor offset c h small =
    let (v, r, e) = handle_scrolling-IsDrawing (u32 (offset + 2)) c h in
    let shown : is_shown (handle_scrolling (u32 (offset + 2)) c).1 ≡ true = ap is_shown e ∙ h in
    let below = handle_scrolling-small (u32 (offset + 2)) c small in
    let at = handle_scrolling-offset (u32 (offset + 2)) c (omega arith) in rw shown (ground arith)

-- The offset of `draw`, at cell `r`.
draw-offset :
    (ch r a : ℕ) (c : Console)
    → r < 2000
    → (ch ≡ 8 → 1 ≤ r)
    → (u32 ((draw ch (r * 2) a c).0 + 2) / 2 ≡ next_cell ch r)
      × (u32 ((draw ch (r * 2) a c).0 + 2) < 2 ^ 16)
unfolding draw
draw-offset ch r a c h back = (ground arith, ground arith)

-- A character printed at the cursor, which is at cell `r` of the shown screen, moves it to the next
-- cell (a newline to the next row, a backspace, which must not come at cell 0, to the cell before),
-- one row up again if that is past the end.
pub putchar-cursor :
    (ch attribute : ℕ) (c : Console)
    → is_shown c ≡ true
    → c.cursor_reg < 2000
    → (ch ≡ 8 → 1 ≤ c.cursor_reg)
    → (putchar ch none attribute c).cursor_reg ≡ on_screen (next_cell ch c.cursor_reg)
unfolding putchar place get_cursor
putchar-cursor ch attribute c h r back =
    let a = if attribute == 0 then u8 c.attribute_val else attribute in
    let d = draw ch (c.cursor_reg * 2) a c in
    let (v, g, e) = draw-IsDrawing ch (c.cursor_reg * 2) a c h in
    let (at, small) = draw-offset ch c.cursor_reg a c r back in
    rw h (advance-cursor d.0 d.1 (ap is_shown e ∙ h) small ∙ ap on_screen at)

next_cell-bound : (ch r : ℕ) → r < 2000 → on_screen (next_cell ch r) < 2000
next_cell-bound ch r h = ground arith

-- Printing a text without backspaces on the shown terminal keeps the cursor on the screen.
pub print-bound :
    (message : List ℕ) (c : Console)
    → All (λ ch. ch ≢ 8) message
    → is_shown c ≡ true
    → c.cursor_reg < 2000
    → (print message c).cursor_reg < 2000
unfolding print print_at put_string
print-bound [] c ok h r = r
print-bound (ch ∷ message) c ok h r =
    let (v, g, e) = putchar-IsDrawing ch none (λ c. u8 c.attribute_val) c h in
    let at = putchar-cursor ch (u8 c.attribute_val) c h r (λ q. absurd (ok.0 q)) in
    let next = next_cell-bound ch c.cursor_reg r in
    print-bound message (putchar ch none (u8 c.attribute_val) c) ok.1 (ap is_shown e ∙ h)
      (omega arith)
