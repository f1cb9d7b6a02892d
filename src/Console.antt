-- ===== src/Console.antt =====
-- The console: the screen output of include/stdio.h and the terminals of include/terminal.h.
-- Offsets into the display are `int` bit patterns.
pub mod Screen
pub mod Cursor
pub mod Switching
use advanced_os.Base.{
  ℕ, zero, suc, ◌+◌, ◌-◌, ◌*◌, ◌%◌, ◌^◌, ◌==◌, ◌||◌, ltb, if◌then◌else◌, Bool, true, false, Option,
  none, some, List, [], ◌∷◌, update, bit_or,
}
use advanced_os.Memory.{u32, u8, is_negative, int_div}
use advanced_os.Cstr.{strcpy, itoa}

abbrev pub max_rows : ℕ
max_rows = 25

abbrev pub max_cols : ℕ
max_cols = 80

abbrev pub video_size : ℕ
video_size = 5120

-- `struct terminal`.
pub record Terminal : Type 0 where
  pub num : ℕ
  pub cursor : ℕ
  pub buf : ℕ → ℕ
  pub path : List ℕ
  pub dir : ℕ

-- The globals. `curr_terminal` and `tmp_terminal` point into `terminal_list`; `video` is the memory
-- at VIDEO_ADDRESS, and `cursor_reg` what the registers 14 and 15 of the screen device hold.
pub record Console : Type 0 where
  pub terminal_list : ℕ → Terminal
  pub curr_terminal : ℕ
  pub tmp_terminal : ℕ
  pub video : ℕ → ℕ
  pub cursor_reg : ℕ
  pub attribute_val : ℕ
  pub curr_path : List ℕ
  pub curr_dir : ℕ
  pub enabled : Bool

abbrev pub get_current_terminal : Console → ℕ
get_current_terminal c = (c.terminal_list c.curr_terminal).num

abbrev pub set_tmp_terminal : ℕ → Console → Console
set_tmp_terminal i c = record c { tmp_terminal = i }

-- `terminal_list[i] = t`.
abbrev pub put_terminal : ℕ → Terminal → Console → Console
put_terminal i t c = record c { terminal_list = update c.terminal_list i t }

abbrev pub set_at_first_term : Console → Console
set_at_first_term c =
    put_terminal 0 (record (c.terminal_list 0) { num = 0; cursor = 0 })
      (record c { curr_terminal = 0; tmp_terminal = 0 })

-- Is the terminal that is written to the one on the screen?
abbrev pub is_shown : Console → Bool
is_shown c = (c.terminal_list c.curr_terminal).num == (c.terminal_list c.tmp_terminal).num

-- A byte at an offset from `get_terminal_buf_addr()`, read and written.
abbrev pub peek : Console → ℕ → ℕ
peek c a = if is_shown c then c.video a else (c.terminal_list c.tmp_terminal).buf a

unfoldable pub poke : (a v : ℕ) → Console → Console
poke a v c =
    if is_shown c
    then record c { video = update c.video a v }
    else put_terminal c.tmp_terminal
        (record (c.terminal_list c.tmp_terminal) {
          buf = update (c.terminal_list c.tmp_terminal).buf a v;
        })
        c

-- `set_cursor`.
unfoldable pub set_cursor : ℕ → Console → Console
set_cursor offset c =
    if is_shown c
    then record c { cursor_reg = int_div offset 2 % 2 ^ 16 }
    else put_terminal c.tmp_terminal (record (c.terminal_list c.tmp_terminal) { cursor = offset }) c

-- `get_cursor`.
unfoldable pub get_cursor : Console → ℕ
get_cursor c = if is_shown c then c.cursor_reg * 2 else (c.terminal_list c.tmp_terminal).cursor

abbrev pub get_color : (fg bg : ℕ) → ℕ
get_color fg bg = bit_or fg (u32 (bg * 2 ^ 4))

abbrev pub set_color : (fg bg : ℕ) → Console → Console
set_color fg bg c = record c { attribute_val = bit_or fg (u32 (bg * 2 ^ 4)) }

abbrev pub get_screen_offset : (col row : ℕ) → ℕ
get_screen_offset col row = u32 ((row * max_cols + col) * 2)

-- `n` rounds of `memory_copy` within the display, from `source` to `dest`.
unfoldable pub memory_copy : (source dest n : ℕ) → Console → Console
memory_copy source dest zero c = c
memory_copy source dest (suc n) c =
    memory_copy (source + 1) (dest + 1) n (poke dest (peek c source) c)

-- The loop of `handle_scrolling` over the rows, `n` of them from row `i` on.
unfoldable pub scroll_rows : (n i : ℕ) → Console → Console
scroll_rows zero i c = c
scroll_rows (suc n) i c =
    scroll_rows n (i + 1)
      (memory_copy (get_screen_offset 0 i) (get_screen_offset 0 (i - 1)) (max_cols * 2) c)

-- The loop that clears the last line, `n` bytes from `a` on.
unfoldable pub blank_bytes : (n a : ℕ) → Console → Console
blank_bytes zero a c = c
blank_bytes (suc n) a c = blank_bytes n (a + 1) (poke a 0 c)

-- Does the offset lie before the end of the screen, `cursor_offset < MAX_ROWS * MAX_COLS * 2`?
abbrev pub before_end : ℕ → Bool
before_end offset = is_negative offset || ltb offset (max_rows * max_cols * 2)

-- `handle_scrolling`: the offset that it returns, and the display.
unfoldable pub handle_scrolling : ℕ → Console → ℕ × Console
handle_scrolling offset c = if before_end offset then (offset, c) else (
  offset - 2 * max_cols,
  blank_bytes (max_cols * 2) (get_screen_offset 0 (max_rows - 1)) (scroll_rows 24 1 c),
)

-- The place of `putchar`: `none` when `col` or `row` is negative.
unfoldable pub place : Option (ℕ × ℕ) → Console → ℕ
place none c = get_cursor c
place (some (col, row)) c = get_screen_offset col row

-- A character with its attribute.
abbrev pub put_cell : (offset character attribute : ℕ) → Console → Console
put_cell offset character attribute c = poke (u32 (offset + 1)) attribute (poke offset character c)

-- The middle of `putchar`: the offset before `offset += 2`, and the display.
unfoldable pub draw : (character offset attribute : ℕ) → Console → ℕ × Console
draw character offset attribute c =
    if character == 10
    then (get_screen_offset 79 (int_div offset (2 * max_cols)), c)
    else if character == 8
    then (u32 (offset + 2 ^ 32 - 4), put_cell (u32 (offset + 2 ^ 32 - 2)) 32 attribute c)
    else (offset, put_cell offset character attribute c)

-- The end of `putchar`.
unfoldable pub advance : ℕ × Console → Console
advance (offset, c) =
    let scrolled = handle_scrolling (u32 (offset + 2)) c in set_cursor scrolled.0 scrolled.1

-- `putchar`.
unfoldable pub putchar : (character : ℕ) → Option (ℕ × ℕ) → (attribute_byte : ℕ) → Console → Console
putchar character at attribute_byte c = advance (
    draw character (place at c) (if attribute_byte == 0 then u8 c.attribute_val else attribute_byte)
      c)

-- The loop of `print_at`.
unfoldable pub put_string : List ℕ → Option (ℕ × ℕ) → Console → Console
put_string [] at c = c
put_string (ch ∷ message) at c = put_string message at (putchar ch at (u8 c.attribute_val) c)

-- `print_at`.
unfoldable pub print_at : List ℕ → Option (ℕ × ℕ) → Console → Console
print_at message none c = put_string message none c
print_at message (some (col, row)) c =
    put_string message (some (col, row)) (set_cursor (get_screen_offset col row) c)

-- `print` and `print_char`.
unfoldable pub print : List ℕ → Console → Console
print message c = print_at message none c

unfoldable pub print_char : ℕ → Console → Console
print_char ch c = putchar ch none (u8 c.attribute_val) c

-- `print_int`, for the characters of `itoa`; `none` when that leaves its buffer.
unfoldable pub print_int : (x base : ℕ) → Console → Option Console
print_int x base c = elim (itoa x base) [ none ↦ none | some str ↦ some (print str c) ]

-- The loops of `clear_screen`: `n` columns of a row from `col` on, `n` rows from `row` on.
unfoldable pub clear_cols : (n col row : ℕ) → Console → Console
clear_cols zero col row c = c
clear_cols (suc n) col row c =
    clear_cols n (col + 1) row (putchar 32 (some (col, row)) (u8 c.attribute_val) c)

unfoldable pub clear_rows : (n row : ℕ) → Console → Console
clear_rows zero row c = c
clear_rows (suc n) row c = clear_rows n (row + 1) (clear_cols max_cols 0 row c)

-- `clear_screen`.
unfoldable pub clear_screen : Console → Console
clear_screen c = set_cursor (get_screen_offset 0 0) (clear_rows max_rows 0 c)

-- `memcpy` of VIDEO_SIZE bytes, over what the destination holds.
abbrev pub copy_video : (source dest : ℕ → ℕ) → ℕ → ℕ
copy_video source dest i = if ltb i video_size then source i else dest i

-- What `change_terminal` saves in the current terminal.
unfoldable pub save_terminal : Console → Console
save_terminal c =
    put_terminal c.curr_terminal
      (record (c.terminal_list c.curr_terminal) {
        buf = copy_video c.video (c.terminal_list c.curr_terminal).buf;
        cursor = get_cursor c;
        path = strcpy c.curr_path;
        dir = c.curr_dir;
      })
      c

-- What it restores from the current terminal.
unfoldable pub load_terminal : Console → Console
load_terminal c =
    let t = c.terminal_list c.curr_terminal in
    let shown = set_cursor t.cursor (record c { video = copy_video t.buf c.video }) in
    record shown { curr_path = strcpy t.path; curr_dir = t.dir }

-- The terminal that is current after the switch; `proc` is `get_proc()`.
unfoldable pub choose_terminal : (proc : Option ℕ) (new_ter : ℕ) → Console → Console
choose_terminal none new_ter c = record c { curr_terminal = new_ter; tmp_terminal = new_ter }
choose_terminal (some p) new_ter c = record c { curr_terminal = new_ter }

-- `change_terminal`.
unfoldable pub change_terminal : (proc : Option ℕ) (new_ter : ℕ) → Console → Console
change_terminal proc new_ter c =
    let off = record c { enabled = false } in
    let done = load_terminal (clear_screen (choose_terminal proc new_ter (save_terminal off))) in
    record done { enabled = true }
