-- ===== src/Examples/Devices.antt =====
-- The theorems on strings, memory, descriptors, the console, the keyboard and the timer chip.
use advanced_os.Base.{
  ℕ, ◌+◌, ◌*◌, ◌≤◌, ◌<◌, ◌≡◌, refl, inl, inr, true, false, none, some, List, [], ◌∷◌, map, arith,
}
use advanced_os.Cstr.{itoa, strsep}
use advanced_os.Cstr.Numbers.{value_from, itoa-value}
use advanced_os.Cstr.Tokens.{Separated, strsep-Separated}
use advanced_os.Gdt.{Gdt, Idt, gdt_init, kernel_cs, kernel_ds, user_cs, user_ds}
use advanced_os.Gdt.Fields.{base_of, limit_of}
use advanced_os.Console.{Console, change_terminal, print, putchar, video_size}
use advanced_os.Console.Switching.{change_terminal-back}
use advanced_os.Console.Cursor.{on_screen, next_cell, putchar-cursor, print-bound}
use advanced_os.Keyboard.{Keyboard, keyboard_handler_main, getchar}
use advanced_os.Keyboard.Keys.{keyboard_handler_main-covered}
use advanced_os.Base.Options.{◌>>=◌}
use advanced_os.Keyboard.Typing.{first_char, getchar-first}
use advanced_os.Gdt.Segments.{IsFlat, gdt_init-segments}

itoa-value_example : (s : List ℕ) × (itoa 51966 16 ≡ some s) × (value_from 16 0 s ≡ 51966)
itoa-value_example = itoa-value 51966 16 (omega arith) (omega arith) (omega arith)

abbrev word_ab : List ℕ
word_ab = 97 ∷ 98 ∷ []

abbrev word_ac : List ℕ
word_ac = 97 ∷ 99 ∷ []

strsep-Separated_example :
    Separated
      (46 ∷ [])
      (97 ∷ 46 ∷ 98 ∷ [])
      (strsep (97 ∷ 46 ∷ 98 ∷ []) (46 ∷ [])).0
      (strsep (97 ∷ 46 ∷ 98 ∷ []) (46 ∷ [])).1
strsep-Separated_example = strsep-Separated (97 ∷ 46 ∷ 98 ∷ []) (46 ∷ [])

abbrev empty_gdt : Gdt
empty_gdt i = record { limit = 0; base_lo = 0; base_mid = 0; flags = 0; grand = 0; base_hi = 0 }

gdt_init-segments_example :
    let g = gdt_init 0x1_5000 0x68 empty_gdt in
    IsFlat g 1 kernel_cs
    × IsFlat g 0 kernel_ds
    × IsFlat g 1 user_cs
    × IsFlat g 0 user_ds
    × (g 0 ≡ record { limit = 0; base_lo = 0; base_mid = 0; flags = 0; grand = 0; base_hi = 0 })
    × (base_of (g 5) ≡ 0x1_5000)
    × ((g 5).flags ≡ 0xE9)
    × (limit_of (g 5) ≡ 0x1_5068)
    × ((i : ℕ) → 6 ≤ i → g i ≡ empty_gdt i)
gdt_init-segments_example = gdt_init-segments 0x1_5000 0x68 empty_gdt (omega arith)

abbrev empty_idt : Idt
empty_idt i = record {
  offset_lowerbits = 0;
  selector = 0;
  zero_byte = 0;
  type_attr = 0;
  offset_higherbits = 0;
}

abbrev pub console_at : ℕ → Console
console_at cell = record {
  terminal_list =
      λ i. record { num = i; cursor = i * 160; buf = λ a. 32; path = 47 ∷ []; dir = 19 };
  curr_terminal = 0;
  tmp_terminal = 0;
  video = λ a. a;
  cursor_reg = cell;
  attribute_val = 7;
  curr_path = 47 ∷ 97 ∷ [];
  curr_dir = 40;
  enabled = true;
}

change_terminal-back_example :
    let c' = change_terminal none 0 (change_terminal none 1 (console_at 100)) in
    ((i : ℕ) → i < video_size → c'.video i ≡ i)
    × (c'.cursor_reg ≡ 100)
    × (c'.curr_path ≡ 47 ∷ 97 ∷ [])
    × (c'.curr_dir ≡ 40)
change_terminal-back_example =
    change_terminal-back 1 (console_at 100) refl (omega arith) (omega arith) (omega arith)

putchar-cursor_example :
    (putchar 10 none 7 (console_at 1999)).cursor_reg ≡ on_screen (next_cell 10 1999)
putchar-cursor_example =
    putchar-cursor 10 7 (console_at 1999) refl (omega arith) (λ e. absurd (omega arith))

print-bound_example : (print (72 ∷ 105 ∷ 10 ∷ []) (console_at 1999)).cursor_reg < 2000
print-bound_example =
    print-bound (72 ∷ 105 ∷ 10 ∷ []) (console_at 1999)
      (omega arith, (omega arith, (omega arith, tt))) refl (omega arith)

abbrev held_keyboard : Keyboard
held_keyboard = record { kb_char = 0; ctrl = true; console = console_at 0; eois = 0 }

keyboard_handler_main-covered_example :
    (kb' : Keyboard) × (keyboard_handler_main none 1 0x9D held_keyboard ≡ some kb')
    × (kb'.ctrl ≡ false)
    × (kb'.eois ≡ 0 + 1)
    × (kb'.console ≡ console_at 0)
keyboard_handler_main-covered_example =
    keyboard_handler_main-covered none 1 0x9D held_keyboard refl (inr (omega arith, omega arith))

-- Ctrl is let go, Shift has no character, and then `a` is hit.
getchar-first_example :
    (getchar none (map (λ s. (1, s) ∷ []) (0x9D ∷ 42 ∷ 30 ∷ 31 ∷ [])) held_keyboard >>= λ r.
    some r.0)
    ≡ first_char (0x9D ∷ 42 ∷ 30 ∷ 31 ∷ [])
getchar-first_example = getchar-first none (0x9D ∷ 42 ∷ 30 ∷ 31 ∷ []) held_keyboard (
  inr (omega arith, omega arith),
  (inl (omega arith), (inl (omega arith), (inl (omega arith), tt))),
)
