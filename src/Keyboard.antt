-- ===== src/Keyboard.antt =====
-- The keyboard, include/keyboard.h with the table of include/scancode.h. What `getchar` reads is
-- `kb_char`.
pub mod Keys
pub mod Typing
use advanced_os.Base.{
  ℕ, zero, suc, ◌+◌, ◌-◌, ◌*◌, ◌/◌, ◌%◌, ◌^◌, ◌≤◌, ◌<◌, min, bit_and, bit_or, ◌≡◌, refl, sym, ap,
  ◌∙◌, fun_ext, ◌≢◌, ◌↔◌, ◌⊎◌, inl, inr, Bool, true, false, ◌&&◌, ◌||◌, not, Option, none, some,
  List, [], ◌∷◌, ◌++◌, map, reverse, append_assoc, append-nil, subst, arith, dec_lt, ℕ_discrete,
  ltb, leb, ◌==◌, if◌then◌else◌, Bool-cases, Option-cases, length, get_elem?, get_or, take, drop,
  All, codes, update, update_self, update_ne, first_index, first_index-some, first_index-none,
  first_index-found, IsFirst, ==_refl, ==_ne, lt→ltb, le→ltb, eq_of_some,
}
use advanced_os.Base.Options.{◌>>=◌}
use advanced_os.Console.{Console, change_terminal}

abbrev pub key_ctrl : ℕ
key_ctrl = 0x1D

abbrev pub key_f1 : ℕ
key_f1 = 0x3B

abbrev pub key_f2 : ℕ
key_f2 = 0x3C

abbrev pub key_f3 : ℕ
key_f3 = 0x3D

-- `asccode`: the characters of a key without and with shift.
abbrev pub asccode : List (ℕ × ℕ)
asccode =
    (0, 0)
    ∷ (27, 27)
    ∷ (49, 33)
    ∷ (50, 64)
    ∷ (51, 35)
    ∷ (52, 36)
    ∷ (53, 37)
    ∷ (54, 94)
    ∷ (55, 38)
    ∷ (56, 42)
    ∷ (57, 40)
    ∷ (48, 41)
    ∷ (45, 95)
    ∷ (61, 43)
    ∷ (8, 8)
    ∷ (9, 9)
    ∷ (113, 81)
    ∷ (119, 87)
    ∷ (101, 69)
    ∷ (114, 82)
    ∷ (116, 84)
    ∷ (121, 89)
    ∷ (117, 85)
    ∷ (105, 73)
    ∷ (111, 79)
    ∷ (112, 80)
    ∷ (91, 123)
    ∷ (93, 125)
    ∷ (10, 10)
    ∷ (0, 0)
    ∷ (97, 65)
    ∷ (115, 83)
    ∷ (100, 68)
    ∷ (102, 70)
    ∷ (103, 71)
    ∷ (104, 72)
    ∷ (106, 74)
    ∷ (107, 75)
    ∷ (108, 76)
    ∷ (59, 58)
    ∷ (39, 34)
    ∷ (96, 126)
    ∷ (0, 0)
    ∷ (92, 124)
    ∷ (122, 90)
    ∷ (120, 88)
    ∷ (99, 67)
    ∷ (118, 86)
    ∷ (98, 66)
    ∷ (110, 78)
    ∷ (109, 77)
    ∷ (44, 60)
    ∷ (46, 62)
    ∷ (47, 63)
    ∷ (0, 0)
    ∷ (0, 0)
    ∷ (0, 0)
    ∷ (32, 32)
    ∷ []

-- `kb_char` and `__ctrl`, with the terminals that the handler switches, and the writes to port 0x20.
pub record Keyboard : Type 0 where
  pub kb_char : ℕ
  pub ctrl : Bool
  pub console : Console
  pub eois : ℕ

abbrev pub switch_terminal : (proc : Option ℕ) → ℕ → Keyboard → Keyboard
switch_terminal proc n kb = record kb { console = change_terminal proc n kb.console }

-- `kb_char = asccode[scancode][0]`; `none` when the index is outside of the table.
unfoldable pub set_char : Option (ℕ × ℕ) → Keyboard → Option Keyboard
set_char none kb = none
set_char (some (plain, shifted)) kb = some (record kb { kb_char = plain })

-- A key that is pressed.
unfoldable pub press : (proc : Option ℕ) (scancode : ℕ) → Keyboard → Option Keyboard
press proc scancode kb =
    if scancode == key_ctrl
    then some (record kb { ctrl = true })
    else if kb.ctrl && (scancode == key_f1)
    then some (switch_terminal proc 0 kb)
    else if kb.ctrl && (scancode == key_f2)
    then some (switch_terminal proc 1 kb)
    else if kb.ctrl && (scancode == key_f3)
    then some (switch_terminal proc 2 kb)
    else set_char (get_elem? asccode scancode) kb

-- A key that is let go.
unfoldable pub release : (scancode : ℕ) → Keyboard → Keyboard
release scancode kb = if scancode - 0x80 == key_ctrl then record kb { ctrl = false } else kb

-- `keyboard_handler_main`, for the values of the status and the data port; `none` when it reads
-- outside of `asccode`. The test `scancode < 0` of an `unsigned char` never holds.
unfoldable pub keyboard_handler_main :
    (proc : Option ℕ) (status scancode : ℕ) → Keyboard → Option Keyboard
keyboard_handler_main proc status scancode kb =
    let kb' = record kb { eois = kb.eois + 1 } in
    if bit_and status 1 == 0
    then some kb'
    else if bit_and scancode 0x80 == 0
    then press proc scancode kb'
    else some (release scancode kb')

-- The keyboard interrupts, with the values of the two ports.
unfoldable pub handle_all : (proc : Option ℕ) → List (ℕ × ℕ) → Keyboard → Option Keyboard
handle_all proc [] kb = some kb
handle_all proc ((status, scancode) ∷ l) kb =
    keyboard_handler_main proc status scancode kb >>= handle_all proc l

-- The loop of `getchar`: before each read of `kb_char` come the interrupts of one element of the
-- list; `none` when the list ends before a character has come.
unfoldable pub await_char :
    (proc : Option ℕ) → List (List (ℕ × ℕ)) → Keyboard → Option (ℕ × Keyboard)
await_char proc [] kb = none
await_char proc (l ∷ ls) kb = do
  kb' ← handle_all proc l kb
  let rest = await_char proc ls kb'
  if kb'.kb_char == 0 then rest else some (kb'.kb_char, record kb' { kb_char = 0 })

-- `getchar`.
unfoldable pub getchar : (proc : Option ℕ) → List (List (ℕ × ℕ)) → Keyboard → Option (ℕ × Keyboard)
getchar proc events kb = await_char proc events (record kb { kb_char = 0 })
