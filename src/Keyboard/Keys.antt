-- ===== src/Keyboard/Keys.antt =====
-- The keys that the table of include/scancode.h covers, and the keys that are let go.
use advanced_os.Base.{
  ℕ, zero, suc, ◌+◌, ◌-◌, ◌%◌, ◌≤◌, ◌<◌, bit_and, ◌≡◌, refl, ◌∙◌, ◌⊎◌, inl, inr, Bool, true, false,
  Option, some, List, [], ◌∷◌, arith, ◌==◌, if◌then◌else◌, Bool-cases, length, get_elem?, ==_ne,
}
use advanced_os.Base.Bits.{bit_and-0x80, mask_one}
use advanced_os.Keyboard.{
  Keyboard, asccode, set_char, press, release, keyboard_handler_main, key_ctrl,
}

pub get_elem?-some :
    {A : Type 0} (xs : List A) (i : ℕ) → i < length xs → (x : A) × (get_elem? xs i ≡ some x)
get_elem?-some [] i h = absurd (omega arith)
get_elem?-some (x ∷ xs) zero h = (x, refl)
get_elem?-some (x ∷ xs) (suc i) h = get_elem?-some xs i (omega arith)

-- What a scancode makes of `__ctrl`.
abbrev pub ctrl_after : Bool → ℕ → Bool
ctrl_after ctrl s = if s == 0x1D then true else if s == 0x9D then false else ctrl

pub covered_run :
    (proc : Option ℕ) (s : ℕ) (kb : Keyboard) (plain shifted : ℕ)
    → (s == key_ctrl) ≡ false
    → s < 58
    → get_elem? asccode s ≡ some (plain, shifted)
    → press proc s kb ≡ some (record kb { kb_char = plain })
unfolding press set_char
covered_run proc s kb plain shifted c h e = elim (Bool-cases kb.ctrl) [
  | inl on ↦
      rw (c, on, ==_ne s 59 (omega arith), ==_ne s 60 (omega arith), ==_ne s 61 (omega arith), e)
        refl
  | inr off ↦ rw (c, off, e) refl
]

press-covered :
    (proc : Option ℕ) (s : ℕ) (kb : Keyboard)
    → s < 58
    → (kb' : Keyboard) × (press proc s kb ≡ some kb')
      × (kb'.ctrl ≡ ctrl_after kb.ctrl s)
      × (kb'.eois ≡ kb.eois)
      × (kb'.console ≡ kb.console)
unfolding press
press-covered proc s kb h =
    let ((plain, shifted), e) = get_elem?-some asccode s h in
    elim (Bool-cases (s == key_ctrl)) [
      | inl c ↦ (record kb { ctrl = true }, rw c refl, rw c refl, refl, refl)
      | inr c ↦ (
        record kb { kb_char = plain },
        covered_run proc s kb plain shifted c h e,
        ground arith,
        refl,
        refl,
      )
    ]

release-ctrl :
    (s : ℕ) (kb : Keyboard)
    → 128 ≤ s
    → ((release s kb).ctrl ≡ ctrl_after kb.ctrl s)
      × ((release s kb).eois ≡ kb.eois)
      × ((release s kb).console ≡ kb.console)
unfolding release
release-ctrl s kb h = elim (Bool-cases (s - 0x80 == key_ctrl)) [
  | inl c ↦ rw c (ground arith, refl, refl)
  | inr c ↦ rw c (ground arith, refl, refl)
]

-- With a byte in the buffer, a key of the table (scancode below 58) or a key let go (128 and above)
-- is handled without a read outside the table: the interrupt is acknowledged once, `__ctrl` says
-- whether Ctrl is held, and no terminal is switched.
pub keyboard_handler_main-covered :
    (proc : Option ℕ) (status s : ℕ) (kb : Keyboard)
    → status % 2 ≡ 1
    → (s < 58) ⊎ ((128 ≤ s) × (s < 256))
    → (kb' : Keyboard) × (keyboard_handler_main proc status s kb ≡ some kb')
      × (kb'.ctrl ≡ ctrl_after kb.ctrl s)
      × (kb'.eois ≡ kb.eois + 1)
      × (kb'.console ≡ kb.console)
unfolding keyboard_handler_main
keyboard_handler_main-covered proc status s kb odd (inl h) =
    let (kb', run, ctrl, eois, console) =
      press-covered proc s (record kb { eois = kb.eois + 1 }) h in
    let low : bit_and s 0x80 ≡ 0 = bit_and-0x80 s ∙ omega arith in
    (kb', rw (mask_one status, odd, low) run, ctrl, eois, console)
keyboard_handler_main-covered proc status s kb odd (inr (h, h')) =
    let kb1 : Keyboard = record kb { eois = kb.eois + 1 } in
    let (ctrl, eois, console) = release-ctrl s kb1 h in
    let high : bit_and s 0x80 ≡ 128 = bit_and-0x80 s ∙ omega arith in
    (release s kb1, rw (mask_one status, odd, high) refl, ctrl, eois, console)
