-- ===== src/Keyboard/Typing.antt =====
-- What `getchar` of include/keyboard.h gives for the keys that are hit while it waits.
use advanced_os.Base.{
  ℕ, zero, suc, ◌+◌, ◌≤◌, ◌<◌, bit_and, ◌≡◌, refl, sym, ap, ◌∙◌, ◌⊎◌, inl, inr, true, false, ◌||◌,
  Option, none, some, List, [], ◌∷◌, map, arith, leb, ◌==◌, if◌then◌else◌, Bool-cases, get_elem?,
  get_or, All, eq_of_some,
}
use advanced_os.Base.Options.{◌>>=◌}
use advanced_os.Base.Bits.{bit_and-0x80}
use advanced_os.Keyboard.{
  Keyboard, asccode, press, release, keyboard_handler_main, key_ctrl, handle_all, await_char,
  getchar,
}
use advanced_os.Keyboard.Keys.{get_elem?-some, covered_run}

-- A key of the table, or a key that is let go.
abbrev pub IsKey : ℕ → Type 0
IsKey s = (s < 58) ⊎ ((128 ≤ s) × (s < 256))

-- The character of a key, 0 for none: Ctrl, a key without a character, or a key that is let go.
abbrev pub plain_of : ℕ → ℕ
plain_of s = if (s == 0x1D) || leb 58 s then 0 else (get_or asccode s (0, 0)).0

-- The first character of a sequence of keys.
abbrev pub first_char : List ℕ → Option ℕ
first_char [] = none
first_char (s ∷ l) = if plain_of s == 0 then first_char l else some (plain_of s)

get_or-get_elem? :
    {A : Type 0} (xs : List A) (i : ℕ) (d x : A) → get_elem? xs i ≡ some x → get_or xs i d ≡ x
get_or-get_elem? [] i d x e = absurd (cc)
get_or-get_elem? (y ∷ xs) zero d x e = eq_of_some e
get_or-get_elem? (y ∷ xs) (suc i) d x e = get_or-get_elem? xs i d x e

not_above : (s : ℕ) → s < 58 → leb 58 s ≡ false
not_above s h = ground arith

press-plain :
    (proc : Option ℕ) (s : ℕ) (kb : Keyboard)
    → s < 58
    → kb.kb_char ≡ 0
    → (kb' : Keyboard) × (press proc s kb ≡ some kb') × (kb'.kb_char ≡ plain_of s)
unfolding press
press-plain proc s kb h z =
    let ((plain, shifted), e) = get_elem?-some asccode s h in
    elim (Bool-cases (s == key_ctrl)) [
      | inl c ↦ (record kb { ctrl = true }, rw c refl, rw c z)
      | inr c ↦ (
        record kb { kb_char = plain },
        covered_run proc s kb plain shifted c h e,
        rw (c, not_above s h)
            (sym (ap (λ (p : ℕ × ℕ). p.0) (get_or-get_elem? asccode s (0, 0) (plain, shifted) e))),
      )
    ]

handler-plain :
    (proc : Option ℕ) (s : ℕ) (kb : Keyboard)
    → IsKey s
    → kb.kb_char ≡ 0
    → (kb' : Keyboard) × (handle_all proc ((1, s) ∷ []) kb ≡ some kb') × (kb'.kb_char ≡ plain_of s)
unfolding handle_all keyboard_handler_main release
handler-plain proc s kb (inl h) z =
    let low : bit_and s 0x80 ≡ 0 = bit_and-0x80 s ∙ omega arith in
    let (kb', run, char) = press-plain proc s (record kb { eois = kb.eois + 1 }) h z in
    (kb', rw (low, run) refl, char)
handler-plain proc s kb (inr (h, h')) z =
    let high : bit_and s 0x80 ≡ 128 = bit_and-0x80 s ∙ omega arith in
    (release s (record kb { eois = kb.eois + 1 }), rw high refl, ground arith)

await_char-first :
    (proc : Option ℕ) (l : List ℕ) (kb : Keyboard)
    → All IsKey l
    → kb.kb_char ≡ 0
    → (await_char proc (map (λ s. (1, s) ∷ []) l) kb >>= λ r. some r.0) ≡ first_char l
unfolding await_char
await_char-first proc [] kb a z = refl
await_char-first proc (s ∷ l) kb a z =
    let (kb', run, char) = handler-plain proc s kb a.0 z in
    elim (Bool-cases (plain_of s == 0)) [
      | inl none_yet ↦ rw (run, char, none_yet) (await_char-first proc l kb' a.1 (ground arith))
      | inr hit ↦ rw (run, char, hit) refl
    ]

-- While `getchar` reads `kb_char` once after each interrupt, and the keys are those of the table or
-- keys that are let go, it returns just at the first of them that has a character, with that
-- character: Ctrl, the keys without a character and keys that are let go do not end it, and what
-- `kb_char` held before does not count.
pub getchar-first :
    (proc : Option ℕ) (l : List ℕ) (kb : Keyboard)
    → All IsKey l
    → (getchar proc (map (λ s. (1, s) ∷ []) l) kb >>= λ r. some r.0) ≡ first_char l
unfolding getchar
getchar-first proc l kb a = await_char-first proc l (record kb { kb_char = 0 }) a refl
