-- ===== src/Examples/Texts.antt =====
-- The theorems on formatted texts, the loader and the interrupt table.
use advanced_os.Base.{
  ℕ, ◌+◌, ◌<◌, ◌≡◌, refl, inl, some, List, [], ◌∷◌, ◌++◌, arith, ◌==◌, if◌then◌else◌, length, codes,
}
use advanced_os.Base.Options.{◌>>=◌}
use advanced_os.Memory.{Mem}
use advanced_os.Memory.Blocks.{Outside}
use advanced_os.Cstr.{itoa}
use advanced_os.Console.{Console, print}
use advanced_os.Examples.Devices.{console_at}
use advanced_os.Format.{int, text, printf, sprintf, read_int, getline}
use advanced_os.Format.Print.{printf-sprintf}
use advanced_os.Format.Digits.{read_int-itoa}
use advanced_os.Format.Lines.{getline-edit}
use advanced_os.Hal.{Handler, page_fault, vectors_init}
use advanced_os.Hal.Vectors.{gate, vectors_init-gate_of}
use advanced_os.Elf.{entry, parse_elf, parse_elf-loads}

printf-sprintf_example :
    printf (codes "%d is %s\n") (int 42 ∷ text (codes "it") ∷ []) (console_at 0) ≡ (
      sprintf (codes "%d is %s\n") (int 42 ∷ text (codes "it") ∷ []) >>= λ t.
      some (print t (console_at 0)))
printf-sprintf_example =
    printf-sprintf (codes "%d is %s\n") (int 42 ∷ text (codes "it") ∷ []) (console_at 0)
      (inl (ground arith))

read_int-itoa_example :
    (s : List ℕ) × (itoa 1234 10 ≡ some s) × (read_int (s ++ codes " b") ≡ (1234, length s))
read_int-itoa_example = read_int-itoa 1234 (codes " b") (omega arith) refl

getline-edit_example :
    (w : Console) × (getline (codes "lx" ++ 8 ∷ codes "s" ++ 10 ∷ codes "cd") (console_at 0)
      ≡ some (record { line = codes "ls"; left = codes "cd"; screen = w }))
getline-edit_example =
    getline-edit (codes "lx" ++ 8 ∷ codes "s") (codes "cd") 10 (console_at 0) (inl refl)
      (ground arith)

-- Each handler at an address of its own would do as well.
abbrev handler_address : Handler → ℕ
handler_address _ = 0x12_3456

vectors_init-gate_of_example :
    vectors_init handler_address 0x7000 (λ _. gate 0 0) 14 ≡ gate 0x8E (handler_address page_fault)
vectors_init-gate_of_example =
    vectors_init-gate_of handler_address 0x7000 (λ _. gate 0 0) 14 (λ h. omega arith) (omega arith)

-- A file with one program header at 52, whose segment is two bytes at 100.
abbrev small_elf : Mem
small_elf a =
    if a == 0x1000
    then 0x7F
    else if a == 0x1001
    then b'E'
    else if a == 0x1002
    then b'L'
    else if a == 0x1003
    then b'F'
    else if a == 0x101C
    then 52
    else if a == 0x102A
    then 32
    else if a == 0x102C
    then 1
    else if a == 0x1038
    then 100
    else if a == 0x1048
    then 2
    else if a == 0x1064
    then 0x90
    else if a == 0x1065
    then 0xC3
    else 0

parse_elf-loads_example :
    (w : Mem) × (parse_elf 0x1000 0x80000 small_elf (console_at 0) ≡ some (entry 0 w))
    × ((j : ℕ) → j < 2 → w (0x80000 + j) ≡ small_elf (0x1064 + j))
    × ((a : ℕ) → Outside 0x80000 2 a → w a ≡ small_elf a)
parse_elf-loads_example =
    parse_elf-loads 0x1000 0x80000 small_elf (console_at 0) refl refl (omega arith) (omega arith)
      (omega arith) (inl (omega arith))
