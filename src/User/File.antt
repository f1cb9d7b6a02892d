-- ===== src/User/File.antt =====
-- usr/file.c: a message goes to a file and back. The names and the two buffers of `main` are
-- addresses; `regs` are the other registers at its calls, which do not matter. Of what `main` prints
-- the text that was read is kept.
pub mod Moves
pub mod Testmsg
use advanced_os.Base.{
  ℕ, zero, suc, ◌+◌, ◌-◌, ◌*◌, ◌/◌, ◌%◌, ◌^◌, ◌≤◌, ◌<◌, min, bit_and, bit_or, ◌≡◌, refl, sym, ap,
  ◌∙◌, fun_ext, ◌≢◌, ◌↔◌, ◌⊎◌, inl, inr, Bool, true, false, ◌&&◌, ◌||◌, not, Option, none, some,
  List, [], ◌∷◌, ◌++◌, map, reverse, append_assoc, append-nil, subst, arith, dec_lt, ℕ_discrete,
  ltb, leb, ◌==◌, if◌then◌else◌, Bool-cases, Option-cases, length, get_elem?, get_or, take, drop,
  All, codes, update, update_self, update_ne, first_index, first_index-some, first_index-none,
  first_index-found, IsFirst, ==_refl, ==_ne, lt→ltb, le→ltb, eq_of_some,
}
use advanced_os.Memory.{u32}
use advanced_os.Base.Options.{◌>>=◌}
use advanced_os.Task.State.{Regs}
use advanced_os.Fat.Entry.{string_in}
use advanced_os.Fat.Volume.{Layout}
use advanced_os.Cstr.{strlen}
use advanced_os.Sysfile.{Files, set_mem}
use advanced_os.User.Api.{fopen, fclose, fgets, fputs}

module _ (l : Layout) (base fuel : ℕ) (regs : Regs) where
  -- `strlen` of the string at an address.
  abbrev pub length_at : (a : ℕ) → Files → ℕ
  length_at a s = strlen (string_in s.volume.mem fuel a)

  -- `if (strlen(dataToBeWritten) > 0) fputs(dataToBeWritten, fp);`
  unfoldable pub write_text : (written fp : ℕ) → Files → Option Files
  write_text written fp s =
      if ltb 0 (length_at written s)
      then (fputs l base fuel regs written fp s >>= λ r. some r.1)
      else some s

  -- The `fgets`, the NUL behind the text, and the text.
  unfoldable pub read_text : (written read fp : ℕ) → Files → Option (List ℕ × Files)
  read_text written read fp s = do
    (_, s') ← fgets l base fuel regs read (length_at written s) fp s
    let t = set_mem (update s'.volume.mem (u32 (read + length_at written s')) 0) s'
    some (string_in t.volume.mem fuel read, t)

  -- The `else` of `main`.
  unfoldable pub use_file : (written read fp : ℕ) → Files → Option (List ℕ × Files)
  use_file written read fp s = do
    s1 ← write_text written fp s
    (shown, s2) ← read_text written read fp s1
    (_, s3) ← fclose l base fuel regs fp s2
    some (shown, s3)

  -- `main`; without a file nothing is shown.
  unfoldable pub main : (pname mode written read : ℕ) → Files → Option (Option (List ℕ) × Files)
  main pname mode written read s = do
    (fp, s1) ← fopen l base fuel regs pname mode s
    let used = use_file written read fp s1 >>= λ r. some (some r.0, r.1)
    if fp == 0 then some (none, s1) else used
