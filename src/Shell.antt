-- ===== src/Shell.antt =====
-- The shell, `terminal_loop` of include/terminal.h: its rounds, for what is typed.
-- `none` stands for what the callees give `none` for, and for a command that needs an argument and
-- has none.
use advanced_os.Base.{
  ℕ, Bool, false, Option, none, some, List, [], ◌∷◌, if◌then◌else◌, codes, first_index,
}
use advanced_os.Base.Options.{◌>>=◌}
use advanced_os.Cstr.{strcpy, strlen, strsep}
use advanced_os.Console.{Console, print, clear_screen}
use advanced_os.Format.{printf, int, getline}
use advanced_os.Ide.Show.{read_disk_test}
use advanced_os.Fat.Volume.{
  Layout, Volume, fat12_cd, fat12_rm, fat12_cp, fat12_create_file, fat12_read_file, is_free,
}
use advanced_os.Fat.Listing.{fat12_ls}
use advanced_os.Task.Switch.{schedule_proc}
use advanced_os.Fat.Entry.{fat_num_root_entry}
use advanced_os.Exec.{left_for, Machine, is_text, Started, exec_user_prg}
use advanced_os.Terminal.{help_info, command_not_found, put_prompt}

-- How a round ends: at the prompt again, outside of the loop, or in `exec_user_prg`.
pub data Round : Type 0 where
  again : Machine → Round
  leaves : Machine → Round
  starts : Started → Round

abbrev pub set_console : Console → Machine → Machine
set_console c s = record s { volume = record s.volume { console = c } }

abbrev pub set_volume : Volume → Machine → Machine
set_volume v s = record s { volume = v }

-- `fat12_cp` to the destination NULL, which is read when the root directory has a free entry.
unfoldable pub copy_to_null : Layout → (fuel buf : ℕ) (src : List ℕ) → Volume → Option Volume
copy_to_null l fuel buf src v = do
  (size, w) ← fat12_read_file l fuel src buf v
  elim size [
    | none ↦ some w
    | some n ↦ elim (first_index (is_free w.mem l.root_dir) fat_num_root_entry 0) [
      | none ↦ fat12_create_file l buf n [] w
      | some _ ↦ none
    ]
  ]

-- `cp`: the source, and the destination behind the next space, NULL without one.
unfoldable pub copy_command : Layout → (fuel buf : ℕ) (rest : List ℕ) → Volume → Option Volume
copy_command l fuel buf rest v =
    let (src, left) = strsep rest (codes " ") in
    elim left [
      | none ↦ copy_to_null l fuel buf src v
      | some dst ↦ do (_, w) ← fat12_cp l fuel buf src dst v; some w
    ]

-- `read`, for what is typed then.
unfoldable pub read_command : (keys : List ℕ) → Volume → Option Volume
read_command keys v = do
  (m, c) ← read_disk_test v.disk keys v.mem v.console
  some (record v { mem = m; console = c })

-- `write`: the file that it creates from `buf`.
unfoldable pub write_command : Layout → (buf : ℕ) → Volume → Option Volume
write_command l buf v =
    fat12_create_file l buf (strlen (strcpy (codes "This is a test message!"))) (codes "test.txt") v

-- The commands that work on the volume, for the word `str` and what stands behind its space;
-- `none` for another word.
unfoldable pub volume_command :
    Layout
    → (fuel buf : ℕ) (keys str : List ℕ) (rest : Option (List ℕ)) → Volume
    → Option (Option Volume)
volume_command l fuel buf keys str rest v =
    if is_text str "ls"
    then some (fat12_ls l fuel v)
    else if is_text str "cd"
    then some (do folder ← rest; (_, w) ← fat12_cd l fuel folder v; some w)
    else if is_text str "rm"
    then some (do name ← rest; (_, w) ← fat12_rm l fuel name v; some w)
    else if is_text str "write"
    then some (write_command l buf v)
    else if is_text str "cp"
    then some (do names ← rest; copy_command l fuel buf names v)
    else if is_text str "read"
    then some (read_command keys v)
    else none

-- `exec_user_prg` of NULL has no program to start.
unfoldable pub exec_command :
    Layout → (fuel img : ℕ) (names : Option (List ℕ)) → Machine → Option Started
exec_command l fuel img none s =
    some
      (left_for (schedule_proc (record s.kernel { enabled = false; mem = s.volume.mem })) s.volume)
exec_command l fuel img (some names) s = exec_user_prg l fuel img names s

-- The tests of a round, in their order up to those that exclude each other; `img` is the address of
-- `bin_img`, `buf` that of a local buffer.
unfoldable pub run_command :
    Layout → (fuel img buf : ℕ) (keys line : List ℕ) → Machine → Option Round
run_command l fuel img buf keys line s =
    let (str, rest) = strsep line (codes " ") in
    let c = s.volume.console in
    if is_text str "help"
    then some (again (set_console (print help_info c) s))
    else if is_text str "exit"
    then some (leaves s)
    else if is_text str "clr"
    then some (again (set_console (clear_screen c) s))
    else if is_text str "tick"
    then (do
      c' ← printf (codes "%d\n") (int s.kernel.pit_ticks ∷ []) c
      some (again (set_console c' s)))
    else if is_text str "exec"
    then (do started ← exec_command l fuel img rest s; some (starts started))
    else elim (volume_command l fuel buf keys str rest s.volume) [
      | none ↦ do c' ← command_not_found str c; some (again (set_console c' s))
      | some done ↦ do v ← done; some (again (set_volume v s))
    ]

-- What follows a round.
abbrev pub next_round : (Machine → Option Round) → Round → Option Round
next_round loop (again s) = loop s
next_round loop (leaves s) = some (leaves s)
next_round loop (starts st) = some (starts st)

-- `terminal_loop`, for what is typed in each round: the line, and what `read` waits for. With
-- nothing more typed it stays in `getline`.
unfoldable pub terminal_loop :
    Layout → (fuel img buf : ℕ) (flag : Bool) → List (List ℕ × List ℕ) → Machine → Option Round
terminal_loop l fuel img buf flag [] s = some (again s)
terminal_loop l fuel img buf flag ((typed, keys) ∷ rounds) s = do
  c ← if flag then some s.volume.console else put_prompt s.volume.console
  entered ← getline typed c
  r ← run_command l fuel img buf keys entered.line (set_console entered.screen s)
  next_round (terminal_loop l fuel img buf false rounds) r
