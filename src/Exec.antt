-- ===== src/Exec.antt =====
-- Starting user programs, include/user.h. `none` stands for what the callees give `none` for, for a
-- name that does not fit `buf`, for a name without a dot, whose extension is NULL, for a `.com`
-- program of another name, whose address is not set, for a file that `parse_elf` hangs on, and for
-- a full process table.
use advanced_os.Base.{
  ℕ, zero, suc, ◌+◌, ◌*◌, Bool, true, false, Option, none, some, List, [], ◌∷◌, ltb, ◌==◌,
  if◌then◌else◌, length, codes,
}
use Prim.Native.String.{String}
use advanced_os.Base.Options.{◌>>=◌}
use advanced_os.Memory.{u32, memset}
use advanced_os.Cstr.{strcpy, strcmp, strsep}
use advanced_os.Task.State.{Kernel, Run, returns, proc_size}
use advanced_os.Task.Table.{proc_create}
use advanced_os.Task.Switch.{schedule_proc, kernel_ds}
use advanced_os.Format.{put_info, sprintf, int}
use advanced_os.Fat.Volume.{Layout, Volume, fat12_read_file, say_error}
use advanced_os.Elf.{parse_elf, Parsed, entry, hangs}

-- The kernel's processes and the volume. The memory is the volume's.
pub record Machine : Type 0 where
  pub kernel : Kernel
  pub volume : Volume

abbrev pub is_text : (t : List ℕ) → String → Bool
is_text t s = strcmp t (codes s) == 0

-- `ADDR_USER_START` and `KERNEL_STACK_SIZE`.
abbrev pub addr_user_start : ℕ
addr_user_start = 0x20000

abbrev pub kernel_stack_size : ℕ
kernel_stack_size = 2048

-- `sizeof(bin_img)`.
abbrev pub img_size : ℕ
img_size = 15360

-- The addresses of the four `.com` programs.
unfoldable pub com_address : (name : List ℕ) → Option ℕ
com_address name =
    if is_text name "prg1.com"
    then some 0x20000
    else if is_text name "prg2.com"
    then some 0x30000
    else if is_text name "prg3.com"
    then some 0x40000
    else if is_text name "prg4.com"
    then some 0x50000
    else none

abbrev pub no_program : Volume → Option ℕ × Volume
no_program v = (none, say_error "No this user program!" v)

-- A `.com` program.
unfoldable pub load_com : Layout → (fuel : ℕ) (name : List ℕ) → Volume → Option (Option ℕ × Volume)
load_com l fuel name v = do
  addr ← com_address name
  (size, w) ← fat12_read_file l fuel name addr v
  elim size [ none ↦ some (no_program w) | some _ ↦ some (some addr, w) ]

-- The end of `parse_elf`: the address to run at.
unfoldable pub run_at : Parsed → Volume → Option (Option ℕ × Volume)
run_at (entry address m) v = some (some address, record v { mem = m })
run_at (hangs c) v = none

-- An `.out` program.
unfoldable pub load_out :
    Layout → (fuel img : ℕ) (name : List ℕ) → Volume → Option (Option ℕ × Volume)
load_out l fuel img name v = do
  (size, w) ← fat12_read_file l fuel name img v
  elim size [
    | none ↦ some (no_program w)
    | some _ ↦ do
      parsed ← parse_elf img (addr_user_start + 6 * proc_size) w.mem w.console
      run_at parsed w
  ]

-- The tests on the extension.
unfoldable pub load_extension :
    Layout → (fuel img : ℕ) (name ext : List ℕ) → Volume → Option (Option ℕ × Volume)
load_extension l fuel img name ext v =
    if is_text ext "com"
    then load_com l fuel name v
    else if is_text ext "out"
    then load_out l fuel img name v
    else some (no_program v)

-- The part of the loop of `exec_user_prg` that loads a program: the address to run it at, `none`
-- behind the message.
unfoldable pub load_program :
    Layout → (fuel img : ℕ) (name : List ℕ) → Volume → Option (Option ℕ × Volume)
load_program l fuel img name v =
    let ready = record v { mem = memset v.mem img 0 img_size } in
    if ltb 19 (length name)
    then none
    else (do ext ← (strsep (strcpy name) (codes ".")).1; load_extension l fuel img name ext ready)

-- The kernel with the volume's memory, behind `tss_set_stack`.
abbrev pub enter_kernel : Machine → Kernel
enter_kernel s =
    let tss = record s.kernel.tss {
      ss0 = kernel_ds;
      esp0 = u32 (s.kernel.cpu.esp + kernel_stack_size);
    } in
    record s.kernel { tss = tss; mem = s.volume.mem }

-- `Created user process` with its pid.
unfoldable pub announce : (pid : ℕ) → Volume → Option Volume
announce pid v = do
  info ← sprintf (codes "Created user process %d!") (int pid ∷ [])
  some (record v { console = put_info info v.console })

-- What `proc_create` left.
unfoldable pub announce_run : Volume → Run ℕ → Option Machine
announce_run v (returns i k) = do
  w ← announce (k.proc_list i).pid (record v { mem = k.mem })
  some (record { kernel = k; volume = w })
announce_run v _ = none

-- A round of the loop: whether the program was found.
unfoldable pub exec_one :
    Layout → (fuel img : ℕ) (name : List ℕ) → Machine → Option (Bool × Machine)
exec_one l fuel img name s = do
  (addr, v) ← load_program l fuel img name s.volume
  let k = enter_kernel (record s { volume = v })
  elim addr [
    | none ↦ some (false, record { kernel = k; volume = v })
    | some a ↦ do s' ← announce_run v (proc_create 0x1B 0x23 a k); some (true, s')
  ]

-- Whether, and with which names, the loop goes on behind a round.
unfoldable pub go_on :
    (next : List ℕ → Machine → Option (Bool × Machine)) (left : Option (List ℕ))
    → Bool × Machine
    → Option (Bool × Machine)
go_on next left (false, s) = some (false, s)
go_on next none (true, s) = some (true, s)
go_on next (some rest) (true, s) = next rest s

-- The loop over the names, with a unit of fuel for each; it ends at the first program that is not
-- found.
unfoldable pub exec_names :
    Layout → (fuel img rounds : ℕ) (names : List ℕ) → Machine → Option (Bool × Machine)
exec_names l fuel img zero names s = none
exec_names l fuel img (suc n) names s =
    let (name, left) = strsep names (codes " ") in
    exec_one l fuel img name s >>= go_on (exec_names l fuel img n) left

-- How `exec_user_prg` ends: it returns to the shell, or `schedule_proc` leaves for a process.
pub data Started : Type 0 where
  back : Machine → Started
  left_for : Run (Unit {0}) → Volume → Started

-- `exec_user_prg`.
unfoldable pub exec_user_prg : Layout → (fuel img : ℕ) (names : List ℕ) → Machine → Option Started
exec_user_prg l fuel img names s = do
  let off = record s { kernel = record s.kernel { enabled = false } }
  (ok, s') ← exec_names l fuel img (length names + 1) names off
  some (if ok then left_for (schedule_proc s'.kernel) s'.volume else back s')
