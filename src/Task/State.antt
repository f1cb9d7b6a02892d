-- ===== src/Task/State.antt =====
-- The data of include/task.h, and the control flow of a handler. A pointer into `proc_list` is the
-- index of the slot, and `NULL` is `none`. Numbers are `uint32_t` bit patterns.
use advanced_os.Base.{ℕ, Bool, true, false, Option, none, some, List, ◌∷◌, update}
use advanced_os.Memory.{Mem}

pub data Status : Type 0 where
  new ready running waiting terminated : Status

abbrev pub is_new : Status → Bool
is_new new = true
is_new _ = false

abbrev pub is_ready : Status → Bool
is_ready ready = true
is_ready _ = false

abbrev pub is_running : Status → Bool
is_running running = true
is_running _ = false

abbrev pub is_waiting : Status → Bool
is_waiting waiting = true
is_waiting _ = false

-- `struct regs`, in its order.
pub record Regs : Type 0 where
  pub gs : ℕ
  pub fs : ℕ
  pub es : ℕ
  pub ds : ℕ
  pub edi : ℕ
  pub esi : ℕ
  pub ebp : ℕ
  pub esp : ℕ
  pub ebx : ℕ
  pub edx : ℕ
  pub ecx : ℕ
  pub eax : ℕ
  pub eip : ℕ
  pub cs : ℕ
  pub eflags : ℕ
  pub user_esp : ℕ
  pub ss : ℕ

-- `struct process`.
pub record Process : Type 0 where
  pub reg_img : Regs
  pub pid : ℕ
  pub parent : Option ℕ
  pub next : Option ℕ
  pub priority : ℕ
  pub status : Status
  pub tick : ℕ
  pub terminal : ℕ

abbrev pub max_process : ℕ
max_process = 20

abbrev pub max_tick : ℕ
max_tick = 1

abbrev pub proc_size : ℕ
proc_size = 0x10000

abbrev pub prior_user : ℕ
prior_user = 1

-- What the handlers read of the processor (`mov eax, esp` and `pushf`), and the addresses of the
-- two return stubs.
pub record Cpu : Type 0 where
  pub esp : ℕ
  pub eflags : ℕ
  pub user_process_return : ℕ
  pub user_pthread_return : ℕ

-- What a handler does to the devices, the last action first.
pub data Action : Type 0 where
  port_out : ℕ → ℕ → Action
  clear_screen : Action
  print_logo : Action
  put_info : Action

-- `struct tss_entry`, the two fields that a switch sets.
pub record Tss : Type 0 where
  pub ss0 : ℕ
  pub esp0 : ℕ

-- `struct Semaphore` of include/semaphore.h. `val` is an `int` as its bit pattern.
pub record Semaphore : Type 0 where
  pub val : ℕ
  pub used : Bool
  pub head : Option ℕ

abbrev pub n_semaphore : ℕ
n_semaphore = 100

-- The globals of the kernel that processes depend on. `enabled` is the interrupt flag.
pub record Kernel : Type 0 where
  pub proc_list : ℕ → Process
  pub curr_proc : Option ℕ
  pub curr_pid : ℕ
  pub sem_list : ℕ → Semaphore
  pub mem : Mem
  pub enabled : Bool
  pub pit_ticks : ℕ
  pub tss : Tss
  pub curr_terminal : ℕ
  pub tmp_terminal : ℕ
  pub cpu : Cpu
  pub actions : List Action

-- How a piece of kernel code ends: it returns to its caller; or `restart_proc` loads registers and
-- leaves the kernel for a process, so that nothing after the call runs; or it enters the shell's
-- loop for good; or it dereferences `NULL`.
pub data Run (A : Type 0) : Type 0 where
  returns : A → Kernel → Run A
  resumes : Regs → Kernel → Run A
  enters_shell : Kernel → Run A
  fault : Run A

abbrev pub M : Type 0 → Type 0
M A = Kernel → Run A

abbrev pub pure : {A : Type 0} → A → M A
pure = returns

module _ {A B : Type 0} where
  abbrev pub and_then : Run A → (A → M B) → Run B
  and_then (returns a k) f = f a k
  and_then (resumes r k) f = resumes r k
  and_then (enters_shell k) f = enters_shell k
  and_then fault f = fault

  infixl 5 ◌>>=◌ ◌>>◌
  abbrev pub ◌>>=◌ : M A → (A → M B) → M B
  m >>= f = λ k. and_then (m k) f

  abbrev pub ◌>>◌ : M A → M B → M B
  m >> n = m >>= λ _. n

abbrev pub modify : (Kernel → Kernel) → M (Unit {0})
modify f k = returns tt (f k)

abbrev pub get : M Kernel
get k = returns k k

-- `cli` and `sti`.
abbrev pub disable : M (Unit {0})
disable k = returns tt (record k { enabled = false })

abbrev pub enable : M (Unit {0})
enable k = returns tt (record k { enabled = true })

-- A read through a process pointer.
abbrev pub deref : Option ℕ → M ℕ
deref none k = fault
deref (some i) k = returns i k

-- `proc_list[i] = p`.
abbrev pub put_proc : ℕ → Process → Kernel → Kernel
put_proc i p k = record k { proc_list = update k.proc_list i p }

-- `proc_list[i].status = s`.
abbrev pub set_status : ℕ → Status → Kernel → Kernel
set_status i s k = put_proc i (record (k.proc_list i) { status = s }) k

abbrev pub act : Action → Kernel → Kernel
act a k = record k { actions = a ∷ k.actions }
