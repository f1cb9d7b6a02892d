-- ===== src/User/Api.antt =====
-- The stubs that user programs call, include/api.h, include/pthread.h and include/file.h: each puts
-- a number and its arguments into registers and raises an interrupt. The registers are those at the
-- `int` instruction, which the entry of the interrupt saves; what eax holds behind it is the result.
pub mod Calls
use advanced_os.Base.{
  ℕ, zero, suc, ◌+◌, ◌-◌, ◌*◌, ◌/◌, ◌%◌, ◌^◌, ◌≤◌, ◌<◌, min, bit_and, bit_or, ◌≡◌, refl, sym, ap,
  ◌∙◌, fun_ext, ◌≢◌, ◌↔◌, ◌⊎◌, inl, inr, Bool, true, false, ◌&&◌, ◌||◌, not, Option, none, some,
  List, [], ◌∷◌, ◌++◌, map, reverse, append_assoc, append-nil, subst, arith, dec_lt, ℕ_discrete,
  ltb, leb, ◌==◌, if◌then◌else◌, Bool-cases, Option-cases, length, get_elem?, get_or, take, drop,
  All, codes, update, update_self, update_ne, first_index, first_index-some, first_index-none,
  first_index-found, IsFirst, ==_refl, ==_ne, lt→ltb, le→ltb, eq_of_some,
}
use advanced_os.Task.State.{Regs, M, pure, ◌>>=◌, ◌>>◌}
use advanced_os.Syscall.{sys_interrupt_handler}
use advanced_os.Thread.{sys_pthread_handler}
use advanced_os.Fat.Volume.{Layout}
use advanced_os.Sysfile.{Files, sys_file_handler_main}

-- `int 0x80`, by what eax and ebx hold.
abbrev pub int_0x80 : Regs → M ℕ
int_0x80 r = sys_interrupt_handler r r.eax r.ebx

-- `int 0x81`. `nested` are the registers at the call of interrupt 0x80 that `do_thread_exit` makes.
abbrev pub int_0x81 : (nested r : Regs) → M ℕ
int_0x81 nested r = sys_pthread_handler r nested r.eax r.ebx r.ecx r.edx

-- `int 0x82`.
abbrev pub int_0x82 : Layout → (base fuel : ℕ) → Regs → Files → Option (ℕ × Files)
int_0x82 l base fuel r = sys_file_handler_main l base fuel r.eax r.ebx r.esi r.edx r.edi

-- The result is not used.
abbrev pub no_result : M ℕ → M (Unit {0})
no_result m = m >> pure tt

-- include/api.h.
unfoldable pub fork : Regs → M ℕ
fork r = int_0x80 (record r { eax = 10 })

unfoldable pub wait : Regs → M (Unit {0})
wait r = no_result (int_0x80 (record r { eax = 11 }))

unfoldable pub exit : Regs → M (Unit {0})
exit r = no_result (int_0x80 (record r { eax = 12 }))

unfoldable pub get_pid : Regs → M ℕ
get_pid r = int_0x80 (record r { eax = 13 })

unfoldable pub get_sem : Regs → (val : ℕ) → M ℕ
get_sem r val = int_0x80 (record r { eax = 20; ebx = val })

unfoldable pub sem_wait : Regs → (sem_id : ℕ) → M (Unit {0})
sem_wait r sem_id = no_result (int_0x80 (record r { eax = 21; ebx = sem_id }))

unfoldable pub sem_signal : Regs → (sem_id : ℕ) → M (Unit {0})
sem_signal r sem_id = no_result (int_0x80 (record r { eax = 22; ebx = sem_id }))

unfoldable pub free_sem : Regs → (sem_id : ℕ) → M (Unit {0})
free_sem r sem_id = no_result (int_0x80 (record r { eax = 23; ebx = sem_id }))

-- include/pthread.h. `pthread_self` and `pthread_exit` leave the other registers as they are.
unfoldable pub pthread_create : (nested r : Regs) (tid func args : ℕ) → M ℕ
pthread_create nested r tid func args =
    int_0x81 nested (record r { eax = 0; ebx = tid; ecx = func; edx = args })

unfoldable pub pthread_join : (nested r : Regs) (tid ret : ℕ) → M (Unit {0})
pthread_join nested r tid ret =
    no_result (int_0x81 nested (record r { eax = 1; ebx = tid; ecx = ret }))

unfoldable pub pthread_self : (nested r : Regs) → M ℕ
pthread_self nested r = int_0x81 nested (record r { eax = 2 })

unfoldable pub pthread_exit : (nested r : Regs) → M (Unit {0})
pthread_exit nested r = no_result (int_0x81 nested (record r { eax = 3 }))

-- include/file.h. Strings, buffers and files are addresses.
module _ (l : Layout) (base fuel : ℕ) (r : Regs) where
  unfoldable pub fopen : (pname mode : ℕ) → Files → Option (ℕ × Files)
  fopen pname mode = int_0x82 l base fuel (record r { eax = 0; ebx = pname; esi = mode })

  unfoldable pub fclose : (fp : ℕ) → Files → Option (ℕ × Files)
  fclose fp = int_0x82 l base fuel (record r { eax = 1; ebx = fp })

  unfoldable pub fread : (buf size count fp : ℕ) → Files → Option (ℕ × Files)
  fread buf size count fp =
      int_0x82 l base fuel (record r { eax = 2; edi = fp; ebx = buf; esi = size; edx = count })

  unfoldable pub fwrite : (buf size count fp : ℕ) → Files → Option (ℕ × Files)
  fwrite buf size count fp =
      int_0x82 l base fuel (record r { eax = 3; edi = fp; ebx = buf; esi = size; edx = count })

  unfoldable pub fgets : (str count stream : ℕ) → Files → Option (ℕ × Files)
  fgets str count stream =
      int_0x82 l base fuel (record r { eax = 4; ebx = str; esi = count; edx = stream })

  unfoldable pub fputs : (str stream : ℕ) → Files → Option (ℕ × Files)
  fputs str stream = int_0x82 l base fuel (record r { eax = 5; ebx = str; esi = stream })
