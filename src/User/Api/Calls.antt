-- ===== src/User/Api/Calls.antt =====
-- What a call of `fork` in include/api.h does, from the interrupt to its result.
use advanced_os.Base.{ℕ, false}
use advanced_os.Task.State.{put_proc, Regs, Kernel}
use advanced_os.Task.Switch.{saved_regs, save_proc}

-- The registers that the entry of the interrupt saves.
abbrev pub fork_image : Regs → Regs
fork_image r = saved_regs (record r { eax = 10 })

-- The kernel in which `do_fork` begins.
abbrev entered : Regs → Kernel → Kernel
entered r k = save_proc (record r { eax = 10 }) (record k { enabled = false })

abbrev saved : Regs → (c : ℕ) → Kernel → Kernel
saved r c k =
    put_proc c (record (k.proc_list c) { reg_img = fork_image r }) (record k { enabled = false })
