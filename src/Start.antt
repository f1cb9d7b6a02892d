-- ===== src/Start.antt =====
-- The kernel's start, kernel.c: `initialize`, and `main` up to the shell's loop.
use advanced_os.Base.{ℕ, true, Option, some, codes}
use advanced_os.Base.Options.{◌>>=◌}
use advanced_os.Console.{Console, clear_screen}
use advanced_os.Format.{put_info}
use advanced_os.Hal.{Handler, Hardware, hal_initialize}
use advanced_os.Task.State.{Kernel}
use advanced_os.Task.Table.{proc_init}
use advanced_os.Sem.{sem_init}
use advanced_os.Fat.Volume.{Layout, fat12_init}
use advanced_os.Sysfile.{Files, file_init}
use advanced_os.Terminal.{terminal_init}

-- All of the globals. The console is the volume's; the memory the volume's too.
pub record Os : Type 0 where
  pub hardware : Hardware
  pub kernel : Kernel
  pub files : Files

-- Where the linker puts what the start needs.
pub record Addresses : Type 0 where
  pub handler : Handler → ℕ
  pub tss_addr : ℕ
  pub tss_size : ℕ
  pub idt_address : ℕ
  pub layout : Layout
  pub file_list : ℕ

-- The volume and the files behind the messages of `initialize`.
unfoldable pub init_volume : Addresses → Console → Files → Option Files
init_volume a c s = do
  let sem_text = put_info (codes "Initialized semaphore") (put_info (codes "Initialized process") c)
  v ← fat12_init a.layout (record s.volume { console = sem_text })
  let fat = record v { console = put_info (codes "Initialized fat12") v.console }
  let files = file_init a.file_list (record s { volume = fat })
  let done = put_info (codes "Initialized VFS") files.volume.console
  some (record files { volume = record files.volume { console = record done { enabled = true } } })

-- `initialize`.
unfoldable pub initialize : Addresses → Os → Option Os
initialize a os = do
  h ← hal_initialize a.handler a.tss_addr a.tss_size a.idt_address os.hardware
  files ← init_volume a h.console os.files
  some (record {
    hardware = h;
    kernel = record (sem_init (proc_init os.kernel)) { enabled = true };
    files = files;
  })

-- `main` before `terminal_loop`.
unfoldable pub main : Addresses → Os → Option Os
main a os = do
  ready ← initialize a os
  let v = ready.files.volume
  c ← terminal_init (clear_screen v.console)
  some (record ready { files = record ready.files { volume = record v { console = c } } })
